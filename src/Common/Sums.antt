-- ===== src/Common/Sums.antt =====
-- Sums over those entries of a map whose keys are in a set.
use mathlib.Core.Path.{◌≡◌, ap}
use Prim.Native.Nat.{ℕ, ◌+◌, ◌%◌}
use mathlib.Core.Bool.{Bool, false, true, ◌||◌}
use mathlib.Core.Option.{Option, some}
use mathlib.Core.List.{[], ◌∷◌}
use native.Mathlib.Omega.{arith}
use android_system_memory_li.Common.Tests.{if◌then◌else◌, if_cases, if_both_cases}
use android_system_memory_li.Common.Words.{add64, u64_mod}
use android_system_memory_li.Common.Maps.{Map, emplace_multi, find, update}

abbrev pub total_at {ℓ κ} : {K : Type ℓ} {V : Type κ} → (K → Bool) → (V → ℕ) → Map K V → ℕ
total_at p f [] = 0
total_at p f ((k, v) ∷ d) = (if p k then f v else 0) + total_at p f d

module _ {ℓ κ} {K : Type ℓ} {V : Type κ} (lt : K → K → Bool) (k : K) (p : K → Bool)
    (f : V → ℕ) where
  pub emplace_multi-total_at :
      (v : V) (d : Map K V)
      → total_at p f (emplace_multi lt k v d) ≡ total_at p f d + (if p k then f v else 0)
  emplace_multi-total_at v [] = omega arith
  emplace_multi-total_at v ((j, w) ∷ d) =
      if_cases (λ t. total_at p f t ≡ total_at p f ((j, w) ∷ d) + (if p k then f v else 0)) (lt k j)
        (λ e. omega arith) (λ e. omega (arith, emplace_multi-total_at v d))

  -- The change of the entry under `k`, where keys of which neither is less are the same.
  pub update-total_at :
      (g : V → V) (δ : ℕ) (x : V) (d : Map K V)
      → ((i j : K) → (lt i j || lt j i) ≡ false → i ≡ j)
      → ((v : V) → f (g v) ≡ add64 (f v) δ)
      → find lt k d ≡ some x
      → total_at p f (update lt k g d) % u64_mod ≡ add64 (total_at p f d) (if p k then δ else 0)
  update-total_at g δ x [] connected step = λ found. cc
  update-total_at g δ x ((j, w) ∷ d) connected step =
      if_both_cases
        (λ (o : Option V) (t : Map K V).
          o ≡ some x
          → total_at p f t % u64_mod ≡ add64 (total_at p f ((j, w) ∷ d)) (if p k then δ else 0))
        (lt j k || lt k j) (λ e found. omega (arith, update-total_at g δ x d connected step found))
        (λ e found. changed (ap p (connected j k e)))
    where
      both :
          (b : Bool)
          → ((if b then f (g w) else 0) + total_at p f d) % u64_mod
            ≡ add64 ((if b then f w else 0) + total_at p f d) (if b then δ else 0)
      both true = omega (arith, step w)
      both false = omega arith

      changed :
          p j ≡ p k
          → ((if p j then f (g w) else 0) + total_at p f d) % u64_mod
            ≡ add64 ((if p j then f w else 0) + total_at p f d) (if p k then δ else 0)
      changed same = rw same (both (p k))
