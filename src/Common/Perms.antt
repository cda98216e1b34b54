-- ===== src/Common/Perms.antt =====
-- Lists in another order: a sum over a list, a test of all its elements and its length.
use Prim.Native.Nat.{ℕ}
use mathlib.Core.Path.{◌≡◌, refl, ap, ◌∙◌}
use mathlib.Core.Logic.{∥∥₁_elim}
use mathlib.Core.Bool.{Bool, true, false, ◌&&◌}
use mathlib.Core.List.{List, [], ◌∷◌, Perm, Permᴰ}
use native.Mathlib.Nat.{ℕ_set}
use native.Mathlib.Omega.{arith}
use android_system_memory_li.Common.Lists.{sum_by}

-- Every element passes a test.
abbrev pub all_by {ℓ} : {A : Type ℓ} → (A → Bool) → List A → Bool
all_by f [] = true
all_by f (x ∷ xs) = f x && all_by f xs

&&_swap : (a b c : Bool) → (a && (b && c)) ≡ (b && (a && c))
&&_swap true true c = refl
&&_swap true false c = refl
&&_swap false true c = refl
&&_swap false false c = refl

module _ {ℓ} {A : Type ℓ} where
  sum_by-permᴰ : (f : A → ℕ) {xs ys : List A} → Permᴰ xs ys → sum_by f xs ≡ sum_by f ys
  sum_by-permᴰ f Permᴰ.nil = refl
  sum_by-permᴰ f (Permᴰ.cons e p) = omega (arith, ap f e, sum_by-permᴰ f p)
  sum_by-permᴰ f (Permᴰ.swap e e') = omega (arith, ap f e, ap f e')
  sum_by-permᴰ f (Permᴰ.trans p q) = sum_by-permᴰ f p ∙ sum_by-permᴰ f q

  pub sum_by-perm : (f : A → ℕ) {xs ys : List A} → Perm xs ys → sum_by f xs ≡ sum_by f ys
  sum_by-perm f p = ∥∥₁_elim p (ℕ_set _ _) (sum_by-permᴰ f)

  all_by-permᴰ : (f : A → Bool) {xs ys : List A} → Permᴰ xs ys → all_by f xs ≡ all_by f ys
  all_by-permᴰ f Permᴰ.nil = refl
  all_by-permᴰ f (Permᴰ.cons {b = b} {l₁ = l₁} e p) =
      ap (λ x. f x && all_by f l₁) e ∙ ap (λ t. f b && t) (all_by-permᴰ f p)
  all_by-permᴰ f (Permᴰ.swap {b = b} {a' = a'} {b' = b'} {l = l} e e') =
      ap (λ x. f x && (f b && all_by f l)) e
      ∙ (ap (λ x. f b' && (f x && all_by f l)) e' ∙ &&_swap (f b') (f a') (all_by f l))
  all_by-permᴰ f (Permᴰ.trans p q) = all_by-permᴰ f p ∙ all_by-permᴰ f q

  pub all_by-perm : (f : A → Bool) {xs ys : List A} → Perm xs ys → all_by f xs ≡ all_by f ys
  all_by-perm f p = ∥∥₁_elim p (hlevel) (all_by-permᴰ f)
