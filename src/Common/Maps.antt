-- ===== src/Common/Maps.antt =====
-- std::map and std::multimap as lists of entries in the order of their keys. Two keys are the same
-- where neither is less than the other.
use Prim.Native.Nat.{ℕ, ◌+◌, ◌%◌}
use mathlib.Core.Path.{◌≡◌, refl, sym, ap, ◌∙◌, subst, subst⁻¹}
use mathlib.Core.Logic.{◌≢◌}
use mathlib.Core.Bool.{Bool, true, false, ◌||◌, true≢false}
use mathlib.Core.Option.{Option, none, some}
use mathlib.Core.List.{List, [], ◌∷◌}
use native.Mathlib.Omega.{arith}
use android_system_memory_li.Common.Tests.{if◌then◌else◌, if_cases, if_both, if_both_cases, is_some}
use android_system_memory_li.Common.Words.{add64, u64_mod}
use android_system_memory_li.Common.Lists.{All}

abbrev pub Map {ℓ κ} : Type ℓ → Type κ → Type (ℓ ⊔ κ)
Map K V = List (K × V)

module _ {ℓ κ} {K : Type ℓ} {V : Type κ} (lt : K → K → Bool) where
  abbrev pub find : K → Map K V → Option V
  find k [] = none
  find k ((j, v) ∷ d) = if lt j k || lt k j then find k d else some v

  -- `map::emplace`: an entry that is there is kept.
  abbrev pub emplace : K → V → Map K V → Map K V
  emplace k v [] = (k, v) ∷ []
  emplace k v ((j, w) ∷ d) =
      if lt k j then (k, v) ∷ (j, w) ∷ d else if lt j k then (j, w) ∷ emplace k v d else (j, w) ∷ d

  -- `multimap::emplace`: behind the entries with the same key.
  abbrev pub emplace_multi : K → V → Map K V → Map K V
  emplace_multi k v [] = (k, v) ∷ []
  emplace_multi k v ((j, w) ∷ d) =
      if lt k j then (k, v) ∷ (j, w) ∷ d else (j, w) ∷ emplace_multi k v d

  -- A change through the iterator that `find` or `emplace` returns.
  abbrev pub update : K → (V → V) → Map K V → Map K V
  update k f [] = []
  update k f ((j, v) ∷ d) = if lt j k || lt k j then (j, v) ∷ update k f d else (j, f v) ∷ d

-- The sum of a measure over the values.
abbrev pub total {ℓ κ} : {K : Type ℓ} {V : Type κ} → (V → ℕ) → Map K V → ℕ
total f [] = 0
total f ((k, v) ∷ d) = f v + total f d

-- Every key stands once.
abbrev pub NoDup {ℓ κ} : {K : Type ℓ} {V : Type κ} → Map K V → Type ℓ
NoDup [] = Unit
NoDup {K = K} {V = V} ((k, v) ∷ d) = All (λ (e : K × V). e.0 ≢ k) d × NoDup d

module _ {ℓ κ} {K : Type ℓ} {V : Type κ} (lt : K → K → Bool) (k : K) where
  pub emplace_multi-total :
      (f : V → ℕ) (v : V) (d : Map K V) → total f (emplace_multi lt k v d) ≡ total f d + f v
  emplace_multi-total f v [] = omega arith
  emplace_multi-total f v ((j, w) ∷ d) =
      if_cases (λ t. total f t ≡ total f ((j, w) ∷ d) + f v) (lt k j) (λ e. omega arith)
        (λ e. omega (arith, emplace_multi-total f v d))

  pub update-total :
      (f : V → ℕ) (g : V → V) (δ : ℕ) (x : V) (d : Map K V)
      → ((v : V) → f (g v) ≡ add64 (f v) δ)
      → find lt k d ≡ some x
      → total f (update lt k g d) % u64_mod ≡ add64 (total f d) δ
  update-total f g δ x [] step = λ found. cc
  update-total f g δ x ((j, w) ∷ d) step =
      if_both_cases
        (λ (o : Option V) (t : Map K V).
          o ≡ some x → total f t % u64_mod ≡ add64 (total f ((j, w) ∷ d)) δ)
        (lt j k || lt k j) (λ e found. omega (arith, update-total f g δ x d step found))
        (λ e found. omega (arith, step w))

  -- An entry that `find` does not find has another key.
  pub find-none :
      (d : Map K V) → lt k k ≡ false → find lt k d ≡ none → All (λ (e : K × V). e.0 ≢ k) d
  find-none [] irrefl = λ h. tt
  find-none ((j, w) ∷ d) irrefl =
      if_cases (λ (o : Option V). o ≡ none → All (λ (e : K × V). e.0 ≢ k) ((j, w) ∷ d))
        (lt j k || lt k j)
        (λ e h. (
          (λ same.
              true≢false (sym e ∙ (ap (λ i. lt i k || lt k i) same ∙ ap (λ b. b || b) irrefl))),
          find-none d irrefl h,
        ))
        (λ e h. cc)

  pub emplace_multi-All {μ} :
      (P : K × V → Type μ) (v : V) (d : Map K V)
      → P (k, v)
      → All P d
      → All P (emplace_multi lt k v d)
  emplace_multi-All P v [] p h = (p, tt)
  emplace_multi-All P v ((j, w) ∷ d) p h =
      if_cases (All P) (lt k j) (λ e. (p, h)) (λ e. (h.0, emplace_multi-All P v d p h.1))

  pub emplace_multi-NoDup :
      (v : V) (d : Map K V)
      → All (λ (e : K × V). e.0 ≢ k) d
      → NoDup d
      → NoDup (emplace_multi lt k v d)
  emplace_multi-NoDup v [] fresh h = (tt, tt)
  emplace_multi-NoDup v ((j, w) ∷ d) fresh h =
      if_cases NoDup (lt k j) (λ e. (fresh, h))
        (λ e. (
          emplace_multi-All (λ (x : K × V). x.0 ≢ j) v d (λ same. fresh.0 (sym same)) h.0,
          emplace_multi-NoDup v d fresh.1 h.1,
        ))

  pub update-All {μ} :
      (P : K × V → Type μ) (g : V → V) (d : Map K V)
      → ((j : K) (v : V) → P (j, v) → P (j, g v))
      → All P d
      → All P (update lt k g d)
  update-All P g [] step h = tt
  update-All P g ((j, w) ∷ d) step h =
      if_cases (All P) (lt j k || lt k j) (λ e. (h.0, update-All P g d step h.1))
        (λ e. (step j w h.0, h.1))

  pub update-NoDup : (g : V → V) (d : Map K V) → NoDup d → NoDup (update lt k g d)
  update-NoDup g [] h = tt
  update-NoDup g ((j, w) ∷ d) h =
      if_cases NoDup (lt j k || lt k j)
        (λ e. (update-All (λ (x : K × V). x.0 ≢ j) g d (λ i v p. p) h.0, update-NoDup g d h.1))
        (λ e. (h.0, h.1))

module _ {ℓ κ} {K : Type ℓ} {V : Type κ} (lt : K → K → Bool) where
  pub update-is_some :
      (j k : K) (g : V → V) (d : Map K V)
      → is_some (find lt j (update lt k g d)) ≡ is_some (find lt j d)
  update-is_some j k g [] = refl
  update-is_some j k g ((i, w) ∷ d) =
      if_cases (λ t. is_some (find lt j t) ≡ is_some (find lt j ((i, w) ∷ d))) (lt i k || lt k i)
        (λ e.
          if_both (λ (o p : Option V). is_some o ≡ is_some p) (lt i j || lt j i)
            (update-is_some j k g d) refl)
        (λ e. if_both (λ (o p : Option V). is_some o ≡ is_some p) (lt i j || lt j i) refl refl)

  pub find-All {μ} :
      (P : V → Type μ) (k : K) (v : V) (d : Map K V)
      → All (λ (e : K × V). P e.1) d
      → find lt k d ≡ some v
      → P v
  find-All P k v [] h = λ e. cc
  find-All P k v ((j, w) ∷ d) h =
      if_cases (λ (o : Option V). o ≡ some v → P v) (lt j k || lt k j) (λ e. find-All P k v d h.1)
        (λ e same. subst P (cc) h.0)

  pub emplace_only-All {μ} :
      (P : V → Type μ) (k : K) (v : V) (d : Map K V)
      → P v
      → All (λ (e : K × V). P e.1) d
      → All (λ (e : K × V). P e.1) (emplace lt k v d)
  emplace_only-All P k v [] p h = (p, tt)
  emplace_only-All P k v ((j, w) ∷ d) p h =
      let Q : Map K V → Type _ = All (λ (e : K × V). P e.1) in
      if_cases Q (lt k j) (λ e. (p, h))
        (λ e. if_cases Q (lt j k) (λ e'. (h.0, emplace_only-All P k v d p h.1)) (λ e'. h))

  -- The key of every entry is found.
  pub find-keys :
      (d : Map K V)
      → ((k : K) → lt k k ≡ false)
      → All (λ (e : K × V). is_some (find lt e.0 d) ≡ true) d
  find-keys d irrefl = go d (λ k h. h)
    where
      own : (k : K) (v : V) (xs : Map K V) → is_some (find lt k ((k, v) ∷ xs)) ≡ true
      own k v xs = rw (irrefl k) refl

      go :
          (xs : Map K V)
          → ((k : K) → is_some (find lt k xs) ≡ true → is_some (find lt k d) ≡ true)
          → All (λ (e : K × V). is_some (find lt e.0 d) ≡ true) xs
      go [] h = tt
      go ((k, v) ∷ xs) h = (
        h k (own k v xs),
        go xs (λ j e. h j (
            if_cases (λ (o : Option V). is_some o ≡ true) (lt k j || lt j k) (λ e'. e)
              (λ e'. refl))),
      )

-- A value is put there if there is none, and then changed by `g`: what holds of every value, and the
-- sum of a measure that `g` makes larger by `δ` modulo 2 ^ 64 and that is 0 on the value put there.
module _ {ℓ κ} {K : Type ℓ} {V : Type κ} (lt : K → K → Bool) (k : K) (g : V → V) (v₀ : V) where
  -- Both steps as one.
  abbrev upsert : Map K V → Map K V
  upsert [] = (k, g v₀) ∷ []
  upsert ((j, w) ∷ d) =
      if lt k j then (k, g v₀) ∷ (j, w) ∷ d else if lt j k then (j, w) ∷ upsert d else (j, g w) ∷ d

  update-emplace : (d : Map K V) → lt k k ≡ false → update lt k g (emplace lt k v₀ d) ≡ upsert d
  update-emplace [] irrefl = rw irrefl refl
  update-emplace ((j, w) ∷ d) irrefl =
      let P : Map K V → Map K V → Type _ = λ x u. update lt k g x ≡ u in
      if_both_cases P (lt k j) (λ e. rw irrefl refl)
        λ e.
          if_both_cases P (lt j k) (λ e'. rw e' (ap (λ t. (j, w) ∷ t) (update-emplace d irrefl)))
            (λ e'. rw (e', e) refl)

  pub emplace-All {μ} :
      (P : V → Type μ) (d : Map K V)
      → lt k k ≡ false
      → P (g v₀)
      → ((v : V) → P v → P (g v))
      → All (λ (e : K × V). P e.1) d
      → All (λ (e : K × V). P e.1) (update lt k g (emplace lt k v₀ d))
  emplace-All P d irrefl p₀ step h =
      subst⁻¹ (All (λ (e : K × V). P e.1)) (update-emplace d irrefl) (go d h)
    where
      go : (d : Map K V) → All (λ (e : K × V). P e.1) d → All (λ (e : K × V). P e.1) (upsert d)
      go [] h = (p₀, tt)
      go ((j, w) ∷ d) h =
          let Q : Map K V → Type _ = All (λ (e : K × V). P e.1) in
          if_cases Q (lt k j) (λ e. (p₀, h))
            λ e. if_cases Q (lt j k) (λ e'. (h.0, go d h.1)) (λ e'. (step w h.0, h.1))

  pub emplace-total :
      (f : V → ℕ) (δ : ℕ) (d : Map K V)
      → lt k k ≡ false
      → f v₀ ≡ 0
      → ((v : V) → f (g v) ≡ add64 (f v) δ)
      → total f (update lt k g (emplace lt k v₀ d)) % u64_mod ≡ add64 (total f d) δ
  emplace-total f δ d irrefl e₀ step =
      ap (λ t. total f t % u64_mod) (update-emplace d irrefl) ∙ go d
    where
      go : (d : Map K V) → total f (upsert d) % u64_mod ≡ add64 (total f d) δ
      go [] = omega (arith, step v₀, e₀)
      go ((j, w) ∷ d) =
          let Q : Map K V → Type _ = λ t. total f t % u64_mod ≡ add64 (total f ((j, w) ∷ d)) δ in
          if_cases Q (lt k j) (λ e. omega (arith, step v₀, e₀))
            λ e. if_cases Q (lt j k) (λ e'. omega (arith, go d)) (λ e'. omega (arith, step w))
