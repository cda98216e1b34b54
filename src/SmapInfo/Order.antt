-- ===== src/SmapInfo/Order.antt =====
-- std::sort as a permutation, and sorting in reverse.
use mathlib.Core.List.{Perm, perm_middle, append-nil}
use mathlib.Core.Path.{subst}
use mathlib.Core.List.Perm
use android_system_memory_li.Common.{Bool, true, false, List, [], ◌∷◌, ◌++◌}
use android_system_memory_li.SmapInfo.{Machine, sorted, backwards, onto}

onto-perm {ℓ} : {A : Type ℓ} (xs ys : List A) → Perm (onto xs ys) (xs ++ ys)
onto-perm [] ys = Perm.refl ys
onto-perm (x ∷ xs) ys = Perm.trans (onto-perm xs (x ∷ ys)) (perm_middle xs ys)

backwards-perm {ℓ} : {A : Type ℓ} (xs : List A) → Perm (backwards xs) xs
backwards-perm xs = subst (λ ys. Perm (backwards xs) ys) (append-nil xs) (onto-perm xs [])

-- What the C++ standard says of std::sort: the range is a permutation of what it was.
abbrev pub Permutes : {World Float : Type 0} → Machine World Float → Type 1
Permutes m = (A : Type 0) (less : A → A → Bool) (xs : List A) → Perm (m.sort less xs) xs

pub sorted-perm :
    {World Float A : Type 0} (m : Machine World Float)
    → Permutes m
    → (reversed : Bool) (less : A → A → Bool) (xs : List A) → Perm (sorted m reversed less xs) xs
unfolding sorted
sorted-perm {A = A} m permutes false less xs = permutes A less xs
sorted-perm {A = A} m permutes true less xs =
    Perm.trans (backwards-perm (m.sort less (backwards xs)))
      (Perm.trans (permutes A less (backwards xs)) (backwards-perm xs))
