-- ===== src/SmapInfo/Defined.antt =====
-- Predicates of what the functions of libsmapinfo return, where `none` is an undefined operation.
use mathlib.Core.Path.{subst}
use android_system_memory_li.Common.{◌≡◌, Option, none, some, ◌>>=◌}

-- A predicate of the result, if there is one.
abbrev pub OnSome {ℓ κ} : {A : Type ℓ} → (A → Type κ) → Option A → Type κ
OnSome P none = Unit
OnSome P (some a) = P a

pub OnSome-bind {ℓ κ μ ν} :
    {A : Type ℓ} {B : Type κ} (P : A → Type μ) (Q : B → Type ν) (o : Option A) (f : A → Option B)
    → OnSome P o
    → ((a : A) → P a → OnSome Q (f a))
    → OnSome Q (o >>= f)
OnSome-bind P Q none f h g = tt
OnSome-bind P Q (some a) f h g = g a h

pub OnSome-result {ℓ κ} :
    {A : Type ℓ} (P : A → Type κ) (o : Option A) (a : A) → OnSome P o → o ≡ some a → P a
OnSome-result P o a h e = subst (OnSome P) e h

pub OnSome-weaken {ℓ κ μ} :
    {A : Type ℓ} (P : A → Type κ) (Q : A → Type μ) (o : Option A)
    → ((a : A) → P a → Q a)
    → OnSome P o
    → OnSome Q o
OnSome-weaken P Q none f h = tt
OnSome-weaken P Q (some a) f h = f a h
