-- ===== src/SmapInfo/Procrank/Shares.antt =====
-- The shares of the pages in swap that procrank charges to processes.
use mathlib.Core.Path.{subst}
use native.Mathlib.Nat.{mul-div-le}
use android_system_memory_li.Common.{
  ℕ, zero, suc, ◌+◌, ◌*◌, ◌/◌, ◌<◌, ◌≤◌, ◌≡◌, refl, sym, ap, ◌∙◌, List, [], ◌∷◌, arith, ◌==◌,
  if◌then◌else◌, if_cases, get_or, All, sum_by, ==_iff,
}
use android_system_memory_li.SmapInfo.Procrank.Counts.{occurrences}

-- Weighted by slot: the offsets below `n`, each as often as it occurs.
pub slot_sum : (ℕ → ℕ) → List ℕ → ℕ → ℕ
slot_sum w offs zero = 0
slot_sum w offs (suc n) = occurrences n offs * w n + slot_sum w offs n

slot_sum-above :
    (w : ℕ → ℕ) (off : ℕ) (offs : List ℕ) (n : ℕ)
    → n ≤ off
    → slot_sum w (off ∷ offs) n ≡ slot_sum w offs n
unfolding slot_sum
slot_sum-above w off offs zero h = refl
slot_sum-above w off offs (suc n) h =
    let rest = slot_sum-above w off offs n (omega arith) in
    if_cases
      (λ (t : ℕ).
        (t + occurrences n offs) * w n + slot_sum w (off ∷ offs) n
        ≡ occurrences n offs * w n + slot_sum w offs n)
      (off == n) (λ e. absurd (ground arith)) (λ e. omega (arith, rest))

slot_sum-cons :
    (w : ℕ → ℕ) (off : ℕ) (offs : List ℕ) (n : ℕ)
    → off < n
    → slot_sum w (off ∷ offs) n ≡ w off + slot_sum w offs n
unfolding slot_sum
slot_sum-cons w off offs zero h = absurd (omega arith)
slot_sum-cons w off offs (suc n) h =
    if_cases
      (λ (t : ℕ).
        (t + occurrences n offs) * w n + slot_sum w (off ∷ offs) n
        ≡ w off + (occurrences n offs * w n + slot_sum w offs n))
      (off == n)
      (λ e. omega (
        arith,
        slot_sum-above w off offs n (ground arith),
        ap w ((==_iff off n).0 e),
        one (occurrences n offs) (w n),
      ))
      (λ e. omega (arith, slot_sum-cons w off offs n (ground arith)))
  where
    one : (a b : ℕ) → (1 + a) * b ≡ b + a * b
    one a b = omega arith

slot_sum-nil : (w : ℕ → ℕ) (n : ℕ) → slot_sum w [] n ≡ 0
unfolding slot_sum
slot_sum-nil w zero = refl
slot_sum-nil w (suc n) = omega (arith, slot_sum-nil w n)

-- A sum over offsets is one over the slots below a bound that they do not pass.
pub sum_by-slots :
    (w : ℕ → ℕ) (offs : List ℕ) (n : ℕ)
    → All (λ off. off < n) offs
    → sum_by w offs ≡ slot_sum w offs n
sum_by-slots w [] n h = sym (slot_sum-nil w n)
sum_by-slots w (off ∷ offs) n h =
    omega (arith, sum_by-slots w offs n h.1, slot_sum-cons w off offs n h.0)

-- How many slots below `n` have a user.
abbrev pub used_slots : List ℕ → ℕ → ℕ
used_slots arr zero = 0
used_slots arr (suc n) = (if get_or arr n 0 == 0 then 0 else 1) + used_slots arr n

-- The users of a slot have a share each, of which the sum is at most one page.
pub slot_sum-bound :
    (page : ℕ) (arr offs : List ℕ) (n : ℕ)
    → ((i : ℕ) → get_or arr i 0 ≡ occurrences i offs)
    → slot_sum (λ off. page / get_or arr off 0) offs n ≤ page * used_slots arr n
unfolding slot_sum
slot_sum-bound page arr offs zero counts = omega arith
slot_sum-bound page arr offs (suc n) counts =
    let rest = slot_sum-bound page arr offs n counts in
    if_cases
      (λ (t : ℕ).
        occurrences n offs * (page / get_or arr n 0)
          + slot_sum (λ off. page / get_or arr off 0) offs n
        ≤ page * (t + used_slots arr n))
      (get_or arr n 0 == 0)
      (λ e. omega (
        arith,
        rest,
        ap (λ (o : ℕ). o * (page / get_or arr n 0))
            (sym (counts n) ∙ (==_iff (get_or arr n 0) 0).0 e),
      ))
      (λ e. omega (
        arith,
        rest,
        subst (λ (o : ℕ). o * (page / get_or arr n 0) ≤ page) (counts n)
            (mul-div-le page (get_or arr n 0)),
      ))
