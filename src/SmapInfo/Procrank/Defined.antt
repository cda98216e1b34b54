-- ===== src/SmapInfo/Procrank/Defined.antt =====
-- Where CalculateSwap is defined, and the loop of run_procrank that calls it.

use android_system_memory_li.SmapInfo.Procrank.Print.{print_processrecord}
use android_system_memory_li.SmapInfo.Procrank.Run.{print_procs}
use android_system_memory_li.Common.{
  ℕ, zero, suc, ◌+◌, ◌<◌, ◌≡◌, refl, sym, ap, ◌∙◌, Bool, true, false, ◌&&◌, List, [], ◌∷◌, ◌++◌,
  Option, none, some, arith, ltb, ◌==◌, if_cases, length, get_or, get_elem?, All, all_by, ◌>>=◌,
  is_some,
}
use android_system_memory_li.SmapInfo.{Machine}
use android_system_memory_li.SmapInfo.Procrank.{
  Params, add_to_totals, add_swap_totals, add_usage_totals,
}
use android_system_memory_li.SmapInfo.Procrank.Counts.{occurrences}
use android_system_memory_li.SmapInfo.Procrank.Users.{all_offsets, Counts, is_counting}
use android_system_memory_li.SmapInfo.Record.{
  ProcessRecord, share_of, swap_shares, calculate_swap, in_kb,
}

is_some-bind {ℓ κ} :
    {A : Type ℓ} {B : Type κ} (o : Option A) (f : A → Option B)
    → is_some o ≡ true
    → ((a : A) → o ≡ some a → is_some (f a) ≡ true)
    → is_some (o >>= f) ≡ true
is_some-bind none f h g = cc
is_some-bind (some a) f h g = g a refl

pub is_some-bind_some {ℓ κ} :
    {A : Type ℓ} {B : Type κ} (o : Option A) (f : A → B)
    → is_some o ≡ true
    → is_some (o >>= λ a. some (f a)) ≡ true
is_some-bind_some none f h = cc
is_some-bind_some (some a) f h = refl

-- A result of such a chain has been made by its last step.
bind_some-result {ℓ κ} :
    {A : Type ℓ} {B : Type κ} (o : Option A) (f : A → B) (b : B)
    → (o >>= λ a. some (f a)) ≡ some b
    → (a : A) × (f a ≡ b)
bind_some-result none f b h = cc
bind_some-result (some a) f b h = (a, cc)

-- The offset has a count, and the count is not zero.
abbrev pub is_counted : List ℕ → ℕ → Bool
is_counted arr off = ltb off (length arr) && ltb 0 (get_or arr off 0)

get_elem?-get_or :
    (arr : List ℕ) (off : ℕ) → off < length arr → get_elem? arr off ≡ some (get_or arr off 0)
get_elem?-get_or [] off h = absurd (omega arith)
get_elem?-get_or (x ∷ arr) zero h = refl
get_elem?-get_or (x ∷ arr) (suc off) h = get_elem?-get_or arr off (omega arith)

-- The counts of the offsets of some of the processes.
Counts-is_counted :
    (size : ℕ) (arr : List ℕ) (used offs : List ℕ)
    → length arr ≡ size
    → ((i : ℕ) → occurrences i offs + occurrences i used ≡ get_or arr i 0)
    → All (λ off. off < size) offs
    → all_by (is_counted arr) offs ≡ true
Counts-is_counted size arr used [] len counts inside = refl
Counts-is_counted size arr used (off ∷ offs) len counts inside =
    let rest =
      Counts-is_counted size arr (off ∷ used) offs len (λ i. omega (arith, counts i)) inside.1 in
    ground (arith, rest, counts off, inside.0)

abbrev pub is_safe : {World : Type 0} → List ℕ → ProcessRecord World → Bool
is_safe arr p = all_by (is_counted arr) p.swap_offsets

all_by-append {ℓ} :
    {A : Type ℓ} (f : A → Bool) (xs ys : List A)
    → all_by f (xs ++ ys) ≡ true
    → (all_by f xs ≡ true) × (all_by f ys ≡ true)
all_by-append f [] ys h = (refl, h)
all_by-append f (x ∷ xs) ys h = ground (arith, all_by-append f xs ys)

is_safe-procs :
    {World : Type 0} (arr : List ℕ) (procs : List (ProcessRecord World))
    → all_by (is_counted arr) (all_offsets procs) ≡ true
    → all_by (is_safe arr) procs ≡ true
is_safe-procs arr [] h = refl
is_safe-procs arr (p ∷ ps) h =
    let both = all_by-append (is_counted arr) p.swap_offsets (all_offsets ps) h in
    ground (arith, both, is_safe-procs arr ps both.1)

pub Counts-is_safe :
    {World : Type 0} (size : ℕ) (arr : List ℕ) (procs : List (ProcessRecord World))
    → Counts size arr procs
    → all_by (is_safe arr) procs ≡ true
Counts-is_safe size arr procs (len, counts, inside) =
    is_safe-procs arr procs
      (Counts-is_counted size arr [] (all_offsets procs) len (λ i. omega (arith, counts i)) inside)

module _ {World Float : Type 0} (m : Machine World Float) where
  share_of-is_some :
      (r : ProcessRecord World) (q : Float) (arr : List ℕ) (off : ℕ)
      → is_counted arr off ≡ true
      → is_some (share_of m r q (get_elem? arr off)) ≡ true
  share_of-is_some r q arr off h = rw (get_elem?-get_or arr off (ground arith)) (
      if_cases (λ o. is_some o ≡ true) (get_or arr off 0 == 0) (λ e. absurd (ground arith))
        (λ e. refl))

  swap_shares-is_some :
      (arr : List ℕ) (q : Float) (offs : List ℕ) (r : ProcessRecord World)
      → all_by (is_counted arr) offs ≡ true
      → is_some (swap_shares m arr q offs r) ≡ true
  unfolding swap_shares
  swap_shares-is_some arr q [] r h = refl
  swap_shares-is_some arr q (off ∷ offs) r h =
      is_some-bind (share_of m r q (get_elem? arr off)) (swap_shares m arr q offs)
        (share_of-is_some r q arr off (ground arith))
        λ r' e. swap_shares-is_some arr q offs r' (ground arith)

  calculate_swap-is_some :
      (arr : List ℕ) (q : Float) (r : ProcessRecord World)
      → is_safe arr r ≡ true
      → is_some (calculate_swap m arr q r) ≡ true
  unfolding calculate_swap
  calculate_swap-is_some arr q r h =
      is_some-bind_some (swap_shares m arr q r.swap_offsets r) (in_kb m)
        (swap_shares-is_some arr q r.swap_offsets r h)

  -- The flags do not change, so the processes whose swap is calculated have been counted.
  add_to_totals-is_some :
      (params : Params Float) (p : ProcessRecord World) (arr : List ℕ)
      → (is_counting params ≡ true → is_safe arr p ≡ true)
      → is_some (add_to_totals m params p arr) ≡ true
  unfolding add_to_totals
  add_to_totals-is_some params p arr h =
      let P : Option (Params Float × ProcessRecord World) → Type 0 = λ o. is_some o ≡ true in
      if_cases P (is_counting params)
        (λ e.
          is_some-bind_some (calculate_swap m arr params.zram_compression_ratio p)
            (λ p'. (add_swap_totals m (add_usage_totals m params p) p', p'))
            (calculate_swap-is_some arr params.zram_compression_ratio p (h e)))
        (λ e. refl)

  add_to_totals-is_counting :
      (params : Params Float) (p : ProcessRecord World) (arr : List ℕ)
      (r : Params Float × ProcessRecord World)
      → add_to_totals m params p arr ≡ some r
      → is_counting r.0 ≡ is_counting params
  unfolding add_to_totals
  add_to_totals-is_counting params p arr r =
      let P : Option (Params Float × ProcessRecord World) → Type 0 =
        λ o. o ≡ some r → is_counting r.0 ≡ is_counting params in
      if_cases P (is_counting params)
        (λ e h.
          let made =
            bind_some-result (calculate_swap m arr params.zram_compression_ratio p)
              (λ p'. (add_swap_totals m (add_usage_totals m params p) p', p')) r h in
          sym (ap (λ (q : Params Float × ProcessRecord World). is_counting q.0) made.1))
        (λ e h. some_flags params p r h)
    where
      some_flags :
          (params : Params Float) (p : ProcessRecord World) (r : Params Float × ProcessRecord World)
          → some (add_usage_totals m params p, p) ≡ some r
          → is_counting r.0 ≡ is_counting params
      some_flags params p r h =
          ap (λ (o : Option (Params Float × ProcessRecord World)). flag o) (sym h)
        where
          flag : Option (Params Float × ProcessRecord World) → Bool
          flag none = false
          flag (some q) = is_counting q.0

  pub print_procs-is_some :
      (arr : List ℕ) (procs : List (ProcessRecord World)) (params : Params Float)
      → (is_counting params ≡ true → all_by (is_safe arr) procs ≡ true)
      → is_some (print_procs m arr procs params) ≡ true
  unfolding print_procs
  print_procs-is_some arr [] params h = refl
  print_procs-is_some arr (p ∷ procs) params h =
      is_some-bind (add_to_totals m params p arr)
        (λ r. print_procs m arr procs r.0 >>= λ q. some (q.0, print_processrecord r.0 r.1 ++ q.1))
        (add_to_totals-is_some params p arr (λ e. ground (arith, h e)))
        λ r e.
          is_some-bind_some (print_procs m arr procs r.0)
            (λ q. (q.0, print_processrecord r.0 r.1 ++ q.1))
            (print_procs-is_some arr procs r.0
              (λ e'. ground (arith, h (sym (add_to_totals-is_counting params p arr r e) ∙ e'))))
