-- ===== src/SmapInfo/Procrank/Users.antt =====
-- The array of counts behind populate_procs, and the offsets of the listed processes.
use android_system_memory_li.Common.{
  ℕ, zero, suc, ◌+◌, ◌<◌, ◌≡◌, refl, ap, ◌∙◌, Bool, true, not, ◌&&◌, List, [], ◌∷◌, ◌++◌, arith,
  ◌==◌, if_cases, length, get_or, replicate, All, ℤ,
}
use android_system_memory_li.SmapInfo.{Machine}
use android_system_memory_li.SmapInfo.Procrank.{
  count_swap_offsets, Params, Populated, add_proc, populate_proc, populate_procs,
}
use android_system_memory_li.SmapInfo.Procrank.Counts.{
  occurrences, Counted, count_swap_offsets-Counted,
}
use android_system_memory_li.SmapInfo.Record.{
  ProcessRecord, valid, find_or_create, new_process_record,
}

-- The offsets of all processes in a list.
abbrev pub all_offsets : {World : Type 0} → List (ProcessRecord World) → List ℕ
all_offsets [] = []
all_offsets (p ∷ ps) = p.swap_offsets ++ all_offsets ps

occurrences-append :
    (i : ℕ) (xs ys : List ℕ) → occurrences i (xs ++ ys) ≡ occurrences i xs + occurrences i ys
occurrences-append i [] ys = omega arith
occurrences-append i (x ∷ xs) ys = omega (arith, occurrences-append i xs ys)

all_offsets-append :
    {World : Type 0} (ps : List (ProcessRecord World)) (p : ProcessRecord World) (i : ℕ)
    → occurrences i (all_offsets (ps ++ p ∷ []))
      ≡ occurrences i (all_offsets ps) + occurrences i p.swap_offsets
all_offsets-append [] p i = omega (arith, occurrences-append i p.swap_offsets [])
all_offsets-append (q ∷ ps) p i = omega (
  arith,
  occurrences-append i q.swap_offsets (all_offsets (ps ++ p ∷ [])),
  occurrences-append i q.swap_offsets (all_offsets ps),
  all_offsets-append ps p i,
)

All-append {ℓ κ} :
    {A : Type ℓ} (P : A → Type κ) (xs ys : List A) → All P xs → All P ys → All P (xs ++ ys)
All-append P [] ys hx hy = hy
All-append P (x ∷ xs) ys hx hy = (hx.0, All-append P xs ys hx.1 hy)

All-first {ℓ κ} : {A : Type ℓ} (P : A → Type κ) (xs ys : List A) → All P (xs ++ ys) → All P xs
All-first P [] ys h = tt
All-first P (x ∷ xs) ys h = (h.0, All-first P xs ys h.1)

All-rest {ℓ κ} : {A : Type ℓ} (P : A → Type κ) (xs ys : List A) → All P (xs ++ ys) → All P ys
All-rest P [] ys h = h
All-rest P (x ∷ xs) ys h = All-rest P xs ys h.1

all_offsets-All :
    {World : Type 0} (P : ℕ → Type 0) (ps : List (ProcessRecord World)) (p : ProcessRecord World)
    → All P (all_offsets ps)
    → All P p.swap_offsets
    → All P (all_offsets (ps ++ p ∷ []))
all_offsets-All P [] p h hp = All-append P p.swap_offsets [] hp tt
all_offsets-All P (q ∷ ps) p h hp =
    All-append P q.swap_offsets (all_offsets (ps ++ p ∷ []))
      (All-first P q.swap_offsets (all_offsets ps) h)
      (all_offsets-All P ps p (All-rest P q.swap_offsets (all_offsets ps) h) hp)

-- The array has a given size and counts the offsets of the processes, all of which it has.
abbrev pub Counts : {World : Type 0} → ℕ → List ℕ → List (ProcessRecord World) → Type 0
Counts size arr procs =
    (length arr ≡ size)
    × ((i : ℕ) → get_or arr i 0 ≡ occurrences i (all_offsets procs))
    × All (λ off. off < size) (all_offsets procs)

Counts-push :
    {World : Type 0} (size : ℕ) (arr arr' : List ℕ) (procs : List (ProcessRecord World))
    (p : ProcessRecord World)
    → Counts size arr procs
    → Counted p.swap_offsets arr arr'
    → Counts size arr' (procs ++ p ∷ [])
Counts-push size arr arr' procs p (len, counts, inside) (len', grown, within) = (
  len' ∙ len,
  (λ i. grown i ∙ omega (arith, counts i, all_offsets-append procs p i)),
  all_offsets-All (λ off. off < size) procs p inside (same p.swap_offsets within),
)
  where
    same : (xs : List ℕ) → All (λ x. x < length arr) xs → All (λ x. x < size) xs
    same [] a = tt
    same (x ∷ xs) a = (omega (arith, len, a.0), same xs a.1)

abbrev pub is_counting : {Float : Type 0} → Params Float → Bool
is_counting params = not params.show_wss && params.swap_enabled

module _ {World Float : Type 0} (m : Machine World Float) (params : Params Float) (size : ℕ) where
  abbrev Kept : Populated World × Bool → Type 0
  Kept r = r.1 ≡ true → Counts size r.0.swap_offset_array r.0.procs

  add_proc-Counts :
      (p : ProcessRecord World) (s : Populated World)
      → is_counting params ≡ true
      → Counts size s.swap_offset_array s.procs
      → Kept (add_proc m params p s)
  add_proc-Counts p s counting c =
      if_cases Kept (not (valid p)) (λ e h. c)
        λ e.
          if_cases Kept (p.usage_or_wss.vss == 0) (λ e' h. c)
            λ e'.
              if_cases Kept (is_counting params)
                (λ e''.
                  if_cases Kept (count_swap_offsets p.swap_offsets s.swap_offset_array).1
                    (λ done h.
                      Counts-push size s.swap_offset_array
                        (count_swap_offsets p.swap_offsets s.swap_offset_array).0 s.procs p c
                        (count_swap_offsets-Counted p.swap_offsets s.swap_offset_array done))
                    (λ done h. cc))
                (λ e'' h. cc)

  populate_proc-Counts :
      (pgflags pgflags_mask : ℕ) (pid : ℤ) (s : Populated World)
      → is_counting params ≡ true
      → Counts size s.swap_offset_array s.procs
      → Kept (populate_proc m params pgflags pgflags_mask pid s)
  unfolding populate_proc
  populate_proc-Counts pgflags pgflags_mask pid s counting c =
      let r =
        find_or_create
          (new_process_record m pid params.show_wss pgflags pgflags_mask true params.show_oomadj)
          pid s.processrecords s.shared in
      add_proc-Counts r.0 (record s { processrecords = r.1; shared = r.2 }) counting c

  pub populate_procs-Counts :
      (pgflags pgflags_mask : ℕ) (pids : List ℤ) (s : Populated World)
      → is_counting params ≡ true
      → Counts size s.swap_offset_array s.procs
      → Kept (populate_procs m params pgflags pgflags_mask pids s)
  unfolding populate_procs
  populate_procs-Counts pgflags pgflags_mask [] s counting c = λ h. c
  populate_procs-Counts pgflags pgflags_mask (pid ∷ pids) s counting c =
      let r = populate_proc m params pgflags pgflags_mask pid s in
      if_cases Kept r.1
        (λ e.
          populate_procs-Counts pgflags pgflags_mask pids r.0 counting
            (populate_proc-Counts pgflags pgflags_mask pid s counting c e))
        (λ e h. cc)

-- An array of zeros counts no process.
pub replicate-Counts :
    (World : Type 0) (size : ℕ) → Counts {World = World} size (replicate size 0) []
replicate-Counts World size = (length-zeros size, (λ i. get_or-zeros size i), tt)
  where
    length-zeros : (n : ℕ) → length {A = ℕ} (replicate n 0) ≡ n
    length-zeros zero = refl
    length-zeros (suc n) = ap suc (length-zeros n)

    get_or-zeros : (n i : ℕ) → get_or {A = ℕ} (replicate n 0) i 0 ≡ 0
    get_or-zeros zero i = refl
    get_or-zeros (suc n) zero = refl
    get_or-zeros (suc n) (suc i) = get_or-zeros n i
