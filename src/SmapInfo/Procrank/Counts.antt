-- ===== src/SmapInfo/Procrank/Counts.antt =====
-- The counts of swap offsets in procrank: what count_swap_offsets makes of the array.
use android_system_memory_li.Common.{
  ℕ, ◌+◌, ◌<◌, ◌≤◌, ◌≡◌, refl, ◌∙◌, ◌↔◌, Bool, true, List, [], ◌∷◌, arith, leb, ◌==◌, if◌then◌else◌,
  if_cases, length, get_or, set, All, length-set, get_or-set,
}
use android_system_memory_li.SmapInfo.Procrank.{count_swap_offsets, ushrt_max}

abbrev pub occurrences : ℕ → List ℕ → ℕ
occurrences i [] = 0
occurrences i (off ∷ offs) = (if off == i then 1 else 0) + occurrences i offs

-- Each offset has grown by its occurrences, and is one of the array.
abbrev pub Counted : List ℕ → List ℕ → List ℕ → Type 0
Counted offs before after =
    (length after ≡ length before)
    × ((i : ℕ) → get_or after i 0 ≡ get_or before i 0 + occurrences i offs)
    × All (λ off. off < length before) offs

Counted-step :
    (off : ℕ) (offs arr after : List ℕ)
    → off < length arr
    → Counted offs (set arr off (get_or arr off 0 + 1)) after
    → Counted (off ∷ offs) arr after
Counted-step off offs arr after h (len, counts, inside) =
    (len ∙ same, (λ i. counts i ∙ grown i), (h, within offs inside))
  where
    same : length (set arr off (get_or arr off 0 + 1)) ≡ length arr
    same = length-set arr off (get_or arr off 0 + 1)

    grown :
        (i : ℕ)
        → get_or (set arr off (get_or arr off 0 + 1)) i 0 + occurrences i offs
          ≡ get_or arr i 0 + ((if off == i then 1 else 0) + occurrences i offs)
    grown i = ground (arith, get_or-set arr off i (get_or arr off 0 + 1) 0 h)

    within :
        (xs : List ℕ)
        → All (λ x. x < length (set arr off (get_or arr off 0 + 1))) xs
        → All (λ x. x < length arr) xs
    within [] a = tt
    within (x ∷ xs) a = (omega (arith, a.0, same), within xs a.1)

pub count_swap_offsets-Counted :
    (offs arr : List ℕ)
    → (count_swap_offsets offs arr).1 ≡ true
    → Counted offs arr (count_swap_offsets offs arr).0
unfolding count_swap_offsets
count_swap_offsets-Counted [] arr = λ h. (refl, (λ i. omega arith), tt)
count_swap_offsets-Counted (off ∷ offs) arr =
    let P : List ℕ × Bool → Type 0 = λ r. r.1 ≡ true → Counted (off ∷ offs) arr r.0 in
    let n = get_or arr off 0 in
    if_cases P (leb (length arr) off) (λ e h. cc)
      λ e.
        if_cases P (n == ushrt_max) (λ e' h. cc)
          λ e' h.
            Counted-step off offs arr (count_swap_offsets offs (set arr off (n + 1))).0
              (ground arith) (count_swap_offsets-Counted offs (set arr off (n + 1)) h)

-- The counts are those of a uint16_t.
abbrev pub Fits : List ℕ → Type 0
Fits arr = (i : ℕ) → get_or arr i 0 ≤ ushrt_max

Fits-set :
    (arr : List ℕ) (off n : ℕ) → off < length arr → n ≤ ushrt_max → Fits arr → Fits (set arr off n)
Fits-set arr off n h small fits i = ground (arith, get_or-set arr off i n 0 h, fits i)

count_swap_offsets-Fits : (offs arr : List ℕ) → Fits arr → Fits (count_swap_offsets offs arr).0
unfolding count_swap_offsets
count_swap_offsets-Fits [] arr fits = fits
count_swap_offsets-Fits (off ∷ offs) arr fits =
    let P : List ℕ × Bool → Type 0 = λ r. Fits r.0 in
    let n = get_or arr off 0 in
    if_cases P (leb (length arr) off) (λ e. fits)
      λ e.
        if_cases P (n == ushrt_max) (λ e'. fits)
          λ e'.
            count_swap_offsets-Fits offs (set arr off (n + 1))
              (Fits-set arr off (n + 1) (ground arith) (ground (arith, fits off)) fits)

-- There is room for the offsets: each is one of the array, and no count passes USHRT_MAX.
abbrev pub HasRoom : List ℕ → List ℕ → Type 0
HasRoom offs arr =
    All (λ off. off < length arr) offs × ((i : ℕ) → get_or arr i 0 + occurrences i offs ≤ ushrt_max)

HasRoom-step :
    (off : ℕ) (offs arr : List ℕ)
    → HasRoom (off ∷ offs) arr
    → HasRoom offs (set arr off (get_or arr off 0 + 1))
HasRoom-step off offs arr ((h, inside), room) = (
  within offs inside,
  λ i. ground (arith, get_or-set arr off i (get_or arr off 0 + 1) 0 h, room i),
)
  where
    within :
        (xs : List ℕ)
        → All (λ x. x < length arr) xs
        → All (λ x. x < length (set arr off (get_or arr off 0 + 1))) xs
    within [] a = tt
    within (x ∷ xs) a =
        (omega (arith, a.0, length-set arr off (get_or arr off 0 + 1)), within xs a.1)

count_swap_offsets_room :
    (offs arr : List ℕ) → HasRoom offs arr → (count_swap_offsets offs arr).1 ≡ true
unfolding count_swap_offsets
count_swap_offsets_room [] arr h = refl
count_swap_offsets_room (off ∷ offs) arr h =
    let P : List ℕ × Bool → Type 0 = λ r. r.1 ≡ true in
    let n = get_or arr off 0 in
    if_cases P (leb (length arr) off) (λ e. absurd (ground (arith, h.0.0)))
      λ e.
        if_cases P (n == ushrt_max) (λ e'. absurd (ground (arith, h.1 off)))
          λ e'. count_swap_offsets_room offs (set arr off (n + 1)) (HasRoom-step off offs arr h)

-- On an array of uint16_t counts, count_swap_offsets succeeds exactly where every offset is one of
-- the array and no count would pass USHRT_MAX.
pub count_swap_offsets-HasRoom :
    (offs arr : List ℕ) → Fits arr → ((count_swap_offsets offs arr).1 ≡ true) ↔ HasRoom offs arr
count_swap_offsets-HasRoom offs arr fits = (
  (λ h.
      let c = count_swap_offsets-Counted offs arr h in
      (c.2, λ i. omega (arith, c.1 i, count_swap_offsets-Fits offs arr fits i))),
  count_swap_offsets_room offs arr,
)
