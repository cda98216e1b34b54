-- ===== src/SysMem/Termination.antt =====
-- The rounds of the loop of SysMemInfo::ReadMemInfo.
use android_system_memory_li.Common.{
  ℕ, zero, suc, ◌+◌, ◌≤◌, ◌≡◌, refl, arith, Bool, true, false, not, ◌&&◌, ◌||◌, List, [], ◌∷◌,
  Option, none, some, ◌==◌, ltb, if_cases, if_both, drop, length,
}
use android_system_memory_li.SysMem.MemInfo.{
  skip_blanks, next_line, TagScan, store_number, scan_tags, scan_text,
}
use android_system_memory_li.Text.{
  Bytes, codes, text_eq, has_prefix, is_space, is_digit, skip_spaces, after_digits, strip_sign,
  strtoull_end, starts_with_digit,
}

skip_blanks-length : (p : Bytes) → length (skip_blanks p) ≤ length p
unfolding skip_blanks
skip_blanks-length [] = omega arith
skip_blanks-length (c ∷ cs) = ground (arith, skip_blanks-length cs)

skip_spaces-length : (p : Bytes) → length (skip_spaces p) ≤ length p
unfolding skip_spaces
skip_spaces-length [] = omega arith
skip_spaces-length (c ∷ cs) =
    if_cases (λ (q : Bytes). length q ≤ suc (length cs)) (is_space c)
      (λ _. omega (arith, skip_spaces-length cs)) (λ _. omega arith)

after_digits-length : (p : Bytes) → length (after_digits p) ≤ length p
unfolding after_digits
after_digits-length [] = omega arith
after_digits-length (c ∷ cs) =
    if_cases (λ (q : Bytes). length q ≤ suc (length cs)) (is_digit c)
      (λ _. omega (arith, after_digits-length cs)) (λ _. omega arith)

strip_sign-length : (p : Bytes) → length (strip_sign p) ≤ length p
strip_sign-length [] = omega arith
strip_sign-length (c ∷ cs) =
    if_cases (λ (q : Bytes). length q ≤ suc (length cs)) (c == b'-' || c == b'+') (λ _. omega arith)
      (λ _. omega arith)

drop-length : (n : ℕ) (p : Bytes) → length (drop n p) ≤ length p
drop-length zero p = omega arith
drop-length (suc n) [] = omega arith
drop-length (suc n) (c ∷ cs) = omega (arith, drop-length n cs)

next_line-length : (c : ℕ) (cs : Bytes) → length (next_line (c ∷ cs)) ≤ length cs
unfolding next_line
next_line-length c [] = ground arith
next_line-length c (d ∷ ds) =
    if_cases (λ (q : Bytes). length q ≤ suc (length ds)) (c == b'\n') (λ _. omega arith)
      (λ _. omega (arith, next_line-length d ds))

no_line : (n : ℕ) → length (next_line []) ≤ n
unfolding next_line
no_line n = omega arith

next_line-bound : (p : Bytes) (n : ℕ) → length p ≤ suc n → length (next_line p) ≤ n
next_line-bound [] n h = no_line n
next_line-bound (c ∷ cs) n h = omega (arith, h, next_line-length c cs)

abbrev RestWithin : ℕ → Option (ℕ × Bytes) → Type 0
RestWithin n none = Unit
RestWithin n (some (val, rest)) = length rest ≤ n

strtoull_end-length : (p : Bytes) (n : ℕ) → length p ≤ n → RestWithin n (strtoull_end p)
unfolding strtoull_end
strtoull_end-length p n h =
    if_cases (RestWithin n) (starts_with_digit (strip_sign (skip_spaces p)))
      (λ _. omega (
        arith,
        after_digits-length (strip_sign (skip_spaces p)),
        strip_sign-length (skip_spaces p),
        skip_spaces-length p,
      ))
      (λ _. tt)

abbrev ScanWithin {ℓ} : {S : Type ℓ} → ℕ → TagScan S → Type 0
ScanWithin n (TagScan.scanned p found zram s) = length p ≤ n
ScanWithin n (TagScan.malformed s) = Unit

module _ {ℓ} {S : Type ℓ} (store_val : Bytes → ℕ → S → S) (zram_kb : ℕ) where
  store_number-length :
      (tag : Bytes) (found : ℕ) (zram : Bool) (s : S) (o : Option (ℕ × Bytes)) (n : ℕ)
      → RestWithin n o
      → ScanWithin n (store_number store_val zram_kb tag found zram s o)
  store_number-length tag found zram s none n h = tt
  store_number-length tag found zram s (some (val, rest)) n h = h

  scan_tags-length :
      (tags : List Bytes) (p : Bytes) (found : ℕ) (zram : Bool) (s : S)
      → ScanWithin (length p) (scan_tags store_val zram_kb tags p found zram s)
  unfolding scan_tags
  scan_tags-length [] p found zram s = omega arith
  scan_tags-length (tag ∷ tags) p found zram s =
      if_cases (ScanWithin (length p)) (not zram && text_eq tag (codes "Zram:"))
        (λ _. scan_tags-length tags p (found + 1) true (store_val tag zram_kb s))
        (λ _.
          if_cases (ScanWithin (length p)) (has_prefix tag p)
            (λ _. store_number-length tag found zram s _ (length p) (
              strtoull_end-length (skip_blanks (drop (length tag) p)) (length p) (
                omega
                  (arith, skip_blanks-length (drop (length tag) p), drop-length (length tag) p))))
            (λ _. scan_tags-length tags p found zram s))

  -- One round, then the rest of the loop.
  abbrev round : (Bytes → ℕ → Bool → S → S × Bool) → TagScan S → S × Bool
  round rest t = elim t [
    | TagScan.malformed s' ↦ (s', false)
    | TagScan.scanned p' found' zram' s' ↦ rest (next_line p') found' zram' s'
  ]

  same_round :
      (n : ℕ) (rest rest' : Bytes → ℕ → Bool → S → S × Bool) (t : TagScan S)
      → ScanWithin (suc n) t
      → ((p : Bytes) (found : ℕ) (zram : Bool) (s : S)
          → length p ≤ n
          → rest p found zram s ≡ rest' p found zram s)
      → round rest t ≡ round rest' t
  same_round n rest rest' (TagScan.malformed s) h same = refl
  same_round n rest rest' (TagScan.scanned p found zram s) h same =
      same (next_line p) found zram s (next_line-bound p n h)

  -- Once there are as many rounds as bytes in the buffer, their number makes no difference: the loop
  -- has ended by a condition of its own.
  pub scan_text_enough :
      (fuel n : ℕ) (tags : List Bytes) (p : Bytes) (found : ℕ) (zram : Bool) (s : S)
      → length p ≤ fuel
      → length p ≤ n
      → scan_text store_val zram_kb fuel tags p found zram s
        ≡ scan_text store_val zram_kb n tags p found zram s
  unfolding scan_text
  scan_text_enough zero zero tags p found zram s h i = refl
  scan_text_enough zero (suc n) tags [] found zram s h i = refl
  scan_text_enough (suc fuel) zero tags [] found zram s h i = refl
  scan_text_enough (suc fuel) (suc n) tags [] found zram s h i = refl
  scan_text_enough zero (suc n) tags (c ∷ cs) found zram s h i = elim h [ ]
  scan_text_enough (suc fuel) zero tags (c ∷ cs) found zram s h i = elim i [ ]
  scan_text_enough (suc fuel) (suc n) tags (c ∷ cs) found zram s h i =
      if_both (λ (x y : S × Bool). x ≡ y) (not (ltb found (length tags))) refl
        (same_round (length cs) _ _ (scan_tags store_val zram_kb tags (c ∷ cs) found zram s)
          (scan_tags-length tags (c ∷ cs) found zram s)
          (λ p' found' zram' s' l.
            scan_text_enough fuel n tags p' found' zram' s' (omega (arith, l, h))
              (omega (arith, l, i))))
