-- ===== src/ProcMem/Rollup/Totals.antt =====
-- The totals of SmapsOrRollup and of SmapsOrRollupPss on one file.
use android_system_memory_li.Common.{
  ℕ, ◌^◌, Bool, true, false, List, [], ◌∷◌, Option, none, some, ◌≡◌, refl, sym, ap, ◌∙◌, arith,
  add64, Bool-cases, inl, inr, drop, ◌<◌,
}
use android_system_memory_li.ProcMem.SmapsField.{first_byte}
use android_system_memory_li.ProcMem.Usage.{MemUsage, clear_usage}
use android_system_memory_li.ProcMem.Rollup.{
  rollup_line, rollup_lines, smaps_or_rollup_from_file, converted, scan_number, add_found,
  pss_lines, smaps_or_rollup_pss_from_file, RollupSupport, ProcFiles, smaps_or_rollup,
  smaps_or_rollup_pss, smaps_or_rollup_file, is_smaps_rollup_supported,
}
use android_system_memory_li.Text.{
  Bytes, codes, has_prefix, skip_spaces, signed_value, digits_value, strtoull, strtoull_end,
  getlines, saturate, negate, starts_with_digit, strip_sign,
}

no_digit_value : (s : Bytes) → starts_with_digit s ≡ false → digits_value 0 s ≡ 0
unfolding digits_value
no_digit_value [] h = refl
no_digit_value (c ∷ cs) h = ground arith

signed_no_digit : (s : Bytes) → starts_with_digit (strip_sign s) ≡ false → signed_value s ≡ 0
unfolding signed_value saturate negate
signed_no_digit [] h = refl
signed_no_digit (c ∷ cs) h = ground (arith, no_digit_value cs, no_digit_value (c ∷ cs))

-- Where sscanf converts nothing, strtoull gives 0.
strtoull_end-value :
    (s : Bytes) (total : ℕ)
    → total < 2 ^ 64
    → add_found (converted (strtoull_end s)) total ≡ add64 total (strtoull s)
unfolding strtoull_end
strtoull_end-value s total h = elim (Bool-cases (starts_with_digit (strip_sign (skip_spaces s)))) [
  | inl yes' ↦ rw yes'
  | inr no' ↦ rw no' (unfold strtoull in rw (signed_no_digit (skip_spaces s) no') (omega arith))
]

first_byte-Pss : (line : Bytes) → has_prefix (codes "Pss:") line ≡ true → first_byte line ≡ b'P'
unfolding has_prefix
first_byte-Pss [] h = cc
first_byte-Pss (c ∷ cs) h = ground arith

-- One line adds the same number to both totals.
rollup_line-pss :
    (line : Bytes) (u : MemUsage)
    → u.pss < 2 ^ 64
    → (rollup_line line u).pss ≡ add_found (scan_number (codes "Pss:") 4 line) u.pss
rollup_line-pss line u h = elim (Bool-cases (has_prefix (codes "Pss:") line)) [
  | inl is_pss ↦
      unfold rollup_line scan_number in
      rw (is_pss, first_byte-Pss line is_pss) (sym (strtoull_end-value (drop 4 line) u.pss h))
  | inr other ↦ unfold rollup_line scan_number in ground arith
]

add64-lt : (a b : ℕ) → add64 a b < 2 ^ 64
add64-lt a b = omega arith

add_found-lt : (o : Option ℕ) (total : ℕ) → total < 2 ^ 64 → add_found o total < 2 ^ 64
add_found-lt none total h = h
add_found-lt (some v) total h = add64-lt total v

rollup_line-lt : (line : Bytes) (u : MemUsage) → u.pss < 2 ^ 64 → (rollup_line line u).pss < 2 ^ 64
rollup_line-lt line u h = rw (rollup_line-pss line u h) (add_found-lt _ u.pss h)

rollup_lines-pss :
    (lines : List Bytes) (u : MemUsage)
    → u.pss < 2 ^ 64
    → (rollup_lines lines u).pss ≡ pss_lines lines u.pss
unfolding rollup_lines pss_lines
rollup_lines-pss [] u h = refl
rollup_lines-pss (l ∷ ls) u h =
    rollup_lines-pss ls (rollup_line l u) (rollup_line-lt l u h)
    ∙ ap (pss_lines ls) (rollup_line-pss l u h)

-- Whatever the file holds, the proportional set size that SmapsOrRollup reports is the one that
-- SmapsOrRollupPss reports; the two succeed on the same files, and remember the same support. (The
-- out parameters must agree at the call, since a file that cannot be opened leaves them alone.)
pub rollup_pss_agree :
    (accessible : Bool) (fs : ProcFiles) (g : RollupSupport) (u : MemUsage) (pss : ℕ)
    → u.pss ≡ pss
    → ((smaps_or_rollup accessible fs g u).1.pss ≡ (smaps_or_rollup_pss accessible fs g pss).1)
      × ((smaps_or_rollup accessible fs g u).2 ≡ (smaps_or_rollup_pss accessible fs g pss).2)
      × ((smaps_or_rollup accessible fs g u).0 ≡ (smaps_or_rollup_pss accessible fs g pss).0)
unfolding smaps_or_rollup smaps_or_rollup_pss
rollup_pss_agree accessible fs g u pss h =
    let a = agree (smaps_or_rollup_file (is_smaps_rollup_supported accessible g).1 fs) in
    (a.0, a.1, refl)
  where
    agree :
        (file : Option Bytes)
        → ((smaps_or_rollup_from_file file u).0.pss ≡ (smaps_or_rollup_pss_from_file file pss).0)
          × ((smaps_or_rollup_from_file file u).1 ≡ (smaps_or_rollup_pss_from_file file pss).1)
    agree none = (h, refl)
    agree (some content) = (rollup_lines-pss (getlines content) (clear_usage u) (omega arith), refl)
