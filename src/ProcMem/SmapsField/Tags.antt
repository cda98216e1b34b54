-- ===== src/ProcMem/SmapsField/Tags.antt =====
-- What each tag of a smaps line does to the counters.
use android_system_memory_li.Common.{
  ℕ, ◌<◌, ◌^◌, true, false, [], ◌∷◌, ◌++◌, ◌≡◌, refl, ap, arith, add64,
}
use android_system_memory_li.ProcMem.Usage.{MemUsage}
use android_system_memory_li.ProcMem.SmapsField.{
  token_end, smaps_field, is_field, parse_smaps_field, first_byte,
}
use android_system_memory_li.Text.{Bytes, codes, is_space, skip_spaces, strtoull, starts_with_digit}
use android_system_memory_li.Text.Numbers.{AllSpaces, AllDigits, decimal, strtoull_digits}

-- The fifteen lines that the reader knows.
pub data Tag : Type 0 where
  size rss pss private_clean private_dirty private_hugetlb : Tag
  shared_clean shared_dirty shared_hugetlb swap swap_pss : Tag
  shmem_pmd_mapped anon_huge_pages file_pmd_mapped locked : Tag

abbrev pub tag_text : Tag → Bytes
tag_text size = codes "Size:"
tag_text rss = codes "Rss:"
tag_text pss = codes "Pss:"
tag_text private_clean = codes "Private_Clean:"
tag_text private_dirty = codes "Private_Dirty:"
tag_text private_hugetlb = codes "Private_Hugetlb:"
tag_text shared_clean = codes "Shared_Clean:"
tag_text shared_dirty = codes "Shared_Dirty:"
tag_text shared_hugetlb = codes "Shared_Hugetlb:"
tag_text swap = codes "Swap:"
tag_text swap_pss = codes "SwapPss:"
tag_text shmem_pmd_mapped = codes "ShmemPmdMapped:"
tag_text anon_huge_pages = codes "AnonHugePages:"
tag_text file_pmd_mapped = codes "FilePmdMapped:"
tag_text locked = codes "Locked:"

-- The counter that belongs to each; the two private ones add to the unique set size as well.
abbrev pub store : Tag → ℕ → MemUsage → MemUsage
store size v u = record u { vss = v }
store rss v u = record u { rss = v }
store pss v u = record u { pss = v }
store private_clean v u = record u { private_clean = v; uss = add64 u.uss v }
store private_dirty v u = record u { private_dirty = v; uss = add64 u.uss v }
store private_hugetlb v u = record u { private_hugetlb = v }
store shared_clean v u = record u { shared_clean = v }
store shared_dirty v u = record u { shared_dirty = v }
store shared_hugetlb v u = record u { shared_hugetlb = v }
store swap v u = record u { swap = v }
store swap_pss v u = record u { swap_pss = v }
store shmem_pmd_mapped v u = record u { shmem_pmd_mapped = v }
store anon_huge_pages v u = record u { anon_huge_pages = v }
store file_pmd_mapped v u = record u { file_pmd_mapped = v }
store locked v u = record u { locked = v }

-- The line of a tag: its name, white space, and what follows.
abbrev pub tag_line : Tag → ℕ → Bytes → Bytes
tag_line t w tail = tag_text t ++ (w ∷ tail)

token_end_space : (w : ℕ) (tail : Bytes) → is_space w ≡ true → token_end (w ∷ tail) ≡ w ∷ tail
unfolding token_end
token_end_space w tail h = ground arith

token_end-tag :
    (t : Tag) (w : ℕ) (tail : Bytes) → is_space w ≡ true → token_end (tag_line t w tail) ≡ w ∷ tail
token_end-tag size w tail h = unfold token_end in token_end_space w tail h
token_end-tag _ w tail h = unfold token_end in token_end_space w tail h

is_field-tag :
    (t : Tag) (w : ℕ) (tail : Bytes) → is_space w ≡ true → is_field (tag_line t w tail) ≡ true
unfolding is_field
is_field-tag size w tail h = ground arith
is_field-tag _ w tail h = ground arith

-- With the tag in front, the number behind it lands in the counter.
smaps_field-tag :
    (t : Tag) (w v : ℕ) (tail : Bytes) (u : MemUsage)
    → smaps_field (first_byte (tag_line t w tail)) (tag_line t w tail) v u ≡ store t v u
unfolding smaps_field
smaps_field-tag size w v tail u = refl
smaps_field-tag _ w v tail u = refl

parse-field :
    (line : Bytes) (u : MemUsage)
    → is_field line ≡ true
    → parse_smaps_field line u
      ≡ (smaps_field (first_byte line) line (strtoull (skip_spaces (token_end line))) u, true)
unfolding parse_smaps_field
parse-field line u h = rw h

skip_spaces_twice : (s : Bytes) → skip_spaces (skip_spaces s) ≡ skip_spaces s
unfolding skip_spaces
skip_spaces_twice [] = refl
skip_spaces_twice (c ∷ cs) = ground (arith, skip_spaces_twice cs)

strtoull-skip_spaces : (s : Bytes) → strtoull (skip_spaces s) ≡ strtoull s
unfolding strtoull
strtoull-skip_spaces s = rw (skip_spaces_twice s)

-- A line made of a known tag, white space, decimal digits worth less than 2 ^ 64 and a rest that
-- starts with no digit is accepted, and changes exactly the counters of that tag.
pub parse_smaps_field-tag :
    (t : Tag) (w d : ℕ) (ws ds rest : Bytes) (u : MemUsage)
    → AllSpaces (w ∷ ws)
    → AllDigits (d ∷ ds)
    → starts_with_digit rest ≡ false
    → decimal 0 (d ∷ ds) < 2 ^ 64
    → parse_smaps_field (tag_line t w (ws ++ (d ∷ (ds ++ rest)))) u
      ≡ (store t (decimal 0 (d ∷ ds)) u, true)
parse_smaps_field-tag t w d ws ds rest u hw hd hr small =
    let tail = ws ++ (d ∷ (ds ++ rest)) in
    rw
      (
        parse-field (tag_line t w tail) u (is_field-tag t w tail hw.0),
        token_end-tag t w tail hw.0,
        strtoull-skip_spaces (w ∷ tail),
        strtoull_digits (w ∷ ws) d ds rest hw hd hr small,
      )
      (ap (λ (x : MemUsage). (x, true)) (smaps_field-tag t w (decimal 0 (d ∷ ds)) tail u))
