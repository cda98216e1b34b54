-- ===== src/ProcMem/SmapsField.antt =====
-- parse_smaps_field of procmeminfo.cpp: one line of /proc/<pid>/smaps that gives a counter.
pub mod Tags
use android_system_memory_li.Common.{
  ℕ, Bool, true, false, not, ◌&&◌, [], ◌∷◌, ◌==◌, if◌then◌else◌, add64,
}
use android_system_memory_li.ProcMem.Usage.{MemUsage}
use android_system_memory_li.Text.{Bytes, codes, is_space, has_prefix, skip_spaces, strtoull}

-- `while (*end && !isspace(*end)) end++`: where `end` is left.
unfoldable pub token_end : Bytes → Bytes
token_end [] = []
token_end (c ∷ cs) = if not (c == 0) && not (is_space c) then token_end cs else c ∷ cs

-- `end > line && *(end - 1) == ':'`; the flag is what the byte before `end` satisfies.
unfoldable pub token_colon : Bool → Bytes → Bool
token_colon last [] = last
token_colon last (c ∷ cs) =
    if not (c == 0) && not (is_space c) then token_colon (c == b':') cs else last

-- `*end`, as a test.
abbrev pub has_byte : Bytes → Bool
has_byte [] = false
has_byte (c ∷ cs) = not (c == 0)

unfoldable pub field_p : Bytes → ℕ → MemUsage → MemUsage
unfolding has_prefix
field_p line v u =
    if has_prefix (codes "Pss:") line
    then record u { pss = v }
    else if has_prefix (codes "Private_Clean:") line
    then record u { private_clean = v; uss = add64 u.uss v }
    else if has_prefix (codes "Private_Dirty:") line
    then record u { private_dirty = v; uss = add64 u.uss v }
    else if has_prefix (codes "Private_Hugetlb:") line
    then record u { private_hugetlb = v }
    else u

unfoldable pub field_s : Bytes → ℕ → MemUsage → MemUsage
unfolding has_prefix
field_s line v u =
    if has_prefix (codes "Size:") line
    then record u { vss = v }
    else if has_prefix (codes "Shared_Clean:") line
    then record u { shared_clean = v }
    else if has_prefix (codes "Shared_Dirty:") line
    then record u { shared_dirty = v }
    else if has_prefix (codes "Swap:") line
    then record u { swap = v }
    else if has_prefix (codes "SwapPss:") line
    then record u { swap_pss = v }
    else if has_prefix (codes "ShmemPmdMapped:") line
    then record u { shmem_pmd_mapped = v }
    else if has_prefix (codes "Shared_Hugetlb:") line
    then record u { shared_hugetlb = v }
    else u

-- The `switch` on `line[0]`; `v` is the number behind the tag.
unfoldable pub smaps_field : ℕ → Bytes → ℕ → MemUsage → MemUsage
unfolding field_p field_s has_prefix
smaps_field first line v u =
    if first == b'P'
    then field_p line v u
    else if first == b'S'
    then field_s line v u
    else if first == b'R'
    then (if has_prefix (codes "Rss:") line then record u { rss = v } else u)
    else if first == b'A'
    then (if has_prefix (codes "AnonHugePages:") line then record u { anon_huge_pages = v } else u)
    else if first == b'F'
    then (if has_prefix (codes "FilePmdMapped:") line then record u { file_pmd_mapped = v } else u)
    else if first == b'L'
    then (if has_prefix (codes "Locked:") line then record u { locked = v } else u)
    else u

-- Is the line a name with a colon, then white space?
unfoldable pub is_field : Bytes → Bool
unfolding token_end token_colon
is_field line = has_byte (token_end line) && token_colon false line

abbrev pub first_byte : Bytes → ℕ
first_byte [] = 0
first_byte (c ∷ cs) = c

-- The counters after the line, and whether it was a line of counters.
unfoldable pub parse_smaps_field : Bytes → MemUsage → MemUsage × Bool
unfolding is_field token_end
parse_smaps_field line u =
    if is_field line
    then (smaps_field (first_byte line) line (strtoull (skip_spaces (token_end line))) u, true)
    else (u, false)
