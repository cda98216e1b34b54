-- ===== src/ProcMem/Rollup/Sums.antt =====
-- The sums of SmapsOrRollupFromFile over the lines of the file.
use android_system_memory_li.Common.{
  ℕ, ◌+◌, ◌%◌, ◌^◌, Bool, true, false, List, [], ◌∷◌, some, ◌≡◌, refl, arith, add64, drop, ◌==◌,
  if◌then◌else◌, ◌<◌, sum_by, length, not, ◌||◌,
}
use android_system_memory_li.ProcMem.SmapsField.{first_byte}
use android_system_memory_li.ProcMem.Usage.{MemUsage, clear_usage}
use android_system_memory_li.ProcMem.Rollup.{rollup_line, rollup_lines, smaps_or_rollup_from_file}
use android_system_memory_li.Text.{Bytes, codes, has_prefix, strtoull, getlines}

-- The number behind the tag, or 0 where the line has another tag.
abbrev pub tag_value : Bytes → Bytes → ℕ
tag_value tag line = if has_prefix tag line then strtoull (drop (length tag) line) else 0

abbrev pub total_of : Bytes → List Bytes → ℕ
total_of tag lines = sum_by (tag_value tag) lines % 2 ^ 64

-- The tags differ at some place that both have.
abbrev differ : Bytes → Bytes → Bool
differ (a ∷ p) (b ∷ q) = not (a == b) || differ p q
differ _ _ = false

prefix-differ :
    (p q line : Bytes) → has_prefix p line ≡ true → has_prefix q line ≡ true → differ p q ≡ false
unfolding has_prefix
prefix-differ (a ∷ p) (b ∷ q) [] h k = cc
prefix-differ (a ∷ p) (b ∷ q) (c ∷ line) h k = ground (arith, prefix-differ p q line)
prefix-differ _ _ line h k = refl

first_byte-prefix :
    (t : ℕ) (ts line : Bytes) → has_prefix (t ∷ ts) line ≡ true → first_byte line ≡ t
unfolding has_prefix
first_byte-prefix t ts [] h = cc
first_byte-prefix t ts (c ∷ cs) h = ground arith

-- What the lines add to the totals.
record AddsTo (lines : List Bytes) (u u' : MemUsage) : Type 0 where
  pss : u'.pss ≡ (u.pss + sum_by (tag_value (codes "Pss:")) lines) % 2 ^ 64
  rss : u'.rss ≡ (u.rss + sum_by (tag_value (codes "Rss:")) lines) % 2 ^ 64
  swap_pss : u'.swap_pss ≡ (u.swap_pss + sum_by (tag_value (codes "SwapPss:")) lines) % 2 ^ 64
  private_clean :
      u'.private_clean
      ≡ (u.private_clean + sum_by (tag_value (codes "Private_Clean:")) lines) % 2 ^ 64
  private_dirty :
      u'.private_dirty
      ≡ (u.private_dirty + sum_by (tag_value (codes "Private_Dirty:")) lines) % 2 ^ 64
  uss :
      u'.uss
      ≡ (u.uss
          + sum_by (tag_value (codes "Private_Clean:")) lines
          + sum_by (tag_value (codes "Private_Dirty:")) lines)
        % 2 ^ 64

-- The counters that no tag of the rollup belongs to.
abbrev pub Untouched : MemUsage → MemUsage → Type 0
Untouched start u =
    (u.vss ≡ 0)
    × (u.swap ≡ 0)
    × (u.shared_clean ≡ 0)
    × (u.shared_dirty ≡ 0)
    × (u.anon_huge_pages ≡ start.anon_huge_pages)
    × (u.shmem_pmd_mapped ≡ start.shmem_pmd_mapped)
    × (u.file_pmd_mapped ≡ start.file_pmd_mapped)
    × (u.shared_hugetlb ≡ start.shared_hugetlb)
    × (u.private_hugetlb ≡ start.private_hugetlb)
    × (u.locked ≡ start.locked)
    × (u.thp ≡ start.thp)

rollup_line-Untouched :
    (start : MemUsage) (line : Bytes) (u : MemUsage)
    → Untouched start u
    → Untouched start (rollup_line line u)
unfolding rollup_line
rollup_line-Untouched start line u h = ground arith

rollup_lines-Untouched :
    (start : MemUsage) (lines : List Bytes) (u : MemUsage)
    → Untouched start u
    → Untouched start (rollup_lines lines u)
unfolding rollup_lines
rollup_lines-Untouched start [] u h = h
rollup_lines-Untouched start (l ∷ ls) u h =
    rollup_lines-Untouched start ls (rollup_line l u) (rollup_line-Untouched start l u h)

-- Every total is below 2 ^ 64.
record Small (u : MemUsage) : Type 0 where
  pss : u.pss < 2 ^ 64
  rss : u.rss < 2 ^ 64
  swap_pss : u.swap_pss < 2 ^ 64
  private_clean : u.private_clean < 2 ^ 64
  private_dirty : u.private_dirty < 2 ^ 64
  uss : u.uss < 2 ^ 64

rollup_line-AddsTo :
    (line : Bytes) (u : MemUsage) → Small u → AddsTo (line ∷ []) u (rollup_line line u)
unfolding rollup_line
rollup_line-AddsTo line u s = ground (
  arith,
  prefix-differ (codes "Pss:") (codes "Private_Clean:") line,
  prefix-differ (codes "Pss:") (codes "Private_Dirty:") line,
  prefix-differ (codes "Private_Clean:") (codes "Private_Dirty:") line,
  first_byte-prefix b'P' (codes "ss:") line,
  first_byte-prefix b'P' (codes "rivate_Clean:") line,
  first_byte-prefix b'P' (codes "rivate_Dirty:") line,
  first_byte-prefix b'R' (codes "ss:") line,
  first_byte-prefix b'S' (codes "wapPss:") line,
)

rollup_lines-AddsTo :
    (lines : List Bytes) (u : MemUsage) → Small u → AddsTo lines u (rollup_lines lines u)
unfolding rollup_lines
rollup_lines-AddsTo [] u s = omega arith
rollup_lines-AddsTo (l ∷ ls) u s =
    let one = rollup_line-AddsTo l u s in
    let small : Small (rollup_line l u) = omega arith in
    let rest = rollup_lines-AddsTo ls (rollup_line l u) small in omega arith

-- The totals of a file that can be opened are, modulo 2 ^ 64, the sums over its lines of the numbers
-- behind "Pss:", "Rss:", "SwapPss:", "Private_Clean:" and "Private_Dirty:"; the unique set size is
-- the sum of both private ones. The first ten counters that have no tag are 0, and the others are
-- as they were at the call.
pub smaps_or_rollup_totals :
    (content : Bytes) (u : MemUsage)
    → let r = smaps_or_rollup_from_file (some content) u in
      let lines = getlines content in
      (r.1 ≡ true)
      × (r.0.pss ≡ total_of (codes "Pss:") lines)
      × (r.0.rss ≡ total_of (codes "Rss:") lines)
      × (r.0.swap_pss ≡ total_of (codes "SwapPss:") lines)
      × (r.0.private_clean ≡ total_of (codes "Private_Clean:") lines)
      × (r.0.private_dirty ≡ total_of (codes "Private_Dirty:") lines)
      × (r.0.uss ≡ add64 r.0.private_clean r.0.private_dirty)
      × Untouched u r.0
unfolding smaps_or_rollup_from_file
smaps_or_rollup_totals content u =
    let sums = rollup_lines-AddsTo (getlines content) (clear_usage u) (omega arith) in
    let kept = rollup_lines-Untouched u (getlines content) (clear_usage u) (ground arith) in
    (refl, omega arith, omega arith, omega arith, omega arith, omega arith, omega arith, kept)
