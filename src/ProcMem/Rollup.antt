-- ===== src/ProcMem/Rollup.antt =====
-- The readers of procmeminfo.cpp that keep totals only: SmapsOrRollupFromFile,
-- SmapsOrRollupPssFromFile, StatusVmRSSFromFile, IsSmapsRollupSupported, and the methods of
-- ProcMemInfo that choose the file. A file is its bytes, or `none` where fopen fails.
pub mod Totals
pub mod Sums
use android_system_memory_li.Common.{
  ℕ, Bool, true, false, List, [], ◌∷◌, Option, none, some, ◌==◌, if◌then◌else◌, add64, drop,
}
use android_system_memory_li.ProcMem.SmapsField.{first_byte}
use android_system_memory_li.ProcMem.Usage.{MemUsage, clear_usage}
use android_system_memory_li.Text.{Bytes, codes, has_prefix, strtoull, strtoull_end, getlines}

unfoldable pub rollup_p : Bytes → MemUsage → MemUsage
rollup_p line u =
    if has_prefix (codes "Pss:") line
    then record u { pss = add64 u.pss (strtoull (drop 4 line)) }
    else if has_prefix (codes "Private_Clean:") line
    then (let prcl = strtoull (drop 14 line) in
        record u { private_clean = add64 u.private_clean prcl; uss = add64 u.uss prcl })
    else if has_prefix (codes "Private_Dirty:") line
    then (let prdi = strtoull (drop 14 line) in
        record u { private_dirty = add64 u.private_dirty prdi; uss = add64 u.uss prdi })
    else u

-- The body of the loop of SmapsOrRollupFromFile.
unfoldable pub rollup_line : Bytes → MemUsage → MemUsage
unfolding rollup_p
rollup_line line u =
    if first_byte line == b'P'
    then rollup_p line u
    else if first_byte line == b'R'
    then (if has_prefix (codes "Rss:") line
        then record u { rss = add64 u.rss (strtoull (drop 4 line)) }
        else u)
    else if first_byte line == b'S'
    then (if has_prefix (codes "SwapPss:") line
        then record u { swap_pss = add64 u.swap_pss (strtoull (drop 8 line)) }
        else u)
    else u

unfoldable pub rollup_lines : List Bytes → MemUsage → MemUsage
unfolding rollup_line
rollup_lines [] u = u
rollup_lines (line ∷ lines) u = rollup_lines lines (rollup_line line u)

unfoldable pub smaps_or_rollup_from_file : Option Bytes → MemUsage → MemUsage × Bool
unfolding rollup_lines clear_usage getlines
smaps_or_rollup_from_file none u = (u, false)
smaps_or_rollup_from_file (some content) u = (rollup_lines (getlines content) (clear_usage u), true)

abbrev pub converted : Option (ℕ × Bytes) → Option ℕ
converted none = none
converted (some (v, rest)) = some v

-- `sscanf(line, "<tag> %" SCNu64 " kB", &v) == 1`, with `v`. The white space of the format matches
-- any amount; what follows the number does not change the count of conversions.
unfoldable pub scan_number : Bytes → ℕ → Bytes → Option ℕ
scan_number tag size line =
    if has_prefix tag line then converted (strtoull_end (drop size line)) else none

abbrev pub add_found : Option ℕ → ℕ → ℕ
add_found none total = total
add_found (some v) total = add64 total v

unfoldable pub pss_lines : List Bytes → ℕ → ℕ
unfolding scan_number
pss_lines [] total = total
pss_lines (line ∷ lines) total =
    pss_lines lines (add_found (scan_number (codes "Pss:") 4 line) total)

-- The out parameter and the result.
unfoldable pub smaps_or_rollup_pss_from_file : Option Bytes → ℕ → ℕ × Bool
unfolding pss_lines getlines
smaps_or_rollup_pss_from_file none pss = (pss, false)
smaps_or_rollup_pss_from_file (some content) pss = (pss_lines (getlines content) 0, true)

-- The loop stops at the first VmRSS line.
unfoldable pub status_lines : List Bytes → ℕ × Bool
unfolding scan_number
status_lines [] = (0, false)
status_lines (line ∷ lines) = elim (scan_number (codes "VmRSS:") 6 line) [
  | some v ↦ (v, true)
  | none ↦ status_lines lines
]

unfoldable pub status_vm_rss_from_file : Option Bytes → ℕ → ℕ × Bool
unfolding status_lines getlines
status_vm_rss_from_file none rss = (rss, false)
status_vm_rss_from_file (some content) rss = status_lines (getlines content)

-- `g_rollup_support`.
pub data RollupSupport : Type 0 where
  untried supported unsupported : RollupSupport

-- IsSmapsRollupSupported: the new value of the global, and the result. The argument is what
-- `access("/proc/self/smaps_rollup", F_OK | R_OK)` finds: true where it is accessible.
unfoldable pub is_smaps_rollup_supported : Bool → RollupSupport → RollupSupport × Bool
is_smaps_rollup_supported accessible supported = (supported, true)
is_smaps_rollup_supported accessible unsupported = (unsupported, false)
is_smaps_rollup_supported true untried = (supported, true)
is_smaps_rollup_supported false untried = (unsupported, false)

-- The files of one process under /proc/<pid>.
pub record ProcFiles : Type 0 where
  pub smaps : Option Bytes
  pub smaps_rollup : Option Bytes
  pub status : Option Bytes

abbrev pub smaps_or_rollup_file : Bool → ProcFiles → Option Bytes
smaps_or_rollup_file true fs = fs.smaps_rollup
smaps_or_rollup_file false fs = fs.smaps

-- ProcMemInfo::SmapsOrRollup and ProcMemInfo::SmapsOrRollupPss: the global, the out parameter and
-- the result.
unfoldable pub smaps_or_rollup :
    Bool → ProcFiles → RollupSupport → MemUsage → RollupSupport × MemUsage × Bool
unfolding is_smaps_rollup_supported smaps_or_rollup_from_file
smaps_or_rollup accessible fs g u =
    let (g', found) = is_smaps_rollup_supported accessible g in
    let (u', done) = smaps_or_rollup_from_file (smaps_or_rollup_file found fs) u in (g', u', done)

unfoldable pub smaps_or_rollup_pss : Bool → ProcFiles → RollupSupport → ℕ → RollupSupport × ℕ × Bool
unfolding is_smaps_rollup_supported smaps_or_rollup_pss_from_file
smaps_or_rollup_pss accessible fs g pss =
    let (g', found) = is_smaps_rollup_supported accessible g in
    let (pss', done) = smaps_or_rollup_pss_from_file (smaps_or_rollup_file found fs) pss in
    (g', pss', done)

-- ProcMemInfo::StatusVmRSS.
unfoldable pub status_vm_rss : ProcFiles → ℕ → ℕ × Bool
unfolding status_vm_rss_from_file
status_vm_rss fs rss = status_vm_rss_from_file fs.status rss
