-- ===== src/ProcMem/VmaScan.antt =====
-- ForEachVmaFromFile of procmeminfo.cpp. The parser of a line of /proc/<pid>/maps is libprocinfo's
-- ReadMapFileContent, which is not part of the repository: it is the parameter `read_maps`, the
-- entries that it passes to its callback and its result. The callback of the caller gets the VMA
-- by reference, and works on a state `S` of its own.
pub mod Blocks
use android_system_memory_li.Common.{
  Bool, true, false, List, [], ◌∷◌, Option, none, some, if◌then◌else◌,
}
use android_system_memory_li.ProcMem.SmapsField.{parse_smaps_field}
use android_system_memory_li.ProcMem.Usage.{Vma, no_vma, clear_vma, MemUsage}
use android_system_memory_li.Text.{Bytes, getlines}
use android_system_memory_li.Common.{ℕ}

-- What `read_maps` reports of one mapping: android::procinfo::MapInfo, as far as it is used.
pub record MapInfo : Type 0 where
  pub start : ℕ
  pub end : ℕ
  pub flags : ℕ
  pub pgoff : ℕ
  pub inode : ℕ
  pub name : Bytes
  pub shared : Bool

abbrev pub MapParser : Type 0
MapParser = Bytes → List MapInfo × Bool

abbrev pub VmaCallback {ℓ} : Type ℓ → Type ℓ
VmaCallback S = Vma → S → Vma × S × Bool

unfoldable pub fill_vma : Vma → MapInfo → Vma
fill_vma v m = record v {
  start = m.start;
  end = m.end;
  flags = m.flags;
  offset = m.pgoff;
  name = m.name;
  inode = m.inode;
  is_shared = m.shared;
}

unfoldable pub fill_all : Vma → List MapInfo → Vma
unfolding fill_vma
fill_all v [] = v
fill_all v (m ∷ ms) = fill_all (fill_vma v m) ms

-- Behind one line: the loop goes on, with `parsing_vma`, the VMA and the caller's state, or the
-- function returns false.
pub data Next {ℓ} (S : Type ℓ) : Type ℓ where
  go : Bool → Vma → S → Next S
  fail : S → Next S

-- `if (!callback(vma)) return false;`, then `next`.
abbrev pub and_then {ℓ} : {S : Type ℓ} → Vma × S × Bool → (Vma → S → Next S) → Next S
and_then (v, s, true) next = next v s
and_then (v, s, false) next = fail s

module _ {ℓ} {S : Type ℓ} (read_maps : MapParser) (callback : VmaCallback S) where
  -- The part of the loop's body below the counters: the line starts a VMA.
  abbrev pub after_header : Bool → Vma → S → List MapInfo × Bool → Next S
  after_header read_smaps_fields v s (infos, false) = fail s
  after_header true v s (infos, true) = go true (fill_all v infos) s
  after_header false v s (infos, true) = and_then (callback (fill_all v infos) s) (go false)

  unfoldable pub header_line : Bool → Bytes → Vma → S → Next S
  unfolding fill_all clear_vma
  header_line read_smaps_fields line v s =
      after_header read_smaps_fields (clear_vma v) s (read_maps line)

  abbrev pub after_field : Bool → Bytes → Vma → S → MemUsage × Bool → Next S
  after_field read_smaps_fields line v s (u, true) = go true (record v { usage = u }) s
  after_field read_smaps_fields line v s (u, false) =
      and_then (callback (record v { usage = u }) s) (header_line read_smaps_fields line)

  -- The body of the loop; the second flag is `parsing_vma`.
  unfoldable pub line_step : Bool → Bool → Bytes → Vma → S → Next S
  unfolding header_line
  line_step read_smaps_fields false line v s = header_line read_smaps_fields line v s
  line_step read_smaps_fields true line v s =
      after_field read_smaps_fields line v s (parse_smaps_field line v.usage)

  -- Behind the loop: the last VMA is reported.
  abbrev pub at_end : Bool → Vma → S → S × Bool
  at_end false v s = (s, true)
  at_end true v s = let (v', s', done) = callback v s in (s', done)

  unfoldable pub scan_lines : Bool → Bool → Vma → S → List Bytes → S × Bool
  scan_lines read_smaps_fields parsing v s [] = at_end parsing v s
  scan_lines read_smaps_fields parsing v s (line ∷ lines) =
      elim (line_step read_smaps_fields parsing line v s) [
        | go parsing' v' s' ↦ scan_lines read_smaps_fields parsing' v' s' lines
        | fail s' ↦ (s', false)
      ]

  -- The whole function; `none` is a file that cannot be opened.
  unfoldable pub for_each_vma_from_file : Option Bytes → Bool → S → S × Bool
  unfolding scan_lines getlines
  for_each_vma_from_file none read_smaps_fields s = (s, false)
  for_each_vma_from_file (some content) read_smaps_fields s =
      scan_lines read_smaps_fields false no_vma s (getlines content)
