-- ===== src/Examples/Smaps.antt =====
-- A small smaps file, read by the functions of procmeminfo.cpp and androidprocheaps.cpp.
use android_system_memory_li.Common.{
  sum_by, u32_mod, ◌+◌, ◌%◌, ◌≡◌, ◌↔◌, ◌^◌, refl, arith, Bool, true, false, List, [], ◌∷◌, ◌++◌,
  none, some, ◌==◌, if◌then◌else◌, add64, replicate, drop, length, ◌-◌,
}
use android_system_memory_li.Heaps.{no_heap, extract_android_heap_stats_from_file}
use android_system_memory_li.Heaps.Names.{num_exclusive_heap, Affixes, num_heap, name_place}
use android_system_memory_li.Heaps.Places.{is_place, name_place-is_place}
use android_system_memory_li.Heaps.Sums.{AreParts, amount, over_heaps, Field, field}
use android_system_memory_li.Heaps.Totals.{extract_android_heap_stats_from_file_lem}
use android_system_memory_li.PageAcct.{Kernel, closed_acct}
use android_system_memory_li.ProcMem.Escape.{escape_csv_string, escape_json_string}
use android_system_memory_li.ProcMem.Escape.RoundTrip.{
  IsText, read_csv_field, read_json_string, quotes, read-escape_csv_string, read-escape_json_string,
}
use android_system_memory_li.ProcMem.Process.{Env, ProcMemInfo, smaps, read_maps}
use android_system_memory_li.ProcMem.Process.Smaps.{collected, smaps_collects}
use android_system_memory_li.ProcMem.Process.Usages.{Outcome, read_maps-Outcome}
use android_system_memory_li.ProcMem.Rollup.{
  ProcFiles, untried, smaps_or_rollup, smaps_or_rollup_pss, smaps_or_rollup_from_file,
}
use android_system_memory_li.ProcMem.Rollup.Sums.{total_of, Untouched, smaps_or_rollup_totals}
use android_system_memory_li.ProcMem.Rollup.Totals.{rollup_pss_agree}
use android_system_memory_li.ProcMem.SmapsField.{parse_smaps_field, first_byte, is_field}
use android_system_memory_li.ProcMem.SmapsField.Tags.{Tag, store, tag_line, parse_smaps_field-tag}
use android_system_memory_li.ProcMem.Usage.{Vma, no_usage, no_vma}
use android_system_memory_li.ProcMem.VmaScan.{MapInfo, MapParser, for_each_vma_from_file}
use android_system_memory_li.ProcMem.VmaScan.Blocks.{
  Block, IsBlock, block_lines, block_vma, visit, IsMalformed, for_each_vma_from_file-visit,
  for_each_vma_from_file_malformed,
}
use android_system_memory_li.Text.{Bytes, codes, getlines, has_prefix, text_eq}

parse_smaps_field-tag_example :
    parse_smaps_field (tag_line Tag.pss 32 (b'1' ∷ b'2' ∷ codes " kB\n")) no_usage
    ≡ (store Tag.pss 12 no_usage, true)
parse_smaps_field-tag_example =
    parse_smaps_field-tag Tag.pss 32 b'1' [] (b'2' ∷ []) (codes " kB\n") no_usage (refl, tt)
      (refl, (refl, tt)) refl (omega arith)

abbrev heap_map : MapInfo
heap_map = record {
  start = 4096;
  end = 8192;
  flags = 3;
  pgoff = 0;
  inode = 0;
  name = codes "[anon:dalvik-main space]";
  shared = false;
}

-- A line that starts with M describes the mapping above, every other line none.
abbrev parser : MapParser
parser line = if first_byte line == b'M' then (heap_map ∷ [], true) else ([], false)

abbrev block : Block
block = record { header = codes "M\n"; info = heap_map; fields = codes "Pss: 4 kB\n" ∷ [] }

abbrev text : Bytes
text = codes "M\nPss: 4 kB\n"

text_lines : getlines text ≡ block_lines (block ∷ []) []
unfolding getlines
text_lines = refl

block-IsBlock : IsBlock parser block
unfolding is_field
block-IsBlock = (refl, refl, (refl, tt))

-- The callback keeps the VMAs.
abbrev keep : Vma → List Vma → Vma × List Vma × Bool
keep v vs = (v, vs ++ v ∷ [], true)

for_each_vma_from_file-visit_example :
    for_each_vma_from_file parser keep (some text) true []
    ≡ visit parser keep (block_vma block ∷ []) []
for_each_vma_from_file-visit_example =
    for_each_vma_from_file-visit parser keep text (block ∷ []) [] text_lines (block-IsBlock, tt)

abbrev bad_text : Bytes
bad_text = codes "M\nPss: 4 kB\n?\n"

bad_lines : getlines bad_text ≡ block_lines (block ∷ []) (codes "?\n" ∷ [])
unfolding getlines
bad_lines = refl

bad-IsMalformed : IsMalformed parser keep (codes "?\n")
unfolding is_field
bad-IsMalformed = (refl, refl)

for_each_vma_from_file_malformed_example :
    for_each_vma_from_file parser keep (some bad_text) true []
    ≡ ((visit parser keep (block_vma block ∷ []) []).0, false)
for_each_vma_from_file_malformed_example =
    for_each_vma_from_file_malformed parser keep bad_text block [] (codes "?\n") [] [] bad_lines
      (block-IsBlock, tt) bad-IsMalformed

smaps_or_rollup_totals_example :
    let r = smaps_or_rollup_from_file (some (codes "Rss: 8 kB\nPss: 4 kB\n")) no_usage in
    let lines = getlines (codes "Rss: 8 kB\nPss: 4 kB\n") in
    (r.1 ≡ true)
    × (r.0.pss ≡ total_of (codes "Pss:") lines)
    × (r.0.rss ≡ total_of (codes "Rss:") lines)
    × (r.0.swap_pss ≡ total_of (codes "SwapPss:") lines)
    × (r.0.private_clean ≡ total_of (codes "Private_Clean:") lines)
    × (r.0.private_dirty ≡ total_of (codes "Private_Dirty:") lines)
    × (r.0.uss ≡ add64 r.0.private_clean r.0.private_dirty)
    × Untouched no_usage r.0
smaps_or_rollup_totals_example = smaps_or_rollup_totals (codes "Rss: 8 kB\nPss: 4 kB\n") no_usage

abbrev files : ProcFiles
files = record { smaps = some text; smaps_rollup = some (codes "Pss: 4 kB\n"); status = none }

rollup_pss_agree_example :
    ((smaps_or_rollup true files untried no_usage).1.pss
      ≡ (smaps_or_rollup_pss true files untried 0).1)
    × ((smaps_or_rollup true files untried no_usage).2
        ≡ (smaps_or_rollup_pss true files untried 0).2)
    × ((smaps_or_rollup true files untried no_usage).0
        ≡ (smaps_or_rollup_pss true files untried 0).0)
rollup_pss_agree_example = rollup_pss_agree true files untried no_usage 0 refl

read-escape_json_string_example :
    (read_json_string false (escape_json_string (codes "a\"/\n") ++ codes ",")
      ≡ some (codes "a\"/\n", codes ","))
    ↔ IsText (codes "a\"/\n")
read-escape_json_string_example = read-escape_json_string false (codes "a\"/\n") (codes ",")

read-escape_csv_string_example :
    (read_csv_field (escape_csv_string (codes "a\"b")) ≡ some (codes "a\"b", []))
    ↔ (quotes (codes "a\"b") ≡ 0)
read-escape_csv_string_example = read-escape_csv_string (codes "a\"b")

abbrev kernel : Kernel Unit
kernel = record {
  has_page_idle = λ w. true;
  can_open_count = λ w. true;
  can_open_flags = λ w. true;
  can_open_idle = λ w. true;
  read_count = λ w offset. some 1;
  read_flags = λ w offset. some 0;
  write_idle = λ w offset bits. (w, 0);
  read_idle = λ w offset. some 1;
  read_idle_errno = λ w. 0;
}

-- One mapping of one page, which is present.
abbrev env : Env
env = record {
  page_size = 4096;
  is_x86_64 = false;
  maps = (heap_map ∷ [], true);
  pagemap = some (λ offset n. some (replicate n (2 ^ 63)));
}

abbrev process : ProcMemInfo Unit
process = record {
  get_wss = false;
  pgflags = 0;
  pgflags_mask = 0;
  maps = [];
  usage = no_usage;
  swap_offsets = [];
  acct = closed_acct;
  world = tt;
}

smaps_collects_example :
    smaps kernel env parser (some text) true false process
    ≡ collected kernel env true (block_vma block ∷ []) process
smaps_collects_example =
    smaps_collects kernel env parser text (block ∷ []) true process refl text_lines
      (block-IsBlock, tt)

read_maps-Outcome_example :
    Outcome kernel env no_usage (read_maps kernel env false false true true process)
read_maps-Outcome_example = read_maps-Outcome kernel env false false true process refl

abbrev with_map : ProcMemInfo Unit
with_map = record process { maps = no_vma ∷ [] }

abbrev affixes : Affixes
affixes = record {
  starts_with = λ s t. has_prefix t s;
  ends_with = λ s t. text_eq (drop (length s - length t) s) t;
}

name_place-is_place_example : is_place (name_place affixes (codes "[heap]") false) ≡ true
name_place-is_place_example = name_place-is_place affixes (codes "[heap]") false

no_field : (f : Field) → field f no_heap ≡ 0
no_field Field.pss = refl
no_field Field.rss = refl
no_field Field.private_dirty = refl
no_field Field.shared_dirty = refl
no_field Field.private_clean = refl
no_field Field.shared_clean = refl
no_field Field.swapped_out = refl
no_field Field.swapped_out_pss = refl

zeros-AreParts : AreParts (replicate num_heap no_heap)
zeros-AreParts = record {
  size = refl;
  dalvik = λ f. omega (arith, no_field f);
  dalvik_other = λ f. omega (arith, no_field f);
  dex = λ f. omega (arith, no_field f);
  art = λ f. omega (arith, no_field f);
}

extract_android_heap_stats_from_file_lem_example :
    let zeros = replicate num_heap no_heap in
    let r =
      extract_android_heap_stats_from_file affixes (λ q clean dirty. q) parser (some text) zeros in
    (r.1 ≡ true)
    × AreParts r.0.stats
    × ((f : Field)
        → over_heaps f r.0.stats 0 num_exclusive_heap % u32_mod
          ≡ (over_heaps f zeros 0 num_exclusive_heap
              + sum_by (λ (v : Vma). amount f v.usage) (block_vma block ∷ []))
            % u32_mod)
extract_android_heap_stats_from_file_lem_example =
    extract_android_heap_stats_from_file_lem affixes (λ q clean dirty. q) parser text (block ∷ [])
      (replicate num_heap no_heap) text_lines (block-IsBlock, tt) zeros-AreParts
