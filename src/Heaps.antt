-- ===== src/Heaps.antt =====
-- androidprocheaps.cpp and meminfo/androidprocheaps.h: the memory of a process by heaps of the Android
-- runtime. An `int` of AndroidHeapStats is its 32-bit word, to which the source adds a uint64_t.
-- Floating point arithmetic is the parameter `scaled`, StartsWith and EndsWith of libbase are `Affixes`.
pub mod Names
pub mod Places
pub mod Sums
pub mod Totals
use android_system_memory_li.Common.{
  ℕ, zero, suc, ◌+◌, ◌-◌, ◌*◌, ◌/◌, ◌%◌, ◌^◌, Bool, true, false, not, ◌&&◌, ◌||◌, List, [], ◌∷◌,
  Option, none, some, ◌==◌, ltb, if◌then◌else◌, get_or, set, add64, sub64, u32_mod,
}
use android_system_memory_li.Heaps.Names.*
use android_system_memory_li.ProcMem.Usage.{MemUsage, Vma}
use android_system_memory_li.ProcMem.VmaScan.{MapParser, for_each_vma_from_file}
use android_system_memory_li.Text.{Bytes, codes}

pub record AndroidHeapStats : Type 0 where
  pub pss : ℕ
  pub swappable_pss : ℕ
  pub rss : ℕ
  pub private_dirty : ℕ
  pub shared_dirty : ℕ
  pub private_clean : ℕ
  pub shared_clean : ℕ
  pub swapped_out : ℕ
  pub swapped_out_pss : ℕ

abbrev pub no_heap : AndroidHeapStats
no_heap = record {
  pss = 0;
  swappable_pss = 0;
  rss = 0;
  private_dirty = 0;
  shared_dirty = 0;
  private_clean = 0;
  shared_clean = 0;
  swapped_out = 0;
  swapped_out_pss = 0;
}

-- The array that the caller passes, and what the scan captures by reference.
pub record HeapScan : Type 0 where
  pub stats : List AndroidHeapStats
  pub found_swap_pss : Bool
  pub prev_end : ℕ
  pub prev_heap : ℕ

-- `int += uint64_t`.
abbrev pub add_int : ℕ → ℕ → ℕ
add_int i n = (i + n) % u32_mod

unfoldable pub add_heap : MemUsage → ℕ → AndroidHeapStats → AndroidHeapStats
add_heap u swapable_pss s = record {
  pss = add_int s.pss u.pss;
  swappable_pss = add_int s.swappable_pss swapable_pss;
  rss = add_int s.rss u.rss;
  private_dirty = add_int s.private_dirty u.private_dirty;
  shared_dirty = add_int s.shared_dirty u.shared_dirty;
  private_clean = add_int s.private_clean u.private_clean;
  shared_clean = add_int s.shared_clean u.shared_clean;
  swapped_out = add_int s.swapped_out u.swap;
  swapped_out_pss = add_int s.swapped_out_pss u.swap_pss;
}

-- `stats[heap] += ...` for all the fields.
unfoldable pub add_at : MemUsage → ℕ → ℕ → List AndroidHeapStats → List AndroidHeapStats
unfolding add_heap
add_at u swapable_pss heap stats =
    set stats heap (add_heap u swapable_pss (get_or stats heap no_heap))

-- The heaps that are split into others.
abbrev pub has_sub_heap : ℕ → Bool
has_sub_heap heap =
    heap == heap_dalvik || heap == heap_dalvik_other || heap == heap_dex || heap == heap_art

-- `scaled q clean dirty` is `(float)q * clean + dirty` as a uint64_t.
module _ (a : Affixes) (scaled : ℕ → ℕ → ℕ → ℕ) where
  -- `sharing_proportion`, a quotient of integers.
  unfoldable pub sharing_proportion : MemUsage → ℕ
  sharing_proportion u =
      if ltb 0 u.shared_clean || ltb 0 u.shared_dirty
      then sub64 u.pss u.uss / add64 u.shared_clean u.shared_dirty
      else 0

  unfoldable pub swapable_pss : Bool → MemUsage → ℕ
  unfolding sharing_proportion
  swapable_pss is_swappable u =
      if is_swappable && ltb 0 u.pss
      then scaled (sharing_proportion u) u.shared_clean u.private_clean
      else 0

  -- What the scan adds to the array for a mapping at a place.
  unfoldable pub add_place : Place → MemUsage → List AndroidHeapStats → List AndroidHeapStats
  unfolding add_at swapable_pss
  add_place p u stats =
      let n = swapable_pss p.is_swappable u in
      if has_sub_heap p.which_heap
      then add_at u n p.sub_heap (add_at u n p.which_heap stats)
      else add_at u n p.which_heap stats

  -- Where the mapping belongs.
  unfoldable pub vma_place : Vma → HeapScan → Place
  unfolding name_place vma_name
  vma_place v s = name_place a (vma_name a v.name) (v.start == s.prev_end && s.prev_heap == heap_so)

  unfoldable pub vma_scan : Vma → HeapScan → Vma × HeapScan × Bool
  unfolding vma_place add_place
  vma_scan v s =
      let p = vma_place v s in
      (
        v,
        record {
          stats = add_place p v.usage s.stats;
          found_swap_pss = s.found_swap_pss || ltb 0 v.usage.swap_pss;
          prev_end = v.end;
          prev_heap = p.which_heap;
        },
        true,
      )

  -- `*foundSwapPss` and `prev_end` start anew, the array is the caller's.
  abbrev pub new_scan : List AndroidHeapStats → HeapScan
  new_scan stats = record {
    stats = stats;
    found_swap_pss = false;
    prev_end = 0;
    prev_heap = heap_unknown;
  }

  unfoldable pub extract_android_heap_stats_from_file :
      MapParser → Option Bytes → List AndroidHeapStats → HeapScan × Bool
  unfolding for_each_vma_from_file vma_scan
  extract_android_heap_stats_from_file read_maps smaps stats =
      for_each_vma_from_file read_maps vma_scan smaps true (new_scan stats)

  -- `smaps_of` opens /proc/<pid>/smaps.
  unfoldable pub extract_android_heap_stats :
      MapParser → (ℕ → Option Bytes) → ℕ → List AndroidHeapStats → HeapScan × Bool
  unfolding extract_android_heap_stats_from_file
  extract_android_heap_stats read_maps smaps_of pid stats =
      extract_android_heap_stats_from_file read_maps (smaps_of pid) stats
