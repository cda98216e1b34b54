-- ===== src/Heaps/Totals.antt =====
-- What ExtractAndroidHeapStatsFromFile of androidprocheaps.cpp leaves in the array of its caller.
use android_system_memory_li.Common.{
  ℕ, ◌+◌, ◌%◌, ◌≡◌, refl, ap, ◌∙◌, arith, Bool, true, false, List, [], ◌∷◌, some, map,
  if◌then◌else◌, if_cases, length, sum_by, u32_mod, All,
}
use android_system_memory_li.Heaps.{
  AndroidHeapStats, HeapScan, add_at, has_sub_heap, swapable_pss, add_place, vma_place, vma_scan,
  new_scan, extract_android_heap_stats_from_file,
}
use android_system_memory_li.Heaps.Names.{
  Affixes, Place, vma_name, num_heap, num_exclusive_heap, heap_dalvik, heap_dalvik_normal,
  heap_dalvik_other, heap_dalvik_other_linearalloc, heap_dex, heap_dex_boot_vdex, heap_art,
  heap_art_app,
}
use android_system_memory_li.Heaps.Places.{is_place, name_place-is_place}
use android_system_memory_li.Heaps.Sums.{
  Field, amount, over_heaps, AreParts, in_range, added, added_dalvik, added_dalvik_other, added_dex,
  added_art, added_exclusive, in_bounds, length-add_at, two_adds, over_heaps-add_at,
}
use android_system_memory_li.ProcMem.Usage.{MemUsage, Vma}
use android_system_memory_li.ProcMem.VmaScan.{MapParser}
use android_system_memory_li.ProcMem.VmaScan.Blocks.{
  Block, IsBlock, block_lines, block_vma, visit, for_each_vma_from_file-visit,
}
use android_system_memory_li.Text.{Bytes, getlines}

module _ (a : Affixes) (scaled : ℕ → ℕ → ℕ → ℕ) where
  over_heaps-add_place :
      (p : Place) (u : MemUsage) (stats : List AndroidHeapStats) (f : Field) (low k : ℕ)
      → is_place p ≡ true
      → length stats ≡ num_heap
      → over_heaps f (add_place a scaled p u stats) low k % u32_mod
        ≡ (over_heaps f stats low k + added low k p (amount f u)) % u32_mod
  unfolding add_place
  over_heaps-add_place p u stats f low k h size = go (has_sub_heap p.which_heap)
    where
      n : ℕ
      n = swapable_pss a scaled p.is_swappable u

      go :
          (b : Bool)
          → over_heaps f
                (if b
                  then add_at u n p.sub_heap (add_at u n p.which_heap stats)
                  else add_at u n p.which_heap stats)
                low
                k
              % u32_mod
            ≡ (over_heaps f stats low k
                + (in_range low k p.which_heap (amount f u)
                    + (if b then in_range low k p.sub_heap (amount f u) else 0)))
              % u32_mod
      go true = omega (
        arith,
        two_adds u n p.which_heap p.sub_heap stats size f low k (in_bounds p h).0 (in_bounds p h).1,
      )
      go false = omega (
        arith,
        over_heaps-add_at u n p.which_heap stats (omega (arith, size, (in_bounds p h).0)) f low k,
      )

  length-add_place :
      (p : Place) (u : MemUsage) (stats : List AndroidHeapStats)
      → length (add_place a scaled p u stats) ≡ length stats
  unfolding add_place
  length-add_place p u stats =
      if_cases (λ (s : List AndroidHeapStats). length s ≡ length stats) (has_sub_heap p.which_heap)
        (λ _. length-add_at u _ p.sub_heap _ ∙ length-add_at u _ p.which_heap stats)
        (λ _. length-add_at u _ p.which_heap stats)

  add_place-AreParts :
      (p : Place) (u : MemUsage) (stats : List AndroidHeapStats)
      → is_place p ≡ true
      → AreParts stats
      → AreParts (add_place a scaled p u stats)
  add_place-AreParts p u stats h v = record {
    size = length-add_place p u stats ∙ v.size;
    dalvik = λ f. omega (
      arith,
      v.dalvik f,
      added_dalvik p (amount f u) h,
      over_heaps-add_place p u stats f heap_dalvik 1 h v.size,
      over_heaps-add_place p u stats f heap_dalvik_normal 4 h v.size,
    );
    dalvik_other = λ f. omega (
      arith,
      v.dalvik_other f,
      added_dalvik_other p (amount f u) h,
      over_heaps-add_place p u stats f heap_dalvik_other 1 h v.size,
      over_heaps-add_place p u stats f heap_dalvik_other_linearalloc 6 h v.size,
    );
    dex = λ f. omega (
      arith,
      v.dex f,
      added_dex p (amount f u) h,
      over_heaps-add_place p u stats f heap_dex 1 h v.size,
      over_heaps-add_place p u stats f heap_dex_boot_vdex 3 h v.size,
    );
    art = λ f. omega (
      arith,
      v.art f,
      added_art p (amount f u) h,
      over_heaps-add_place p u stats f heap_art 1 h v.size,
      over_heaps-add_place p u stats f heap_art_app 2 h v.size,
    );
  }

  -- What holds behind the mappings `vs`, scanned from `s` on.
  abbrev Totals : List Vma → HeapScan → HeapScan × Bool → Type 0
  Totals vs s (s', done) =
      (done ≡ true)
      × AreParts s'.stats
      × ((f : Field)
          → over_heaps f s'.stats 0 num_exclusive_heap % u32_mod
            ≡ (over_heaps f s.stats 0 num_exclusive_heap
                + sum_by (λ (v : Vma). amount f v.usage) vs)
              % u32_mod)

  vma_place-is_place : (v : Vma) (s : HeapScan) → is_place (vma_place a scaled v s) ≡ true
  unfolding vma_place
  vma_place-is_place v s = name_place-is_place a (vma_name a v.name) _

  one_more :
      (v : Vma) (vs : List Vma) (s s' : HeapScan) (r : HeapScan × Bool)
      → s'.stats ≡ add_place a scaled (vma_place a scaled v s) v.usage s.stats
      → AreParts s.stats
      → Totals vs s' r
      → Totals (v ∷ vs) s r
  one_more v vs s s' (s'', done) e parts (d, q, total) = (
    d,
    q,
    λ f. omega (
      arith,
      total f,
      ap (λ t. over_heaps f t 0 num_exclusive_heap) e,
      over_heaps-add_place (vma_place a scaled v s) v.usage s.stats f 0 num_exclusive_heap
          (vma_place-is_place v s) parts.size,
      added_exclusive (vma_place a scaled v s) (amount f v.usage) (vma_place-is_place v s),
    ),
  )

  visit-Totals :
      (read_maps : MapParser) (vs : List Vma) (s : HeapScan)
      → AreParts s.stats
      → Totals vs s (visit read_maps (vma_scan a scaled) vs s)
  unfolding vma_scan
  visit-Totals read_maps [] s parts = (refl, parts, λ f. omega arith)
  visit-Totals read_maps (v ∷ vs) s parts =
      one_more v vs s (vma_scan a scaled v s).1
        (visit read_maps (vma_scan a scaled) vs (vma_scan a scaled v s).1) refl parts
        (visit-Totals read_maps vs (vma_scan a scaled v s).1 (
          add_place-AreParts (vma_place a scaled v s) v.usage s.stats (vma_place-is_place v s)
            parts))

  -- On a file of well-formed blocks and an array in which the parts of each split heap add up to it,
  -- the scan succeeds, the parts still add up, and, in every field but swappablePss, the 20 exclusive
  -- heaps together have grown by exactly what the mappings of the file have (as 32-bit words).
  pub extract_android_heap_stats_from_file_lem :
      (read_maps : MapParser) (content : Bytes) (bs : List Block) (stats : List AndroidHeapStats)
      → getlines content ≡ block_lines bs []
      → All (IsBlock read_maps) bs
      → AreParts stats
      → let r = extract_android_heap_stats_from_file a scaled read_maps (some content) stats in
        (r.1 ≡ true)
        × AreParts r.0.stats
        × ((f : Field)
            → over_heaps f r.0.stats 0 num_exclusive_heap % u32_mod
              ≡ (over_heaps f stats 0 num_exclusive_heap
                  + sum_by (λ (v : Vma). amount f v.usage) (map block_vma bs))
                % u32_mod)
  unfolding extract_android_heap_stats_from_file
  extract_android_heap_stats_from_file_lem read_maps content bs stats e h parts =
      rw
        (for_each_vma_from_file-visit read_maps (vma_scan a scaled) content bs
          (new_scan a scaled stats) e h)
        (visit-Totals read_maps (map block_vma bs) (new_scan a scaled stats) parts)
