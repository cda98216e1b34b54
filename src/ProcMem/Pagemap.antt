-- ===== src/ProcMem/Pagemap.antt =====
-- ProcMemInfo::ReadVmaStats of procmeminfo.cpp: the usage of one mapping, page by page, from
-- /proc/<pid>/pagemap, which is read 2048 entries at a time.
pub mod Chunks
pub mod Accounting
use Prim.Native.Nat.{bit_and, min}
use android_system_memory_li.Common.{
  ℕ, zero, suc, ◌+◌, ◌*◌, ◌/◌, ◌%◌, ◌^◌, Bool, true, false, not, ◌&&◌, List, [], ◌∷◌, ◌++◌, Option,
  none, some, ltb, ◌==◌, if◌then◌else◌, add64, sub64, mul64, get_or,
}
use android_system_memory_li.PageAcct.{
  Kernel, PageAcct, page_present, page_swapped, page_pfn, page_swap_offset, kpageflag_thp,
  init_page_acct, page_flags, page_map_count, is_page_idle, IdleStatus, status, failed,
}
use android_system_memory_li.ProcMem.Usage.{MemUsage, Vma}

-- The arguments of ReadVmaStats, the fields of ProcMemInfo that it reads, and getpagesize().
pub record Config : Type 0 where
  pub page_size : ℕ
  pub pgflags : ℕ
  pub pgflags_mask : ℕ
  pub get_wss : Bool
  pub use_pageidle : Bool
  pub update_mem_usage : Bool
  pub update_swap_usage : Bool

abbrev pub pagesz_kb : Config → ℕ
pagesz_kb c = c.page_size / 1024

-- What the loop changes: `vma.usage`, `swap_offsets_`, the PageAcct instance and the kernel.
pub record Walk (World : Type 0) : Type 0 where
  pub usage : MemUsage
  pub swap_offsets : List ℕ
  pub acct : PageAcct
  pub world : World

-- The loop goes on, or ReadVmaStats returns false.
pub data Step (World : Type 0) : Type 0 where
  next : Walk World → Step World
  stop : Walk World → Step World

-- KPF_REFERENCED is bit 2 of the kernel's page flags, and KPF_DIRTY bit 4.
abbrev pub is_referenced_flag : ℕ → Bool
is_referenced_flag flags = flags / 2 ^ 2 % 2 == 1

abbrev pub is_dirty_flag : ℕ → Bool
is_dirty_flag flags = flags / 2 ^ 4 % 2 == 1

abbrev add_if : Bool → ℕ → ℕ → ℕ
add_if b kb x = add64 x (if b then kb else 0)

-- The counters for a page that `counts` mappings share, the part below the working set test.
unfoldable pub count_page : ℕ → Bool → ℕ → MemUsage → MemUsage
count_page kb is_dirty counts u =
    let is_private = counts == 1 in
    let v = record u {
      rss = add64 u.rss kb;
      uss = add_if is_private kb u.uss;
      pss = add64 u.pss (kb / counts);
    } in
    if is_private
    then record v {
      private_dirty = add_if is_dirty kb u.private_dirty;
      private_clean = add_if (not is_dirty) kb u.private_clean;
    }
    else record v {
      shared_dirty = add_if is_dirty kb u.shared_dirty;
      shared_clean = add_if (not is_dirty) kb u.shared_clean;
    }

unfoldable pub add_vss : ℕ → MemUsage → MemUsage
add_vss kb u = record u { vss = add64 u.vss kb }

abbrev pub is_status_one : IdleStatus → Bool
is_status_one (status b) = b
is_status_one (failed e) = false

module _ {World : Type 0} (k : Kernel World) (c : Config) where
  -- The working set test: `IsPageIdle(page_frame) == 1`, or the referenced flag.
  unfoldable pub is_referenced : ℕ → ℕ → Walk World → Walk World × Bool
  is_referenced pfn flags w =
      let (acct', world', s) = is_page_idle k w.world pfn w.acct in
      if c.use_pageidle
      then (record w { acct = acct'; world = world' }, is_status_one s)
      else (w, is_referenced_flag flags)

  abbrev pub in_working_set : ℕ → ℕ → Walk World × Bool → Walk World
  in_working_set flags counts (w, false) = w
  in_working_set flags counts (w, true) = record w {
    usage = count_page (pagesz_kb c) (is_dirty_flag flags) counts (add_vss (pagesz_kb c) w.usage);
  }

  unfoldable pub counted : ℕ → ℕ → ℕ → Walk World → Step World
  counted pfn flags counts w =
      if counts == 0
      then next w
      else if c.get_wss
      then next (in_working_set flags counts (is_referenced pfn flags w))
      else next (record w { usage = count_page (pagesz_kb c) (is_dirty_flag flags) counts w.usage })

  abbrev pub after_count : ℕ → ℕ → Walk World → PageAcct × Option ℕ → Step World
  after_count pfn flags w (acct, none) = stop (record w { acct = acct; swap_offsets = [] })
  after_count pfn flags w (acct, some counts) = counted pfn flags counts (record w { acct = acct })

  unfoldable pub flagged : ℕ → ℕ → Walk World → Step World
  flagged pfn flags w =
      let u = w.usage in
      let thp = if kpageflag_thp flags then add64 u.thp (pagesz_kb c) else u.thp in
      let w' = record w { usage = record u { thp = thp } } in
      if bit_and flags c.pgflags_mask == c.pgflags
      then after_count pfn flags w' (page_map_count k w'.world pfn w'.acct)
      else next w'

  abbrev pub after_flags : ℕ → Walk World → PageAcct × Option ℕ → Step World
  after_flags pfn w (acct, none) = stop (record w { acct = acct; swap_offsets = [] })
  after_flags pfn w (acct, some flags) = flagged pfn flags (record w { acct = acct })

  unfoldable pub swapped_page : ℕ → Walk World → Walk World
  swapped_page page_info w =
      let u = w.usage in
      let swap = if c.update_swap_usage then add64 u.swap (pagesz_kb c) else u.swap in
      record w {
        usage = record u { swap = swap };
        swap_offsets = w.swap_offsets ++ page_swap_offset page_info ∷ [];
      }

  -- The body of the loop, for one entry of the page map.
  unfoldable pub page_step : ℕ → Walk World → Step World
  page_step page_info w =
      if not (page_present page_info) && not (page_swapped page_info)
      then next w
      else if page_swapped page_info
      then next (swapped_page page_info w)
      else if not c.update_mem_usage
      then next w
      else after_flags (page_pfn page_info) w (page_flags k w.world (page_pfn page_info) w.acct)

-- `page_cache`, `cur_page_cache_index`, `num_in_page_cache` and `num_leftover_pages`.
pub record Cache : Type 0 where
  pub entries : List ℕ
  pub index : ℕ
  pub num_in : ℕ
  pub num_leftover : ℕ

abbrev pub empty_cache : ℕ → Cache
empty_cache num_pages = record { entries = []; index = 0; num_in = 0; num_leftover = num_pages }

abbrev pub k_max_pages : ℕ
k_max_pages = 2048

-- `pread64` on the page map: a byte offset and a number of entries; `none` unless all were read.
abbrev pub PagemapFile : Type 0
PagemapFile = ℕ → ℕ → Option (List ℕ)

-- The next chunk, of the pages that are left.
unfoldable pub load_chunk : PagemapFile → ℕ → ℕ → Option Cache
load_chunk pread cur_page leftover =
    let num = if ltb k_max_pages leftover then k_max_pages else leftover in
    elim (pread (mul64 cur_page 8) num) [
      | none ↦ none
      | some entries ↦
          some (record { entries = entries; index = 0; num_in = num; num_leftover = leftover })
    ]

-- The refill, where all entries of the cache are used up.
unfoldable pub refill : PagemapFile → ℕ → Cache → Option Cache
unfolding load_chunk
refill pread cur_page cache = load_chunk pread cur_page (sub64 cache.num_leftover cache.num_in)

unfoldable pub cache_page : PagemapFile → ℕ → Cache → Option Cache
unfolding refill
cache_page pread cur_page cache =
    if cache.index == cache.num_in then refill pread cur_page cache else some cache

abbrev pub num_pages : Config → Vma → ℕ
num_pages c v = sub64 v.end v.start / c.page_size

-- Behind the loop: without a working set the size of the mapping is counted.
unfoldable pub finish_walk : {World : Type 0} → Config → ℕ → Walk World × Bool → Walk World × Bool
unfolding add_vss
finish_walk c pages (w, false) = (w, false)
finish_walk c pages (w, true) = (
  if c.get_wss then w else record w { usage = add_vss (mul64 (pagesz_kb c) pages) w.usage },
  true,
)

module _ {World : Type 0} (k : Kernel World) (c : Config) (pread : PagemapFile) where
  -- The loop, with the pages left to visit, the current page and the cache.
  unfoldable pub walk_pages : ℕ → ℕ → Cache → Walk World → Walk World × Bool
  walk_pages zero cur_page cache w = (w, true)
  walk_pages (suc n) cur_page cache w = elim (cache_page pread cur_page cache) [
    | none ↦ (w, false)
    | some cache' ↦ elim (page_step k c (get_or cache'.entries cache'.index 0) w) [
      | next w' ↦ walk_pages n (cur_page + 1) (record cache' { index = cache'.index + 1 }) w'
      | stop w' ↦ (w', false)
    ]
  ]

  -- ReadVmaStats on a VMA with the usage in `w`.
  unfoldable pub read_vma_stats : Vma → Walk World → Walk World × Bool
  read_vma_stats v w =
      let (acct', done) = init_page_acct k w.world true w.acct in
      let w' = if c.get_wss && c.use_pageidle then record w { acct = acct' } else w in
      let pages = num_pages c v in
      let result =
        finish_walk c pages (walk_pages pages (v.start / c.page_size) (empty_cache pages) w') in
      if c.get_wss && c.use_pageidle && not done then (w', false) else result
