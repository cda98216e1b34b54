-- ===== src/Examples/Pages.antt =====
-- A kernel with two page frames, and a mapping of two pages.
use android_system_memory_li.Common.{
  ℕ, ◌+◌, ◌/◌, ◌^◌, ◌≡◌, ◌≤◌, refl, ap, arith, true, [], ◌∷◌, some, mul64,
}
use android_system_memory_li.PageAcct.{
  Kernel, closed_acct, init_page_acct, page_present, page_swapped, page_flags, page_map_count,
}
use android_system_memory_li.ProcMem.Pagemap.{
  Config, PagemapFile, Walk, counted, empty_cache, read_vma_stats, walk_pages, finish_walk,
  cache_page, page_step, flagged,
}
use android_system_memory_li.ProcMem.Pagemap.Accounting.{Filled, read_vma_stats-Filled}
use android_system_memory_li.ProcMem.Pagemap.Chunks.{
  Holds, entries_from, walk_entries, walk_pages_chunks,
}
use android_system_memory_li.ProcMem.Usage.{Vma, no_usage, no_vma}

abbrev kernel : Kernel Unit
kernel = record {
  has_page_idle = λ w. true;
  can_open_count = λ w. true;
  can_open_flags = λ w. true;
  can_open_idle = λ w. true;
  read_count = λ w offset. some 1;
  read_flags = λ w offset. some 16;
  write_idle = λ w offset bits. (w, 0);
  read_idle = λ w offset. some 2;
  read_idle_errno = λ w. 0;
}

abbrev config : Config
config = record {
  page_size = 4096;
  pgflags = 0;
  pgflags_mask = 0;
  get_wss = true;
  use_pageidle = true;
  update_mem_usage = true;
  update_swap_usage = true;
}

abbrev walk : Walk Unit
walk = record { usage = no_usage; swap_offsets = []; acct = closed_acct; world = tt }

-- Every page present, with its own number as its frame.
abbrev entry : ℕ → ℕ
entry p = 2 ^ 63 + p

abbrev file : PagemapFile
file offset n = some (entries_from entry (offset / 8) n)

file-Holds : Holds file entry 4096
file-Holds p m h = ap (λ q. some (entries_from entry q m)) (eighth p (omega arith))
  where
    eighth : (p : ℕ) → p ≤ 4096 → mul64 p 8 / 8 ≡ p
    eighth p h = omega arith

walk_pages_chunks_example :
    walk_pages kernel config file 2 1 (empty_cache 2) walk
    ≡ walk_entries kernel config entry 2 1 walk
walk_pages_chunks_example =
    walk_pages_chunks kernel config file entry 4096 file-Holds 2 1 walk (omega arith) (omega arith)

-- Two pages: one is present, the other is swapped out.
abbrev swap_file : PagemapFile
swap_file offset n = some ((2 ^ 63) ∷ (2 ^ 62 + 32) ∷ [])

abbrev vma : Vma
vma = record no_vma { start = 4096; end = 12288 }

stats_succeed : (read_vma_stats kernel config swap_file vma walk).1 ≡ true
unfolding read_vma_stats init_page_acct finish_walk walk_pages cache_page page_step page_present
    page_swapped page_flags flagged page_map_count counted
stats_succeed = refl

read_vma_stats-Filled_example :
    Filled kernel config swap_file 0 2 (read_vma_stats kernel config swap_file vma walk).0
read_vma_stats-Filled_example =
    read_vma_stats-Filled kernel config swap_file vma walk refl stats_succeed
