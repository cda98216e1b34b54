-- ===== src/ProcMem/Usage.antt =====
-- include/meminfo/meminfo.h: MemUsage and Vma; add_mem_usage and convert_usage_kb_to_b of
-- procmeminfo.cpp. The counters are uint64_t, so each sum wraps.
use android_system_memory_li.Common.{ℕ, Bool, false, [], add64, mul64}
use android_system_memory_li.Text.{Bytes}

pub record MemUsage : Type 0 where
  pub vss : ℕ
  pub rss : ℕ
  pub pss : ℕ
  pub uss : ℕ
  pub swap : ℕ
  pub swap_pss : ℕ
  pub private_clean : ℕ
  pub private_dirty : ℕ
  pub shared_clean : ℕ
  pub shared_dirty : ℕ
  pub anon_huge_pages : ℕ
  pub shmem_pmd_mapped : ℕ
  pub file_pmd_mapped : ℕ
  pub shared_hugetlb : ℕ
  pub private_hugetlb : ℕ
  pub locked : ℕ
  pub thp : ℕ

-- The constructor, and the `memset` of `Vma::clear`.
abbrev pub no_usage : MemUsage
no_usage = record {
  vss = 0;
  rss = 0;
  pss = 0;
  uss = 0;
  swap = 0;
  swap_pss = 0;
  private_clean = 0;
  private_dirty = 0;
  shared_clean = 0;
  shared_dirty = 0;
  anon_huge_pages = 0;
  shmem_pmd_mapped = 0;
  file_pmd_mapped = 0;
  shared_hugetlb = 0;
  private_hugetlb = 0;
  locked = 0;
  thp = 0;
}

-- `MemUsage::clear` resets the first ten counters only.
unfoldable pub clear_usage : MemUsage → MemUsage
clear_usage u = record u {
  vss = 0;
  rss = 0;
  pss = 0;
  uss = 0;
  swap = 0;
  swap_pss = 0;
  private_clean = 0;
  private_dirty = 0;
  shared_clean = 0;
  shared_dirty = 0;
}

unfoldable pub add_mem_usage : MemUsage → MemUsage → MemUsage
add_mem_usage to from = record to {
  vss = add64 to.vss from.vss;
  rss = add64 to.rss from.rss;
  pss = add64 to.pss from.pss;
  uss = add64 to.uss from.uss;
  swap = add64 to.swap from.swap;
  private_clean = add64 to.private_clean from.private_clean;
  private_dirty = add64 to.private_dirty from.private_dirty;
  shared_clean = add64 to.shared_clean from.shared_clean;
  shared_dirty = add64 to.shared_dirty from.shared_dirty;
}

unfoldable pub convert_usage_kb_to_b : MemUsage → MemUsage
convert_usage_kb_to_b u = record u {
  vss = mul64 u.vss 1024;
  rss = mul64 u.rss 1024;
  pss = mul64 u.pss 1024;
  uss = mul64 u.uss 1024;
  swap = mul64 u.swap 1024;
  private_clean = mul64 u.private_clean 1024;
  private_dirty = mul64 u.private_dirty 1024;
  shared_clean = mul64 u.shared_clean 1024;
  shared_dirty = mul64 u.shared_dirty 1024;
  thp = mul64 u.thp 1024;
}

pub record Vma : Type 0 where
  pub start : ℕ
  pub end : ℕ
  pub offset : ℕ
  pub flags : ℕ
  pub name : Bytes
  pub inode : ℕ
  pub is_shared : Bool
  pub usage : MemUsage

abbrev pub no_vma : Vma
no_vma = record {
  start = 0;
  end = 0;
  offset = 0;
  flags = 0;
  name = [];
  inode = 0;
  is_shared = false;
  usage = no_usage;
}

unfoldable pub clear_vma : Vma → Vma
clear_vma v = record v { usage = no_usage }
