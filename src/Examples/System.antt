-- ===== src/Examples/System.antt =====
-- Buffers, zram devices, GPU memory and a meminfo file.
use android_system_memory_li.Common.{
  ℕ, ◌+◌, ◌/◌, ◌%◌, ◌^◌, ◌≡◌, refl, arith, Bool, true, false, List, [], ◌∷◌, none, some, All, ltb,
  if◌then◌else◌, u64_mod,
}
use android_system_memory_li.Dmabuf.{AndroidBase}
use android_system_memory_li.Dmabuf.Accounts.{
  Accounts, read_dma_buf_info-Accounts, read_procfs_dma_bufs-Accounts, HasPss,
  read_dma_buf_info-HasPss,
}
use android_system_memory_li.Dmabuf.Procfs.{
  FdInfoFile, FdStat, PidFiles, World, read_dma_buf_info, read_procfs_dma_bufs,
}
use android_system_memory_li.Dmabuf.Sysfs.{
  BufferDir, no_stats, get_dmabuf_sysfs_stats, get_dmabuf_total_exported_kb,
}
use android_system_memory_li.Dmabuf.Totals.{
  IsSummed, get_dmabuf_sysfs_stats-IsSummed, get_dmabuf_total_exported_kb_lem,
}
use android_system_memory_li.ProcMem.VmaScan.{MapInfo}
use android_system_memory_li.SysMem.Gpu.{GpuMap, GpuValue, read_per_process_gpu_mem}
use android_system_memory_li.SysMem.MemInfo.{default_tags, scan_text, store_in_map}
use android_system_memory_li.SysMem.Sizes.{
  AreDevices, Sums, total, mem_zram_kb_lem, read_per_process_gpu_mem_lem,
}
use android_system_memory_li.SysMem.Termination.{scan_text_enough}
use android_system_memory_li.SysMem.Zram.{ZramDevice, mem_zram_kb, zram_bytes, mem_zram_device}
use android_system_memory_li.Text.{Bytes, codes, has_prefix, strtoull, starts_with_digit}

-- Nothing is trimmed, and a number is what starts with a digit.
abbrev base : AndroidBase
base = record {
  trim = λ s. s;
  starts_with = λ s t. has_prefix t s;
  parse_uint = λ s. if starts_with_digit s then some (strtoull s) else none;
}

abbrev buffer_dir : BufferDir
buffer_dir = record {
  dir_name = codes "7";
  exporter_name = some (codes "system");
  size = some (codes "4096");
}

abbrev buffer_map : MapInfo
buffer_map = record {
  start = 0;
  end = 4096;
  flags = 3;
  pgoff = 0;
  inode = 7;
  name = codes "/dmabuf:";
  shared = true;
}

-- One process with one descriptor of a buffer and one mapping of it.
abbrev files : PidFiles
files = record {
  fdinfo_dir = some (codes "." ∷ codes "3" ∷ []);
  fdinfo = λ fd. FdInfoFile.content (codes "size: 4096\nino: 7\nexp_name: system\n");
  fd_stat = λ fd. FdStat.no_entry;
  maps = some (codes "a mapping\n");
}

abbrev world : World
world = record {
  base = base;
  is_fd = starts_with_digit;
  read_maps = λ line. (buffer_map ∷ [], true);
  sysfs = λ inode. buffer_dir;
  pid_files = λ pid. files;
}

read_dma_buf_info-Accounts_example : Accounts (read_dma_buf_info world 42 true []).0
read_dma_buf_info-Accounts_example = read_dma_buf_info-Accounts world 42 true []

abbrev proc : List (Bool × Bytes)
proc = (true, codes "42") ∷ (false, codes "meminfo") ∷ (true, codes "self") ∷ []

read_procfs_dma_bufs-Accounts_example : Accounts (read_procfs_dma_bufs world (some proc) []).0
read_procfs_dma_bufs-Accounts_example = read_procfs_dma_bufs-Accounts world (some proc) []

read_dma_buf_info-HasPss_example : All HasPss (read_dma_buf_info world 42 true []).0
read_dma_buf_info-HasPss_example = read_dma_buf_info-HasPss world 42 true []

abbrev dirs : List BufferDir
dirs = record buffer_dir { dir_name = codes "." } ∷ buffer_dir ∷ []

get_dmabuf_sysfs_stats-IsSummed_example :
    IsSummed (get_dmabuf_sysfs_stats base (some dirs) no_stats).0
get_dmabuf_sysfs_stats-IsSummed_example = get_dmabuf_sysfs_stats-IsSummed base dirs no_stats

stats_read : (get_dmabuf_sysfs_stats base (some dirs) no_stats).1 ≡ true
unfolding get_dmabuf_sysfs_stats
stats_read = refl

get_dmabuf_total_exported_kb_lem_example :
    get_dmabuf_total_exported_kb base (some dirs) 0
    ≡ ((get_dmabuf_sysfs_stats base (some dirs) no_stats).0.total.size / 1024, true)
get_dmabuf_total_exported_kb_lem_example =
    get_dmabuf_total_exported_kb_lem base dirs no_stats 0 stats_read

-- Two devices of 4 and 2 kB.
abbrev devices : ℕ → ZramDevice
devices i = record {
  exists_dir = ltb i 2;
  mm_stat = some (0 ∷ 0 ∷ (4096 / (i + 1)) ∷ []);
  mem_used_total = none;
}

devices-AreDevices : AreDevices zram_bytes devices 0 (4096 ∷ 2048 ∷ [])
unfolding mem_zram_device
devices-AreDevices = (refl, refl, (refl, refl, refl))

mem_zram_kb_lem_example : mem_zram_kb devices none ≡ total (4096 ∷ 2048 ∷ []) % u64_mod / 1024
mem_zram_kb_lem_example =
    mem_zram_kb_lem devices (4096 ∷ 2048 ∷ []) devices-AreDevices (omega arith)

abbrev broken : ℕ → ZramDevice
broken i = record {
  exists_dir = true;
  mm_stat = if ltb i 1 then some (0 ∷ 0 ∷ 4096 ∷ []) else some [];
  mem_used_total = none;
}

-- The process 5 on two GPUs.
abbrev gpu : GpuMap
gpu = record {
  is_valid = true;
  keys = 5 ∷ (2 ^ 32 + 5) ∷ [];
  read_value = λ key. GpuValue.value 3000;
}

read_per_process_gpu_mem_lem_example : Sums gpu gpu.keys [] (read_per_process_gpu_mem gpu [])
read_per_process_gpu_mem_lem_example =
    read_per_process_gpu_mem_lem gpu [] refl ((3000, refl), ((3000, refl), tt))

abbrev text : Bytes
text = codes "MemFree: 3 kB\n"

scan_text_enough_example :
    scan_text store_in_map 0 14 default_tags text 0 false []
    ≡ scan_text store_in_map 0 99 default_tags text 0 false []
scan_text_enough_example =
    scan_text_enough store_in_map 0 14 99 default_tags text 0 false [] (omega arith) (omega arith)
