-- ===== src/SysMem.antt =====
-- sysmeminfo.cpp: the numbers of the whole system. A file is its content, `none` if it cannot be
-- opened or read; log messages are left out.
pub mod MemInfo
pub mod Zram
pub mod Gpu
pub mod Termination
pub mod Sizes
use android_system_memory_li.Common.{
  ℕ, ◌+◌, ◌*◌, ◌/◌, Bool, true, false, List, [], ◌∷◌, ◌++◌, Option, none, some, ◌==◌, if◌then◌else◌,
  add64, mul64, ullong_max, drop,
}
use android_system_memory_li.Dmabuf.{AndroidBase}
use android_system_memory_li.Dmabuf.Sysfs.{
  BufferDir, DmabufTotal, DmabufSysfsStats, get_dmabuf_sysfs_stats, is_dot, no_stats,
}
use android_system_memory_li.Text.{
  Bytes, codes, c_string, find_text, getlines, strtoull, strtoull_end, text_eq,
}

-- sscanf(p_start, "pages=%llu"): the number behind "pages=", if there is one.
unfoldable pub scan_pages : Bytes → Option ℕ
unfolding strtoull_end
scan_pages p_start = elim (strtoull_end (drop 6 p_start)) [
  | none ↦ none
  | some (nr_pages, rest) ↦ some nr_pages
]

abbrev pub add_pages : ℕ → ℕ → Option ℕ → ℕ
add_pages page_size total none = total
add_pages page_size total (some nr_pages) = add64 total (mul64 nr_pages page_size)

-- One line of /proc/vmallocinfo.
abbrev pub vmalloc_pages : Option Bytes → Option ℕ
vmalloc_pages none = none
vmalloc_pages (some p_start) = scan_pages p_start

unfoldable pub vmalloc_lines : ℕ → List Bytes → ℕ → ℕ
unfolding scan_pages find_text c_string
vmalloc_lines page_size [] total = total
vmalloc_lines page_size (line ∷ lines) total =
    vmalloc_lines page_size lines
      (add_pages page_size total (vmalloc_pages (find_text (codes "pages=") (c_string line))))

unfoldable pub read_vmalloc_info : ℕ → Option Bytes → ℕ
unfolding vmalloc_lines getlines
read_vmalloc_info page_size none = 0
read_vmalloc_info page_size (some text) = vmalloc_lines page_size (getlines text) 0

-- `*value` and the result; a file that cannot be read leaves `old`.
unfoldable pub read_sysfs_file : Option Bytes → ℕ → ℕ × Bool
unfolding strtoull c_string
read_sysfs_file none old = (old, false)
read_sysfs_file (some text) old =
    let value = strtoull (c_string text) in
    if value == ullong_max then (value, false) else (value, true)

unfoldable pub read_ion_heaps_size_kb : Option Bytes → ℕ → ℕ × Bool
unfolding read_sysfs_file
read_ion_heaps_size_kb file size = read_sysfs_file file size

unfoldable pub read_ion_pools_size_kb : Option Bytes → ℕ → ℕ × Bool
unfolding read_sysfs_file
read_ion_pools_size_kb file size = read_sysfs_file file size

-- `support` is the static flag that the first call sets, `ion` the default file of the ION pools.
unfoldable pub read_dmabuf_heap_pools_size_kb : Bool → Option Bytes → Option Bytes → ℕ → ℕ × Bool
unfolding read_ion_pools_size_kb read_sysfs_file
read_dmabuf_heap_pools_size_kb support ion file size =
    if support then read_sysfs_file file size else read_ion_pools_size_kb ion size

-- `heap_list`: the names but "." and "..", each once.
unfoldable pub insert_name : Bytes → List Bytes → List Bytes
unfolding text_eq
insert_name name [] = name ∷ []
insert_name name (n ∷ ns) = if text_eq n name then n ∷ ns else n ∷ insert_name name ns

unfoldable pub heap_names : List Bytes → List Bytes → List Bytes
unfolding is_dot insert_name
heap_names [] set = set
heap_names (d ∷ ds) set = heap_names ds (if is_dot d then set else insert_name d set)

-- `exporter_info.find(heap)`.
unfoldable pub exporter_size : Bytes → List (Bytes × DmabufTotal) → ℕ
unfolding text_eq
exporter_size heap [] = 0
exporter_size heap ((e, t) ∷ m) = if text_eq e heap then t.size else exporter_size heap m

unfoldable pub sum_heaps : List Bytes → List (Bytes × DmabufTotal) → ℕ → ℕ
unfolding exporter_size
sum_heaps [] m size = size
sum_heaps (heap ∷ heaps) m size = sum_heaps heaps m (add64 size (exporter_size heap m))

abbrev pub exported_kb : List Bytes → ℕ → DmabufSysfsStats × Bool → ℕ × Bool
exported_kb heaps size (stats, false) = (size, false)
exported_kb heaps size (stats, true) = (sum_heaps heaps stats.exporter_info 0 / 1024, true)

abbrev pub with_heaps : List Bytes → ℕ → DmabufSysfsStats × Bool → ℕ × Bool
with_heaps [] size stats = (size, false)
with_heaps heaps size stats = exported_kb heaps size stats

abbrev pub heap_dir : Option (List Bytes) → ℕ → DmabufSysfsStats × Bool → ℕ × Bool
heap_dir none size stats = (size, false)
heap_dir (some names) size stats = with_heaps (heap_names names []) size stats

-- `support` again is a static flag, `names` the directory of the heaps.
unfoldable pub read_dmabuf_heap_total_exported_kb :
    AndroidBase → Bool → Option Bytes → Option (List Bytes) → Option (List BufferDir) → ℕ → ℕ × Bool
unfolding heap_names read_ion_heaps_size_kb sum_heaps
read_dmabuf_heap_total_exported_kb base support ion names dirs size =
    if support
    then heap_dir names size (get_dmabuf_sysfs_stats base dirs no_stats)
    else read_ion_heaps_size_kb ion size
