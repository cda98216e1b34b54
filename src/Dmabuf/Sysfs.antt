-- ===== src/Dmabuf/Sysfs.antt =====
-- libdmabufinfo/dmabuf_sysfs_stats.cpp: the buffers that sysfs lists, in a directory for each, named
-- by the inode. A directory that cannot be opened and a file that cannot be read are `none`.
use android_system_memory_li.Common.{
  ℕ, ◌+◌, ◌/◌, ◌%◌, Bool, true, false, ◌||◌, List, [], ◌∷◌, ◌++◌, Option, none, some, if◌then◌else◌,
  add64, u32_mod,
}
use android_system_memory_li.Dmabuf.{AndroidBase}
use android_system_memory_li.Text.{Bytes, codes, text_eq}

-- An entry of the directory with the content of its two files.
pub record BufferDir : Type 0 where
  pub dir_name : Bytes
  pub exporter_name : Option Bytes
  pub size : Option Bytes

pub record DmabufInfo : Type 0 where
  pub inode : ℕ
  pub exp_name : Bytes
  pub size : ℕ

-- The count is an unsigned int.
pub record DmabufTotal : Type 0 where
  pub size : ℕ
  pub buffer_count : ℕ

pub record DmabufSysfsStats : Type 0 where
  pub buffer_stats : List DmabufInfo
  pub exporter_info : List (Bytes × DmabufTotal)
  pub total : DmabufTotal

abbrev pub no_total : DmabufTotal
no_total = record { size = 0; buffer_count = 0 }

abbrev pub no_stats : DmabufSysfsStats
no_stats = record { buffer_stats = []; exporter_info = []; total = no_total }

unfoldable pub add_total : ℕ → DmabufTotal → DmabufTotal
add_total size t = record {
  size = add64 t.size size;
  buffer_count = (t.buffer_count + 1) % u32_mod;
}

unfoldable pub add_exporter : Bytes → ℕ → List (Bytes × DmabufTotal) → List (Bytes × DmabufTotal)
unfolding text_eq add_total
add_exporter exp size [] = (exp, record { size = size; buffer_count = 1 }) ∷ []
add_exporter exp size ((e, t) ∷ m) =
    if text_eq e exp then (e, add_total size t) ∷ m else (e, t) ∷ add_exporter exp size m

unfoldable pub add_buffer : DmabufInfo → DmabufSysfsStats → DmabufSysfsStats
unfolding add_total add_exporter
add_buffer i s = record {
  total = add_total i.size s.total;
  buffer_stats = s.buffer_stats ++ i ∷ [];
  exporter_info = add_exporter i.exp_name i.size s.exporter_info;
}

-- "." and "..".
unfoldable pub is_dot : Bytes → Bool
unfolding text_eq
is_dot name = text_eq name (codes ".") || text_eq name (codes "..")

module _ (base : AndroidBase) where
  unfoldable pub read_uint_from_file : Option Bytes → Option ℕ
  read_uint_from_file none = none
  read_uint_from_file (some text) = base.parse_uint (base.trim text)

  -- ReadBufferExporter and ReadBufferSize: `dirs` gives the directory of an inode, which the source
  -- cuts to an unsigned int.
  unfoldable pub read_buffer_exporter : (ℕ → BufferDir) → ℕ → Option Bytes
  read_buffer_exporter dirs inode = (dirs (inode % u32_mod)).exporter_name

  unfoldable pub read_buffer_size : (ℕ → BufferDir) → ℕ → Option ℕ
  unfolding read_uint_from_file
  read_buffer_size dirs inode = read_uint_from_file (dirs (inode % u32_mod)).size

  abbrev pub info_of : Option ℕ → Option Bytes → Option ℕ → Option DmabufInfo
  info_of (some inode) (some exporter) (some size) =
      some (record { inode = inode; exp_name = base.trim exporter; size = size })
  info_of _ _ _ = none

  -- What one entry gives; `none` where the function returns false.
  unfoldable pub read_entry : BufferDir → Option DmabufInfo
  unfolding read_uint_from_file
  read_entry d = info_of (base.parse_uint d.dir_name) d.exporter_name (read_uint_from_file d.size)

  unfoldable pub sysfs_entries : List BufferDir → DmabufSysfsStats → DmabufSysfsStats × Bool
  unfolding is_dot read_entry add_buffer
  sysfs_entries [] s = (s, true)
  sysfs_entries (d ∷ ds) s =
      if is_dot d.dir_name
      then sysfs_entries ds s
      else elim (read_entry d) [ none ↦ (s, false) | some i ↦ sysfs_entries ds (add_buffer i s) ]

  unfoldable pub get_dmabuf_sysfs_stats :
      Option (List BufferDir) → DmabufSysfsStats → DmabufSysfsStats × Bool
  unfolding sysfs_entries
  get_dmabuf_sysfs_stats none s = (s, false)
  get_dmabuf_sysfs_stats (some ds) s = sysfs_entries ds no_stats

  unfoldable pub sum_sizes : List BufferDir → ℕ → ℕ × Bool
  unfolding is_dot read_uint_from_file
  sum_sizes [] n = (n, true)
  sum_sizes (d ∷ ds) n =
      if is_dot d.dir_name then sum_sizes ds n else elim (read_uint_from_file d.size) [
        | none ↦ (n, false)
        | some size ↦ sum_sizes ds (add64 n size)
      ]

  abbrev pub in_kb : ℕ × Bool → ℕ × Bool
  in_kb (n, true) = (n / 1024, true)
  in_kb (n, false) = (n, false)

  -- `*total_exported` and the result.
  unfoldable pub get_dmabuf_total_exported_kb : Option (List BufferDir) → ℕ → ℕ × Bool
  unfolding sum_sizes
  get_dmabuf_total_exported_kb none n = (n, false)
  get_dmabuf_total_exported_kb (some ds) n = in_kb (sum_sizes ds 0)
