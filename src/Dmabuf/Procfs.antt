-- ===== src/Dmabuf/Procfs.antt =====
-- libdmabufinfo/dmabufinfo.cpp: the buffers that processes refer to, read from /proc/<pid>/fdinfo and
-- /proc/<pid>/maps. The files are parameters, with the errno of a failure as far as the code asks for it;
-- log messages are left out.
use android_system_memory_li.Common.{
  ℕ, ◌*◌, ◌%◌, ◌^◌, Bool, true, false, not, ◌||◌, List, [], ◌∷◌, Option, none, some, ◌==◌,
  if◌then◌else◌, drop, sub64, ullong_max, u32_mod,
}
use android_system_memory_li.Dmabuf.{AndroidBase, DmaBuffer, dma_buffer, add_fd_ref, add_map_ref}
use android_system_memory_li.Dmabuf.Sysfs.{BufferDir, read_buffer_exporter, read_buffer_size}
use android_system_memory_li.ProcMem.SmapsField.{first_byte}
use android_system_memory_li.ProcMem.VmaScan.{MapInfo, MapParser}
use android_system_memory_li.Text.{
  Bytes, codes, c_string, has_prefix, strtoull, text_eq, text_lines,
}

-- Opening a file: ENOENT, another error, or its content.
pub data FdInfoFile : Type 0 where
  enoent refused : FdInfoFile
  content : Bytes → FdInfoFile

-- stat() on /proc/<pid>/fd/<fd>: ENOENT, another error, or st_ino and st_blocks.
pub data FdStat : Type 0 where
  no_entry stat_error : FdStat
  found : ℕ → ℕ → FdStat

-- /proc/<pid>: the names in fdinfo (`none`: it cannot be opened), what is behind each name, and maps.
pub record PidFiles : Type 0 where
  pub fdinfo_dir : Option (List Bytes)
  pub fdinfo : Bytes → FdInfoFile
  pub fd_stat : Bytes → FdStat
  pub maps : Option Bytes

-- The out-parameters of ReadDmaBufFdInfo.
pub record FdInfo : Type 0 where
  pub name : Bytes
  pub exporter : Bytes
  pub count : ℕ
  pub size : ℕ
  pub inode : ℕ
  pub is_dmabuf_file : Bool

abbrev pub unknown : Bytes
unknown = codes "<unknown>"

-- The defaults that ReadDmaBufFdRefs sets; the inode is -1.
abbrev pub default_info : FdInfo
default_info = record {
  name = unknown;
  exporter = unknown;
  count = 0;
  size = 0;
  inode = ullong_max;
  is_dmabuf_file = false;
}

pub data FdInfoResult : Type 0 where
  found_info : FdInfo → FdInfoResult
  not_found error : FdInfoResult

-- The references of one process: the buffers and whether the function goes on or succeeded.
abbrev pub Refs : Type 0
Refs = List DmaBuffer × Bool

-- A step that may end the function early, then the rest.
abbrev pub and_next : Refs → (List DmaBuffer → Refs) → Refs
and_next (bufs, true) next = next bufs
and_next (bufs, false) next = (bufs, false)

-- The first buffer with the inode is changed, or a new one is appended.
unfoldable pub find_or_add :
    ℕ → (DmaBuffer → DmaBuffer) → DmaBuffer → List DmaBuffer → List DmaBuffer
find_or_add inode change new [] = new ∷ []
find_or_add inode change new (b ∷ bs) =
    if b.inode == inode then change b ∷ bs else b ∷ find_or_add inode change new bs

abbrev pub is_unknown : Bytes → Bool
is_unknown s = text_eq s [] || text_eq s unknown

-- What the descriptor's information adds to a buffer that is known already.
unfoldable pub complete : FdInfo → DmaBuffer → DmaBuffer
complete i b = record b {
  name = if is_unknown b.name then i.name else b.name;
  exporter = if is_unknown b.exporter then i.exporter else b.exporter;
  count = if b.count == 0 then i.count else b.count;
}

module _ (base : AndroidBase) where
  unfoldable pub file_is_dma_buf : Bytes → Bool
  file_is_dma_buf path = base.starts_with path (codes "/dmabuf")

  -- The body of the loop of ReadDmaBufFdInfo, the line as a C string.
  unfoldable pub fdinfo_line : Bytes → FdInfo → FdInfo
  unfolding has_prefix
  fdinfo_line line i =
      if first_byte line == b'c'
      then (if has_prefix (codes "count:") line
          then record i { count = strtoull (drop 6 line) }
          else i)
      else if first_byte line == b'e'
      then (if has_prefix (codes "exp_name:") line
          then record i { exporter = base.trim (drop 9 line); is_dmabuf_file = true }
          else i)
      else if first_byte line == b'n'
      then (if has_prefix (codes "name:") line
          then record i { name = base.trim (drop 5 line) }
          else i)
      else if first_byte line == b's'
      then (if has_prefix (codes "size:") line
          then record i { size = strtoull (drop 5 line) }
          else i)
      else if first_byte line == b'i'
      then (if has_prefix (codes "ino:") line
          then record i { inode = strtoull (drop 4 line) }
          else i)
      else i

  unfoldable pub fdinfo_lines : List Bytes → FdInfo → FdInfo
  unfolding fdinfo_line c_string
  fdinfo_lines [] i = i
  fdinfo_lines (line ∷ lines) i = fdinfo_lines lines (fdinfo_line (c_string line) i)

  unfoldable pub read_dma_buf_fd_info : FdInfoFile → FdInfo → FdInfoResult
  unfolding fdinfo_lines text_lines
  read_dma_buf_fd_info enoent i = not_found
  read_dma_buf_fd_info refused i = error
  read_dma_buf_fd_info (content text) i = found_info (fdinfo_lines (text_lines text) i)

  -- `find_if` and what follows it.
  unfoldable pub account_fd : ℕ → FdInfo → List DmaBuffer → List DmaBuffer
  unfolding find_or_add complete add_fd_ref dma_buffer
  account_fd pid i bufs =
      find_or_add i.inode (λ b. add_fd_ref pid (complete i b))
        (add_fd_ref pid (dma_buffer i.inode i.size i.count i.exporter i.name)) bufs

  -- The inode is not in fdinfo: it is that of stat(), with the size of the allocated blocks.
  abbrev pub with_stat : ℕ → FdInfo → FdStat → List DmaBuffer → Refs
  with_stat pid i no_entry bufs = (bufs, true)
  with_stat pid i stat_error bufs = (bufs, false)
  with_stat pid i (found ino blocks) bufs =
      (account_fd pid (record i { inode = ino; size = blocks * 512 % 2 ^ 64 }) bufs, true)

  abbrev pub with_info : ℕ → FdStat → FdInfoResult → List DmaBuffer → Refs
  with_info pid stat not_found bufs = (bufs, true)
  with_info pid stat error bufs = (bufs, false)
  with_info pid stat (found_info i) bufs =
      if not i.is_dmabuf_file
      then (bufs, true)
      else if i.inode == ullong_max
      then with_stat pid i stat bufs
      else (account_fd pid i bufs, true)

  -- `is_fd` is whether ParseInt takes the name of the entry for a number.
  unfoldable pub fd_entries : (Bytes → Bool) → ℕ → PidFiles → List Bytes → List DmaBuffer → Refs
  unfolding account_fd read_dma_buf_fd_info
  fd_entries is_fd pid files [] bufs = (bufs, true)
  fd_entries is_fd pid files (fd ∷ fds) bufs =
      if not (is_fd fd)
      then fd_entries is_fd pid files fds bufs
      else and_next
          (with_info pid (files.fd_stat fd) (read_dma_buf_fd_info (files.fdinfo fd) default_info)
            bufs)
          (λ bufs'. fd_entries is_fd pid files fds bufs')

  abbrev pub fd_dir : (Bytes → Bool) → ℕ → PidFiles → Option (List Bytes) → List DmaBuffer → Refs
  fd_dir is_fd pid files none bufs = (bufs, false)
  fd_dir is_fd pid files (some fds) bufs = fd_entries is_fd pid files fds bufs

  unfoldable pub read_dma_buf_fd_refs : (Bytes → Bool) → ℕ → PidFiles → List DmaBuffer → Refs
  unfolding fd_entries
  read_dma_buf_fd_refs is_fd pid files bufs = fd_dir is_fd pid files files.fdinfo_dir bufs

  -- The size of a buffer that only a mapping shows: that of sysfs, or the extent of the mapping.
  abbrev pub mapped_size : MapInfo → Option Bytes → Option ℕ → ℕ
  mapped_size m (some exporter) (some size) = size
  mapped_size m _ _ = sub64 m.end m.start

  abbrev pub exporter_or_unknown : Option Bytes → Bytes
  exporter_or_unknown none = unknown
  exporter_or_unknown (some exporter) = exporter

  -- `account_dmabuf`.
  unfoldable pub account_map : (ℕ → BufferDir) → ℕ → MapInfo → List DmaBuffer → List DmaBuffer
  unfolding file_is_dma_buf find_or_add add_map_ref dma_buffer
  account_map dirs pid m bufs =
      if not (file_is_dma_buf m.name)
      then bufs
      else (let exporter = read_buffer_exporter base dirs m.inode in
          find_or_add m.inode (add_map_ref pid)
            (add_map_ref pid (
              dma_buffer m.inode (mapped_size m exporter (read_buffer_size base dirs m.inode)) 0
                (exporter_or_unknown exporter) unknown))
            bufs)

  unfoldable pub account_maps : (ℕ → BufferDir) → ℕ → List MapInfo → List DmaBuffer → List DmaBuffer
  unfolding account_map
  account_maps dirs pid [] bufs = bufs
  account_maps dirs pid (m ∷ ms) bufs = account_maps dirs pid ms (account_map dirs pid m bufs)

  -- One line: the callback on each mapping that ReadMapFileContent reports, and its result.
  abbrev pub map_line : (ℕ → BufferDir) → ℕ → List MapInfo × Bool → List DmaBuffer → Refs
  map_line dirs pid (infos, parsed) bufs = (account_maps dirs pid infos bufs, parsed)

  unfoldable pub map_lines : MapParser → (ℕ → BufferDir) → ℕ → List Bytes → List DmaBuffer → Refs
  unfolding account_maps
  map_lines read_maps dirs pid [] bufs = (bufs, true)
  map_lines read_maps dirs pid (line ∷ lines) bufs =
      and_next (map_line dirs pid (read_maps line) bufs)
        (λ bufs'. map_lines read_maps dirs pid lines bufs')

  abbrev pub maps_file : MapParser → (ℕ → BufferDir) → ℕ → Option Bytes → List DmaBuffer → Refs
  maps_file read_maps dirs pid none bufs = (bufs, false)
  maps_file read_maps dirs pid (some text) bufs =
      map_lines read_maps dirs pid (text_lines text) bufs

  unfoldable pub read_dma_buf_map_refs :
      MapParser → (ℕ → BufferDir) → ℕ → PidFiles → List DmaBuffer → Refs
  unfolding map_lines text_lines
  read_dma_buf_map_refs read_maps dirs pid files bufs = maps_file read_maps dirs pid files.maps bufs

-- The calls and the files that the readers of buffers depend on.
pub record World : Type 0 where
  pub base : AndroidBase
  pub is_fd : Bytes → Bool
  pub read_maps : MapParser
  pub sysfs : ℕ → BufferDir
  pub pid_files : ℕ → PidFiles

module _ (w : World) where
  abbrev pub fd_refs : ℕ → List DmaBuffer → Refs
  fd_refs pid bufs = read_dma_buf_fd_refs w.base w.is_fd pid (w.pid_files pid) bufs

  abbrev pub map_refs : ℕ → List DmaBuffer → Refs
  map_refs pid bufs = read_dma_buf_map_refs w.base w.read_maps w.sysfs pid (w.pid_files pid) bufs

  -- ReadDmaBufInfo, whatever the vector holds.
  unfoldable pub read_dma_buf_info : ℕ → Bool → List DmaBuffer → Refs
  read_dma_buf_info pid read_fdrefs bufs =
      if read_fdrefs then and_next (fd_refs pid []) (map_refs pid) else map_refs pid []

  -- An entry of /proc: is it a directory, and its name; atoi gives the 32-bit word of the pid.
  unfoldable pub procfs_entry : Bool × Bytes → List DmaBuffer → List DmaBuffer
  unfolding strtoull
  procfs_entry (is_dir, dir_name) bufs =
      let pid = strtoull dir_name % u32_mod in
      if not is_dir then bufs else if pid == 0 then bufs else (map_refs pid (fd_refs pid bufs).0).0

  unfoldable pub procfs_entries : List (Bool × Bytes) → List DmaBuffer → List DmaBuffer
  unfolding procfs_entry
  procfs_entries [] bufs = bufs
  procfs_entries (e ∷ es) bufs = procfs_entries es (procfs_entry e bufs)

  unfoldable pub read_procfs_dma_bufs : Option (List (Bool × Bytes)) → List DmaBuffer → Refs
  unfolding procfs_entries
  read_procfs_dma_bufs none bufs = ([], false)
  read_procfs_dma_bufs (some entries) bufs = (procfs_entries entries [], true)
