-- ===== src/Dmabuf/Accounts.antt =====
-- What holds of the vector of buffers throughout the readers of dmabufinfo.cpp.
use android_system_memory_li.Common.{
  ℕ, ◌<◌, ◌≤◌, ◌*◌, ◌/◌, ◌%◌, ◌≡◌, refl, Bool, true, false, not, List, [], ◌∷◌, Option, none, some,
  ◌==◌, if_cases, All, length, ullong_max, u32_mod,
}
use native.Mathlib.Nat.{div-mul-le_self}
use android_system_memory_li.Dmabuf.{
  AndroidBase, DmaBuffer, dma_buffer, add_fd_ref, add_map_ref, pss, size_over,
}
use android_system_memory_li.Dmabuf.Procfs.{
  FdInfo, FdStat, FdInfoResult, PidFiles, Refs, World, complete, account_fd, with_stat, with_info,
  and_next, fd_dir, maps_file, fd_entries, read_dma_buf_fd_refs, account_map, account_maps,
  map_lines, read_dma_buf_map_refs, file_is_dma_buf, read_dma_buf_info, procfs_entry,
  procfs_entries, read_procfs_dma_bufs, read_dma_buf_fd_info, default_info, fd_refs, map_refs,
  mapped_size, exporter_or_unknown, unknown,
}
use android_system_memory_li.Dmabuf.Refs.{
  IsTracked, Once, All-find_or_add, find_or_add-Once, dma_buffer-IsCounted, complete-IsCounted,
  add_fd_ref-IsTracked, add_map_ref-IsTracked,
}
use android_system_memory_li.Dmabuf.Sysfs.{BufferDir, read_buffer_exporter, read_buffer_size}
use android_system_memory_li.ProcMem.VmaScan.{MapInfo, MapParser}
use android_system_memory_li.Text.{Bytes, strtoull, text_lines}

-- Each buffer stands in the list once, with at least one reference; its total is that of its two
-- maps (modulo 2 ^ 64), and its pids are the processes that these maps have.
abbrev pub Accounts : List DmaBuffer → Type 0
Accounts bufs = All IsTracked bufs × Once bufs

abbrev AccountsAfter : Refs → Type 0
AccountsAfter (bufs, done) = Accounts bufs

and_next-Accounts :
    (r : Refs) (next : List DmaBuffer → Refs)
    → AccountsAfter r
    → ((bufs : List DmaBuffer) → Accounts bufs → AccountsAfter (next bufs))
    → AccountsAfter (and_next r next)
and_next-Accounts (bufs, true) next a step = step bufs a
and_next-Accounts (bufs, false) next a step = a

fd-inode : (pid : ℕ) (i : FdInfo) (b : DmaBuffer) → (add_fd_ref pid (complete i b)).inode ≡ b.inode
unfolding add_fd_ref complete
fd-inode pid i b = refl

new-inode :
    (pid inode size count : ℕ) (exporter name : Bytes)
    → (add_fd_ref pid (dma_buffer inode size count exporter name)).inode ≡ inode
unfolding add_fd_ref dma_buffer
new-inode pid inode size count exporter name = refl

map-inode : (pid : ℕ) (b : DmaBuffer) → (add_map_ref pid b).inode ≡ b.inode
unfolding add_map_ref
map-inode pid b = refl

new_map-inode :
    (pid inode size : ℕ) (exporter name : Bytes)
    → (add_map_ref pid (dma_buffer inode size 0 exporter name)).inode ≡ inode
unfolding add_map_ref dma_buffer
new_map-inode pid inode size exporter name = refl

account_fd-Accounts :
    (base : AndroidBase) (pid : ℕ) (i : FdInfo) (bufs : List DmaBuffer)
    → Accounts bufs
    → Accounts (account_fd base pid i bufs)
unfolding account_fd
account_fd-Accounts base pid i bufs (all, once) = (
  All-find_or_add i.inode change new IsTracked bufs
      (λ b _ t. add_fd_ref-IsTracked pid (complete i b) (complete-IsCounted i b t.counts))
      (add_fd_ref-IsTracked pid fresh
        (dma_buffer-IsCounted i.inode i.size i.count i.exporter i.name))
      all,
  find_or_add-Once i.inode change new bufs (fd-inode pid i)
      (new-inode pid i.inode i.size i.count i.exporter i.name) once,
)
  where
    change : DmaBuffer → DmaBuffer
    change b = add_fd_ref pid (complete i b)

    fresh : DmaBuffer
    fresh = dma_buffer i.inode i.size i.count i.exporter i.name

    new : DmaBuffer
    new = add_fd_ref pid (dma_buffer i.inode i.size i.count i.exporter i.name)

module _ (base : AndroidBase) (is_fd : Bytes → Bool) (pid : ℕ) (files : PidFiles) where
  with_stat-Accounts :
      (i : FdInfo) (stat : FdStat) (bufs : List DmaBuffer)
      → Accounts bufs
      → AccountsAfter (with_stat base pid i stat bufs)
  with_stat-Accounts i FdStat.no_entry bufs a = a
  with_stat-Accounts i FdStat.stat_error bufs a = a
  with_stat-Accounts i (FdStat.found ino blocks) bufs a = account_fd-Accounts base pid _ bufs a

  with_info-Accounts :
      (stat : FdStat) (r : FdInfoResult) (bufs : List DmaBuffer)
      → Accounts bufs
      → AccountsAfter (with_info base pid stat r bufs)
  with_info-Accounts stat FdInfoResult.not_found bufs a = a
  with_info-Accounts stat FdInfoResult.error bufs a = a
  with_info-Accounts stat (FdInfoResult.found_info i) bufs a =
      if_cases AccountsAfter (not i.is_dmabuf_file) (λ _. a)
        λ _.
          if_cases AccountsAfter (i.inode == ullong_max) (λ _. with_stat-Accounts i stat bufs a)
            (λ _. account_fd-Accounts base pid i bufs a)

  fd_entries-Accounts :
      (fds : List Bytes) (bufs : List DmaBuffer)
      → Accounts bufs
      → AccountsAfter (fd_entries base is_fd pid files fds bufs)
  unfolding fd_entries
  fd_entries-Accounts [] bufs a = a
  fd_entries-Accounts (fd ∷ fds) bufs a =
      if_cases AccountsAfter (not (is_fd fd)) (λ _. fd_entries-Accounts fds bufs a)
        λ _.
          and_next-Accounts _ (fd_entries base is_fd pid files fds)
            (with_info-Accounts (files.fd_stat fd)
              (read_dma_buf_fd_info base (files.fdinfo fd) default_info) bufs a)
            (fd_entries-Accounts fds)

  fd_dir-Accounts :
      (o : Option (List Bytes)) (bufs : List DmaBuffer)
      → Accounts bufs
      → AccountsAfter (fd_dir base is_fd pid files o bufs)
  fd_dir-Accounts none bufs a = a
  fd_dir-Accounts (some fds) bufs a = fd_entries-Accounts fds bufs a

  -- ReadDmaBufFdRefs keeps the accounts, also where it gives up halfway.
  pub read_dma_buf_fd_refs-Accounts :
      (bufs : List DmaBuffer)
      → Accounts bufs
      → Accounts (read_dma_buf_fd_refs base is_fd pid files bufs).0
  unfolding read_dma_buf_fd_refs
  read_dma_buf_fd_refs-Accounts bufs a = fd_dir-Accounts files.fdinfo_dir bufs a

-- The new buffer of a mapping, before its first reference.
account_map-Accounts :
    (base : AndroidBase) (dirs : ℕ → BufferDir) (pid : ℕ) (m : MapInfo) (bufs : List DmaBuffer)
    → Accounts bufs
    → Accounts (account_map base dirs pid m bufs)
unfolding account_map
account_map-Accounts base dirs pid m bufs (all, once) =
    if_cases Accounts (not (file_is_dma_buf base m.name)) (λ _. (all, once))
      (λ _. (
        All-find_or_add m.inode (add_map_ref pid) _ IsTracked bufs
            (λ b _ t. add_map_ref-IsTracked pid b t.counts)
            (add_map_ref-IsTracked pid _ (dma_buffer-IsCounted m.inode _ 0 _ _)) all,
        find_or_add-Once m.inode (add_map_ref pid) _ bufs (map-inode pid)
            (new_map-inode pid m.inode
              (mapped_size base m (read_buffer_exporter base dirs m.inode)
                (read_buffer_size base dirs m.inode))
              (exporter_or_unknown base (read_buffer_exporter base dirs m.inode)) unknown)
            once,
      ))

module _ (base : AndroidBase) (dirs : ℕ → BufferDir) (pid : ℕ) where
  account_maps-Accounts :
      (ms : List MapInfo) (bufs : List DmaBuffer)
      → Accounts bufs
      → Accounts (account_maps base dirs pid ms bufs)
  unfolding account_maps
  account_maps-Accounts [] bufs a = a
  account_maps-Accounts (m ∷ ms) bufs a =
      account_maps-Accounts ms _ (account_map-Accounts base dirs pid m bufs a)

  module _ (read_maps : MapParser) where
    map_lines-Accounts :
        (lines : List Bytes) (bufs : List DmaBuffer)
        → Accounts bufs
        → AccountsAfter (map_lines base read_maps dirs pid lines bufs)
    unfolding map_lines
    map_lines-Accounts [] bufs a = a
    map_lines-Accounts (line ∷ lines) bufs a =
        and_next-Accounts _ (map_lines base read_maps dirs pid lines)
          (account_maps-Accounts (read_maps line).0 bufs a) (map_lines-Accounts lines)

    maps_file-Accounts :
        (o : Option Bytes) (bufs : List DmaBuffer)
        → Accounts bufs
        → AccountsAfter (maps_file base read_maps dirs pid o bufs)
    maps_file-Accounts none bufs a = a
    maps_file-Accounts (some text) bufs a = map_lines-Accounts (text_lines text) bufs a

    -- ReadDmaBufMapRefs keeps the accounts, also where a line cannot be parsed.
    pub read_dma_buf_map_refs-Accounts :
        (files : PidFiles) (bufs : List DmaBuffer)
        → Accounts bufs
        → Accounts (read_dma_buf_map_refs base read_maps dirs pid files bufs).0
    unfolding read_dma_buf_map_refs
    read_dma_buf_map_refs-Accounts files bufs a = maps_file-Accounts files.maps bufs a

module _ (w : World) where
  fd_refs-Accounts :
      (pid : ℕ) (bufs : List DmaBuffer) → Accounts bufs → Accounts (fd_refs w pid bufs).0
  fd_refs-Accounts pid bufs a =
      read_dma_buf_fd_refs-Accounts w.base w.is_fd pid (w.pid_files pid) bufs a

  map_refs-Accounts :
      (pid : ℕ) (bufs : List DmaBuffer) → Accounts bufs → Accounts (map_refs w pid bufs).0
  map_refs-Accounts pid bufs a =
      read_dma_buf_map_refs-Accounts w.base w.sysfs pid w.read_maps (w.pid_files pid) bufs a

  -- Whatever the files hold and the vector held, ReadDmaBufInfo leaves a vector in which each buffer
  -- stands once, has a reference, and has totals and pids that agree with its two maps.
  pub read_dma_buf_info-Accounts :
      (pid : ℕ) (read_fdrefs : Bool) (bufs : List DmaBuffer)
      → Accounts (read_dma_buf_info w pid read_fdrefs bufs).0
  unfolding read_dma_buf_info
  read_dma_buf_info-Accounts pid read_fdrefs bufs =
      if_cases AccountsAfter read_fdrefs
        (λ _.
          and_next-Accounts (fd_refs w pid []) (map_refs w pid) (fd_refs-Accounts pid [] (tt, tt))
            (λ bufs' a. map_refs-Accounts pid bufs' a))
        (λ _. map_refs-Accounts pid [] (tt, tt))

  procfs_entry-Accounts :
      (e : Bool × Bytes) (bufs : List DmaBuffer) → Accounts bufs → Accounts (procfs_entry w e bufs)
  unfolding procfs_entry
  procfs_entry-Accounts (is_dir, dir_name) bufs a =
      if_cases Accounts (not is_dir) (λ _. a)
        λ _.
          if_cases Accounts (strtoull dir_name % u32_mod == 0) (λ _. a)
            (λ _. map_refs-Accounts _ _ (fd_refs-Accounts _ bufs a))

  procfs_entries-Accounts :
      (es : List (Bool × Bytes)) (bufs : List DmaBuffer)
      → Accounts bufs
      → Accounts (procfs_entries w es bufs)
  unfolding procfs_entries
  procfs_entries-Accounts [] bufs a = a
  procfs_entries-Accounts (e ∷ es) bufs a =
      procfs_entries-Accounts es _ (procfs_entry-Accounts e bufs a)

  -- Whatever the files hold and whichever processes cannot be read, ReadProcfsDmaBufs leaves a vector in
  -- which each buffer stands once, has a reference, and has totals and pids that agree with its two
  -- maps.
  pub read_procfs_dma_bufs-Accounts :
      (entries : Option (List (Bool × Bytes))) (bufs : List DmaBuffer)
      → Accounts (read_procfs_dma_bufs w entries bufs).0
  unfolding read_procfs_dma_bufs
  read_procfs_dma_bufs-Accounts none bufs = (tt, tt)
  read_procfs_dma_bufs-Accounts (some entries) bufs = procfs_entries-Accounts entries [] (tt, tt)

-- Pss() of a buffer divides by a number of processes that is not 0, and the shares of these processes
-- are together at most the size of the buffer.
abbrev pub HasPss : DmaBuffer → Type 0
HasPss b = (p : ℕ) × (pss b ≡ some p) × (p * length b.pids ≤ b.size)

Accounts-HasPss : (bufs : List DmaBuffer) → Accounts bufs → All HasPss bufs
unfolding pss
Accounts-HasPss [] a = tt
Accounts-HasPss (b ∷ bs) ((t, ts), (o, os)) =
    (shared b.size b.pids t.held, Accounts-HasPss bs (ts, os))
  where
    shared :
        (size : ℕ) (ps : List ℕ)
        → 0 < length ps
        → (p : ℕ) × (size_over size ps ≡ some p) × (p * length ps ≤ size)
    shared size [] h = elim h [ ]
    shared size (p ∷ ps) h = (size / length (p ∷ ps), refl, div-mul-le_self size (length (p ∷ ps)))

-- Whatever the files hold, Pss() of no buffer that ReadDmaBufInfo leaves divides by zero, and the
-- shares that it gives the processes of a buffer are together at most the buffer's size.
pub read_dma_buf_info-HasPss :
    (w : World) (pid : ℕ) (read_fdrefs : Bool) (bufs : List DmaBuffer)
    → All HasPss (read_dma_buf_info w pid read_fdrefs bufs).0
read_dma_buf_info-HasPss w pid read_fdrefs bufs =
    Accounts-HasPss (read_dma_buf_info w pid read_fdrefs bufs).0
      (read_dma_buf_info-Accounts w pid read_fdrefs bufs)
