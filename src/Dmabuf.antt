-- ===== src/Dmabuf.antt =====
-- DmaBuffer of libdmabufinfo/include/dmabufinfo/dmabufinfo.h: a buffer with the references that
-- processes hold to it, by descriptors and by mappings. A pid is its 32-bit word, a count of
-- references of one process, an `int` in the source, a number (overflow is undefined there).
pub mod Procfs
pub mod Sysfs
pub mod Refs
pub mod Accounts
pub mod Totals
use android_system_memory_li.Common.{
  ℕ, ◌+◌, ◌/◌, Bool, true, false, ◌&&◌, ◌||◌, List, [], ◌∷◌, Option, none, some, ◌==◌,
  if◌then◌else◌, add64, length, ◌≡◌, ◌%◌,
}
use android_system_memory_li.Text.{Bytes, text_eq}

-- What the source calls of libbase: Trim, StartsWith and ParseUint.
pub record AndroidBase : Type 0 where
  pub trim : Bytes → Bytes
  pub starts_with : Bytes → Bytes → Bool
  pub parse_uint : Bytes → Option ℕ

-- unordered_map<pid_t, int>.
abbrev pub PidMap : Type 0
PidMap = List (ℕ × ℕ)

pub record DmaBuffer : Type 0 where
  pub inode : ℕ
  pub size : ℕ
  pub count : ℕ
  pub total_refs : ℕ
  pub pids : List ℕ
  pub exporter : Bytes
  pub name : Bytes
  pub fdrefs : PidMap
  pub maprefs : PidMap

unfoldable pub dma_buffer : ℕ → ℕ → ℕ → Bytes → Bytes → DmaBuffer
dma_buffer inode size count exporter name = record {
  inode = inode;
  size = size;
  count = count;
  total_refs = 0;
  pids = [];
  exporter = exporter;
  name = name;
  fdrefs = [];
  maprefs = [];
}

-- The map after AddRefToPidMap: the first reference sets the count to 1, a later one adds 1.
unfoldable pub add_ref : ℕ → PidMap → PidMap
add_ref pid [] = (pid, 1) ∷ []
add_ref pid ((p, n) ∷ m) = if p == pid then (p, n + 1) ∷ m else (p, n) ∷ add_ref pid m

-- `pids_.insert(pid)`.
unfoldable pub insert_pid : ℕ → List ℕ → List ℕ
insert_pid pid [] = pid ∷ []
insert_pid pid (p ∷ ps) = if p == pid then p ∷ ps else p ∷ insert_pid pid ps

unfoldable pub add_fd_ref : ℕ → DmaBuffer → DmaBuffer
add_fd_ref pid b = record b {
  fdrefs = add_ref pid b.fdrefs;
  pids = insert_pid pid b.pids;
  total_refs = add64 b.total_refs 1;
}

unfoldable pub add_map_ref : ℕ → DmaBuffer → DmaBuffer
add_map_ref pid b = record b {
  maprefs = add_ref pid b.maprefs;
  pids = insert_pid pid b.pids;
  total_refs = add64 b.total_refs 1;
}

abbrev pub size_over : ℕ → List ℕ → Option ℕ
size_over size [] = none
size_over size ps = some (size / length ps)

-- Pss(); `none` is the division by zero where no process is known.
unfoldable pub pss : DmaBuffer → Option ℕ
pss b = size_over b.size b.pids

-- operator==, which leaves the references out.
unfoldable pub same_buffer : DmaBuffer → DmaBuffer → Bool
unfolding text_eq
same_buffer a b =
    a.inode == b.inode && a.size == b.size && text_eq a.name b.name && text_eq a.exporter b.exporter
