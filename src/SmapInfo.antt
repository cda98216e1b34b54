-- ===== src/SmapInfo.antt =====
-- libsmapinfo (processrecord.cpp and smapinfo.cpp): what its functions read of the machine, the
-- order of a table, and the pids of /proc. What goes to `err` is left out.
pub mod Defined
pub mod Record
pub mod Order
pub mod Procrank
pub mod Librank
pub mod Showmap
pub mod Bugreport
use android_system_memory_li.Common.{
  ℕ, ◌/◌, Bool, true, false, List, [], ◌∷◌, ◌++◌, Option, none, some, ℤ, pos, if◌then◌else◌, ltb_ℤ,
  Map, emplace, ◌==◌, ◌||◌,
}
use android_system_memory_li.PageAcct.{Kernel, PageAcct}
use android_system_memory_li.ProcMem.Pagemap.{PagemapFile}
use android_system_memory_li.ProcMem.Process.{Env}
use android_system_memory_li.ProcMem.VmaScan.{MapInfo, MapParser}
use android_system_memory_li.SysMem.Zram.{ZramDevice}
use android_system_memory_li.Text.{Bytes}

-- The files of /proc by pid, with what the C library, libbase and libprocinfo make of them. Of
-- ReadFileToString the first component is what it leaves in the string, of `access` a test whether
-- the directory can be read. The compression ratio is a float: `ratio` divides two numbers and
-- `scale` multiplies a number by a float and rounds the result to a uint64_t. `sort less xs` is what
-- std::sort makes of the range.
pub record Machine (World Float : Type 0) : Type 1 where
  pub kernel : Kernel World
  pub page_size : ℕ
  pub is_x86_64 : Bool
  pub maps : ℤ → List MapInfo × Bool
  pub pagemap : ℤ → Option PagemapFile
  pub smaps_file : ℤ → Option Bytes
  pub parser : MapParser
  pub cmdline_file : ℤ → Bytes × Bool
  pub comm_file : ℤ → Bytes × Bool
  pub oom_score_adj_file : ℤ → Bytes × Bool
  pub read_file : Bytes → Option Bytes
  pub proc_dir : Option (List Bytes)
  pub meminfo_file : Option Bytes
  pub zram_device : ℕ → ZramDevice
  pub trim : Bytes → Bytes
  pub starts_with : Bytes → Bytes → Bool
  pub ends_with : Bytes → Bytes → Bool
  pub parse_int : Bytes → Option ℤ
  pub zero_ratio : Float
  pub ratio : ℕ → ℕ → Float
  pub scale : ℕ → Float → ℕ
  pub sort : {A : Type 0} → (A → A → Bool) → List A → List A

module _ {World Float : Type 0} (m : Machine World Float) where
  abbrev pub env_of : ℤ → Env
  env_of pid = record {
    page_size = m.page_size;
    is_x86_64 = m.is_x86_64;
    maps = m.maps pid;
    pagemap = m.pagemap pid;
  }

-- The PageAcct instance, which all processes share, and the kernel.
abbrev pub Shared : Type 0 → Type 0
Shared World = PageAcct × World

pub data SortOrder : Type 0 where
  by_pss by_rss by_uss by_vss by_swap by_oomadj : SortOrder

-- std::set<pid_t>, in ascending order.
abbrev pub insert_pid : ℤ → List ℤ → List ℤ
insert_pid pid [] = pid ∷ []
insert_pid pid (p ∷ ps) =
    if ltb_ℤ pid p then pid ∷ p ∷ ps else if ltb_ℤ p pid then p ∷ insert_pid pid ps else p ∷ ps

module _ (parse_int : Bytes → Option ℤ) where
  unfoldable pub insert_entry : Bytes → List ℤ → List ℤ
  insert_entry name pids = elim (parse_int name) [ none ↦ pids | some pid ↦ insert_pid pid pids ]

  -- The loop over the directory's entries.
  unfoldable pub insert_entries : List Bytes → List ℤ → List ℤ
  unfolding insert_entry
  insert_entries [] pids = pids
  insert_entries (name ∷ names) pids = insert_entries names (insert_entry name pids)

  unfoldable pub get_all_pids : Option (List Bytes) → List ℤ × Bool
  unfolding insert_entries
  get_all_pids none = ([], false)
  get_all_pids (some names) = (insert_entries names [], true)

-- `std::sort(xs.rbegin(), xs.rend(), less)` where `reversed`, `std::sort(xs.begin(), xs.end(), less)`
-- otherwise.
abbrev pub onto {ℓ} : {A : Type ℓ} → List A → List A → List A
onto [] ys = ys
onto (x ∷ xs) ys = onto xs (x ∷ ys)

abbrev pub backwards {ℓ} : {A : Type ℓ} → List A → List A
backwards xs = onto xs []

unfoldable pub sorted :
    {World Float A : Type 0} → Machine World Float → Bool → (A → A → Bool) → List A → List A
sorted m reversed less xs =
    if reversed then backwards (m.sort less (backwards xs)) else m.sort less xs
