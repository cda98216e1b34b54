-- ===== src/SmapInfo/Librank.antt =====
-- The namespace librank of libsmapinfo/smapinfo.cpp: the libraries, with the processes that map each.
pub mod Print
pub mod Run
pub mod Totals
use android_system_memory_li.Common.{
  ℕ, ◌%◌, Bool, true, false, not, ◌&&◌, ◌||◌, List, [], ◌∷◌, ◌++◌, ltb, ◌==◌, if◌then◌else◌, add64,
  ℤ, negsuc, ltb_ℤ, Map, emplace, update,
}
use android_system_memory_li.ProcMem.Escape.{
  Format, invalid, raw, json, csv, escape_csv_string, escape_json_string,
}
use android_system_memory_li.ProcMem.Process.{is_nil}
use android_system_memory_li.ProcMem.Usage.{MemUsage, Vma, no_usage, clear_usage}
use android_system_memory_li.SmapInfo.{
  Machine, Shared, SortOrder, by_pss, by_rss, by_uss, by_vss, by_swap, by_oomadj, sorted,
}
use android_system_memory_li.SmapInfo.Record.{
  ProcessRecord, ProcessMap, Report, new_process_record, record_smaps, valid, find_or_create,
}
use android_system_memory_li.Text.{Bytes, codes, text_eq, text_lt}
use android_system_memory_li.Text.Print.{decimal_text, int_text, pad_left, kb_column, when}

unfoldable pub add_mem_usage : MemUsage → MemUsage → MemUsage
add_mem_usage to from = record to {
  vss = add64 to.vss from.vss;
  rss = add64 to.rss from.rss;
  pss = add64 to.pss from.pss;
  uss = add64 to.uss from.uss;
  swap = add64 to.swap from.swap;
  private_clean = add64 to.private_clean from.private_clean;
  private_dirty = add64 to.private_dirty from.private_dirty;
  shared_clean = add64 to.shared_clean from.shared_clean;
  shared_dirty = add64 to.shared_dirty from.shared_dirty;
}

-- What one process uses of a library.
pub record LibProcRecord : Type 0 where
  pub pid : ℤ
  pub cmdline : Bytes
  pub oomadj : ℤ
  pub usage : MemUsage

abbrev pub lib_proc_record : {World : Type 0} → ProcessRecord World → LibProcRecord
lib_proc_record proc = record {
  pid = proc.pid;
  cmdline = proc.cmdline;
  oomadj = proc.oomadj;
  usage = no_usage;
}

unfoldable pub add_proc_usage : MemUsage → LibProcRecord → LibProcRecord
add_proc_usage mem_usage p = record p { usage = add_mem_usage p.usage mem_usage }

-- What all processes use of a library.
pub record LibRecord : Type 0 where
  pub name : Bytes
  pub usage : MemUsage
  pub procs : Map ℤ LibProcRecord

abbrev pub lib_record : Bytes → LibRecord
lib_record name = record { name = name; usage = no_usage; procs = [] }

-- LibRecord::AddUsage.
unfoldable pub add_usage : LibProcRecord → MemUsage → LibRecord → LibRecord
unfolding add_proc_usage
add_usage proc mem_usage lib = record lib {
  usage = add_mem_usage lib.usage mem_usage;
  procs = update ltb_ℤ proc.pid (add_proc_usage mem_usage) (emplace ltb_ℤ proc.pid proc lib.procs);
}

unfoldable pub select_sort : SortOrder → LibProcRecord → LibProcRecord → Bool
select_sort by_rss a b = ltb b.usage.rss a.usage.rss
select_sort by_uss a b = ltb b.usage.uss a.usage.uss
select_sort by_vss a b = ltb b.usage.vss a.usage.vss
select_sort by_oomadj a b = ltb_ℤ b.oomadj a.oomadj
select_sort by_pss a b = ltb b.usage.pss a.usage.pss
select_sort by_swap a b = ltb b.usage.pss a.usage.pss

pub record Params : Type 0 where
  pub lib_prefix : Bytes
  pub all_libs : Bool
  pub excluded_libs : List Bytes
  pub mapflags_mask : ℕ
  pub format : Format
  pub swap_enabled : Bool
  pub show_oomadj : Bool

abbrev pub LibMap : Type 0
LibMap = Map Bytes LibRecord

-- `std::find(...) != end()`.
unfoldable pub contains_name : Bytes → List Bytes → Bool
contains_name name [] = false
contains_name name (n ∷ ns) = text_eq n name || contains_name name ns

-- What populate_libs changes; `swap_enabled` is that of the parameters.
pub record Libs (World : Type 0) : Type 0 where
  pub lib_name_map : LibMap
  pub swap_enabled : Bool
  pub processrecords : ProcessMap World
  pub shared : Shared World

module _ {World Float : Type 0} (m : Machine World Float) (params : Params) where
  -- No `continue` of the loop over the maps is taken. PROT_READ | PROT_WRITE | PROT_EXEC is 7.
  unfoldable pub is_selected : Vma → Bool
  unfolding contains_name
  is_selected v =
      (is_nil params.lib_prefix || m.starts_with v.name params.lib_prefix)
      && (params.all_libs || not (contains_name v.name params.excluded_libs))
      && (params.mapflags_mask == 0 || v.flags % 8 == params.mapflags_mask)

  unfoldable pub add_map : LibProcRecord → Vma → LibMap → LibMap
  unfolding add_usage
  add_map proc v libs =
      update text_lt v.name (add_usage proc v.usage)
        (emplace text_lt v.name (lib_record v.name) libs)

  -- The loop over the maps of one process.
  unfoldable pub add_maps : LibProcRecord → List Vma → LibMap → LibMap
  unfolding is_selected add_map
  add_maps proc [] libs = libs
  add_maps proc (v ∷ vs) libs =
      add_maps proc vs (if is_selected v then add_map proc v libs else libs)

  -- A selected map with swap enables the column.
  unfoldable pub any_swap : List Vma → Bool
  unfolding is_selected
  any_swap [] = false
  any_swap (v ∷ vs) = (is_selected v && not (v.usage.swap == 0)) || any_swap vs

  -- The record of one process: `proc.Smaps()` may read the maps, in place.
  abbrev pub add_record : ℤ → ProcessRecord World → Libs World → Libs World × Bool
  add_record pid proc s =
      let proc' = record_smaps m proc in
      let maps = proc'.procmem.maps in
      if not (valid proc) then (s, false) else (
        record s {
          lib_name_map = add_maps (lib_proc_record proc) maps s.lib_name_map;
          swap_enabled = s.swap_enabled || any_swap maps;
          processrecords = update ltb_ℤ pid (λ r. proc') s.processrecords;
        },
        true,
      )

  unfoldable pub populate_lib : ℕ → ℕ → ℤ → Libs World → Libs World × Bool
  unfolding add_maps any_swap
  populate_lib pgflags pgflags_mask pid s =
      let (proc, records, shared) =
        find_or_create (new_process_record m pid false pgflags pgflags_mask true params.show_oomadj)
          pid s.processrecords s.shared in
      add_record pid proc (record s { processrecords = records; shared = shared })

  unfoldable pub populate_libs : ℕ → ℕ → List ℤ → Libs World → Libs World × Bool
  populate_libs pgflags pgflags_mask [] s = (s, true)
  populate_libs pgflags pgflags_mask (pid ∷ pids) s =
      let (s', done) = populate_lib pgflags pgflags_mask pid s in
      let rest = populate_libs pgflags pgflags_mask pids s' in if done then rest else (s', false)
