-- ===== src/SmapInfo/Librank/Run.antt =====
-- run_librank of libsmapinfo/smapinfo.cpp.
use android_system_memory_li.Common.{
  ℕ, Bool, true, false, List, [], ◌∷◌, ◌++◌, ltb, if◌then◌else◌, ℤ, Map,
}
use android_system_memory_li.ProcMem.Escape.{Format}
use android_system_memory_li.SmapInfo.{Machine, Shared, SortOrder, by_oomadj, sorted}
use android_system_memory_li.SmapInfo.Record.{ProcessMap, Report}
use android_system_memory_li.Text.{Bytes}
use android_system_memory_li.SmapInfo.Librank.{LibRecord, Libs, Params, populate_libs, select_sort}
use android_system_memory_li.SmapInfo.Librank.Print.{print_header, print_library, print_procs}

-- The values of a map, in the order of the keys.
abbrev pub values {ℓ κ} : {K : Type ℓ} {V : Type κ} → Map K V → List V
values [] = []
values ((k, v) ∷ d) = v ∷ values d

module _ {World Float : Type 0} (m : Machine World Float) where
  unfoldable pub print_libs : Params → SortOrder → Bool → List LibRecord → Bytes
  print_libs params sort_order reverse_sort [] = []
  print_libs params sort_order reverse_sort (lib ∷ libs) =
      print_library params lib
      ++ print_procs params lib (sorted m reverse_sort (select_sort sort_order) (values lib.procs))
      ++ print_libs params sort_order reverse_sort libs

  abbrev pub finish_librank : Params → SortOrder → Bool → Libs World × Bool → Report World
  finish_librank params sort_order reverse_sort (s, done) =
      let shown = record params { swap_enabled = s.swap_enabled } in
      let libs = m.sort (λ l₁ l₂. ltb l₂.usage.pss l₁.usage.pss) (values s.lib_name_map) in
      record {
        out =
            if done
            then print_header shown ++ print_libs shown sort_order reverse_sort libs
            else [];
        success = done;
        processrecords = s.processrecords;
        shared = s.shared;
      }

  abbrev pub is_by_oomadj : SortOrder → Bool
  is_by_oomadj by_oomadj = true
  is_by_oomadj _ = false

  unfoldable pub run_librank :
      ℕ
      → ℕ
      → List ℤ
      → Bytes
      → Bool
      → List Bytes
      → ℕ
      → Format
      → SortOrder
      → Bool
      → ProcessMap World
      → Shared World
      → Report World
  run_librank pgflags pgflags_mask pids lib_prefix all_libs excluded_libs mapflags_mask format
        sort_order reverse_sort processrecords shared =
      let params : Params = record {
        lib_prefix = lib_prefix;
        all_libs = all_libs;
        excluded_libs = excluded_libs;
        mapflags_mask = mapflags_mask;
        format = format;
        swap_enabled = false;
        show_oomadj = is_by_oomadj sort_order;
      } in
      finish_librank params sort_order reverse_sort (
        populate_libs m params pgflags pgflags_mask pids (record {
          lib_name_map = [];
          swap_enabled = false;
          processrecords = processrecords;
          shared = shared;
        }))
