-- ===== src/SmapInfo/Procrank/Safety.antt =====
-- Where run_procrank is defined.

use android_system_memory_li.SmapInfo.Order.{Permutes, sorted-perm}
use android_system_memory_li.SmapInfo.Procrank.Print.{
  print_divider, print_header, print_sysmeminfo, print_totals,
}
use android_system_memory_li.SmapInfo.Procrank.Run.{
  finish_procrank, new_swap_offset_array, print_procs, print_table, procrank_procs, report,
  run_procrank, start_params, swap_total,
}
use android_system_memory_li.Common.{
  ℕ, ◌+◌, ◌/◌, ◌≡◌, refl, ◌∙◌, Bool, true, false, List, [], ◌++◌, Option, none, if_cases,
  all_by-perm, ℤ, is_some,
}
use android_system_memory_li.SmapInfo.{Machine, Shared, SortOrder, sorted}
use android_system_memory_li.SmapInfo.Procrank.{Params, Populated, select_sort}
use android_system_memory_li.SmapInfo.Procrank.Users.{
  Counts, is_counting, populate_procs-Counts, replicate-Counts,
}
use android_system_memory_li.ProcMem.Process.{is_nil}
use android_system_memory_li.SysMem.MemInfo.{MemMap, read_mem_info_map}
use android_system_memory_li.SysMem.Zram.{mem_zram_kb}
use android_system_memory_li.Text.{Bytes}
use android_system_memory_li.SmapInfo.Record.{ProcessMap, Report}
use android_system_memory_li.SmapInfo.Procrank.Defined.{
  is_some-bind_some, is_safe, Counts-is_safe, print_procs-is_some,
}

module _ {World Float : Type 0} (m : Machine World Float) where
  print_table-is_some :
      Permutes m
      → (params : Params Float) (reverse_sort : Bool) (sort_order : SortOrder) (smi : MemMap)
        (zram_kb size : ℕ) (s : Populated World)
      → (is_counting params ≡ true → Counts size s.swap_offset_array s.procs)
      → is_some (print_table m params reverse_sort sort_order smi zram_kb s) ≡ true
  unfolding print_table
  print_table-is_some permutes params reverse_sort sort_order smi zram_kb size s h =
      let arr = s.swap_offset_array in
      let procs = sorted m reverse_sort (select_sort sort_order) s.procs in
      let P : Option Bytes → Type 0 = λ o. is_some o ≡ true in
      if_cases P (is_nil s.procs) (λ e. refl)
        λ e.
          is_some-bind_some (print_procs m arr procs params)
            (λ q.
              print_header params
              ++ q.1
              ++ print_divider q.0
              ++ print_totals q.0
              ++ print_sysmeminfo q.0 smi zram_kb)
            (print_procs-is_some m arr procs params (λ e'.
              all_by-perm (is_safe arr)
                (sorted-perm m permutes reverse_sort (select_sort sort_order) s.procs)
              ∙ Counts-is_safe size arr s.procs (h e')))

  finish_procrank-is_some :
      (r : Populated World × Bool) (table : Populated World → Option Bytes)
      → (r.1 ≡ true → is_some (table r.0) ≡ true)
      → is_some (finish_procrank m r table) ≡ true
  finish_procrank-is_some (s, true) table h =
      is_some-bind_some (table s) (λ out. report m out true s) (h refl)
  finish_procrank-is_some (s, false) table h = refl

  -- If std::sort permutes its range, run_procrank returns: whatever the files of /proc hold and
  -- whatever records it is given, CalculateSwap reads the array only in bounds and divides by no zero
  -- count.
  pub run_procrank-is_some :
      Permutes m
      → (pgflags pgflags_mask : ℕ) (pids : List ℤ) (get_oomadj get_wss : Bool)
        (sort_order : SortOrder) (reverse_sort : Bool) (records : ProcessMap World)
        (shared : Shared World)
      → is_some (
          run_procrank m pgflags pgflags_mask pids get_oomadj get_wss sort_order reverse_sort
            records shared)
        ≡ true
  unfolding run_procrank procrank_procs new_swap_offset_array
  run_procrank-is_some permutes pgflags pgflags_mask pids get_oomadj get_wss sort_order reverse_sort
        records shared =
      let zram_kb = mem_zram_kb m.zram_device none in
      let read = read_mem_info_map zram_kb m.meminfo_file [] in
      let params = start_params m get_oomadj get_wss read.0 zram_kb in
      let size = swap_total m read.0 / m.page_size + 1 in
      let start : Populated World = record {
        procs = [];
        swap_offset_array = new_swap_offset_array m read.0;
        processrecords = records;
        shared = shared;
      } in
      let r = procrank_procs m pgflags pgflags_mask pids get_oomadj get_wss read.0 records shared in
      if_cases (λ (o : Option (Report World)). is_some o ≡ true) read.1
        (λ e.
          finish_procrank-is_some r (print_table m params reverse_sort sort_order read.0 zram_kb)
            λ done.
              print_table-is_some permutes params reverse_sort sort_order read.0 zram_kb size r.0
                λ counting.
                  populate_procs-Counts m params size pgflags pgflags_mask pids start counting
                    (replicate-Counts World size) done)
        (λ e. refl)
