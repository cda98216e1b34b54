-- ===== src/SmapInfo/Procrank/Run.antt =====
-- run_procrank of libsmapinfo/smapinfo.cpp.
use android_system_memory_li.Common.{
  ℕ, ◌+◌, ◌/◌, Bool, true, false, ◌&&◌, List, [], ◌∷◌, ◌++◌, Option, none, some, ltb, if◌then◌else◌,
  sub64, mul64, replicate, ◌>>=◌, ℤ,
}
use android_system_memory_li.ProcMem.Process.{is_nil}
use android_system_memory_li.SmapInfo.{Machine, Shared, SortOrder, sorted}
use android_system_memory_li.SmapInfo.Record.{ProcessRecord, ProcessMap, Report}
use android_system_memory_li.SysMem.MemInfo.{MemMap, find_mem_by_tag, read_mem_info_map}
use android_system_memory_li.SysMem.Zram.{mem_zram_kb}
use android_system_memory_li.Text.{Bytes, codes}
use android_system_memory_li.SmapInfo.Procrank.{
  Params, Populated, add_to_totals, populate_procs, select_sort,
}
use android_system_memory_li.SmapInfo.Procrank.Print.{
  print_divider, print_header, print_processrecord, print_sysmeminfo, print_totals,
}

abbrev pub swap_ratio : {World Float : Type 0} → Machine World Float → MemMap → ℕ → Float
swap_ratio m smi zram_kb =
    m.ratio zram_kb
      (sub64 (find_mem_by_tag (codes "SwapTotal:") smi) (find_mem_by_tag (codes "SwapFree:") smi))

module _ {World Float : Type 0} (m : Machine World Float) where
  abbrev pub swap_total : MemMap → ℕ
  swap_total smi = mul64 (find_mem_by_tag (codes "SwapTotal:") smi) 1024

  -- `params` as run_procrank starts with it, with swap and zram figured out.
  unfoldable pub start_params : Bool → Bool → MemMap → ℕ → Params Float
  start_params get_oomadj get_wss smi zram_kb =
      let swap_enabled = ltb 0 (swap_total smi) in
      let zram_enabled = swap_enabled && ltb 0 zram_kb in
      record {
        total_pss = 0;
        total_uss = 0;
        total_swap = 0;
        total_pswap = 0;
        total_uswap = 0;
        total_zswap = 0;
        show_oomadj = get_oomadj;
        show_wss = get_wss;
        swap_enabled = swap_enabled;
        zram_enabled = zram_enabled;
        zram_compression_ratio = if zram_enabled then swap_ratio m smi zram_kb else m.zero_ratio;
      }

  -- `swap_offset_array` as it is allocated.
  unfoldable pub new_swap_offset_array : MemMap → List ℕ
  new_swap_offset_array smi = replicate (swap_total smi / m.page_size + 1) 0

  -- The loop that adds each process to the totals and prints it: the last totals and the lines.
  unfoldable pub print_procs :
      List ℕ → List (ProcessRecord World) → Params Float → Option (Params Float × Bytes)
  print_procs swap_offset_array [] params = some (params, [])
  print_procs swap_offset_array (proc ∷ procs) params =
      add_to_totals m params proc swap_offset_array >>= λ p.
      print_procs swap_offset_array procs p.0 >>= λ q.
      some (q.0, print_processrecord p.0 p.1 ++ q.1)

  -- The table; `none` stands for an undefined operation of CalculateSwap.
  unfoldable pub print_table :
      Params Float → Bool → SortOrder → MemMap → ℕ → Populated World → Option Bytes
  print_table params reverse_sort sort_order smi zram_kb s =
      if is_nil s.procs
      then some (codes "<empty>\n\n" ++ print_sysmeminfo params smi zram_kb)
      else (print_procs s.swap_offset_array (sorted m reverse_sort (select_sort sort_order) s.procs)
            params
          >>= λ q. some (
              print_header params
              ++ q.1
              ++ print_divider q.0
              ++ print_totals q.0
              ++ print_sysmeminfo q.0 smi zram_kb))

  abbrev pub report : Bytes → Bool → Populated World → Report World
  report out success s = record {
    out = out;
    success = success;
    processrecords = s.processrecords;
    shared = s.shared;
  }

  -- The processes of the table, with whether they could all be read.
  unfoldable pub procrank_procs :
      ℕ
      → ℕ
      → List ℤ
      → Bool
      → Bool
      → MemMap
      → ProcessMap World
      → Shared World
      → Populated World × Bool
  procrank_procs pgflags pgflags_mask pids get_oomadj get_wss smi processrecords shared =
      populate_procs m (start_params get_oomadj get_wss smi (mem_zram_kb m.zram_device none))
        pgflags pgflags_mask pids
        (record {
          procs = [];
          swap_offset_array = new_swap_offset_array smi;
          processrecords = processrecords;
          shared = shared;
        })

  abbrev pub finish_procrank :
      Populated World × Bool → (Populated World → Option Bytes) → Option (Report World)
  finish_procrank (s, false) table = some (report [] false s)
  finish_procrank (s, true) table = table s >>= λ out. some (report out true s)

  unfoldable pub run_procrank :
      ℕ
      → ℕ
      → List ℤ
      → Bool
      → Bool
      → SortOrder
      → Bool
      → ProcessMap World
      → Shared World
      → Option (Report World)
  run_procrank pgflags pgflags_mask pids get_oomadj get_wss sort_order reverse_sort processrecords
        shared =
      let zram_kb = mem_zram_kb m.zram_device none in
      let (smi, read) = read_mem_info_map zram_kb m.meminfo_file [] in
      let params = start_params get_oomadj get_wss smi zram_kb in
      let s =
        procrank_procs pgflags pgflags_mask pids get_oomadj get_wss smi processrecords shared in
      if read
      then finish_procrank s (print_table params reverse_sort sort_order smi zram_kb)
      else some
          (record { out = []; success = false; processrecords = processrecords; shared = shared })
