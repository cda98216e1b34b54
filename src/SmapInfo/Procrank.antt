-- ===== src/SmapInfo/Procrank.antt =====
-- The namespace procrank of libsmapinfo/smapinfo.cpp: the processes of the table, with the counts of
-- swap offsets, and the totals.
pub mod Print
pub mod Run
pub mod Counts
pub mod Users
pub mod Defined
pub mod Safety
pub mod Shares
pub mod Totals
pub mod Charges
use Prim.Native.String.{String}
use android_system_memory_li.Common.{
  ℕ, ◌+◌, ◌/◌, Bool, true, false, not, ◌&&◌, List, [], ◌∷◌, ◌++◌, Option, none, some, ltb, leb,
  ◌==◌, if◌then◌else◌, add64, sub64, mul64, length, get_or, set, replicate, ◌>>=◌, ℤ, ltb_ℤ,
}
use android_system_memory_li.ProcMem.Process.{is_nil}
use android_system_memory_li.ProcMem.Usage.{MemUsage}
use android_system_memory_li.SmapInfo.{
  Machine, Shared, SortOrder, by_pss, by_rss, by_uss, by_vss, by_swap, by_oomadj, sorted,
}
use android_system_memory_li.SmapInfo.Record.{
  ProcessRecord, ProcessMap, new_process_record, calculate_swap, valid, find_or_create, Report,
}
use android_system_memory_li.SysMem.MemInfo.{MemMap, find_mem_by_tag, read_mem_info_map}
use android_system_memory_li.SysMem.Zram.{mem_zram_kb}
use android_system_memory_li.Text.{Bytes, codes}
use android_system_memory_li.Text.Print.{
  decimal_text, int_text, pad_left, kb_column, text_column, when,
}

-- USHRT_MAX.
abbrev pub ushrt_max : ℕ
ushrt_max = 65535

-- The counts, which the loop changes in place, and the result.
unfoldable pub count_swap_offsets : List ℕ → List ℕ → List ℕ × Bool
count_swap_offsets [] swap_offset_array = (swap_offset_array, true)
count_swap_offsets (off ∷ offs) swap_offset_array =
    let n = get_or swap_offset_array off 0 in
    let rest = count_swap_offsets offs (set swap_offset_array off (n + 1)) in
    if leb (length swap_offset_array) off
    then (swap_offset_array, false)
    else if n == ushrt_max
    then (swap_offset_array, false)
    else rest

pub record Params (Float : Type 0) : Type 0 where
  pub total_pss : ℕ
  pub total_uss : ℕ
  pub total_swap : ℕ
  pub total_pswap : ℕ
  pub total_uswap : ℕ
  pub total_zswap : ℕ
  pub show_oomadj : Bool
  pub show_wss : Bool
  pub swap_enabled : Bool
  pub zram_enabled : Bool
  pub zram_compression_ratio : Float

unfoldable pub select_sort :
    {World : Type 0} → SortOrder → ProcessRecord World → ProcessRecord World → Bool
select_sort by_oomadj a b = ltb_ℤ b.oomadj a.oomadj
select_sort by_rss a b = ltb b.usage_or_wss.rss a.usage_or_wss.rss
select_sort by_swap a b = ltb b.usage_or_wss.swap a.usage_or_wss.swap
select_sort by_uss a b = ltb b.usage_or_wss.uss a.usage_or_wss.uss
select_sort by_vss a b = ltb b.usage_or_wss.vss a.usage_or_wss.vss
select_sort by_pss a b = ltb b.usage_or_wss.pss a.usage_or_wss.pss

-- What populate_procs changes.
pub record Populated (World : Type 0) : Type 0 where
  pub procs : List (ProcessRecord World)
  pub swap_offset_array : List ℕ
  pub processrecords : ProcessMap World
  pub shared : Shared World

module _ {World Float : Type 0} (m : Machine World Float) where
  -- The record of one pid in the loop of populate_procs: it is skipped, or its offsets are counted
  -- and it is appended. The call of `access` only chooses whether a warning is printed.
  abbrev pub add_proc :
      Params Float → ProcessRecord World → Populated World → Populated World × Bool
  add_proc params proc s =
      let counting = not params.show_wss && params.swap_enabled in
      let (counted, done) = count_swap_offsets proc.swap_offsets s.swap_offset_array in
      let pushed = record s { procs = s.procs ++ proc ∷ [] } in
      if not (valid proc)
      then (s, true)
      else if proc.usage_or_wss.vss == 0
      then (s, true)
      else if counting
      then (if done
          then (record pushed { swap_offset_array = counted }, true)
          else (record s { swap_offset_array = counted }, false))
      else (pushed, true)

  unfoldable pub populate_proc : Params Float → ℕ → ℕ → ℤ → Populated World → Populated World × Bool
  populate_proc params pgflags pgflags_mask pid s =
      let (proc, records, shared) =
        find_or_create
          (new_process_record m pid params.show_wss pgflags pgflags_mask true params.show_oomadj)
          pid s.processrecords s.shared in
      add_proc params proc (record s { processrecords = records; shared = shared })

  unfoldable pub populate_procs :
      Params Float → ℕ → ℕ → List ℤ → Populated World → Populated World × Bool
  populate_procs params pgflags pgflags_mask [] s = (s, true)
  populate_procs params pgflags pgflags_mask (pid ∷ pids) s =
      let (s', done) = populate_proc params pgflags pgflags_mask pid s in
      let rest = populate_procs params pgflags pgflags_mask pids s' in
      if done then rest else (s', false)

  abbrev pub add_usage_totals : Params Float → ProcessRecord World → Params Float
  add_usage_totals params proc = record params {
    total_pss = add64 params.total_pss proc.usage_or_wss.pss;
    total_uss = add64 params.total_uss proc.usage_or_wss.uss;
  }

  -- The totals with one process, whose swap is calculated on the way.
  abbrev pub add_swap_totals : Params Float → ProcessRecord World → Params Float
  add_swap_totals params proc = record params {
    total_swap = add64 params.total_swap proc.usage_or_wss.swap;
    total_pswap = add64 params.total_pswap proc.proportional_swap;
    total_uswap = add64 params.total_uswap proc.unique_swap;
    total_zswap =
        if params.zram_enabled then add64 params.total_zswap proc.zswap else params.total_zswap;
  }

  unfoldable pub add_to_totals :
      Params Float → ProcessRecord World → List ℕ → Option (Params Float × ProcessRecord World)
  add_to_totals params proc swap_offset_array =
      let summed = add_usage_totals params proc in
      if not params.show_wss && params.swap_enabled
      then (calculate_swap m swap_offset_array params.zram_compression_ratio proc >>= λ proc'.
          some (add_swap_totals summed proc', proc'))
      else some (summed, proc)
