-- ===== src/SmapInfo/Procrank/Print.antt =====
-- The text of procrank's table.
use Prim.Native.String.{String}
use android_system_memory_li.Common.{ℕ, ◌++◌, if◌then◌else◌, sub64}
use android_system_memory_li.SmapInfo.Record.{ProcessRecord}
use android_system_memory_li.SysMem.MemInfo.{MemMap, find_mem_by_tag}
use android_system_memory_li.Text.{Bytes, codes}
use android_system_memory_li.Text.Print.{
  decimal_text, int_text, pad_left, kb_column, text_column, when,
}
use android_system_memory_li.SmapInfo.Procrank.{Params}

module _ {Float : Type 0} (params : Params Float) where
  unfoldable pub print_header : Bytes
  print_header =
      text_column 5 "PID"
      ++ when params.show_oomadj (text_column 5 "oom")
      ++ (if params.show_wss
          then text_column 7 "WRss" ++ text_column 7 "WPss" ++ text_column 7 "WUss"
          else text_column 8 "Vss"
            ++ text_column 7 "Rss"
            ++ text_column 7 "Pss"
            ++ text_column 7 "Uss"
            ++ when params.swap_enabled (
                text_column 7 "Swap"
                ++ text_column 7 "PSwap"
                ++ text_column 7 "USwap"
                ++ when params.zram_enabled (text_column 7 "ZSwap")))
      ++ codes "cmdline\n"

  unfoldable pub print_divider : Bytes
  print_divider =
      text_column 5 ""
      ++ when params.show_oomadj (text_column 5 "")
      ++ (if params.show_wss
          then text_column 7 "" ++ text_column 7 "------" ++ text_column 7 "------"
          else text_column 8 ""
            ++ text_column 7 ""
            ++ text_column 7 "------"
            ++ text_column 7 "------"
            ++ when params.swap_enabled (
                text_column 7 "------"
                ++ text_column 7 "------"
                ++ text_column 7 "------"
                ++ when params.zram_enabled (text_column 7 "------")))
      ++ codes "------\n"

  unfoldable pub print_processrecord : {World : Type 0} → ProcessRecord World → Bytes
  print_processrecord proc =
      let u = proc.usage_or_wss in
      pad_left 5 (int_text proc.pid)
      ++ codes "  "
      ++ when params.show_oomadj (pad_left 5 (int_text proc.oomadj) ++ codes "  ")
      ++ (if params.show_wss
          then kb_column 6 u.rss ++ kb_column 6 u.pss ++ kb_column 6 u.uss
          else kb_column 7 u.vss
            ++ kb_column 6 u.rss
            ++ kb_column 6 u.pss
            ++ kb_column 6 u.uss
            ++ when params.swap_enabled (
                kb_column 6 u.swap
                ++ kb_column 6 proc.proportional_swap
                ++ kb_column 6 proc.unique_swap
                ++ when params.zram_enabled (kb_column 6 proc.zswap)))
      ++ proc.cmdline
      ++ codes "\n"

  unfoldable pub print_totals : Bytes
  print_totals =
      text_column 5 ""
      ++ when params.show_oomadj (text_column 5 "")
      ++ (if params.show_wss
          then text_column 7 "" ++ kb_column 6 params.total_pss ++ kb_column 6 params.total_uss
          else text_column 8 ""
            ++ text_column 7 ""
            ++ kb_column 6 params.total_pss
            ++ kb_column 6 params.total_uss
            ++ when params.swap_enabled (
                kb_column 6 params.total_swap
                ++ kb_column 6 params.total_pswap
                ++ kb_column 6 params.total_uswap
                ++ when params.zram_enabled (kb_column 6 params.total_zswap)))
      ++ codes "TOTAL\n\n"

  -- The sizes are those of a SysMemInfo, here its map and the size of its zram devices.
  unfoldable pub print_sysmeminfo : MemMap → ℕ → Bytes
  print_sysmeminfo smi zram_kb =
      let kb : String → Bytes = λ tag. decimal_text (find_mem_by_tag (codes tag) smi) in
      let used =
        sub64 (find_mem_by_tag (codes "SwapTotal:") smi)
          (find_mem_by_tag (codes "SwapFree:") smi) in
      when params.swap_enabled (
        codes "ZRAM: "
        ++ decimal_text zram_kb
        ++ codes "K physical used for "
        ++ decimal_text used
        ++ codes "K in swap ("
        ++ kb "SwapTotal:"
        ++ codes "K total swap)\n")
      ++ codes " RAM: "
      ++ kb "MemTotal:"
      ++ codes "K total, "
      ++ kb "MemFree:"
      ++ codes "K free, "
      ++ kb "Buffers:"
      ++ codes "K buffers, "
      ++ kb "Cached:"
      ++ codes "K cached, "
      ++ kb "Shmem:"
      ++ codes "K shmem, "
      ++ kb "Slab:"
      ++ codes "K slab\n"
