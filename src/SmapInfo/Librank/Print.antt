-- ===== src/SmapInfo/Librank/Print.antt =====
-- The text of librank's table.
use android_system_memory_li.Common.{List, [], ◌∷◌, ◌++◌}
use android_system_memory_li.ProcMem.Escape.{
  invalid, raw, json, csv, escape_csv_string, escape_json_string,
}
use android_system_memory_li.Text.{Bytes, codes}
use android_system_memory_li.Text.Print.{decimal_text, int_text, pad_left, kb_column, when}
use android_system_memory_li.SmapInfo.Librank.{LibProcRecord, LibRecord, Params}

module _ (params : Params) where
  abbrev pub raw_header : Bytes
  raw_header =
      pad_left 7 (codes "RSStot")
      ++ pad_left 10 (codes "VSS")
      ++ pad_left 9 (codes "RSS")
      ++ pad_left 9 (codes "PSS")
      ++ pad_left 9 (codes "USS")
      ++ codes "  "
      ++ when params.swap_enabled (pad_left 7 (codes "Swap") ++ codes "  ")
      ++ when params.show_oomadj (pad_left 7 (codes "Oom") ++ codes "  ")
      ++ codes "Name/PID\n"

  abbrev pub csv_header : Bytes
  csv_header =
      codes "\"Library\",\"Total_RSS\",\"Process\",\"PID\",\"VSS\",\"RSS\",\"PSS\",\"USS\""
      ++ when params.swap_enabled (codes ",\"Swap\"")
      ++ when params.show_oomadj (codes ",\"Oomadj\"")
      ++ codes "\n"

  unfoldable pub print_header : Bytes
  print_header = elim params.format [
    | raw ↦ raw_header
    | csv ↦ csv_header
    | json ↦ []
    | invalid ↦ []
  ]

  abbrev pub raw_library : LibRecord → Bytes
  raw_library lib =
      pad_left 6 (decimal_text lib.usage.pss)
      ++ codes "K"
      ++ pad_left 10 []
      ++ pad_left 9 []
      ++ pad_left 9 []
      ++ pad_left 9 []
      ++ codes "  "
      ++ when params.swap_enabled (pad_left 7 [] ++ codes "  ")
      ++ when params.show_oomadj (pad_left 7 [] ++ codes "  ")
      ++ lib.name
      ++ codes "\n"

  unfoldable pub print_library : LibRecord → Bytes
  print_library lib = elim params.format [
    | raw ↦ raw_library lib
    | csv ↦ []
    | json ↦ []
    | invalid ↦ []
  ]

  unfoldable pub print_proc_as_raw : LibProcRecord → Bytes
  print_proc_as_raw p =
      pad_left 7 []
      ++ kb_column 9 p.usage.vss
      ++ kb_column 6 p.usage.rss
      ++ kb_column 6 p.usage.pss
      ++ kb_column 6 p.usage.uss
      ++ when params.swap_enabled (kb_column 6 p.usage.swap)
      ++ when params.show_oomadj (pad_left 7 (int_text p.oomadj) ++ codes "  ")
      ++ codes "  "
      ++ p.cmdline
      ++ codes " ["
      ++ int_text p.pid
      ++ codes "]\n"

  unfoldable pub print_proc_as_json : LibRecord → LibProcRecord → Bytes
  print_proc_as_json l p =
      codes "{\"Library\":"
      ++ escape_json_string l.name
      ++ codes ",\"Total_RSS\":"
      ++ decimal_text l.usage.pss
      ++ codes ",\"Process\":"
      ++ escape_json_string p.cmdline
      ++ codes ",\"PID\":\""
      ++ int_text p.pid
      ++ codes "\""
      ++ codes ",\"VSS\":"
      ++ decimal_text p.usage.vss
      ++ codes ",\"RSS\":"
      ++ decimal_text p.usage.rss
      ++ codes ",\"PSS\":"
      ++ decimal_text p.usage.pss
      ++ codes ",\"USS\":"
      ++ decimal_text p.usage.uss
      ++ when params.swap_enabled (codes ",\"Swap\":" ++ decimal_text p.usage.swap)
      ++ when params.show_oomadj (codes ",\"Oom\":" ++ int_text p.oomadj)
      ++ codes "}\n"

  unfoldable pub print_proc_as_csv : LibRecord → LibProcRecord → Bytes
  print_proc_as_csv l p =
      escape_csv_string l.name
      ++ codes ","
      ++ decimal_text l.usage.pss
      ++ codes ","
      ++ escape_csv_string p.cmdline
      ++ codes ",\"["
      ++ int_text p.pid
      ++ codes "]\""
      ++ codes ","
      ++ decimal_text p.usage.vss
      ++ codes ","
      ++ decimal_text p.usage.rss
      ++ codes ","
      ++ decimal_text p.usage.pss
      ++ codes ","
      ++ decimal_text p.usage.uss
      ++ when params.swap_enabled (codes "," ++ decimal_text p.usage.swap)
      ++ when params.show_oomadj (codes "," ++ int_text p.oomadj)
      ++ codes "\n"

  abbrev pub print_proc : LibRecord → LibProcRecord → Bytes
  print_proc lib p = elim params.format [
    | raw ↦ print_proc_as_raw p
    | json ↦ print_proc_as_json lib p
    | csv ↦ print_proc_as_csv lib p
    | invalid ↦ []
  ]

  unfoldable pub print_procs : LibRecord → List LibProcRecord → Bytes
  print_procs lib [] = []
  print_procs lib (p ∷ ps) = print_proc lib p ++ print_procs lib ps
