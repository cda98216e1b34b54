-- ===== src/Examples/Libraries.antt =====
-- Two mappings of a library, for librank and showmap.

use android_system_memory_li.Common.{
  Bool, total_at, length, ◌%◌, ◌≡◌, refl, true, false, [], ◌∷◌, pos, total, add64, u64_mod,
}
use android_system_memory_li.ProcMem.Escape.{escape_json_string}
use android_system_memory_li.SmapInfo.Showmap.{vma_info}
use android_system_memory_li.SmapInfo.Showmap.Print.{to_json}
use android_system_memory_li.Text.Print.{decimal_text, hex_text}
use mathlib.Core.List.{◌++◌}
use android_system_memory_li.ProcMem.Escape.{raw, json}
use android_system_memory_li.ProcMem.Process.{visit_existing}
use android_system_memory_li.ProcMem.Usage.{Vma, no_usage, no_vma}
use android_system_memory_li.SmapInfo.Librank.{
  LibRecord, Libs, Params as LibParams, add_maps, lib_proc_record, populate_lib, populate_libs,
}
use android_system_memory_li.SmapInfo.Librank.Totals.{
  AllSummed, add_maps_total, counter, of_pss as counter_pss, populate_libs-AllSummed, selected_sum,
}
use android_system_memory_li.SmapInfo.Showmap.{is_library, collecting, no_vma_info, print_vmas}
use android_system_memory_li.SmapInfo.Showmap.Names.{ByName}
use android_system_memory_li.SmapInfo.Showmap.Labels.{sum_named, visit_existing-named}
use android_system_memory_li.SmapInfo.Showmap.Print.{Options}
use android_system_memory_li.SmapInfo.Showmap.Totals.{
  column, info_column, of_pss as column_pss, showmap_total,
}
use android_system_memory_li.SmapInfo.Record.{valid, record_smaps}
use android_system_memory_li.ProcMem.Process.{smaps}
use android_system_memory_li.Text.{Bytes, codes, text_eq, text_lt}
use android_system_memory_li.Examples.Tables.{machine, shared, process}

-- Two mappings of a library, the second without a name.
abbrev library : Vma
library = record no_vma {
  end = 4096;
  flags = 5;
  name = codes "/lib/libc.so";
  usage = record no_usage { vss = 4; pss = 3 };
}

abbrev bss : Vma
bss = record no_vma { start = 4096; end = 8192; usage = record no_usage { vss = 4; pss = 2 } }

abbrev lib_params : LibParams
lib_params = record {
  lib_prefix = [];
  all_libs = false;
  excluded_libs = codes "[heap]" ∷ [];
  mapflags_mask = 0;
  format = raw;
  swap_enabled = false;
  show_oomadj = false;
}

-- Process 1 has the two mappings; the maps of the library are then those of one process.
abbrev mapped : Libs Unit
mapped =
    let proc = process 1 [] in
    record {
      lib_name_map = [];
      swap_enabled = false;
      processrecords =
          (pos 1, record proc { procmem = record (proc.procmem) { maps = library ∷ bss ∷ [] } })
          ∷ [];
      shared = shared;
    }

-- The two mappings make an entry of the library and one of the empty name.
mapped_libs : length (populate_libs machine lib_params 0 0 (pos 1 ∷ []) mapped).0.lib_name_map ≡ 2
unfolding populate_libs populate_lib valid record_smaps smaps text_eq text_lt
mapped_libs = refl

populate_libs-AllSummed_example :
    AllSummed (populate_libs machine lib_params 0 0 (pos 1 ∷ []) mapped).0.lib_name_map
populate_libs-AllSummed_example =
    populate_libs-AllSummed machine lib_params 0 0 (pos 1 ∷ []) mapped tt

add_maps_total_example :
    total
        (λ (l : LibRecord). counter counter_pss l.usage)
        (add_maps machine lib_params (lib_proc_record (process 1 [])) (library ∷ bss ∷ []) [])
      % u64_mod
    ≡ add64 0 (selected_sum machine lib_params counter_pss (library ∷ bss ∷ []))
add_maps_total_example =
    add_maps_total machine lib_params counter_pss (lib_proc_record (process 1 []))
      (library ∷ bss ∷ []) []

abbrev plain : Options
plain = record { show_addr = false; verbose = false }

showmap_total_example :
    let s =
      (visit_existing
        (collecting machine.ends_with plain)
        (library ∷ bss ∷ [])
        (record { vmas = []; recent = no_vma_info })).1 in
    column column_pss (((print_vmas plain json true s.vmas no_vma_info).0).vma).usage % u64_mod
    ≡ 5 % u64_mod
showmap_total_example =
    showmap_total column_pss machine.ends_with plain json true (library ∷ bss ∷ []) no_vma_info

-- The name of the library, which both mappings are shown under.
abbrev is_libc : Bytes → Bool
is_libc name = text_eq name (codes "/lib/libc.so")

visit_existing-named_example :
    let s =
      (visit_existing
        (collecting machine.ends_with plain)
        (library ∷ bss ∷ [])
        (record { vmas = []; recent = no_vma_info })).1 in
    ByName s.vmas
    × (total_at is_libc (info_column column_pss) s.vmas % u64_mod
        ≡ sum_named machine.ends_with column_pss is_libc (library ∷ bss ∷ []) % u64_mod)
visit_existing-named_example =
    visit_existing-named machine.ends_with column_pss is_libc plain (library ∷ bss ∷ []) no_vma_info
      refl refl

both_named : sum_named machine.ends_with column_pss is_libc (library ∷ bss ∷ []) ≡ 5
unfolding text_eq is_library
both_named = refl

-- A mapping by address, as JSON.
library_line :
    to_json (record { show_addr = true; verbose = true }) false (vma_info library)
    ≡ codes "{\"virtual size\":4,\"RSS\":0,\"PSS\":3,\"shared clean\":0,\"shared dirty\":0,"
      ++ codes
          "\"private clean\":0,\"private dirty\":0,\"swap\":0,\"swapPSS\":0,\"Anon HugePages\":0,"
      ++ codes "\"Shmem PmdMapped\":0,\"File PmdMapped\":0,\"Shared Hugetlb\":0,"
      ++ codes "\"Private Hugetlb\":0,\"Locked\":0,\"start addr\":\"0\",\"end addr\":\"1000\","
      ++ codes "\"flags\":\"r-x\",\"object\":\"\\/lib\\/libc.so\"}"
unfolding to_json decimal_text hex_text escape_json_string
library_line = refl
