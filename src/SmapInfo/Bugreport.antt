-- ===== src/SmapInfo/Bugreport.antt =====
-- The namespace bugreport_procdump of libsmapinfo/smapinfo.cpp and run_bugreport_procdump: showmap,
-- librank and procrank over one set of process records.
pub mod Records
pub mod Sections
use android_system_memory_li.SmapInfo.Librank.Run.{run_librank}
use android_system_memory_li.SmapInfo.Procrank.Run.{run_procrank}
use android_system_memory_li.Common.{
  ℕ, Bool, true, false, not, List, [], ◌∷◌, ◌++◌, Option, none, some, if◌then◌else◌, ◌>>=◌, ℤ,
  ltb_ℤ, Map, find, emplace, is_some,
}
use android_system_memory_li.ProcMem.Escape.{raw}
use android_system_memory_li.SmapInfo.{Machine, Shared, by_pss, get_all_pids}
use android_system_memory_li.SmapInfo.Record.{
  ProcessRecord, ProcessMap, Report, new_process_record, valid,
}
use android_system_memory_li.SmapInfo.Showmap.{run_showmap, no_vma_info}
use android_system_memory_li.SmapInfo.Showmap.Print.{VmaInfo}
use android_system_memory_li.Text.{Bytes, codes}
use android_system_memory_li.Text.Print.{int_text}

-- `duration name` is the text of the seconds that the section took.
unfoldable pub print_section_start : Bytes → Bytes
print_section_start name = codes "------ " ++ name ++ codes " ------\n"

unfoldable pub print_section_end : (Bytes → Bytes) → Bytes → Bytes
print_section_end duration name =
    codes "------ " ++ duration name ++ codes " was the duration of '" ++ name ++ codes "' ------\n"

unfoldable pub section : (Bytes → Bytes) → Bytes → Bytes → Bytes
unfolding print_section_start print_section_end
section duration name text = print_section_start name ++ text ++ print_section_end duration name

-- The loop over the set that is to remove the pids without a record. `erase` of the pid that the loop
-- stands at invalidates its iterator: it goes on from there, which is undefined, `none`.
unfoldable pub kept_pids : {World : Type 0} → ProcessMap World → List ℤ → List ℤ → Option (List ℤ)
kept_pids records pids [] = some pids
kept_pids records pids (pid ∷ rest) =
    let kept = kept_pids records pids rest in
    if is_some (find ltb_ℤ pid records) then kept else none

module _ {World Float : Type 0} (m : Machine World Float) where
  abbrev pub keep_valid :
      ℤ → ProcessRecord World × Shared World → ProcessMap World → ProcessMap World × Shared World
  keep_valid pid (proc, shared) records =
      (if valid proc then emplace ltb_ℤ pid proc records else records, shared)

  unfoldable pub create_processrecords :
      List ℤ → ProcessMap World → Shared World → ProcessMap World × Shared World
  create_processrecords [] records shared = (records, shared)
  create_processrecords (pid ∷ pids) records shared =
      let (records', shared') =
        keep_valid pid (new_process_record m pid false 0 0 true false shared) records in
      create_processrecords pids records' shared'

  -- What the calls of run_showmap pass on: the output, the static variable and the records.
  pub record Shown : Type 0 where
    pub out : Bytes
    pub recent : VmaInfo
    pub processrecords : ProcessMap World
    pub shared : Shared World

  abbrev pub records_or {ℓ} : {A : Type ℓ} → A → Option A → A
  records_or a none = a
  records_or a (some b) = b

  abbrev pub show_map : (Bytes → Bytes) → ℤ → Bytes → Shown → Shown
  show_map duration pid cmdline s =
      let title = codes "SHOW MAP " ++ int_text pid ++ codes ": " ++ cmdline in
      let (text, scanned) =
        run_showmap m pid [] false false false raw s.recent (some s.processrecords) s.shared in
      record {
        out = s.out ++ section duration title text;
        recent = (scanned.collected).recent;
        processrecords = records_or s.processrecords scanned.processrecords;
        shared = scanned.shared;
      }

  -- The entries that the loop goes over are those of the map, to which run_showmap adds none.
  unfoldable pub call_smaps_of_all_processes : (Bytes → Bytes) → ProcessMap World → Shown → Shown
  call_smaps_of_all_processes duration [] s = s
  call_smaps_of_all_processes duration ((pid, proc) ∷ entries) s =
      call_smaps_of_all_processes duration entries (show_map duration pid proc.cmdline s)

  unfoldable pub call_librank : List ℤ → ProcessMap World → Shared World → Report World
  call_librank pids records shared =
      run_librank m 0 0 pids [] false (codes "[heap]" ∷ codes "[stack]" ∷ []) 0 raw by_pss false
        records shared

  unfoldable pub call_procrank : List ℤ → ProcessMap World → Shared World → Option (Report World)
  call_procrank pids records shared =
      run_procrank m 0 0 pids false false by_pss false records shared

  -- The pids behind the loop, and the records.
  unfoldable pub prepare : List ℤ → Shared World → Option (List ℤ × ProcessMap World × Shared World)
  unfolding create_processrecords kept_pids
  prepare pids shared =
      let (records, shared') = create_processrecords pids [] shared in
      kept_pids records pids pids >>= λ kept. some (kept, records, shared')

  -- The section of showmap.
  unfoldable pub show_all : (Bytes → Bytes) → ProcessMap World → Shared World → Shown
  unfolding call_smaps_of_all_processes
  show_all duration records shared =
      call_smaps_of_all_processes duration records
        (record { out = []; recent = no_vma_info; processrecords = records; shared = shared })

  -- What is printed behind the preparation, and the result.
  unfoldable pub print_report :
      (Bytes → Bytes) → List ℤ × ProcessMap World × Shared World → Option (Bytes × Bool)
  unfolding call_librank call_procrank section
  print_report duration (pids, records, shared) =
      let shown = show_all duration records shared in
      let librank = call_librank pids shown.processrecords shown.shared in
      call_procrank pids librank.processrecords librank.shared >>= λ procrank. some (
        section duration (codes "SMAPS OF ALL PROCESSES") shown.out
            ++ section duration (codes "LIBRANK") librank.out
            ++ section duration (codes "PROCRANK") procrank.out,
        true,
      )

  -- `none` stands for an undefined operation: that of the loop that removes pids, or one of
  -- CalculateSwap.
  unfoldable pub run_bugreport_procdump : (Bytes → Bytes) → Shared World → Option (Bytes × Bool)
  run_bugreport_procdump duration shared =
      let (pids, opened) = get_all_pids m.parse_int m.proc_dir in
      if opened then (prepare pids shared >>= print_report duration) else some ([], false)
