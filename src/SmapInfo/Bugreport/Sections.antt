-- ===== src/SmapInfo/Bugreport/Sections.antt =====
-- The sections of a bug report: the record that librank finds of a process, and where the report is
-- defined.
use mathlib.Core.Bool.{true≢false}
use android_system_memory_li.SmapInfo.Librank.Run.{run_librank}
use android_system_memory_li.Common.{
  ℕ, ◌≡◌, refl, sym, ap, ◌∙◌, Bool, true, false, not, List, [], ◌∷◌, some, if_cases, All, ℤ, ltb_ℤ,
  find, is_some, find-keys, ltb_ℤ_irrefl,
}
use android_system_memory_li.SmapInfo.{Machine, Shared, get_all_pids}
use android_system_memory_li.SmapInfo.Bugreport.{
  call_librank, kept_pids, create_processrecords, prepare, show_all,
}
use android_system_memory_li.SmapInfo.Bugreport.Records.{
  HaveRecords, Kept, create_processrecords-AllValid, find_or_create_found, kept_pids-HaveRecords,
  keys, show_maps-Kept, update-Kept, valid_procmem,
}
use android_system_memory_li.SmapInfo.Librank.{Libs, Params, populate_lib, populate_libs}
use android_system_memory_li.SmapInfo.Record.{
  ProcessMap, ProcessRecord, find_or_create, new_process_record, record_smaps, valid,
}
use mathlib.Core.Path.{subst⁻¹}
use android_system_memory_li.SmapInfo.Defined.{OnSome, OnSome-bind, OnSome-result}
use android_system_memory_li.Text.{Bytes}

module _ {World Float : Type 0} (m : Machine World Float) where
  populate_lib-Kept :
      (params : Params) (pgflags pgflags_mask : ℕ) (pids : List ℤ) (pid : ℤ) (s : Libs World)
      → is_some (find ltb_ℤ pid s.processrecords) ≡ true
      → Kept m pids s.processrecords
      → let r = populate_lib m params pgflags pgflags_mask pid s in
        (r.1 ≡ true) × Kept m pids (r.0).processrecords
  unfolding populate_lib record_smaps
  populate_lib-Kept params pgflags pgflags_mask pids pid s found k =
      let create = new_process_record m pid false pgflags pgflags_mask true params.show_oomadj in
      let r = find_or_create create pid s.processrecords s.shared in
      let same = find_or_create_found m create pid s.processrecords s.shared k.0 found in
      if_cases (λ (t : Libs World × Bool). (t.1 ≡ true) × Kept m pids (t.0).processrecords)
        (not (valid r.0)) (λ e. absurd (true≢false (sym e ∙ ap not same.0)))
        (λ e. (
          refl,
          update-Kept m pids pid (record_smaps m r.0) s.processrecords r.1
              (valid_procmem m r.0 (record_smaps m r.0).procmem same.0) same.1 k,
        ))

  populate_libs_done :
      (params : Params) (pgflags pgflags_mask : ℕ) (pids : List ℤ) (s : Libs World)
      → Kept m pids s.processrecords
      → (populate_libs m params pgflags pgflags_mask pids s).1 ≡ true
  unfolding populate_libs
  populate_libs_done params pgflags pgflags_mask [] s k = refl
  populate_libs_done params pgflags pgflags_mask (pid ∷ pids) s k =
      let r = populate_lib m params pgflags pgflags_mask pid s in
      let one = populate_lib-Kept params pgflags pgflags_mask pids pid s k.1.0 (k.0, k.1.1) in
      if_cases (λ (t : Libs World × Bool). t.1 ≡ true) r.1
        (λ e. populate_libs_done params pgflags pgflags_mask pids r.0 one.1) (λ e. cc)

  prepared-Kept :
      (pids : List ℤ) (shared : Shared World)
      → OnSome
          (λ (p : List ℤ × ProcessMap World × Shared World). Kept m p.0 p.1)
          (prepare m pids shared)
  unfolding prepare
  prepared-Kept pids shared =
      let made = create_processrecords m pids [] shared in
      OnSome-bind (λ kept. (kept ≡ pids) × HaveRecords made.0 pids)
        (λ (p : List ℤ × ProcessMap World × Shared World). Kept m p.0 p.1)
        (kept_pids made.0 pids pids) _ (kept_pids-HaveRecords m made.0 pids pids)
        λ kept h.
          (create_processrecords-AllValid m pids [] shared tt, subst⁻¹ (HaveRecords made.0) h.0 h.1)

  keys-HaveRecords :
      (records entries : ProcessMap World)
      → All (λ (e : ℤ × ProcessRecord World). is_some (find ltb_ℤ e.0 records) ≡ true) entries
      → HaveRecords records (keys entries)
  keys-HaveRecords records [] h = tt
  keys-HaveRecords records ((pid, r) ∷ entries) h = (h.0, keys-HaveRecords records entries h.1)

  show_all-Kept :
      (duration : Bytes → Bytes) (pids : List ℤ) (records : ProcessMap World)
      (shared : Shared World)
      → Kept m pids records
      → Kept m pids (show_all m duration records shared).processrecords
  unfolding show_all
  show_all-Kept duration pids records shared =
      show_maps-Kept m duration pids records _
        (keys-HaveRecords records records (find-keys ltb_ℤ records ltb_ℤ_irrefl))

  -- In a bug report, whatever /proc holds, librank succeeds behind create_processrecords and the runs
  -- of showmap, provided that the loop that is to remove pids without a record is defined.
  pub librank_succeeds :
      (duration : Bytes → Bytes) (pids : List ℤ) (shared : Shared World)
      (p : List ℤ × ProcessMap World × Shared World)
      → prepare m pids shared ≡ some p
      → let shown = show_all m duration p.1 p.2 in
        (call_librank m p.0 shown.processrecords shown.shared).success ≡ true
  unfolding call_librank run_librank
  librank_succeeds duration pids shared p e = populate_libs_done _ 0 0 p.0 _ (
      show_all-Kept duration p.0 p.1 p.2
        (OnSome-result _ (prepare m pids shared) p (prepared-Kept pids shared) e))

  -- The pids of /proc, and the records that create_processrecords makes of them.
  abbrev pub all_pids : List ℤ
  all_pids = (get_all_pids m.parse_int m.proc_dir).0

  abbrev pub created : Shared World → ProcessMap World
  created shared = (create_processrecords m all_pids [] shared).0
