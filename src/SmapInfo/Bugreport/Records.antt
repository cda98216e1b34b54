-- ===== src/SmapInfo/Bugreport/Records.antt =====
-- The records of a bug report, behind create_processrecords and behind the runs of showmap.
use android_system_memory_li.Common.{
  ◌≡◌, refl, ◌∙◌, true, false, List, [], ◌∷◌, Option, none, some, if◌then◌else◌, if_cases, All, ℤ,
  ltb_ℤ, find, emplace, update, is_some, update-is_some, find-All, emplace_only-All, update-All,
}
use android_system_memory_li.SmapInfo.{Machine, Shared}
use android_system_memory_li.SmapInfo.Bugreport.{
  Shown, call_smaps_of_all_processes, create_processrecords, kept_pids, show_map,
}
use mathlib.Core.Path.{subst⁻¹}
use android_system_memory_li.ProcMem.Process.{ProcMemInfo}
use android_system_memory_li.SmapInfo.Showmap.{collect_existing, collect_maps, run_showmap}
use android_system_memory_li.SmapInfo.Showmap.Print.{Options}
use android_system_memory_li.SmapInfo.Defined.{OnSome, OnSome-weaken}
use android_system_memory_li.Text.{Bytes}
use android_system_memory_li.SmapInfo.Record.{
  if_found, ProcessRecord, ProcessMap, new_process_record, valid, find_or_create,
}

abbrev pub AllValid : {World : Type 0} → ProcessMap World → Type 0
AllValid {World = World} = All (λ (e : ℤ × ProcessRecord World). valid e.1 ≡ true)

abbrev pub HaveRecords : {World : Type 0} → ProcessMap World → List ℤ → Type 0
HaveRecords records = All (λ pid. is_some (find ltb_ℤ pid records) ≡ true)

abbrev pub keys : {World : Type 0} → ProcessMap World → List ℤ
keys [] = []
keys ((pid, r) ∷ d) = pid ∷ keys d

module _ {World Float : Type 0} (m : Machine World Float) where
  pub create_processrecords-AllValid :
      (pids : List ℤ) (records : ProcessMap World) (shared : Shared World)
      → AllValid records
      → AllValid (create_processrecords m pids records shared).0
  unfolding create_processrecords
  create_processrecords-AllValid [] records shared h = h
  create_processrecords-AllValid (pid ∷ pids) records shared h =
      let r = new_process_record m pid false 0 0 true false shared in
      create_processrecords-AllValid pids
        (if valid r.0 then emplace ltb_ℤ pid r.0 records else records) r.1
        (if_cases AllValid (valid r.0)
          (λ e.
            emplace_only-All ltb_ℤ (λ (p : ProcessRecord World). valid p ≡ true) pid r.0 records e
              h)
          (λ e. h))

  -- Where every pid has a record, the loop is defined and removes none.
  pub kept_pids_all :
      (records : ProcessMap World) (pids rest : List ℤ)
      → HaveRecords records rest
      → kept_pids records pids rest ≡ some pids
  unfolding kept_pids
  kept_pids_all records pids [] h = refl
  kept_pids_all records pids (pid ∷ rest) h = rw (h.0) (kept_pids_all records pids rest h.1)

  -- Where the loop is defined, every pid has a record.
  pub kept_pids-HaveRecords :
      (records : ProcessMap World) (pids rest : List ℤ)
      → OnSome (λ kept. (kept ≡ pids) × HaveRecords records rest) (kept_pids records pids rest)
  unfolding kept_pids
  kept_pids-HaveRecords records pids [] = (refl, tt)
  kept_pids-HaveRecords records pids (pid ∷ rest) =
      let P : List ℤ → Type 0 = λ kept. (kept ≡ pids) × HaveRecords records (pid ∷ rest) in
      if_cases (OnSome P) (is_some (find ltb_ℤ pid records))
        (λ e.
          OnSome-weaken (λ kept. (kept ≡ pids) × HaveRecords records rest) P
            (kept_pids records pids rest) (λ kept h. (h.0, (e, h.1)))
            (kept_pids-HaveRecords records pids rest))
        (λ e. tt)

  -- A change of one record that leaves it valid.
  update-AllValid :
      (pid : ℤ) (r : ProcessRecord World) (records : ProcessMap World)
      → valid r ≡ true
      → AllValid records
      → AllValid (update ltb_ℤ pid (λ old. r) records)
  update-AllValid pid r records v h =
      update-All ltb_ℤ pid (λ (e : ℤ × ProcessRecord World). valid e.1 ≡ true) (λ old. r) records
        (λ j old e. v) h

  update-HaveRecords :
      (pid : ℤ) (g : ProcessRecord World → ProcessRecord World) (records : ProcessMap World)
      (pids : List ℤ)
      → HaveRecords records pids
      → HaveRecords (update ltb_ℤ pid g records) pids
  update-HaveRecords pid g records [] h = tt
  update-HaveRecords pid g records (p ∷ ps) h =
      (update-is_some ltb_ℤ p pid g records ∙ h.0, update-HaveRecords pid g records ps h.1)

  -- The record that is found is the one of the map, and the map stays.
  pub find_or_create_found :
      (create : Shared World → ProcessRecord World × Shared World) (pid : ℤ)
      (records : ProcessMap World) (shared : Shared World)
      → AllValid records
      → is_some (find ltb_ℤ pid records) ≡ true
      → let r = find_or_create create pid records shared in (valid r.0 ≡ true) × (r.1 ≡ records)
  find_or_create_found create pid records shared h found = go (find ltb_ℤ pid records) refl found
    where
      go :
          (o : Option (ProcessRecord World))
          → find ltb_ℤ pid records ≡ o
          → is_some o ≡ true
          → let r = if_found create pid records shared o in (valid r.0 ≡ true) × (r.1 ≡ records)
      go none e s = cc
      go (some r) e s =
          (find-All ltb_ℤ (λ (p : ProcessRecord World). valid p ≡ true) pid r records h e, refl)

  -- One process: the records stay valid, and no pid loses its record.
  abbrev pub Kept : List ℤ → ProcessMap World → Type 0
  Kept pids records = AllValid records × HaveRecords records pids

  pub update-Kept :
      (pids : List ℤ) (pid : ℤ) (r : ProcessRecord World) (records records' : ProcessMap World)
      → valid r ≡ true
      → records' ≡ records
      → Kept pids records
      → Kept pids (update ltb_ℤ pid (λ old. r) records')
  update-Kept pids pid r records records' v same k =
      let moved : Kept pids records' = subst⁻¹ (Kept pids) same k in
      (
        update-AllValid pid r records' v moved.0,
        update-HaveRecords pid (λ old. r) records' pids moved.1,
      )

  pub valid_procmem :
      (r : ProcessRecord World) (p : ProcMemInfo World)
      → valid r ≡ true
      → valid (record r { procmem = p }) ≡ true
  unfolding valid
  valid_procmem r p v = v

  show_map-Kept :
      (duration : Bytes → Bytes) (pids : List ℤ) (pid : ℤ) (cmdline : Bytes) (s : Shown m)
      → is_some (find ltb_ℤ pid s.processrecords) ≡ true
      → Kept pids s.processrecords
      → Kept pids (show_map m duration pid cmdline s).processrecords
  unfolding run_showmap collect_maps
  show_map-Kept duration pids pid cmdline s found k =
      let create = new_process_record m pid false 0 0 false false in
      let r = find_or_create create pid s.processrecords s.shared in
      let same = find_or_create_found create pid s.processrecords s.shared k.0 found in
      let o : Options = record { show_addr = false; verbose = false } in
      let scanned = collect_existing m o (record { vmas = []; recent = s.recent }) r.0 in
      update-Kept pids pid scanned.0 s.processrecords r.1
        (valid_procmem r.0 (scanned.0).procmem same.0) same.1 k

  pub show_maps-Kept :
      (duration : Bytes → Bytes) (pids : List ℤ) (entries : ProcessMap World) (s : Shown m)
      → HaveRecords s.processrecords (keys entries)
      → Kept pids s.processrecords
      → Kept pids (call_smaps_of_all_processes m duration entries s).processrecords
  unfolding call_smaps_of_all_processes
  show_maps-Kept duration pids [] s found k = k
  show_maps-Kept duration pids ((pid, proc) ∷ entries) s found k =
      show_maps-Kept duration pids entries (show_map m duration pid proc.cmdline s)
        (others s found k) (show_map-Kept duration pids pid proc.cmdline s found.0 k)
    where
      others :
          (s : Shown m)
          → HaveRecords s.processrecords (pid ∷ keys entries)
          → Kept pids s.processrecords
          → HaveRecords (show_map m duration pid proc.cmdline s).processrecords (keys entries)
      others s found k =
          (show_map-Kept duration (keys entries) pid proc.cmdline s found.0 (k.0, found.1)).1
