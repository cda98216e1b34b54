-- ===== src/SmapInfo/Librank/Totals.antt =====
-- The sums of librank over the processes of a library and over the selected maps.
use android_system_memory_li.Common.{
  ℕ, ◌+◌, ◌%◌, ◌≡◌, refl, ◌∙◌, Bool, true, false, List, [], ◌∷◌, arith, if◌then◌else◌, if_cases,
  if_both_cases, All, not, add64, u64_mod, ℤ, ltb_ℤ, total, emplace-All, emplace-total,
  ltb_ℤ_irrefl,
}
use android_system_memory_li.ProcMem.Usage.{MemUsage, Vma, no_usage}
use android_system_memory_li.SmapInfo.{Machine}
use android_system_memory_li.SmapInfo.Librank.{
  LibProcRecord, LibRecord, LibMap, Libs, Params, add_mem_usage, add_proc_usage, add_usage, add_map,
  add_maps, is_selected, lib_record, lib_proc_record, populate_lib, populate_libs,
}
use android_system_memory_li.SmapInfo.Record.{
  valid, find_or_create, new_process_record, record_smaps,
}
use android_system_memory_li.Text.{Bytes, text_lt}
use android_system_memory_li.Text.Order.{text_lt_irrefl}

-- The counters that librank adds up.
pub data Counter : Type 0 where
  of_vss of_rss of_pss of_uss of_swap of_private_clean of_private_dirty : Counter
  of_shared_clean of_shared_dirty : Counter

abbrev pub counter : Counter → MemUsage → ℕ
counter of_vss u = u.vss
counter of_rss u = u.rss
counter of_pss u = u.pss
counter of_uss u = u.uss
counter of_swap u = u.swap
counter of_private_clean u = u.private_clean
counter of_private_dirty u = u.private_dirty
counter of_shared_clean u = u.shared_clean
counter of_shared_dirty u = u.shared_dirty

counter-add_mem_usage :
    (c : Counter) (to from : MemUsage)
    → counter c (add_mem_usage to from) ≡ add64 (counter c to) (counter c from)
unfolding add_mem_usage
counter-add_mem_usage of_vss to from = refl
counter-add_mem_usage of_rss to from = refl
counter-add_mem_usage of_pss to from = refl
counter-add_mem_usage of_uss to from = refl
counter-add_mem_usage of_swap to from = refl
counter-add_mem_usage of_private_clean to from = refl
counter-add_mem_usage of_private_dirty to from = refl
counter-add_mem_usage of_shared_clean to from = refl
counter-add_mem_usage of_shared_dirty to from = refl

counter-no_usage : (c : Counter) → counter c no_usage ≡ 0
counter-no_usage of_vss = refl
counter-no_usage of_rss = refl
counter-no_usage of_pss = refl
counter-no_usage of_uss = refl
counter-no_usage of_swap = refl
counter-no_usage of_private_clean = refl
counter-no_usage of_private_dirty = refl
counter-no_usage of_shared_clean = refl
counter-no_usage of_shared_dirty = refl

-- The usage of a library is, modulo 2 ^ 64, the sum over its processes.
abbrev pub IsSummed : LibRecord → Type 0
IsSummed lib =
    (c : Counter)
    → counter c lib.usage ≡ total (λ (p : LibProcRecord). counter c p.usage) lib.procs % u64_mod

abbrev pub AllSummed : LibMap → Type 0
AllSummed = All (λ (e : Bytes × LibRecord). IsSummed e.1)

add_usage-IsSummed :
    (proc : LibProcRecord) (u : MemUsage) (lib : LibRecord)
    → ((c : Counter) → counter c proc.usage ≡ 0)
    → IsSummed lib
    → IsSummed (add_usage proc u lib)
unfolding add_usage add_proc_usage
add_usage-IsSummed proc u lib fresh summed c = omega (
  arith,
  counter-add_mem_usage c lib.usage u,
  summed c,
  emplace-total ltb_ℤ proc.pid (add_proc_usage u) proc (λ (p : LibProcRecord). counter c p.usage)
      (counter c u) lib.procs (ltb_ℤ_irrefl proc.pid) (fresh c)
      (λ p. counter-add_mem_usage c p.usage u),
)

counter-add_usage :
    (c : Counter) (proc : LibProcRecord) (u : MemUsage) (lib : LibRecord)
    → counter c (add_usage proc u lib).usage ≡ add64 (counter c lib.usage) (counter c u)
unfolding add_usage
counter-add_usage c proc u lib = counter-add_mem_usage c lib.usage u

module _ {World Float : Type 0} (m : Machine World Float) (params : Params) where
  add_map-AllSummed :
      (proc : LibProcRecord) (v : Vma) (libs : LibMap)
      → ((c : Counter) → counter c proc.usage ≡ 0)
      → AllSummed libs
      → AllSummed (add_map m params proc v libs)
  unfolding add_map
  add_map-AllSummed proc v libs fresh =
      emplace-All text_lt v.name (add_usage proc v.usage) (lib_record v.name) IsSummed libs
        (text_lt_irrefl v.name)
        (add_usage-IsSummed proc v.usage (lib_record v.name) fresh
          (λ c. omega (arith, counter-no_usage c)))
        (λ lib. add_usage-IsSummed proc v.usage lib fresh)

  add_maps-AllSummed :
      (proc : LibProcRecord) (vs : List Vma) (libs : LibMap)
      → ((c : Counter) → counter c proc.usage ≡ 0)
      → AllSummed libs
      → AllSummed (add_maps m params proc vs libs)
  unfolding add_maps
  add_maps-AllSummed proc [] libs fresh h = h
  add_maps-AllSummed proc (v ∷ vs) libs fresh h =
      add_maps-AllSummed proc vs
        (if is_selected m params v then add_map m params proc v libs else libs) fresh
        (if_cases AllSummed (is_selected m params v) (λ e. add_map-AllSummed proc v libs fresh h)
          (λ e. h))

  populate_lib-AllSummed :
      (pgflags pgflags_mask : ℕ) (pid : ℤ) (s : Libs World)
      → AllSummed s.lib_name_map
      → AllSummed ((populate_lib m params pgflags pgflags_mask pid s).0).lib_name_map
  unfolding populate_lib
  populate_lib-AllSummed pgflags pgflags_mask pid s h =
      let P : Libs World × Bool → Type 0 = λ r. AllSummed (r.0).lib_name_map in
      let r =
        find_or_create (new_process_record m pid false pgflags pgflags_mask true params.show_oomadj)
          pid s.processrecords s.shared in
      if_cases P (not (valid r.0)) (λ e. h)
        (λ e.
          add_maps-AllSummed (lib_proc_record r.0) ((record_smaps m r.0).procmem).maps
            s.lib_name_map counter-no_usage h)

  -- If in every library each counter is, modulo 2 ^ 64, the sum over the library's processes, then
  -- this is so when populate_libs is done, whether it succeeds or not.
  pub populate_libs-AllSummed :
      (pgflags pgflags_mask : ℕ) (pids : List ℤ) (s : Libs World)
      → AllSummed s.lib_name_map
      → AllSummed ((populate_libs m params pgflags pgflags_mask pids s).0).lib_name_map
  unfolding populate_libs
  populate_libs-AllSummed pgflags pgflags_mask [] s h = h
  populate_libs-AllSummed pgflags pgflags_mask (pid ∷ pids) s h =
      let P : Libs World × Bool → Type 0 = λ r. AllSummed (r.0).lib_name_map in
      let r = populate_lib m params pgflags pgflags_mask pid s in
      let first = populate_lib-AllSummed pgflags pgflags_mask pid s h in
      if_cases P r.1 (λ e. populate_libs-AllSummed pgflags pgflags_mask pids r.0 first) (λ e. first)

  add_map_total :
      (c : Counter) (proc : LibProcRecord) (v : Vma) (libs : LibMap)
      → total (λ (l : LibRecord). counter c l.usage) (add_map m params proc v libs) % u64_mod
        ≡ add64 (total (λ (l : LibRecord). counter c l.usage) libs) (counter c v.usage)
  unfolding add_map
  add_map_total c proc v libs =
      emplace-total text_lt v.name (add_usage proc v.usage) (lib_record v.name)
        (λ (l : LibRecord). counter c l.usage) (counter c v.usage) libs (text_lt_irrefl v.name)
        (counter-no_usage c) (λ l. counter-add_usage c proc v.usage l)

  -- The counter of the maps that the options select.
  abbrev pub selected_sum : Counter → List Vma → ℕ
  selected_sum c [] = 0
  selected_sum c (v ∷ vs) =
      (if is_selected m params v then counter c v.usage else 0) + selected_sum c vs

  -- The maps of one process add to the libraries together, counter by counter and modulo 2 ^ 64,
  -- the sum over its maps that the prefix, the excluded names and the permissions let through.
  pub add_maps_total :
      (c : Counter) (proc : LibProcRecord) (vs : List Vma) (libs : LibMap)
      → total (λ (l : LibRecord). counter c l.usage) (add_maps m params proc vs libs) % u64_mod
        ≡ add64 (total (λ (l : LibRecord). counter c l.usage) libs) (selected_sum c vs)
  unfolding add_maps
  add_maps_total c proc [] libs = omega arith
  add_maps_total c proc (v ∷ vs) libs =
      add_maps_total c proc vs
        (if is_selected m params v then add_map m params proc v libs else libs)
      ∙ one
    where
      f : LibRecord → ℕ
      f l = counter c l.usage

      one :
          add64
            (total f (if is_selected m params v then add_map m params proc v libs else libs))
            (selected_sum c vs)
          ≡ add64
              (total f libs)
              ((if is_selected m params v then counter c v.usage else 0) + selected_sum c vs)
      one =
          if_both_cases
            (λ (t : LibMap) (n : ℕ).
              add64 (total f t) (selected_sum c vs) ≡ add64 (total f libs) (n + selected_sum c vs))
            (is_selected m params v) (λ e. omega (arith, add_map_total c proc v libs))
            (λ e. omega arith)
