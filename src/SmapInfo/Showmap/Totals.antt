-- ===== src/SmapInfo/Showmap/Totals.antt =====
-- The line TOTAL of showmap, and the counters of the mappings that it sums.
use android_system_memory_li.Common.{
  ℕ, ◌%◌, ◌≡◌, refl, Bool, not, ◌&&◌, List, [], ◌∷◌, Option, none, some, arith, ◌==◌, if◌then◌else◌,
  if_cases, add64, u64_mod, Map, total, sum_by, find, emplace_multi-total, update-total,
}
use android_system_memory_li.ProcMem.Escape.{Format}
use android_system_memory_li.ProcMem.Process.{visit_existing, is_nil}
use android_system_memory_li.ProcMem.Usage.{MemUsage, Vma, no_usage}
use android_system_memory_li.SmapInfo.Showmap.{
  Collected, add_by_name, add_mem_usage, coalesce, collect_vma, collecting, infer_vma_name,
  print_vmas, vma_info, no_vma_info, add_total, add_where_found, address_key, is_library,
}
use android_system_memory_li.SmapInfo.Showmap.Print.{VmaInfo, Options}
use android_system_memory_li.Text.{Bytes, text_lt}

-- The counters that showmap prints.
pub data Column : Type 0 where
  of_vss of_rss of_pss of_swap of_swap_pss of_private_clean of_private_dirty : Column
  of_shared_clean of_shared_dirty of_anon_huge_pages of_shmem_pmd_mapped : Column
  of_file_pmd_mapped of_shared_hugetlb of_private_hugetlb of_locked : Column

abbrev pub column : Column → MemUsage → ℕ
column of_vss u = u.vss
column of_rss u = u.rss
column of_pss u = u.pss
column of_swap u = u.swap
column of_swap_pss u = u.swap_pss
column of_private_clean u = u.private_clean
column of_private_dirty u = u.private_dirty
column of_shared_clean u = u.shared_clean
column of_shared_dirty u = u.shared_dirty
column of_anon_huge_pages u = u.anon_huge_pages
column of_shmem_pmd_mapped u = u.shmem_pmd_mapped
column of_file_pmd_mapped u = u.file_pmd_mapped
column of_shared_hugetlb u = u.shared_hugetlb
column of_private_hugetlb u = u.private_hugetlb
column of_locked u = u.locked

column-add_mem_usage :
    (c : Column) (to from : MemUsage)
    → column c (add_mem_usage to from) ≡ add64 (column c to) (column c from)
unfolding add_mem_usage
column-add_mem_usage of_vss to from = refl
column-add_mem_usage of_rss to from = refl
column-add_mem_usage of_pss to from = refl
column-add_mem_usage of_swap to from = refl
column-add_mem_usage of_swap_pss to from = refl
column-add_mem_usage of_private_clean to from = refl
column-add_mem_usage of_private_dirty to from = refl
column-add_mem_usage of_shared_clean to from = refl
column-add_mem_usage of_shared_dirty to from = refl
column-add_mem_usage of_anon_huge_pages to from = refl
column-add_mem_usage of_shmem_pmd_mapped to from = refl
column-add_mem_usage of_file_pmd_mapped to from = refl
column-add_mem_usage of_shared_hugetlb to from = refl
column-add_mem_usage of_private_hugetlb to from = refl
column-add_mem_usage of_locked to from = refl

column-no_usage : (c : Column) → column c no_usage ≡ 0
column-no_usage of_vss = refl
column-no_usage of_rss = refl
column-no_usage of_pss = refl
column-no_usage of_swap = refl
column-no_usage of_swap_pss = refl
column-no_usage of_private_clean = refl
column-no_usage of_private_dirty = refl
column-no_usage of_shared_clean = refl
column-no_usage of_shared_dirty = refl
column-no_usage of_anon_huge_pages = refl
column-no_usage of_shmem_pmd_mapped = refl
column-no_usage of_file_pmd_mapped = refl
column-no_usage of_shared_hugetlb = refl
column-no_usage of_private_hugetlb = refl
column-no_usage of_locked = refl

module _ (c : Column) where
  abbrev pub info_column : VmaInfo → ℕ
  info_column info = column c (info.vma).usage

  pub column-coalesce :
      (current info : VmaInfo)
      → info_column (coalesce current info) ≡ add64 (info_column info) (info_column current)
  unfolding coalesce
  column-coalesce current info = column-add_mem_usage c (info.vma).usage (current.vma).usage

  add_by_name_total :
      (current : VmaInfo) (vmas : Map Bytes VmaInfo)
      → total info_column (add_by_name current vmas) % u64_mod
        ≡ add64 (total info_column vmas) (info_column current)
  unfolding add_by_name
  add_by_name_total current vmas = go (find text_lt (current.vma).name vmas) refl
    where
      go :
          (found : Option VmaInfo)
          → find text_lt (current.vma).name vmas ≡ found
          → total info_column (add_where_found current vmas found) % u64_mod
            ≡ add64 (total info_column vmas) (info_column current)
      go none e =
          omega (arith, emplace_multi-total text_lt (current.vma).name info_column current vmas)
      go (some info) e =
          update-total text_lt (current.vma).name info_column (coalesce current)
            (info_column current) info vmas (column-coalesce current) e

  module _ (ends_with : Bytes → Bytes → Bool) where
    column-infer_vma_name :
        (v : Vma) (recent : VmaInfo)
        → info_column (infer_vma_name ends_with (vma_info v) recent) ≡ column c v.usage
    unfolding infer_vma_name
    column-infer_vma_name v recent =
        let P : VmaInfo → Type 0 = λ i. info_column i ≡ column c v.usage in
        if_cases P (not (is_nil v.name)) (λ e. refl)
          λ e.
            if_cases P ((recent.vma).end == v.start && is_library ends_with (recent.vma).name)
              (λ e'. refl) (λ e'. refl)

    collect_vma_total :
        (o : Options) (v : Vma) (s : Collected)
        → total info_column (collect_vma ends_with o v s).vmas % u64_mod
          ≡ add64 (total info_column s.vmas) (column c v.usage)
    unfolding collect_vma
    collect_vma_total o v s =
        let first = vma_info v in
        let current = infer_vma_name ends_with first s.recent in
        let key = if o.show_addr then address_key v else v.name in
        let named = column-infer_vma_name v s.recent in
        let P : Map Bytes VmaInfo → Type 0 = λ d.
          total info_column d % u64_mod ≡ add64 (total info_column s.vmas) (column c v.usage) in
        if_cases (λ (t : Collected). P t.vmas) (is_nil s.vmas)
          (λ e. omega (arith, emplace_multi-total text_lt key info_column first s.vmas))
          λ e.
            if_cases P o.show_addr
              (λ e'.
                omega (arith, named, emplace_multi-total text_lt key info_column current s.vmas))
              λ e'.
                if_cases P o.verbose
                  (λ e''. omega (
                    arith,
                    named,
                    emplace_multi-total text_lt (current.vma).name info_column current s.vmas,
                  ))
                  (λ e''. omega (arith, named, add_by_name_total current s.vmas))

    -- The mappings of a process, collected in order.
    visit_existing_total :
        (o : Options) (vs : List Vma) (s : Collected)
        → total info_column ((visit_existing (collecting ends_with o) vs s).1).vmas % u64_mod
          ≡ add64 (total info_column s.vmas) (sum_by (λ (v : Vma). column c v.usage) vs)
    unfolding visit_existing
    visit_existing_total o [] s = omega arith
    visit_existing_total o (v ∷ vs) s =
        omega
          (arith, visit_existing_total o vs (collect_vma ends_with o v s), collect_vma_total o v s)

  print_vmas_total :
      (o : Options) (format : Format) (terse : Bool) (vmas : Map Bytes VmaInfo) (sum : VmaInfo)
      → info_column (print_vmas o format terse vmas sum).0 % u64_mod
        ≡ add64 (info_column sum) (total info_column vmas)
  unfolding print_vmas
  print_vmas_total o format terse [] sum = omega arith
  print_vmas_total o format terse ((key, info) ∷ vmas) sum = omega (
    arith,
    print_vmas_total o format terse vmas (add_total sum info),
    column-add_mem_usage c (sum.vma).usage (info.vma).usage,
  )

-- Whatever the options (by address, verbose, terse) and the format are, each counter of the line
-- TOTAL that showmap prints for the mappings of a process is, modulo 2 ^ 64, the sum over all of
-- them: over those that are added to another entry or left out of the lines too.
pub showmap_total :
    (c : Column) (ends_with : Bytes → Bytes → Bool) (o : Options) (format : Format) (terse : Bool)
    (vs : List Vma) (recent : VmaInfo)
    → let s =
        (visit_existing (collecting ends_with o) vs (record { vmas = []; recent = recent })).1 in
      column c (((print_vmas o format terse s.vmas no_vma_info).0).vma).usage % u64_mod
      ≡ sum_by (λ (v : Vma). column c v.usage) vs % u64_mod
showmap_total c ends_with o format terse vs recent =
    let s =
      (visit_existing (collecting ends_with o) vs (record { vmas = []; recent = recent })).1 in
    omega (
      arith,
      print_vmas_total c o format terse s.vmas no_vma_info,
      visit_existing_total c ends_with o vs (record { vmas = []; recent = recent }),
      column-no_usage c,
    )
