-- ===== src/SmapInfo/Showmap/Names.antt =====
-- The entries of showmap where neither addresses nor flags are shown: one for each name.
use android_system_memory_li.Common.{
  ◌≡◌, refl, Bool, true, false, not, ◌&&◌, List, [], ◌∷◌, Option, none, some, ◌==◌, if◌then◌else◌,
  if_cases, All, Map, NoDup, find, emplace_multi, find-none, emplace_multi-All, emplace_multi-NoDup,
  update-All, update-NoDup,
}
use android_system_memory_li.ProcMem.Process.{visit_existing, is_nil}
use android_system_memory_li.ProcMem.Usage.{Vma}
use android_system_memory_li.SmapInfo.Showmap.{
  Collected, add_by_name, add_where_found, coalesce, collect_vma, collecting, infer_vma_name,
  is_library, vma_info, address_key,
}
use android_system_memory_li.SmapInfo.Showmap.Print.{VmaInfo, Options}
use android_system_memory_li.Text.{Bytes, text_lt}
use android_system_memory_li.Text.Order.{text_lt_irrefl}

-- Each name has one entry, which stands under it and has a count of 1.
abbrev pub ByName : Map Bytes VmaInfo → Type 0
ByName vmas =
    NoDup vmas × All (λ (e : Bytes × VmaInfo). (e.0 ≡ ((e.1).vma).name) × ((e.1).count ≡ 1)) vmas

coalesce-named :
    (current : VmaInfo) (k : Bytes) (i : VmaInfo)
    → (k ≡ (i.vma).name) × (i.count ≡ 1)
    → (k ≡ ((coalesce current i).vma).name) × ((coalesce current i).count ≡ 1)
unfolding coalesce
coalesce-named current k i p = p

add_by_name-ByName :
    (current : VmaInfo) (vmas : Map Bytes VmaInfo)
    → current.count ≡ 1
    → ByName vmas
    → ByName (add_by_name current vmas)
unfolding add_by_name
add_by_name-ByName current vmas one h = go (find text_lt (current.vma).name vmas) refl
  where
    go :
        (found : Option VmaInfo)
        → find text_lt (current.vma).name vmas ≡ found
        → ByName (add_where_found current vmas found)
    go none e = (
      emplace_multi-NoDup text_lt (current.vma).name current vmas
          (find-none text_lt (current.vma).name vmas (text_lt_irrefl (current.vma).name) e) h.0,
      emplace_multi-All text_lt (current.vma).name
          (λ (e : Bytes × VmaInfo). (e.0 ≡ ((e.1).vma).name) × ((e.1).count ≡ 1)) current vmas
          (refl, one) h.1,
    )
    go (some info) e = (
      update-NoDup text_lt (current.vma).name (coalesce current) vmas h.0,
      update-All text_lt (current.vma).name
          (λ (e : Bytes × VmaInfo). (e.0 ≡ ((e.1).vma).name) × ((e.1).count ≡ 1)) (coalesce current)
          vmas (coalesce-named current) h.1,
    )

first_entry-ByName :
    (k : Bytes) (v : Vma) (d : Map Bytes VmaInfo)
    → k ≡ v.name
    → is_nil d ≡ true
    → ByName (emplace_multi text_lt k (vma_info v) d)
first_entry-ByName k v [] e h = ((tt, tt), ((e, refl), tt))
first_entry-ByName k v (x ∷ d) e h = cc

module _ (ends_with : Bytes → Bytes → Bool) where
  infer_vma_name_count :
      (v : Vma) (recent : VmaInfo) → (infer_vma_name ends_with (vma_info v) recent).count ≡ 1
  unfolding infer_vma_name
  infer_vma_name_count v recent =
      let P : VmaInfo → Type 0 = λ i. i.count ≡ 1 in
      if_cases P (not (is_nil v.name)) (λ e. refl)
        λ e.
          if_cases P ((recent.vma).end == v.start && is_library ends_with (recent.vma).name)
            (λ e'. refl) (λ e'. refl)

  collect_vma-ByName :
      (o : Options) (v : Vma) (s : Collected)
      → o.show_addr ≡ false
      → o.verbose ≡ false
      → ByName s.vmas
      → ByName (collect_vma ends_with o v s).vmas
  unfolding collect_vma
  collect_vma-ByName o v s plain short h =
      let current = infer_vma_name ends_with (vma_info v) s.recent in
      if_cases (λ (t : Collected). ByName t.vmas) (is_nil s.vmas)
        (λ e.
          first_entry-ByName (if o.show_addr then address_key v else v.name) v s.vmas
            (if_cases (λ k. k ≡ v.name) o.show_addr (λ e'. cc) (λ e'. refl)) e)
        λ e.
          if_cases ByName o.show_addr (λ e'. cc)
            λ e'.
              if_cases ByName o.verbose (λ e''. cc)
                λ e''. add_by_name-ByName current s.vmas (infer_vma_name_count v s.recent) h

  pub visit_existing-ByName :
      (o : Options) (vs : List Vma) (s : Collected)
      → o.show_addr ≡ false
      → o.verbose ≡ false
      → ByName s.vmas
      → ByName ((visit_existing (collecting ends_with o) vs s).1).vmas
  unfolding visit_existing
  visit_existing-ByName o [] s plain short h = h
  visit_existing-ByName o (v ∷ vs) s plain short h =
      visit_existing-ByName o vs (collect_vma ends_with o v s) plain short
        (collect_vma-ByName o v s plain short h)
