-- ===== src/SmapInfo/Showmap/Labels.antt =====
-- The names that showmap collects mappings under, as collect_vma and infer_vma_name give them.
use android_system_memory_li.Common.{
  ◌≡◌, refl, Bool, false, not, ◌&&◌, List, [], ◌∷◌, Option, none, some, ◌==◌, if◌then◌else◌,
  if_cases, Map, find, update, ◌||◌, ◌∙◌, emplace_multi, ℕ, ◌+◌, ◌%◌, ap, add64, u64_mod, total_at,
  emplace_multi-total_at, update-total_at, if_both_cases, arith,
}
use android_system_memory_li.ProcMem.Process.{visit_existing, is_nil}
use android_system_memory_li.ProcMem.Usage.{Vma}
use android_system_memory_li.SmapInfo.Showmap.{
  Collected, add_by_name, add_where_found, coalesce, collect_vma, collecting, infer_vma_name,
  is_library, vma_info,
}
use android_system_memory_li.SmapInfo.Showmap.Totals.{Column, column, info_column, column-coalesce}
use android_system_memory_li.SmapInfo.Showmap.Print.{VmaInfo, Options}
use android_system_memory_li.Text.{Bytes, codes, text_lt}
use android_system_memory_li.Text.Order.{text_lt_connected}
use android_system_memory_li.SmapInfo.Showmap.Names.{ByName, visit_existing-ByName}

module _ (ends_with : Bytes → Bytes → Bool) where
  -- The name that a mapping is shown under: its own; without one, that of the mapping in front of it
  -- if this is a library (or the .bss of one) that ends where it starts; or else "[anon]".
  abbrev pub label : ℕ → Bytes → Vma → Bytes
  label end name v =
      if not (is_nil v.name)
      then v.name
      else if end == v.start && is_library ends_with name
      then name
      else codes "[anon]"

  module _ (c : Column) (p : Bytes → Bool) where
    abbrev counted_under : Bytes → Vma → ℕ
    counted_under name v = if p name then column c v.usage else 0

    -- The sum over the mappings whose names are in a set, behind a mapping with this end and this name.
    abbrev pub sum_behind : ℕ → Bytes → List Vma → ℕ
    sum_behind end name [] = 0
    sum_behind end name (v ∷ vs) =
        counted_under (label end name v) v + sum_behind v.end (label end name v) vs

    -- The first mapping is shown under its own name, also if it has none.
    abbrev pub sum_named : List Vma → ℕ
    sum_named [] = 0
    sum_named (v ∷ vs) = counted_under v.name v + sum_behind v.end v.name vs

    abbrev sum_at : Map Bytes VmaInfo → ℕ
    sum_at = total_at p (info_column c)

    -- What infer_vma_name makes of a mapping.
    infer_vma_name-label :
        (v : Vma) (recent : VmaInfo)
        → let current = infer_vma_name ends_with (vma_info v) recent in
          ((current.vma).name ≡ label (recent.vma).end (recent.vma).name v)
          × ((current.vma).end ≡ v.end)
          × (info_column c current ≡ column c v.usage)
    unfolding infer_vma_name
    infer_vma_name-label v recent =
        let prev = recent.vma in
        if_both_cases
          (λ (i : VmaInfo) (name : Bytes).
            ((i.vma).name ≡ name) × ((i.vma).end ≡ v.end) × (info_column c i ≡ column c v.usage))
          (not (is_nil v.name)) (λ e. (refl, refl, refl))
          λ e.
            if_both_cases
              (λ (i : VmaInfo) (name : Bytes).
                ((i.vma).name ≡ name)
                × ((i.vma).end ≡ v.end)
                × (info_column c i ≡ column c v.usage))
              (prev.end == v.start && is_library ends_with prev.name) (λ e'. (refl, refl, refl))
              (λ e'. (refl, refl, refl))

    add_by_name-sum_at :
        (current : VmaInfo) (vmas : Map Bytes VmaInfo)
        → sum_at (add_by_name current vmas) % u64_mod
          ≡ add64 (sum_at vmas) (if p (current.vma).name then info_column c current else 0)
    unfolding add_by_name
    add_by_name-sum_at current vmas = go (find text_lt (current.vma).name vmas) refl
      where
        go :
            (found : Option VmaInfo)
            → find text_lt (current.vma).name vmas ≡ found
            → sum_at (add_where_found current vmas found) % u64_mod
              ≡ add64 (sum_at vmas) (if p (current.vma).name then info_column c current else 0)
        go none e =
            ap (λ n. n % u64_mod)
              (emplace_multi-total_at text_lt (current.vma).name p (info_column c) current vmas)
        go (some info) e =
            update-total_at text_lt (current.vma).name p (info_column c) (coalesce current)
              (info_column c current) info vmas text_lt_connected (column-coalesce c current) e

    -- A mapping that is not the first.
    abbrev IsAdded : Vma → Collected → Collected → Type 0
    IsAdded v s t =
        let name = label (s.recent.vma).end (s.recent.vma).name v in
        (sum_at t.vmas % u64_mod ≡ add64 (sum_at s.vmas) (counted_under name v))
        × (is_nil t.vmas ≡ false)
        × ((t.recent.vma).end ≡ v.end)
        × ((t.recent.vma).name ≡ name)

    emplace-filled :
        (k : Bytes) (i : VmaInfo) (d : Map Bytes VmaInfo)
        → is_nil (emplace_multi text_lt k i d) ≡ false
    emplace-filled k i [] = refl
    emplace-filled k i ((j, w) ∷ d) =
        if_cases (λ (d' : Map Bytes VmaInfo). is_nil d' ≡ false) (text_lt k j) (λ e. refl)
          (λ e. refl)

    update-filled :
        (k : Bytes) (g : VmaInfo → VmaInfo) (d : Map Bytes VmaInfo)
        → is_nil d ≡ false
        → is_nil (update text_lt k g d) ≡ false
    update-filled k g [] h = h
    update-filled k g ((j, w) ∷ d) h =
        if_cases (λ (d' : Map Bytes VmaInfo). is_nil d' ≡ false) (text_lt j k || text_lt k j)
          (λ e. refl) (λ e. refl)

    add_by_name-filled :
        (current : VmaInfo) (vmas : Map Bytes VmaInfo)
        → is_nil vmas ≡ false
        → is_nil (add_by_name current vmas) ≡ false
    unfolding add_by_name
    add_by_name-filled current vmas h = go (find text_lt (current.vma).name vmas)
      where
        go : (found : Option VmaInfo) → is_nil (add_where_found current vmas found) ≡ false
        go none = emplace-filled (current.vma).name current vmas
        go (some info) = update-filled (current.vma).name (coalesce current) vmas h

    collect_vma-IsAdded :
        (o : Options) (v : Vma) (s : Collected)
        → o.show_addr ≡ false
        → o.verbose ≡ false
        → is_nil s.vmas ≡ false
        → IsAdded v s (collect_vma ends_with o v s)
    unfolding collect_vma
    collect_vma-IsAdded o v s plain short filled =
        let current = infer_vma_name ends_with (vma_info v) s.recent in
        let (name, end, counter) = infer_vma_name-label v s.recent in
        let sum : sum_at (add_by_name current s.vmas) % u64_mod
            ≡ add64 (sum_at s.vmas)
                (counted_under (label (s.recent.vma).end (s.recent.vma).name v) v) =
          add_by_name-sum_at current s.vmas
          ∙ ap (λ n. add64 (sum_at s.vmas) (if p n then info_column c current else 0)) name
          ∙ ap
              (λ n.
                add64 (sum_at s.vmas)
                  (if p (label (s.recent.vma).end (s.recent.vma).name v) then n else 0))
              counter in
        if_cases (IsAdded v s) (is_nil s.vmas) (λ e. cc)
          λ e.
            if_cases (λ d. IsAdded v s (record { vmas = d; recent = current })) o.show_addr
              (λ e'. cc)
              λ e'.
                if_cases (λ d. IsAdded v s (record { vmas = d; recent = current })) o.verbose
                  (λ e''. cc) (λ e''. (sum, add_by_name-filled current s.vmas filled, end, name))

    visit_existing-sum_behind :
        (o : Options) (vs : List Vma) (s : Collected)
        → o.show_addr ≡ false
        → o.verbose ≡ false
        → is_nil s.vmas ≡ false
        → sum_at ((visit_existing (collecting ends_with o) vs s).1).vmas % u64_mod
          ≡ add64 (sum_at s.vmas) (sum_behind (s.recent.vma).end (s.recent.vma).name vs)
    unfolding visit_existing
    visit_existing-sum_behind o [] s plain short filled = omega arith
    visit_existing-sum_behind o (v ∷ vs) s plain short filled =
        let t = collect_vma ends_with o v s in
        let (sum, more, end, name) = collect_vma-IsAdded o v s plain short filled in
        let rest = visit_existing-sum_behind o vs t plain short more in
        let same : sum_behind (t.recent.vma).end (t.recent.vma).name vs
            ≡ sum_behind v.end (label (s.recent.vma).end (s.recent.vma).name v) vs =
          ap (λ e. sum_behind e (t.recent.vma).name vs) end
          ∙ ap (λ n. sum_behind v.end n vs) name in
        omega (arith, rest, sum, same)

    collect_first :
        (o : Options) (v : Vma) (recent : VmaInfo)
        → o.show_addr ≡ false
        → let t = collect_vma ends_with o v (record { vmas = []; recent = recent }) in
          (sum_at t.vmas ≡ counted_under v.name v)
          × (is_nil t.vmas ≡ false)
          × (t.recent ≡ vma_info v)
    unfolding collect_vma
    collect_first o v recent plain =
        if_cases
          (λ key.
            (sum_at ((key, vma_info v) ∷ []) ≡ counted_under v.name v)
            × (false ≡ false)
            × (vma_info v ≡ vma_info v))
          o.show_addr (λ e. cc) (λ e. (omega arith, refl, refl))

    visit_existing-sum_named :
        (o : Options) (vs : List Vma) (recent : VmaInfo)
        → o.show_addr ≡ false
        → o.verbose ≡ false
        → sum_at
              ((visit_existing
                  (collecting ends_with o)
                  vs
                  (record { vmas = []; recent = recent })).1
                ).vmas
            % u64_mod
          ≡ sum_named vs % u64_mod
    unfolding visit_existing
    visit_existing-sum_named o [] recent plain short = refl
    visit_existing-sum_named o (v ∷ vs) recent plain short =
        let t = collect_vma ends_with o v (record { vmas = []; recent = recent }) in
        let (sum, filled, last) = collect_first o v recent plain in
        let rest = visit_existing-sum_behind o vs t plain short filled in
        let same : sum_behind (t.recent.vma).end (t.recent.vma).name vs
            ≡ sum_behind v.end v.name vs =
          ap (λ (r : VmaInfo). sum_behind (r.vma).end (r.vma).name vs) last in
        omega (arith, rest, sum, same)

  -- Where neither addresses nor flags are asked for, the mappings of a process are collected by name:
  -- each name has one entry, with a count of 1 however many mappings it stands for, and for any set of
  -- names each counter of their entries is together, modulo 2 ^ 64, the sum over the mappings of these
  -- names. The name of a mapping is its own; one without a name, unless it is the first, has the name
  -- of the library or .bss that ends where it starts, or else "[anon]".
  pub visit_existing-named :
      (c : Column) (p : Bytes → Bool) (o : Options) (vs : List Vma) (recent : VmaInfo)
      → o.show_addr ≡ false
      → o.verbose ≡ false
      → let s =
          (visit_existing (collecting ends_with o) vs (record { vmas = []; recent = recent })).1 in
        ByName s.vmas × (total_at p (info_column c) s.vmas % u64_mod ≡ sum_named c p vs % u64_mod)
  visit_existing-named c p o vs recent plain short = (
    visit_existing-ByName ends_with o vs (record { vmas = []; recent = recent }) plain short
        (tt, tt),
    visit_existing-sum_named c p o vs recent plain short,
  )
