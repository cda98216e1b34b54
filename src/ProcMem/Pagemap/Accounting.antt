-- ===== src/ProcMem/Pagemap/Accounting.antt =====
-- How the counters that ReadVmaStats fills in add up.
use Prim.Native.Nat.{bit_and}
use android_system_memory_li.Common.{
  ℕ, zero, suc, ◌+◌, ◌*◌, ◌%◌, ◌^◌, ◌≡◌, refl, Bool, true, false, List, [], ◌∷◌, Option, none, some,
  arith, get_or, length, length-append, if◌then◌else◌, if_cases, add64, mul64, ◌/◌, not, ◌&&◌,
  Bool-cases, inl, inr, ◌==◌,
}
use android_system_memory_li.PageAcct.{
  Kernel, PageAcct, init_page_acct, page_flags, page_pfn, page_swap_offset,
}
use android_system_memory_li.ProcMem.Pagemap.{
  Config, pagesz_kb, is_dirty_flag, Walk, Step, next, stop, count_page, add_vss, is_referenced,
  in_working_set, counted, after_count, flagged, after_flags, swapped_page, page_step, PagemapFile,
  walk_pages, finish_walk, num_pages, read_vma_stats, cache_page, Cache, empty_cache,
}
use android_system_memory_li.ProcMem.Usage.{MemUsage, Vma, no_usage}

-- The resident pages split into private and shared, clean and dirty ones, the unique set size is the
-- private part, and in a working set all that is counted is resident.
pub record Adds (wss : Bool) (u : MemUsage) : Type 0 where
  pub rss_parts :
      u.rss ≡ (u.private_clean + u.private_dirty + u.shared_clean + u.shared_dirty) % 2 ^ 64
  pub uss_parts : u.uss ≡ (u.private_clean + u.private_dirty) % 2 ^ 64
  pub vss_part : u.vss ≡ (if wss then u.rss else 0)

count_page-Adds :
    (kb : ℕ) (dirty : Bool) (counts : ℕ) (u : MemUsage)
    → Adds false u
    → Adds false (count_page kb dirty counts u) × ((count_page kb dirty counts u).swap ≡ u.swap)
unfolding count_page
count_page-Adds kb dirty counts u a = ground arith

count_page_wss-Adds :
    (kb : ℕ) (dirty : Bool) (counts : ℕ) (u : MemUsage)
    → Adds true u
    → Adds true (count_page kb dirty counts (add_vss kb u))
      × ((count_page kb dirty counts (add_vss kb u)).swap ≡ u.swap)
unfolding count_page add_vss
count_page_wss-Adds kb dirty counts u a = ground arith

module _ {World : Type 0} (k : Kernel World) (c : Config) where
  -- The swap usage counts the pages whose offsets follow the first `n0`.
  abbrev Swaps : ℕ → ℕ → List ℕ → Type 0
  Swaps n0 swap offsets =
      c.update_swap_usage ≡ true
      → (swap + pagesz_kb c * n0) % 2 ^ 64 ≡ pagesz_kb c * length offsets % 2 ^ 64

  record Fine (n0 : ℕ) (w : Walk World) : Type 0 where
    adds : Adds c.get_wss w.usage
    swaps : Swaps n0 w.usage.swap w.swap_offsets

  abbrev After : ℕ → Step World → Type 0
  After n0 (next w) = Fine n0 w
  After n0 (stop w) = Unit

  swap_sum :
      (kb swap n0 n m : ℕ)
      → (swap + kb * n0) % 2 ^ 64 ≡ kb * n % 2 ^ 64
      → m ≡ n + 1
      → ((swap + kb) % 2 ^ 64 + kb * n0) % 2 ^ 64 ≡ kb * m % 2 ^ 64
  swap_sum kb swap n0 n m h e = rw e (omega arith)

  swapped_page-Fine : (n0 info : ℕ) (w : Walk World) → Fine n0 w → Fine n0 (swapped_page k c info w)
  unfolding swapped_page
  swapped_page-Fine n0 info w f = record {
    adds = ground (arith, f.adds);
    swaps = λ on. rw on (
        swap_sum (pagesz_kb c) w.usage.swap n0 (length w.swap_offsets) _ (f.swaps on)
          (length-append w.swap_offsets (page_swap_offset info ∷ [])));
  }

  set_usage-Fine :
      (n0 : ℕ) (w : Walk World) (u : MemUsage)
      → Fine n0 w
      → Adds c.get_wss u × (u.swap ≡ w.usage.swap)
      → Fine n0 (record w { usage = u })
  set_usage-Fine n0 w u f (a, e) = record { adds = a; swaps = λ on. rw e (f.swaps on) }

  is_referenced-Fine :
      (n0 pfn flags : ℕ) (w : Walk World) → Fine n0 w → Fine n0 (is_referenced k c pfn flags w).0
  unfolding is_referenced
  is_referenced-Fine n0 pfn flags w f =
      if_cases (λ (r : Walk World × Bool). Fine n0 r.0) c.use_pageidle
        (λ _. record { adds = f.adds; swaps = f.swaps }) (λ _. f)

  in_working_set-Fine :
      (n0 flags counts : ℕ) (r : Walk World × Bool)
      → c.get_wss ≡ true
      → Fine n0 r.0
      → Fine n0 (in_working_set k c flags counts r)
  in_working_set-Fine n0 flags counts (w, false) wss f = f
  in_working_set-Fine n0 flags counts (w, true) wss f = set_usage-Fine n0 w _ f (
      rw wss
        (count_page_wss-Adds (pagesz_kb c) (is_dirty_flag flags) counts w.usage (rw wss at f.adds)))

  counted-After :
      (n0 pfn flags counts : ℕ) (w : Walk World)
      → Fine n0 w
      → After n0 (counted k c pfn flags counts w)
  unfolding counted
  counted-After n0 pfn flags counts w f =
      if_cases (After n0) (counts == 0) (λ _. f)
        λ _.
          if_cases (After n0) c.get_wss
            (λ wss.
              in_working_set-Fine n0 flags counts (is_referenced k c pfn flags w) wss
                (is_referenced-Fine n0 pfn flags w f))
            (λ all. set_usage-Fine n0 w _ f (plain all))
    where
      plain :
          c.get_wss ≡ false
          → let u = count_page (pagesz_kb c) (is_dirty_flag flags) counts w.usage in
            Adds c.get_wss u × (u.swap ≡ w.usage.swap)
      plain all =
          rw all
            (count_page-Adds (pagesz_kb c) (is_dirty_flag flags) counts w.usage (rw all at f.adds))

  acct-Fine :
      (n0 : ℕ) (w : Walk World) (acct : PageAcct) → Fine n0 w → Fine n0 (record w { acct = acct })
  acct-Fine n0 w acct f = record { adds = f.adds; swaps = f.swaps }

  after_count-After :
      (n0 pfn flags : ℕ) (w : Walk World) (r : PageAcct × Option ℕ)
      → Fine n0 w
      → After n0 (after_count k c pfn flags w r)
  after_count-After n0 pfn flags w (acct, none) f = tt
  after_count-After n0 pfn flags w (acct, some counts) f =
      counted-After n0 pfn flags counts (record w { acct = acct }) (acct-Fine n0 w acct f)

  thp-Fine :
      (n0 : ℕ) (w : Walk World) (thp : ℕ)
      → Fine n0 w
      → Fine n0 (let u = w.usage in record w { usage = record u { thp = thp } })
  thp-Fine n0 w thp f = record {
    adds = record {
      rss_parts = f.adds.rss_parts;
      uss_parts = f.adds.uss_parts;
      vss_part = f.adds.vss_part;
    };
    swaps = f.swaps;
  }

  flagged-After :
      (n0 pfn flags : ℕ) (w : Walk World) → Fine n0 w → After n0 (flagged k c pfn flags w)
  unfolding flagged
  flagged-After n0 pfn flags w f =
      let kept = thp-Fine n0 w _ f in
      elim (Bool-cases (bit_and flags c.pgflags_mask == c.pgflags)) [
        | inl wanted ↦ rw wanted (after_count-After n0 pfn flags _ _ kept)
        | inr other ↦ rw other kept
      ]

  after_flags-After :
      (n0 pfn : ℕ) (w : Walk World) (r : PageAcct × Option ℕ)
      → Fine n0 w
      → After n0 (after_flags k c pfn w r)
  after_flags-After n0 pfn w (acct, none) f = tt
  after_flags-After n0 pfn w (acct, some flags) f =
      flagged-After n0 pfn flags (record w { acct = acct }) (acct-Fine n0 w acct f)

  page_step-After : (n0 info : ℕ) (w : Walk World) → Fine n0 w → After n0 (page_step k c info w)
  unfolding page_step
  page_step-After n0 info w f = ground (
    arith,
    swapped_page-Fine n0 info w f,
    after_flags-After n0 (page_pfn info) w (page_flags k w.world (page_pfn info) w.acct) f,
  )

  abbrev AfterLoop : ℕ → Walk World × Bool → Type 0
  AfterLoop n0 (w, done) = done ≡ true → Fine n0 w

  module _ (pread : PagemapFile) where
    walk_pages-Fine :
        (n0 n cur : ℕ) (cache : Cache) (w : Walk World)
        → Fine n0 w
        → AfterLoop n0 (walk_pages k c pread n cur cache w)
    unfolding walk_pages
    walk_pages-Fine n0 zero cur cache w f = λ _. f
    walk_pages-Fine n0 (suc n) cur cache w f =
        on_cache (cache_page pread cur cache)
          (λ cache' w'. walk_pages-Fine n0 n (cur + 1) cache' w')
      where
        on_step :
            (cache' : Cache) (s : Step World)
            → ((cache'' : Cache) (w' : Walk World)
                → Fine n0 w'
                → AfterLoop n0 (walk_pages k c pread n (cur + 1) cache'' w'))
            → After n0 s
            → AfterLoop n0 (elim s [
              | next w' ↦ walk_pages k c pread n (cur + 1) cache' w'
              | stop w' ↦ (w', false)
            ])
        on_step cache' (next w') ih g = ih cache' w' g
        on_step cache' (stop w') ih g = λ e. cc

        on_cache :
            (o : Option Cache)
            → ((cache'' : Cache) (w' : Walk World)
                → Fine n0 w'
                → AfterLoop n0 (walk_pages k c pread n (cur + 1) cache'' w'))
            → AfterLoop n0 (elim o [
              | none ↦ (w, false)
              | some cache' ↦ elim (page_step k c (get_or cache'.entries cache'.index 0) w) [
                | next w' ↦
                    walk_pages k c pread n (cur + 1) (record cache' { index = cache'.index + 1 }) w'
                | stop w' ↦ (w', false)
              ]
            ])
        on_cache none ih = λ e. cc
        on_cache (some cache') ih =
            on_step (record cache' { index = cache'.index + 1 }) _ ih
              (page_step-After n0 (get_or cache'.entries cache'.index 0) w f)

    -- What ReadVmaStats has filled in, if it returns true.
    abbrev pub Filled : ℕ → ℕ → Walk World → Type 0
    Filled n0 pages w =
        let u = w.usage in
        (u.rss ≡ (u.private_clean + u.private_dirty + u.shared_clean + u.shared_dirty) % 2 ^ 64)
        × (u.uss ≡ (u.private_clean + u.private_dirty) % 2 ^ 64)
        × (u.vss ≡ (if c.get_wss then u.rss else pagesz_kb c * pages % 2 ^ 64))
        × (if c.update_swap_usage
            then (u.swap + pagesz_kb c * n0) % 2 ^ 64 ≡ pagesz_kb c * length w.swap_offsets % 2 ^ 64
            else Unit)

    finish-Filled :
        (n0 pages : ℕ) (r : Walk World × Bool)
        → AfterLoop n0 r
        → (finish_walk c pages r).1 ≡ true
        → Filled n0 pages (finish_walk c pages r).0
    unfolding finish_walk
    finish-Filled n0 pages (w, false) f e = cc
    finish-Filled n0 pages (w, true) f e =
        let g = f refl in
        if_cases (Filled n0 pages) c.get_wss
          (λ wss.
            (g.adds.rss_parts, g.adds.uss_parts, within wss g.adds.vss_part, counted_swaps g.swaps))
          (λ all. (
            g.adds.rss_parts,
            g.adds.uss_parts,
            with_size all g.adds.vss_part,
            counted_swaps g.swaps,
          ))
      where
        counted_swaps :
            Swaps n0 w.usage.swap w.swap_offsets
            → (if c.update_swap_usage
                then (w.usage.swap + pagesz_kb c * n0) % 2 ^ 64
                  ≡ pagesz_kb c * length w.swap_offsets % 2 ^ 64
                else Unit)
        counted_swaps s = if_cases (λ (T : Type 0). T) c.update_swap_usage s (λ _. tt)

        within :
            c.get_wss ≡ true
            → w.usage.vss ≡ (if c.get_wss then w.usage.rss else 0)
            → w.usage.vss ≡ (if c.get_wss then w.usage.rss else pagesz_kb c * pages % 2 ^ 64)
        within wss e = ground arith

        with_size :
            c.get_wss ≡ false
            → w.usage.vss ≡ (if c.get_wss then w.usage.rss else 0)
            → add64 w.usage.vss (mul64 (pagesz_kb c) pages)
              ≡ (if c.get_wss then w.usage.rss else pagesz_kb c * pages % 2 ^ 64)
        with_size all e = ground arith

    fresh-Fine : (w : Walk World) → w.usage ≡ no_usage → Fine (length w.swap_offsets) w
    fresh-Fine w e = record {
      adds = rw e (record { rss_parts = refl; uss_parts = refl; vss_part = ground arith });
      swaps = λ _. rw e (omega arith);
    }

    -- If ReadVmaStats returns true on a VMA with no usage yet, then, modulo 2 ^ 64: the resident size is
    -- the sum of its private and shared, clean and dirty parts; the unique set size is the private part;
    -- the virtual size is the resident size in working set mode, and otherwise the page size times the
    -- pages of the mapping; and, where swap is counted, the swap usage is the page size times the
    -- number of swap offsets that were appended.
    pub read_vma_stats-Filled :
        (v : Vma) (w : Walk World)
        → w.usage ≡ no_usage
        → (read_vma_stats k c pread v w).1 ≡ true
        → Filled (length w.swap_offsets) (num_pages c v) (read_vma_stats k c pread v w).0
    unfolding read_vma_stats
    read_vma_stats-Filled v w fresh =
        let n0 = length w.swap_offsets in
        let fine = fresh-Fine w fresh in
        let acct' = (init_page_acct k w.world true w.acct).0 in
        let start_fine : Fine n0
            (if c.get_wss && c.use_pageidle then record w { acct = acct' } else w) =
          if_cases (Fine n0) (c.get_wss && c.use_pageidle) (λ _. acct-Fine n0 w acct' fine)
            (λ _. fine) in
        if_cases (λ (r : Walk World × Bool). r.1 ≡ true → Filled n0 (num_pages c v) r.0)
          (c.get_wss && c.use_pageidle && not (init_page_acct k w.world true w.acct).1) (λ _ e. cc)
          (λ _. finish-Filled n0 (num_pages c v) _ (
            walk_pages-Fine n0 (num_pages c v) (v.start / c.page_size) (empty_cache (num_pages c v))
              _ start_fine))
