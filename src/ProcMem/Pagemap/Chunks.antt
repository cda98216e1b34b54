-- ===== src/ProcMem/Pagemap/Chunks.antt =====
-- Reading the page map in chunks, and reading it one entry at a time.
use android_system_memory_li.Common.{
  ℕ, zero, suc, ◌+◌, ◌^◌, ◌≤◌, ◌<◌, ◌≡◌, refl, sym, ap, ◌∙◌, Bool, true, false, List, [], ◌∷◌, some,
  arith, ltb, ◌==◌, if◌then◌else◌, get_or, Bool-cases, inl, inr, mul64, sub64,
}
use android_system_memory_li.PageAcct.{Kernel}
use android_system_memory_li.ProcMem.Pagemap.{
  Config, Walk, Step, next, stop, page_step, Cache, empty_cache, k_max_pages, PagemapFile, refill,
  load_chunk, cache_page, walk_pages,
}

-- The entries of `m` pages from page `p` on.
abbrev pub entries_from : (ℕ → ℕ) → ℕ → ℕ → List ℕ
entries_from entry p zero = []
entries_from entry p (suc m) = entry p ∷ entries_from entry (p + 1) m

get_or-entries_from :
    (entry : ℕ → ℕ) (p m i : ℕ) → i < m → get_or (entries_from entry p m) i 0 ≡ entry (p + i)
get_or-entries_from entry p zero i h = elim h [ ]
get_or-entries_from entry p (suc m) zero h = ap entry (omega arith)
get_or-entries_from entry p (suc m) (suc i) h =
    get_or-entries_from entry (p + 1) m i (omega arith) ∙ ap entry (omega arith)

-- The file holds the entry of each page below `limit` at eight times its number.
abbrev pub Holds : PagemapFile → (ℕ → ℕ) → ℕ → Type 0
Holds pread entry limit =
    (p m : ℕ) → p + m ≤ limit → pread (mul64 p 8) m ≡ some (entries_from entry p m)

module _ {World : Type 0} (k : Kernel World) (c : Config) where
  -- The loop with one entry at a time.
  pub walk_entries : (ℕ → ℕ) → ℕ → ℕ → Walk World → Walk World × Bool
  walk_entries entry zero cur_page w = (w, true)
  walk_entries entry (suc n) cur_page w = elim (page_step k c (entry cur_page) w) [
    | next w' ↦ walk_entries entry n (cur_page + 1) w'
    | stop w' ↦ (w', false)
  ]

-- The cache in front of the page `cur` with `n` pages to visit: what is unread of it are the entries
-- from `cur` on, and `num_leftover` counts the pages from the start of the chunk.
record Inv (entry : ℕ → ℕ) (n cur : ℕ) (cache : Cache) : Type 0 where
  leftover : cache.num_leftover ≡ n + cache.index
  index_le : cache.index ≤ cache.num_in
  num_le : cache.num_in ≤ cache.num_leftover
  small : cache.num_leftover < 2 ^ 64
  loaded :
      (i : ℕ)
      → cache.index + i < cache.num_in
      → get_or cache.entries (cache.index + i) 0 ≡ entry (cur + i)

-- After `cache_page` there is an entry to read, and it is that of the current page.
record Ready (entry : ℕ → ℕ) (n cur : ℕ) (cache : Cache) : Type 0 where
  inv : Inv entry n cur cache
  has_entry : cache.index < cache.num_in

abbrev chunk : ℕ → ℕ
chunk n = if ltb k_max_pages n then k_max_pages else n

chunk_bounds : (n : ℕ) → (chunk (suc n) ≤ suc n) × (0 < chunk (suc n))
chunk_bounds n = ground arith

fresh-Ready :
    (entry : ℕ → ℕ) (n cur : ℕ)
    → suc n < 2 ^ 64
    → Ready entry (suc n) cur (record {
      entries = entries_from entry cur (chunk (suc n));
      index = 0;
      num_in = chunk (suc n);
      num_leftover = suc n;
    })
fresh-Ready entry n cur small =
    let bounds = chunk_bounds n in
    record {
      inv = record {
        leftover = omega arith;
        index_le = omega arith;
        num_le = bounds.0;
        small = small;
        loaded = λ i h.
            let e : 0 + i ≡ i = omega arith in
            rw e (get_or-entries_from entry cur (chunk (suc n)) i (omega arith));
      };
      has_entry = bounds.1;
    }

refill-Ready :
    (pread : PagemapFile) (entry : ℕ → ℕ) (limit n cur : ℕ) (cache : Cache)
    → Holds pread entry limit
    → cur + suc n ≤ limit
    → cache.num_leftover ≡ suc n + cache.num_in
    → cache.num_leftover < 2 ^ 64
    → (cache' : Cache) × (refill pread cur cache ≡ some cache') × Ready entry (suc n) cur cache'
unfolding refill
refill-Ready pread entry limit n cur cache holds bound left wide =
    let e : sub64 cache.num_leftover cache.num_in ≡ suc n = omega arith in
    let bounds = chunk_bounds n in
    (
      _,
      ap (load_chunk pread cur) e ∙ rw (holds cur (chunk (suc n)) (omega arith), load_chunk),
      fresh-Ready entry n cur (omega arith),
    )

cache_page-Ready :
    (pread : PagemapFile) (entry : ℕ → ℕ) (limit n cur : ℕ) (cache : Cache)
    → Holds pread entry limit
    → cur + suc n ≤ limit
    → Inv entry (suc n) cur cache
    → (cache' : Cache) × (cache_page pread cur cache ≡ some cache') × Ready entry (suc n) cur cache'
unfolding cache_page
cache_page-Ready pread entry limit n cur cache holds bound inv =
    elim (Bool-cases (cache.index == cache.num_in)) [
      | inl used ↦ rw used (
          refill-Ready pread entry limit n cur cache holds bound (ground (arith, inv.leftover))
            inv.small)
      | inr unread ↦
          rw unread (cache, refl, record { inv = inv; has_entry = ground (arith, inv.index_le) })
    ]

entry-Ready :
    (entry : ℕ → ℕ) (n cur : ℕ) (cache : Cache)
    → Ready entry n cur cache
    → get_or cache.entries cache.index 0 ≡ entry cur
entry-Ready entry n cur cache r =
    let e : cache.index + 0 ≡ cache.index = omega arith in
    let f : cur + 0 ≡ cur = omega arith in
    ap (λ i. get_or cache.entries i 0) (sym e)
    ∙ r.inv.loaded 0 (omega (arith, r.has_entry))
    ∙ ap entry f

advance-Inv :
    (entry : ℕ → ℕ) (n cur : ℕ) (cache : Cache)
    → Ready entry (suc n) cur cache
    → Inv entry n (cur + 1) (record cache { index = cache.index + 1 })
advance-Inv entry n cur cache r = record {
  leftover = omega (arith, r.inv.leftover);
  index_le = omega (arith, r.has_entry);
  num_le = r.inv.num_le;
  small = r.inv.small;
  loaded = λ i h.
      let e : cache.index + 1 + i ≡ cache.index + (i + 1) = omega arith in
      let f : cur + 1 + i ≡ cur + (i + 1) = omega arith in
      rw (e, f) (r.inv.loaded (i + 1) (omega arith));
}

module _ {World : Type 0} (k : Kernel World) (c : Config) (pread : PagemapFile) (entry : ℕ → ℕ)
    (limit : ℕ) (holds : Holds pread entry limit) where
  walk_pages-walk_entries :
      (n cur : ℕ) (cache : Cache) (w : Walk World)
      → cur + n ≤ limit
      → Inv entry n cur cache
      → walk_pages k c pread n cur cache w ≡ walk_entries k c entry n cur w
  unfolding walk_pages walk_entries
  walk_pages-walk_entries zero cur cache w bound inv = refl
  walk_pages-walk_entries (suc n) cur cache w bound inv =
      let (cache', e, r) = cache_page-Ready pread entry limit n cur cache holds bound inv in
      let same = λ (w' : Walk World).
        walk_pages-walk_entries n (cur + 1) (record cache' { index = cache'.index + 1 }) w'
          (omega arith) (advance-Inv entry n cur cache' r) in
      rw (e, entry-Ready entry (suc n) cur cache' r, walk_pages)
        (resume same (page_step k c (entry cur) w))
    where
      resume :
          {f g : Walk World → Walk World × Bool}
          → ((w' : Walk World) → f w' ≡ g w')
          → (s : Step World)
          → ◌≡◌ {A = Walk World × Bool}
              (elim s [ next w' ↦ f w' | stop w' ↦ (w', false) ])
              (elim s [ next w' ↦ g w' | stop w' ↦ (w', false) ])
      resume same (next w') = same w'
      resume same (stop w') = refl

  -- If the file holds the entry of every page below a limit that the mapping does not pass, the loop,
  -- which reads it 2048 entries at a time, ends in the state and with the verdict of the loop that
  -- looks at one entry after the other.
  pub walk_pages_chunks :
      (n first : ℕ) (w : Walk World)
      → first + n ≤ limit
      → n < 2 ^ 64
      → walk_pages k c pread n first (empty_cache n) w ≡ walk_entries k c entry n first w
  walk_pages_chunks n first w bound small =
      walk_pages-walk_entries n first (empty_cache n) w bound (record {
        leftover = omega arith;
        index_le = omega arith;
        num_le = omega arith;
        small = small;
        loaded = λ i h. absurd (omega arith);
      })
