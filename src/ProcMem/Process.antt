-- ===== src/ProcMem/Process.antt =====
-- The class ProcMemInfo of procmeminfo.cpp: the maps of one process are read once and kept, with
-- the usage summed over them and the offsets of the swapped pages. Logging is left out.
pub mod Smaps
pub mod Usages
use android_system_memory_li.Common.{
  ℕ, ◌*◌, ◌/◌, Bool, true, false, not, ◌&&◌, ◌||◌, List, [], ◌∷◌, ◌++◌, Option, none, some, ◌==◌,
  if◌then◌else◌, sub64, mul64,
}
use android_system_memory_li.PageAcct.{Kernel, PageAcct}
use android_system_memory_li.ProcMem.Pagemap.{Config, Walk, PagemapFile, read_vma_stats, num_pages}
use android_system_memory_li.ProcMem.Usage.{
  MemUsage, Vma, no_usage, no_vma, add_mem_usage, convert_usage_kb_to_b,
}
use android_system_memory_li.ProcMem.VmaScan.{
  MapInfo, MapParser, VmaCallback, fill_vma, for_each_vma_from_file,
}
use android_system_memory_li.Text.{Bytes, codes, text_eq}

-- What the methods read of the process and of the machine. `maps` is what libprocinfo's ReadMapFile
-- reports of /proc/<pid>/maps, with its result; `pagemap` is `none` where the file cannot be opened.
pub record Env : Type 0 where
  pub page_size : ℕ
  pub is_x86_64 : Bool
  pub maps : List MapInfo × Bool
  pub pagemap : Option PagemapFile

-- The fields of the object, the PageAcct instance and the kernel.
pub record ProcMemInfo (World : Type 0) : Type 0 where
  pub get_wss : Bool
  pub pgflags : ℕ
  pub pgflags_mask : ℕ
  pub maps : List Vma
  pub usage : MemUsage
  pub swap_offsets : List ℕ
  pub acct : PageAcct
  pub world : World

-- `g_excluded_vmas`.
unfoldable pub is_excluded : Bool → Bytes → Bool
is_excluded is_x86_64 name =
    text_eq name (codes "[vectors]") || (is_x86_64 && text_eq name (codes "[vsyscall]"))

-- `maps_.empty()`.
abbrev pub is_nil {ℓ} : {A : Type ℓ} → List A → Bool
is_nil [] = true
is_nil (x ∷ xs) = false

unfoldable pub map_vma : MapInfo → Vma
unfolding fill_vma
map_vma m = fill_vma no_vma m

unfoldable pub kept_maps : Bool → List MapInfo → List Vma
unfolding map_vma
kept_maps x86 [] = []
kept_maps x86 (m ∷ ms) =
    let rest = kept_maps x86 ms in if is_excluded x86 m.name then rest else map_vma m ∷ rest

module _ {World : Type 0} (k : Kernel World) (env : Env) where
  -- A call of ReadVmaStats: its four flags, the VMA with its usage, and the object.
  unfoldable pub vma_stats :
      PagemapFile
      → Bool
      → Bool
      → Bool
      → Bool
      → Vma
      → ProcMemInfo World
      → Vma × ProcMemInfo World × Bool
  vma_stats pread get_wss use_pageidle update_mem_usage update_swap_usage v p =
      let c : Config = record {
        page_size = env.page_size;
        pgflags = p.pgflags;
        pgflags_mask = p.pgflags_mask;
        get_wss = get_wss;
        use_pageidle = use_pageidle;
        update_mem_usage = update_mem_usage;
        update_swap_usage = update_swap_usage;
      } in
      let start : Walk World = record {
        usage = v.usage;
        swap_offsets = p.swap_offsets;
        acct = p.acct;
        world = p.world;
      } in
      let (w, done) = read_vma_stats k c pread v start in
      (
        record v { usage = w.usage },
        record p { swap_offsets = w.swap_offsets; acct = w.acct; world = w.world },
        done,
      )

  abbrev pub after_vma :
      Vma × ProcMemInfo World × Bool
      → (ProcMemInfo World → List Vma × ProcMemInfo World × Bool)
      → List Vma
      → List Vma × ProcMemInfo World × Bool
  after_vma (v, p, false) rest vs = (v ∷ vs, p, false)
  after_vma (v, p, true) rest vs =
      let (vs', p', done) = rest (record p { usage = add_mem_usage p.usage v.usage }) in
      (v ∷ vs', p', done)

  -- The loop of GetUsageStats over `maps_`; each VMA is updated in place.
  unfoldable pub usage_loop :
      PagemapFile
      → Bool
      → Bool
      → Bool
      → List Vma
      → ProcMemInfo World
      → List Vma × ProcMemInfo World × Bool
  usage_loop pread get_wss use_pageidle update_mem_usage [] p = ([], p, true)
  usage_loop pread get_wss use_pageidle update_mem_usage (v ∷ vs) p =
      after_vma (vma_stats pread get_wss use_pageidle update_mem_usage true v p)
        (usage_loop pread get_wss use_pageidle update_mem_usage vs) vs

  unfoldable pub get_usage_stats : Bool → Bool → Bool → ProcMemInfo World → ProcMemInfo World × Bool
  get_usage_stats get_wss use_pageidle update_mem_usage p = elim env.pagemap [
    | none ↦ (p, false)
    | some pread ↦
        let (maps', p', done) = usage_loop pread get_wss use_pageidle update_mem_usage p.maps p in
        (record p' { maps = maps' }, done)
  ]

  -- `if (!GetUsageStats(...)) { maps_.clear(); return false; } return true;`
  abbrev pub or_clear : ProcMemInfo World × Bool → ProcMemInfo World × Bool
  or_clear (p, true) = (p, true)
  or_clear (p, false) = (record p { maps = [] }, false)

  abbrev pub after_read :
      Bool → Bool → Bool → Bool → ProcMemInfo World → List MapInfo × Bool → ProcMemInfo World × Bool
  after_read get_wss use_pageidle get_stats update_mem_usage p (infos, false) =
      (record p { maps = [] }, false)
  after_read get_wss use_pageidle get_stats update_mem_usage p (infos, true) =
      let q = record p { maps = kept_maps env.is_x86_64 infos } in
      if not get_stats
      then (q, true)
      else or_clear (get_usage_stats get_wss use_pageidle update_mem_usage q)

  -- ReadMaps: `get_wss`, `use_pageidle`, `get_usage_stats` and `update_mem_usage`.
  unfoldable pub read_maps :
      Bool → Bool → Bool → Bool → ProcMemInfo World → ProcMemInfo World × Bool
  read_maps get_wss use_pageidle get_stats update_mem_usage p =
      if not (is_nil p.maps)
      then (p, true)
      else after_read get_wss use_pageidle get_stats update_mem_usage p env.maps

  -- The getters read the maps on their first call, and return `maps_`, `usage_` or `swap_offsets_`
  -- of the new state.
  unfoldable pub maps : ProcMemInfo World → ProcMemInfo World
  maps p = (read_maps p.get_wss false true true p).0

  unfoldable pub maps_with_page_idle : ProcMemInfo World → ProcMemInfo World
  maps_with_page_idle p = (read_maps p.get_wss true true true p).0

  unfoldable pub maps_without_usage_stats : ProcMemInfo World → ProcMemInfo World
  maps_without_usage_stats p = (read_maps p.get_wss false false true p).0

  unfoldable pub usage : ProcMemInfo World → ProcMemInfo World
  usage p = if p.get_wss then p else (read_maps p.get_wss false true true p).0

  unfoldable pub wss : ProcMemInfo World → ProcMemInfo World
  wss p = if not p.get_wss then p else (read_maps p.get_wss false true true p).0

  unfoldable pub swap_offsets : ProcMemInfo World → ProcMemInfo World
  swap_offsets p = if p.get_wss then p else (read_maps p.get_wss false true false p).0

  -- FillInVmaStats: the VMA, the object and the result.
  unfoldable pub fill_in_vma_stats : Bool → Vma → ProcMemInfo World → Vma × ProcMemInfo World × Bool
  fill_in_vma_stats use_kb v p = elim env.pagemap [
    | none ↦ (v, p, false)
    | some pread ↦
        let (v', p', done) = vma_stats pread p.get_wss false true true v p in
        (
          if done && not use_kb then record v' { usage = convert_usage_kb_to_b v'.usage } else v',
          p',
          done,
        )
  ]

  -- PageMap: the entries, or `none` where it returns false.
  unfoldable pub page_map : Vma → Option (List ℕ)
  page_map v = elim env.pagemap [
    | none ↦ none
    | some pread ↦ pread (mul64 (v.start / env.page_size) 8) (sub64 v.end v.start / env.page_size)
  ]

  -- The lambda `collect_vmas` of Smaps.
  unfoldable pub collect_vmas : Bool → Option PagemapFile → VmaCallback (ProcMemInfo World)
  collect_vmas collect_usage swap_pagemap v p =
      let q = record p {
        maps = p.maps ++ v ∷ [];
        usage = if collect_usage then add_mem_usage p.usage v.usage else p.usage;
      } in
      let with_swap : Vma × ProcMemInfo World × Bool = elim swap_pagemap [
        | none ↦ (v, q, true)
        | some pread ↦ vma_stats pread false false false false v q
      ] in
      if is_excluded env.is_x86_64 v.name then (v, p, true) else with_swap

  abbrev pub cleared_on_failure : ProcMemInfo World × Bool → ProcMemInfo World
  cleared_on_failure (p, true) = p
  cleared_on_failure (p, false) = record p { maps = [] }

  abbrev pub collect :
      MapParser → Option Bytes → Bool → Option PagemapFile → ProcMemInfo World → ProcMemInfo World
  collect parser file collect_usage swap_pagemap p =
      cleared_on_failure
        (for_each_vma_from_file parser (collect_vmas collect_usage swap_pagemap) file true p)

  -- Smaps: `file` is what stands at the path, or in /proc/<pid>/smaps if the path is empty. With
  -- `collect_swap_offsets` the page map must open.
  unfoldable pub smaps :
      MapParser → Option Bytes → Bool → Bool → ProcMemInfo World → ProcMemInfo World
  smaps parser file collect_usage collect_swap_offsets p =
      let with_swap : ProcMemInfo World = elim env.pagemap [
        | none ↦ p
        | some pread ↦ collect parser file collect_usage (some pread) p
      ] in
      if not (is_nil p.maps)
      then p
      else if collect_swap_offsets
      then with_swap
      else collect parser file collect_usage none p

-- The loop of ForEachExistingVma: the VMAs that the callback may have changed, its state, and whether
-- it went through.
unfoldable pub visit_existing {ℓ} :
    {S : Type ℓ} → VmaCallback S → List Vma → S → List Vma × S × Bool
visit_existing callback [] s = ([], s, true)
visit_existing callback (v ∷ vs) s =
    let (v', s', done) = callback v s in
    let (vs', s'', all) = visit_existing callback vs s' in
    if done then (v' ∷ vs', s'', all) else (v' ∷ vs, s', false)

unfoldable pub for_each_existing_vma {ℓ} :
    {S : Type ℓ} {World : Type 0}
    → VmaCallback S
    → ProcMemInfo World
    → S
    → ProcMemInfo World × S × Bool
for_each_existing_vma callback p s =
    let (vs, s', done) = visit_existing callback p.maps s in
    if is_nil p.maps then (p, s, false) else (record p { maps = vs }, s', done)

-- ForEachVmaFromMaps: libprocinfo's ReadProcessMaps calls back for each mapping, and the verdict of
-- the callback is not used. One VMA is filled again and again, and its usage stays as it is.
unfoldable pub for_each_vma_from_maps {ℓ} :
    {S : Type ℓ} → List MapInfo × Bool → VmaCallback S → S → S × Bool
unfolding fill_vma
for_each_vma_from_maps {S = S} (infos, done) callback s = (loop infos no_vma s, done)
  where
    loop : List MapInfo → Vma → S → S
    loop [] v s = s
    loop (m ∷ ms) v s = let (v', s', verdict) = callback (fill_vma v m) s in loop ms v' s'
