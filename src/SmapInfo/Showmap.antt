-- ===== src/SmapInfo/Showmap.antt =====
-- The namespace showmap of libsmapinfo/smapinfo.cpp and run_showmap: the mappings of one process,
-- by name or by address. The static variables are options and state that the functions pass on.
pub mod Print
pub mod Totals
pub mod Names
pub mod Labels
use android_system_memory_li.Common.{
  ℕ, ◌+◌, ◌%◌, Bool, true, false, not, ◌&&◌, ◌||◌, List, [], ◌∷◌, ◌++◌, Option, none, some, ltb,
  ◌==◌, if◌then◌else◌, length, add64, u32_mod, ℤ, ltb_ℤ, Map, find, emplace_multi, update,
}
use android_system_memory_li.ProcMem.Process.{ProcMemInfo, for_each_existing_vma, is_nil}
use android_system_memory_li.ProcMem.Usage.{MemUsage, Vma, no_usage, no_vma}
use android_system_memory_li.ProcMem.VmaScan.{VmaCallback, for_each_vma_from_file}
use android_system_memory_li.ProcMem.Escape.{Format}
use android_system_memory_li.SmapInfo.{Machine, Shared}
use android_system_memory_li.SmapInfo.Record.{
  ProcessRecord, ProcessMap, Report, new_process_record, find_or_create,
}
use android_system_memory_li.SmapInfo.Showmap.Print.{
  VmaInfo, Options, print_header, print_vmainfo, print_vmainfo_totals,
}
use android_system_memory_li.Text.{Bytes, codes, text_lt}
use android_system_memory_li.Text.Print.{hex_text, pad_left}

-- VmaInfo(v).
abbrev pub vma_info : Vma → VmaInfo
vma_info v = record { vma = v; is_bss = false; count = 1 }

abbrev pub no_vma_info : VmaInfo
no_vma_info = record { vma = no_vma; is_bss = false; count = 0 }

abbrev pub is_absolute : Bytes → Bool
is_absolute [] = false
is_absolute (c ∷ cs) = c == b'/'

-- The name of the mapping, and whether it is the .bss of the library in front of it; `ends_with` is
-- libbase's EndsWith.
module _ (ends_with : Bytes → Bytes → Bool) where
  unfoldable pub is_library : Bytes → Bool
  is_library name = ltb 4 (length name) && is_absolute name && ends_with name (codes ".so")

  unfoldable pub infer_vma_name : VmaInfo → VmaInfo → VmaInfo
  unfolding is_library
  infer_vma_name current recent =
      let v = current.vma in
      if not (is_nil v.name)
      then current
      else if (recent.vma).end == v.start && is_library (recent.vma).name
      then record current { vma = record v { name = (recent.vma).name }; is_bss = true }
      else record current { vma = record v { name = codes "[anon]" } }

unfoldable pub add_mem_usage : MemUsage → MemUsage → MemUsage
add_mem_usage to from = record to {
  vss = add64 to.vss from.vss;
  rss = add64 to.rss from.rss;
  pss = add64 to.pss from.pss;
  swap = add64 to.swap from.swap;
  swap_pss = add64 to.swap_pss from.swap_pss;
  private_clean = add64 to.private_clean from.private_clean;
  private_dirty = add64 to.private_dirty from.private_dirty;
  shared_clean = add64 to.shared_clean from.shared_clean;
  shared_dirty = add64 to.shared_dirty from.shared_dirty;
  anon_huge_pages = add64 to.anon_huge_pages from.anon_huge_pages;
  shmem_pmd_mapped = add64 to.shmem_pmd_mapped from.shmem_pmd_mapped;
  file_pmd_mapped = add64 to.file_pmd_mapped from.file_pmd_mapped;
  shared_hugetlb = add64 to.shared_hugetlb from.shared_hugetlb;
  private_hugetlb = add64 to.private_hugetlb from.private_hugetlb;
  locked = add64 to.locked from.locked;
}

-- The usage of an info, replaced.
abbrev pub with_usage : VmaInfo → MemUsage → VmaInfo
with_usage info u = record info { vma = record (info.vma) { usage = u } }

-- `vmas` and `recent`.
pub record Collected : Type 0 where
  pub vmas : Map Bytes VmaInfo
  pub recent : VmaInfo

abbrev pub address_key : Vma → Bytes
address_key v = pad_left 16 (hex_text v.start) ++ pad_left 16 (hex_text v.end)

-- The change of the entry that a mapping of the same name is added to.
unfoldable pub coalesce : VmaInfo → VmaInfo → VmaInfo
unfolding add_mem_usage
coalesce current info = record info {
  vma = record (info.vma) { usage = add_mem_usage (info.vma).usage (current.vma).usage };
  is_bss = info.is_bss && current.is_bss;
}

abbrev pub add_where_found : VmaInfo → Map Bytes VmaInfo → Option VmaInfo → Map Bytes VmaInfo
add_where_found current vmas none = emplace_multi text_lt (current.vma).name current vmas
add_where_found current vmas (some info) = update text_lt (current.vma).name (coalesce current) vmas

unfoldable pub add_by_name : VmaInfo → Map Bytes VmaInfo → Map Bytes VmaInfo
unfolding coalesce
add_by_name current vmas = add_where_found current vmas (find text_lt (current.vma).name vmas)

module _ (ends_with : Bytes → Bytes → Bool) (o : Options) where
  unfoldable pub collect_vma : Vma → Collected → Collected
  unfolding infer_vma_name add_by_name
  collect_vma v s =
      let first = vma_info v in
      let current = infer_vma_name ends_with first s.recent in
      let key = if o.show_addr then address_key v else v.name in
      if is_nil s.vmas
      then record { vmas = emplace_multi text_lt key first s.vmas; recent = first }
      else record {
        vmas =
            if o.show_addr
            then emplace_multi text_lt key current s.vmas
            else if o.verbose
            then emplace_multi text_lt (current.vma).name current s.vmas
            else add_by_name current s.vmas;
        recent = current;
      }

  -- As a callback, which always returns true and leaves the mapping as it is.
  abbrev pub collecting : VmaCallback Collected
  collecting v s = (v, collect_vma v s, true)

-- The loop over `vmas`: the totals and the lines.
abbrev pub is_private : MemUsage → Bool
is_private u = not (u.private_dirty == 0) || not (u.private_clean == 0)

abbrev pub add_total : VmaInfo → VmaInfo → VmaInfo
add_total total info = record total {
  vma = record (total.vma) { usage = add_mem_usage (total.vma).usage (info.vma).usage };
  count = (total.count + info.count) % u32_mod;
}

unfoldable pub print_vmas : Options → Format → Bool → Map Bytes VmaInfo → VmaInfo → VmaInfo × Bytes
unfolding add_mem_usage
print_vmas o format terse [] total = (total, [])
print_vmas o format terse ((key, info) ∷ vmas) total =
    let (total', text) = print_vmas o format terse vmas (add_total total info) in
    (
      total',
      if terse && not (is_private (info.vma).usage)
          then text
          else print_vmainfo o format info ++ text,
    )

-- What is printed of the collected mappings.
unfoldable pub showmap_text : Options → Format → Bool → Map Bytes VmaInfo → Bytes
unfolding print_vmas
showmap_text o format terse vmas =
    let (total, text) = print_vmas o format terse vmas no_vma_info in
    print_header o format ++ text ++ print_vmainfo_totals o format total

module _ {World Float : Type 0} (m : Machine World Float) where
  -- What ForEachVmaFromFile or ForEachExistingVma collects, with the records that it leaves.
  pub record Scanned : Type 0 where
    pub collected : Collected
    pub success : Bool
    pub processrecords : Option (ProcessMap World)
    pub shared : Shared World

  -- `proc.ForEachExistingVma(showmap::collect_vma)`.
  abbrev pub collect_existing :
      Options → Collected → ProcessRecord World → ProcessRecord World × Collected × Bool
  collect_existing o s proc =
      let (p, s', done) = for_each_existing_vma (collecting m.ends_with o) proc.procmem s in
      (record proc { procmem = p }, s', done)

  abbrev pub collect_of_pid :
      Options → Collected → ℤ → Option (ProcessMap World) → Shared World → Scanned
  collect_of_pid o s pid none shared =
      let (proc, shared') = new_process_record m pid false 0 0 false false shared in
      let (proc', s', done) = collect_existing o s proc in
      record { collected = s'; success = done; processrecords = none; shared = shared' }
  collect_of_pid o s pid (some records) shared =
      let (proc, records', shared') =
        find_or_create (new_process_record m pid false 0 0 false false) pid records shared in
      let (proc', s', done) = collect_existing o s proc in
      record {
        collected = s';
        success = done;
        processrecords = some (update ltb_ℤ pid (λ r. proc') records');
        shared = shared';
      }

  -- `recent` is the static variable of collect_vma as the last run left it, `vmas` is cleared.
  unfoldable pub collect_maps :
      Options → ℤ → Bytes → VmaInfo → Option (ProcessMap World) → Shared World → Scanned
  unfolding collect_vma
  collect_maps o pid filename recent records shared =
      let cleared : Collected = record { vmas = []; recent = recent } in
      let (s, done) =
        for_each_vma_from_file m.parser (collecting m.ends_with o) (m.read_file filename) true
          cleared in
      if not (is_nil filename)
      then record { collected = s; success = done; processrecords = records; shared = shared }
      else collect_of_pid o cleared pid records shared

  -- The output and the result, with the static variable and the records.
  unfoldable pub run_showmap :
      ℤ
      → Bytes
      → Bool
      → Bool
      → Bool
      → Format
      → VmaInfo
      → Option (ProcessMap World)
      → Shared World
      → Bytes × Scanned
  run_showmap pid filename terse verbose show_addr format recent records shared =
      let o : Options = record { show_addr = show_addr; verbose = verbose } in
      let scanned = collect_maps o pid filename recent records shared in
      (
        if scanned.success then showmap_text o format terse (scanned.collected).vmas else [],
        scanned,
      )
