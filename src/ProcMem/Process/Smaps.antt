-- ===== src/ProcMem/Process/Smaps.antt =====
-- Smaps on a well-formed file.
use android_system_memory_li.Common.{
  Bool, true, false, List, [], ◌∷◌, ◌++◌, map, none, some, ◌≡◌, sym, ap, ◌∙◌, if◌then◌else◌, All,
  Bool-cases, inl, inr,
}
use android_system_memory_li.PageAcct.{Kernel}
use android_system_memory_li.ProcMem.Usage.{Vma, add_mem_usage}
use android_system_memory_li.ProcMem.Process.{
  Env, ProcMemInfo, is_excluded, collect_vmas, cleared_on_failure, smaps, is_nil,
}
use android_system_memory_li.ProcMem.Process.Usages.{sum_usage}
use android_system_memory_li.ProcMem.VmaScan.{MapParser}
use android_system_memory_li.ProcMem.VmaScan.Blocks.{
  Block, IsBlock, block_lines, block_vma, visit, for_each_vma_from_file-visit,
}
use android_system_memory_li.Text.{Bytes, getlines}
use mathlib.Core.List.{append_assoc, append-nil}

abbrev pub kept_vmas : Bool → List Vma → List Vma
kept_vmas x86 [] = []
kept_vmas x86 (v ∷ vs) =
    let rest = kept_vmas x86 vs in if is_excluded x86 v.name then rest else v ∷ rest

module _ {World : Type 0} (k : Kernel World) (env : Env) where
  abbrev pub collected : Bool → List Vma → ProcMemInfo World → ProcMemInfo World
  collected collect_usage vs p = record p {
    maps = p.maps ++ kept_vmas env.is_x86_64 vs;
    usage = if collect_usage then sum_usage p.usage (kept_vmas env.is_x86_64 vs) else p.usage;
  }

  visit-collected :
      (parser : MapParser) (collect_usage : Bool) (vs : List Vma) (p : ProcMemInfo World)
      → visit parser (collect_vmas k env collect_usage none) vs p
        ≡ (collected collect_usage vs p, true)
  unfolding collect_vmas
  visit-collected parser true [] p =
      ap (λ m. (record p { maps = m }, true)) (sym (append-nil p.maps))
  visit-collected parser false [] p =
      ap (λ m. (record p { maps = m }, true)) (sym (append-nil p.maps))
  visit-collected parser collect_usage (v ∷ vs) p =
      elim (Bool-cases (is_excluded env.is_x86_64 v.name)) [
        | inl dropped ↦ rw dropped (visit-collected parser collect_usage vs p)
        | inr kept ↦
            rw kept
              (visit-collected parser collect_usage vs _ ∙ collected-kept collect_usage v vs p)
      ]
    where
      collected-kept :
          (collect_usage : Bool) (v : Vma) (vs : List Vma) (p : ProcMemInfo World)
          → ◌≡◌ {A = ProcMemInfo World × Bool}
              (
                collected collect_usage vs (record p {
                  maps = p.maps ++ v ∷ [];
                  usage = if collect_usage then add_mem_usage p.usage v.usage else p.usage;
                }),
                true,
              )
              (
                record p {
                  maps = p.maps ++ (v ∷ kept_vmas env.is_x86_64 vs);
                  usage =
                      if collect_usage
                      then sum_usage p.usage (v ∷ kept_vmas env.is_x86_64 vs)
                      else p.usage;
                },
                true,
              )
      collected-kept true v vs p =
          ap
            (λ m. (
              record p { maps = m; usage = sum_usage p.usage (v ∷ kept_vmas env.is_x86_64 vs) },
              true,
            ))
            (append_assoc p.maps (v ∷ []) (kept_vmas env.is_x86_64 vs))
      collected-kept false v vs p =
          ap (λ m. (record p { maps = m }, true))
            (append_assoc p.maps (v ∷ []) (kept_vmas env.is_x86_64 vs))

  -- On an object without maps, Smaps without swap offsets keeps, for a file made of well-formed
  -- blocks, the VMAs of the blocks that are not excluded, in order; the usage gets theirs added where
  -- it is collected, and stays as it is where it is not. Nothing else changes.
  pub smaps_collects :
      (parser : MapParser) (content : Bytes) (bs : List Block) (collect_usage : Bool)
      (p : ProcMemInfo World)
      → p.maps ≡ []
      → getlines content ≡ block_lines bs []
      → All (IsBlock parser) bs
      → smaps k env parser (some content) collect_usage false p
        ≡ collected collect_usage (map block_vma bs) p
  unfolding smaps
  smaps_collects parser content bs collect_usage p e lines blocks = rw (ap is_nil e) (
      ap cleared_on_failure' (
        for_each_vma_from_file-visit parser (collect_vmas k env collect_usage none) content bs p
          lines blocks
        ∙ visit-collected parser collect_usage (map block_vma bs) p))
    where
      cleared_on_failure' : ProcMemInfo World × Bool → ProcMemInfo World
      cleared_on_failure' = cleared_on_failure k env
