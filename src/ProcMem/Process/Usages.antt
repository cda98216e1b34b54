-- ===== src/ProcMem/Process/Usages.antt =====
-- The usage and the maps that ReadMaps leaves.
use android_system_memory_li.Common.{
  Bool, true, false, not, List, [], ◌∷◌, Option, none, some, ◌≡◌, refl, arith, ap, ◌∙◌, if_cases,
}
use android_system_memory_li.PageAcct.{Kernel}
use android_system_memory_li.ProcMem.Pagemap.{PagemapFile}
use android_system_memory_li.ProcMem.Usage.{MemUsage, Vma, add_mem_usage}
use android_system_memory_li.ProcMem.Process.{
  Env, ProcMemInfo, vma_stats, after_vma, usage_loop, get_usage_stats, or_clear, after_read,
  read_maps, is_nil,
}
use android_system_memory_li.ProcMem.VmaScan.{MapInfo}

abbrev pub sum_usage : MemUsage → List Vma → MemUsage
sum_usage u [] = u
sum_usage u (v ∷ vs) = sum_usage (add_mem_usage u v.usage) vs

module _ {World : Type 0} (k : Kernel World) (env : Env) where
  vma_stats-usage :
      (pread : PagemapFile) (wss idle mem swap : Bool) (v : Vma) (p : ProcMemInfo World)
      → (vma_stats k env pread wss idle mem swap v p).1.usage ≡ p.usage
  unfolding vma_stats
  vma_stats-usage pread wss idle mem swap v p = refl

  abbrev Sums : MemUsage → List Vma × ProcMemInfo World × Bool → Type 0
  Sums u (vs, p, done) = done ≡ true → p.usage ≡ sum_usage u vs

  after_vma-Sums :
      (u : MemUsage) (r : Vma × ProcMemInfo World × Bool)
      (rest : ProcMemInfo World → List Vma × ProcMemInfo World × Bool) (vs : List Vma)
      → r.1.usage ≡ u
      → ((q : ProcMemInfo World) → Sums q.usage (rest q))
      → Sums u (after_vma k env r rest vs)
  after_vma-Sums u (v, p, false) rest vs e ih = λ f. cc
  after_vma-Sums u (v, p, true) rest vs e ih =
      let q = record p { usage = add_mem_usage p.usage v.usage } in
      λ done. ih q done ∙ ap (λ x. sum_usage (add_mem_usage x v.usage) (rest q).0) e

  usage_loop-Sums :
      (pread : PagemapFile) (wss idle mem : Bool) (vs : List Vma) (p : ProcMemInfo World)
      → Sums p.usage (usage_loop k env pread wss idle mem vs p)
  unfolding usage_loop
  usage_loop-Sums pread wss idle mem [] p = λ _. refl
  usage_loop-Sums pread wss idle mem (v ∷ vs) p =
      after_vma-Sums p.usage (vma_stats k env pread wss idle mem true v p)
        (usage_loop k env pread wss idle mem vs) vs (vma_stats-usage pread wss idle mem true v p)
        (λ q. usage_loop-Sums pread wss idle mem vs q)

  -- What ReadMaps with usage leaves: the sum if it returns true, and no maps if it returns false.
  abbrev pub Outcome : MemUsage → ProcMemInfo World × Bool → Type 0
  Outcome u (p, true) = p.usage ≡ sum_usage u p.maps
  Outcome u (p, false) = p.maps ≡ []

  get_usage_stats-sum :
      (wss idle mem : Bool) (p : ProcMemInfo World)
      → Outcome p.usage (or_clear k env (get_usage_stats k env wss idle mem p))
  unfolding get_usage_stats
  get_usage_stats-sum wss idle mem p = on_pagemap env.pagemap
    where
      on_loop :
          (r : List Vma × ProcMemInfo World × Bool)
          → Sums p.usage r
          → Outcome p.usage (or_clear k env (record r.1 { maps = r.0 }, r.2))
      on_loop (vs, q, true) s = s refl
      on_loop (vs, q, false) s = refl

      on_pagemap :
          (o : Option PagemapFile)
          → Outcome p.usage (
              or_clear k env (elim o [
                | none ↦ (p, false)
                | some pread ↦
                    let (maps', p', done) = usage_loop k env pread wss idle mem p.maps p in
                    (record p' { maps = maps' }, done)
              ]))
      on_pagemap none = refl
      on_pagemap (some pread) =
          on_loop (usage_loop k env pread wss idle mem p.maps p)
            (usage_loop-Sums pread wss idle mem p.maps p)

  after_read-sum :
      (wss idle mem : Bool) (p : ProcMemInfo World) (r : List MapInfo × Bool)
      → Outcome p.usage (after_read k env wss idle true mem p r)
  after_read-sum wss idle mem p (infos, false) = refl
  after_read-sum wss idle mem p (infos, true) =
      get_usage_stats-sum wss idle mem (record p { maps = _ })

  -- ReadMaps with usage, on an object that has no maps yet: if it returns true, the usage is that of
  -- before with the usage of every map it keeps added, in order; if it returns false, it keeps no map.
  pub read_maps-Outcome :
      (wss idle mem : Bool) (p : ProcMemInfo World)
      → p.maps ≡ []
      → Outcome p.usage (read_maps k env wss idle true mem p)
  unfolding read_maps
  read_maps-Outcome wss idle mem p e =
      let first : is_nil p.maps ≡ true = ap is_nil e in
      if_cases (Outcome p.usage) (not (is_nil p.maps)) (λ f. absurd (not_both first f))
        (λ _. after_read-sum wss idle mem p env.maps)
    where
      not_both : is_nil p.maps ≡ true → not (is_nil p.maps) ≡ true → ⊥
      not_both a b = ground arith

  -- Each object reads its maps once: where some are kept, ReadMaps returns true and changes nothing,
  -- whatever it is asked for.
  pub read_maps_once :
      (wss idle get_stats mem : Bool) (p : ProcMemInfo World)
      → is_nil p.maps ≡ false
      → read_maps k env wss idle get_stats mem p ≡ (p, true)
  unfolding read_maps
  read_maps_once wss idle get_stats mem p e = rw e
