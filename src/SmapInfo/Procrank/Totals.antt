-- ===== src/SmapInfo/Procrank/Totals.antt =====
-- The line TOTAL of procrank: the sums over the processes, whatever the order they are sorted in.
use android_system_memory_li.SmapInfo.Order.{Permutes, sorted-perm}
use android_system_memory_li.SmapInfo.Procrank.Run.{print_procs}
use android_system_memory_li.SmapInfo.Defined.{OnSome, OnSome-bind, OnSome-result}
use android_system_memory_li.Text.{Bytes}
use android_system_memory_li.Common.{
  ℕ, ◌%◌, ◌≡◌, refl, Bool, not, ◌&&◌, List, [], ◌∷◌, Option, none, some, arith, if_cases, sum_by,
  sum_by-perm, add64, u64_mod,
}
use android_system_memory_li.SmapInfo.{Machine, SortOrder, sorted}
use android_system_memory_li.SmapInfo.Procrank.{Params, add_to_totals, select_sort}
use android_system_memory_li.SmapInfo.Record.{ProcessRecord, calculate_swap}

abbrev pub pss_of : {World : Type 0} → ProcessRecord World → ℕ
pss_of p = p.usage_or_wss.pss

abbrev pub uss_of : {World : Type 0} → ProcessRecord World → ℕ
uss_of p = p.usage_or_wss.uss

module _ {World Float : Type 0} (m : Machine World Float) (arr : List ℕ) where
  add_to_totals_usage :
      (params : Params Float) (p : ProcessRecord World)
      → OnSome
          (λ (r : Params Float × ProcessRecord World).
            (r.0.total_pss ≡ add64 params.total_pss (pss_of p))
            × (r.0.total_uss ≡ add64 params.total_uss (uss_of p)))
          (add_to_totals m params p arr)
  unfolding add_to_totals
  add_to_totals_usage params p =
      let P : Params Float × ProcessRecord World → Type 0 = λ r.
        (r.0.total_pss ≡ add64 params.total_pss (pss_of p))
        × (r.0.total_uss ≡ add64 params.total_uss (uss_of p)) in
      if_cases (OnSome P) (not params.show_wss && params.swap_enabled)
        (λ e.
          OnSome-bind (λ p'. Unit {0}) P (calculate_swap m arr params.zram_compression_ratio p) _
            (any (calculate_swap m arr params.zram_compression_ratio p)) (λ p' u. (refl, refl)))
        (λ e. (refl, refl))
    where
      any : (o : Option (ProcessRecord World)) → OnSome (λ p'. Unit {0}) o
      any none = tt
      any (some p') = tt

  abbrev Summed : List (ProcessRecord World) → Params Float → Params Float × Bytes → Type 0
  Summed procs params q =
      (q.0.total_pss % u64_mod ≡ add64 params.total_pss (sum_by pss_of procs))
      × (q.0.total_uss % u64_mod ≡ add64 params.total_uss (sum_by uss_of procs))

  print_procs-Summed :
      (procs : List (ProcessRecord World)) (params : Params Float)
      → OnSome (Summed procs params) (print_procs m arr procs params)
  unfolding print_procs
  print_procs-Summed [] params = (omega arith, omega arith)
  print_procs-Summed (p ∷ procs) params =
      OnSome-bind _ (Summed (p ∷ procs) params) (add_to_totals m params p arr) _
        (add_to_totals_usage params p)
        λ r h.
          OnSome-bind (Summed procs r.0) (Summed (p ∷ procs) params) (print_procs m arr procs r.0) _
            (print_procs-Summed procs r.0) λ q g. (omega (arith, h.0, g.0), omega (arith, h.1, g.1))

-- If std::sort permutes its range, then in whatever order the processes are sorted and printed, the
-- totals behind the last of them are the totals before the first and the sums of the proportional
-- and the unique set sizes of all processes, modulo 2 ^ 64.
pub print_procs_totals :
    {World Float : Type 0} (m : Machine World Float)
    → Permutes m
    → (arr : List ℕ) (procs : List (ProcessRecord World)) (reverse_sort : Bool)
      (sort_order : SortOrder) (params params' : Params Float) (text : Bytes)
    → print_procs m arr (sorted m reverse_sort (select_sort sort_order) procs) params
      ≡ some (params', text)
    → (params'.total_pss % u64_mod ≡ add64 params.total_pss (sum_by pss_of procs))
      × (params'.total_uss % u64_mod ≡ add64 params.total_uss (sum_by uss_of procs))
print_procs_totals m permutes arr procs reverse_sort sort_order params params' text e =
    let shown = sorted m reverse_sort (select_sort sort_order) procs in
    let perm = sorted-perm m permutes reverse_sort (select_sort sort_order) procs in
    let h =
      OnSome-result (Summed m arr shown params) (print_procs m arr shown params) (params', text)
        (print_procs-Summed m arr shown params) e in
    (omega (arith, h.0, sum_by-perm pss_of perm), omega (arith, h.1, sum_by-perm uss_of perm))
