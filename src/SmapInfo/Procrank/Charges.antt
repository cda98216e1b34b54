-- ===== src/SmapInfo/Procrank/Charges.antt =====
-- The bound of the proportional swap in the line TOTAL of procrank.
use mathlib.Core.Path.{subst}
use android_system_memory_li.SmapInfo.Order.{Permutes, sorted-perm}
use android_system_memory_li.SmapInfo.Procrank.Run.{print_procs}
use android_system_memory_li.Common.{
  ℕ, zero, suc, ◌+◌, ◌*◌, ◌/◌, ◌≤◌, ◌≡◌, refl, ap, Bool, true, List, [], ◌∷◌, Option, none, some,
  arith, ◌==◌, if_cases, get_or, get_elem?, All, sum_by, sum_by-append, sum_by-perm, replicate, ℤ,
}
use android_system_memory_li.SmapInfo.{Machine, Shared, SortOrder, sorted}
use android_system_memory_li.SmapInfo.Procrank.{
  Params, Populated, add_to_totals, populate_procs, select_sort,
}
use android_system_memory_li.SmapInfo.Procrank.Shares.{slot_sum-bound, sum_by-slots, used_slots}
use android_system_memory_li.SmapInfo.Defined.{OnSome, OnSome-bind, OnSome-result, OnSome-weaken}
use android_system_memory_li.SmapInfo.Procrank.Users.{
  Counts, all_offsets, is_counting, populate_procs-Counts, replicate-Counts,
}
use android_system_memory_li.SmapInfo.Record.{
  ProcessMap, ProcessRecord, calculate_swap, share_of, swap_shares,
}
use android_system_memory_li.Text.{Bytes}

get_or-get_elem? : (arr : List ℕ) (off n : ℕ) → get_elem? arr off ≡ some n → get_or arr off 0 ≡ n
get_or-get_elem? [] off n h = cc
get_or-get_elem? (x ∷ arr) zero n h = cc
get_or-get_elem? (x ∷ arr) (suc off) n h = get_or-get_elem? arr off n h

module _ {World Float : Type 0} (m : Machine World Float) (arr : List ℕ) where
  -- The share of one user of an offset, and what a process is charged.
  abbrev share : ℕ → ℕ
  share off = m.page_size / get_or arr off 0

  abbrev charge : ProcessRecord World → ℕ
  charge p = p.proportional_swap + sum_by share p.swap_offsets

  share_of-bound :
      (r : ProcessRecord World) (q : Float) (off : ℕ) (o : Option ℕ)
      → get_elem? arr off ≡ o
      → OnSome
          (λ (r' : ProcessRecord World). r'.proportional_swap ≤ r.proportional_swap + share off)
          (share_of m r q o)
  share_of-bound r q off none e = tt
  share_of-bound r q off (some n) e =
      if_cases
        (OnSome
          (λ (r' : ProcessRecord World). r'.proportional_swap ≤ r.proportional_swap + share off))
        (n == 0) (λ z. tt)
        (λ z. omega (arith, ap (λ (k : ℕ). m.page_size / k) (get_or-get_elem? arr off n e)))

  swap_shares-bound :
      (q : Float) (offs : List ℕ) (r : ProcessRecord World)
      → OnSome
          (λ (r' : ProcessRecord World).
            r'.proportional_swap ≤ r.proportional_swap + sum_by share offs)
          (swap_shares m arr q offs r)
  unfolding swap_shares
  swap_shares-bound q [] r = omega arith
  swap_shares-bound q (off ∷ offs) r =
      OnSome-bind
        (λ (r' : ProcessRecord World). r'.proportional_swap ≤ r.proportional_swap + share off)
        (λ (r' : ProcessRecord World).
          r'.proportional_swap ≤ r.proportional_swap + (share off + sum_by share offs))
        (share_of m r q (get_elem? arr off)) (swap_shares m arr q offs)
        (share_of-bound r q off (get_elem? arr off) refl)
        λ r' h.
          OnSome-weaken _ _ (swap_shares m arr q offs r') (λ r'' g. omega (arith, g, h))
            (swap_shares-bound q offs r')

  calculate_swap-bound :
      (q : Float) (r : ProcessRecord World)
      → OnSome
          (λ (r' : ProcessRecord World). r'.proportional_swap * 1024 ≤ charge r)
          (calculate_swap m arr q r)
  unfolding calculate_swap
  calculate_swap-bound q r =
      OnSome-bind (λ (r' : ProcessRecord World). r'.proportional_swap ≤ charge r)
        (λ (r' : ProcessRecord World). r'.proportional_swap * 1024 ≤ charge r)
        (swap_shares m arr q r.swap_offsets r) _ (swap_shares-bound q r.swap_offsets r)
        (λ r' h. omega (arith, h))

  add_to_totals-bound :
      (params : Params Float) (p : ProcessRecord World)
      → OnSome
          (λ (r : Params Float × ProcessRecord World).
            r.0.total_pswap * 1024 ≤ params.total_pswap * 1024 + charge p)
          (add_to_totals m params p arr)
  unfolding add_to_totals
  add_to_totals-bound params p =
      let P : Params Float × ProcessRecord World → Type 0 =
        λ r. r.0.total_pswap * 1024 ≤ params.total_pswap * 1024 + charge p in
      if_cases (OnSome P) (is_counting params)
        (λ e.
          OnSome-bind (λ (p' : ProcessRecord World). p'.proportional_swap * 1024 ≤ charge p) P
            (calculate_swap m arr params.zram_compression_ratio p) _
            (calculate_swap-bound params.zram_compression_ratio p) (λ p' h. omega (arith, h)))
        (λ e. omega arith)

  print_procs-bound :
      (procs : List (ProcessRecord World)) (params : Params Float)
      → OnSome
          (λ (q : Params Float × Bytes).
            q.0.total_pswap * 1024 ≤ params.total_pswap * 1024 + sum_by charge procs)
          (print_procs m arr procs params)
  unfolding print_procs
  print_procs-bound [] params = omega arith
  print_procs-bound (p ∷ procs) params =
      let Q : Params Float × Bytes → Type 0 = λ q.
        q.0.total_pswap * 1024 ≤ params.total_pswap * 1024 + (charge p + sum_by charge procs) in
      OnSome-bind _ Q (add_to_totals m params p arr) _ (add_to_totals-bound params p) λ r h.
        OnSome-bind _ Q (print_procs m arr procs r.0) _ (print_procs-bound procs r.0)
          λ q g. omega (arith, h, g)

  -- Processes whose swap has not been calculated yet.
  charges :
      (procs : List (ProcessRecord World))
      → All (λ (p : ProcessRecord World). p.proportional_swap ≡ 0) procs
      → sum_by charge procs ≡ sum_by share (all_offsets procs)
  charges [] h = refl
  charges (p ∷ procs) h =
      omega (arith, h.0, charges procs h.1, sum_by-append share p.swap_offsets (all_offsets procs))

-- If std::sort permutes its range, and procrank counts swap, has read all processes into an array of
-- `size` counts and no record among them has its swap calculated yet, then the total of the
-- proportional swap that is printed is, as bytes, at most the page size times the number of swap
-- slots that have a user: no page in swap is charged more than once.
pub total_pswap_bound :
    {World Float : Type 0} (m : Machine World Float)
    → Permutes m
    → (params params' : Params Float) (pgflags pgflags_mask size : ℕ) (pids : List ℤ)
      (records : ProcessMap World) (shared : Shared World) (reverse_sort : Bool)
      (sort_order : SortOrder) (text : Bytes) (s : Populated World)
    → is_counting params ≡ true
    → params.total_pswap ≡ 0
    → populate_procs m params pgflags pgflags_mask pids (record {
      procs = [];
      swap_offset_array = replicate size 0;
      processrecords = records;
      shared = shared;
    })
      ≡ (s, true)
    → All (λ (p : ProcessRecord World). p.proportional_swap ≡ 0) s.procs
    → print_procs m s.swap_offset_array
        (sorted m reverse_sort (select_sort sort_order) s.procs)
        params
      ≡ some (params', text)
    → params'.total_pswap * 1024 ≤ m.page_size * used_slots s.swap_offset_array size
total_pswap_bound {World = World} m permutes params params' pgflags pgflags_mask size pids records
      shared reverse_sort sort_order text s counting start populated fresh printed =
    let arr = s.swap_offset_array in
    let shown = sorted m reverse_sort (select_sort sort_order) s.procs in
    let begin : Populated World = record {
      procs = [];
      swap_offset_array = replicate size 0;
      processrecords = records;
      shared = shared;
    } in
    let c : Counts size arr s.procs =
      subst
        (λ (r : Populated World × Bool).
          r.1 ≡ true → Counts size (r.0).swap_offset_array (r.0).procs)
        populated
        (populate_procs-Counts m params size pgflags pgflags_mask pids begin counting
          (replicate-Counts World size))
        refl in
    omega (
      arith,
      start,
      OnSome-result
          (λ (q : Params _ × Bytes).
            q.0.total_pswap * 1024 ≤ params.total_pswap * 1024 + sum_by (charge m arr) shown)
          (print_procs m arr shown params) (params', text) (print_procs-bound m arr shown params)
          printed,
      sum_by-perm (charge m arr)
          (sorted-perm m permutes reverse_sort (select_sort sort_order) s.procs),
      charges m arr s.procs fresh,
      sum_by-slots (share m arr) (all_offsets s.procs) size c.2,
      slot_sum-bound m.page_size arr (all_offsets s.procs) size c.1,
    )
