-- ===== src/Examples/Tables.antt =====
-- Two processes that share a page in swap, and a small machine, for procrank and the bug report.
use mathlib.Core.List.{Perm}
use mathlib.Core.List.Perm
use android_system_memory_li.SmapInfo.Order.{Permutes}
use android_system_memory_li.SmapInfo.Procrank.Run.{print_procs, run_procrank}
use android_system_memory_li.Common.{
  ℕ, zero, suc, ◌*◌, ◌-◌, ◌%◌, ◌≡◌, ◌≤◌, ◌↔◌, ℤ, refl, arith, Bool, true, false, List, [], ◌∷◌,
  Option, none, some, if◌then◌else◌, if_cases, length, drop, is_some, pos, sum_by, All, add64,
  u64_mod, replicate,
}
use android_system_memory_li.SmapInfo.Procrank.Print.{print_processrecord}
use android_system_memory_li.Text.Print.{int_text, pad_left}
use android_system_memory_li.PageAcct.{Kernel, closed_acct}
use android_system_memory_li.ProcMem.Usage.{no_usage}
use android_system_memory_li.SmapInfo.{Machine, Shared, by_pss, sorted}
use android_system_memory_li.SmapInfo.Bugreport.{
  call_librank, create_processrecords, kept_pids, prepare, show_all,
}
use android_system_memory_li.SmapInfo.Bugreport.Sections.{librank_succeeds}
use android_system_memory_li.SmapInfo.Procrank.{
  populate_proc, add_to_totals, Params, Populated, count_swap_offsets, populate_procs, select_sort,
}
use android_system_memory_li.SmapInfo.Procrank.Charges.{total_pswap_bound}
use android_system_memory_li.SmapInfo.Procrank.Counts.{Fits, HasRoom, count_swap_offsets-HasRoom}
use android_system_memory_li.SmapInfo.Procrank.Safety.{run_procrank-is_some}
use android_system_memory_li.SmapInfo.Procrank.Shares.{used_slots}
use android_system_memory_li.SmapInfo.Procrank.Totals.{print_procs_totals, pss_of, uss_of}
use android_system_memory_li.SmapInfo.Record.{
  new_process_record, read_usage, ProcessMap, ProcessRecord, valid, calculate_swap,
}
use android_system_memory_li.Text.{Bytes, codes, has_prefix, text_eq}

-- An insertion sort for std::sort.
insert : {A : Type 0} → (A → A → Bool) → A → List A → List A
insert less a [] = a ∷ []
insert less a (x ∷ xs) = let rest = insert less a xs in if less x a then x ∷ rest else a ∷ x ∷ xs

pub insertion_sort : {A : Type 0} → (A → A → Bool) → List A → List A
insertion_sort less [] = []
insertion_sort less (x ∷ xs) = insert less x (insertion_sort less xs)

insert-perm :
    {A : Type 0} (less : A → A → Bool) (a : A) (xs : List A) → Perm (insert less a xs) (a ∷ xs)
unfolding insert
insert-perm less a [] = Perm.refl (a ∷ [])
insert-perm less a (x ∷ xs) =
    if_cases (λ ys. Perm ys (a ∷ x ∷ xs)) (less x a)
      (λ e. Perm.trans (Perm.cons x (insert-perm less a xs)) (Perm.swap a x xs))
      (λ e. Perm.refl (a ∷ x ∷ xs))

insertion_sort-perm :
    {A : Type 0} (less : A → A → Bool) (xs : List A) → Perm (insertion_sort less xs) xs
unfolding insertion_sort
insertion_sort-perm less [] = Perm.refl []
insertion_sort-perm less (x ∷ xs) =
    Perm.trans (insert-perm less x (insertion_sort less xs))
      (Perm.cons x (insertion_sort-perm less xs))

abbrev pub kernel : Kernel Unit
kernel = record {
  has_page_idle = λ w. true;
  can_open_count = λ w. true;
  can_open_flags = λ w. true;
  can_open_idle = λ w. true;
  read_count = λ w offset. some 1;
  read_flags = λ w offset. some 0;
  write_idle = λ w offset bits. (w, 0);
  read_idle = λ w offset. some 0;
  read_idle_errno = λ w. 0;
}

-- The ratio of two numbers is that of their first, in place of a float.
abbrev pub machine : Machine Unit ℕ
machine = record {
  kernel = kernel;
  page_size = 4096;
  is_x86_64 = false;
  maps = λ pid. ([], true);
  pagemap = λ pid. none;
  smaps_file = λ pid. some [];
  parser = λ line. ([], false);
  cmdline_file = λ pid. (codes "init", true);
  comm_file = λ pid. (codes "kworker\n", true);
  oom_score_adj_file = λ pid. (codes "0\n", true);
  read_file = λ path. none;
  proc_dir = some (codes "self" ∷ codes "1" ∷ []);
  meminfo_file = some (codes "SwapTotal: 16 kB\nSwapFree: 4 kB\n");
  zram_device = λ i. record { exists_dir = false; mm_stat = none; mem_used_total = none };
  trim = λ s. s;
  starts_with = λ s t. has_prefix t s;
  ends_with = λ s t. text_eq (drop (length s - length t) s) t;
  parse_int = λ s. if text_eq s (codes "1") then some (pos 1) else none;
  zero_ratio = 0;
  ratio = λ a b. 1;
  scale = λ n q. n * q;
  sort = λ less xs. insertion_sort less xs;
}

machine-Permutes : Permutes machine
machine-Permutes A less xs = insertion_sort-perm less xs

abbrev pub shared : Shared Unit
shared = (closed_acct, tt)

run_procrank-is_some_example :
    is_some (run_procrank machine 0 0 (pos 1 ∷ []) false false by_pss false [] shared) ≡ true
run_procrank-is_some_example =
    run_procrank-is_some machine machine-Permutes 0 0 (pos 1 ∷ []) false false by_pss false []
      shared

abbrev duration : Bytes → Bytes
duration name = codes "0.1"

-- A set of the process 1, which gets a record.
abbrev prepared : List ℤ × ProcessMap Unit × Shared Unit
prepared =
    let (records, after) = create_processrecords machine (pos 1 ∷ []) [] shared in
    (pos 1 ∷ [], records, after)

is_prepared : prepare machine (pos 1 ∷ []) shared ≡ some prepared
unfolding prepare create_processrecords kept_pids valid new_process_record read_usage
is_prepared = refl

librank_succeeds_example :
    let shown = show_all machine duration prepared.1 prepared.2 in
    (call_librank machine prepared.0 shown.processrecords shown.shared).success ≡ true
librank_succeeds_example =
    librank_succeeds machine duration (pos 1 ∷ []) shared prepared is_prepared

-- Two offsets into an array of three counts.
three-Fits : Fits (1 ∷ 0 ∷ 65535 ∷ [])
three-Fits zero = omega arith
three-Fits (suc zero) = omega arith
three-Fits (suc (suc zero)) = omega arith
three-Fits (suc (suc (suc i))) = omega arith

count_swap_offsets-HasRoom_example :
    ((count_swap_offsets (0 ∷ 1 ∷ []) (1 ∷ 0 ∷ 65535 ∷ [])).1 ≡ true)
    ↔ HasRoom (0 ∷ 1 ∷ []) (1 ∷ 0 ∷ 65535 ∷ [])
count_swap_offsets-HasRoom_example =
    count_swap_offsets-HasRoom (0 ∷ 1 ∷ []) (1 ∷ 0 ∷ 65535 ∷ []) three-Fits

-- A process with the given offsets in swap.
abbrev pub process : ℕ → List ℕ → ProcessRecord Unit
process n offs = record {
  procmem = record {
    get_wss = false;
    pgflags = 0;
    pgflags_mask = 0;
    maps = [];
    usage = no_usage;
    swap_offsets = offs;
    acct = closed_acct;
    world = tt;
  };
  pid = pos n;
  cmdline = codes "init";
  oomadj = pos 0;
  proportional_swap = 0;
  unique_swap = 0;
  zswap = 0;
  usage_or_wss = record no_usage { vss = 8; pss = n; uss = 1 };
  swap_offsets = offs;
}

abbrev pub records : ProcessMap Unit
records = (pos 1, process 1 (0 ∷ 2 ∷ [])) ∷ (pos 2, process 2 (2 ∷ [])) ∷ []

abbrev pub params : Params ℕ
params = record {
  total_pss = 0;
  total_uss = 0;
  total_swap = 0;
  total_pswap = 0;
  total_uswap = 0;
  total_zswap = 0;
  show_oomadj = false;
  show_wss = false;
  swap_enabled = true;
  zram_enabled = false;
  zram_compression_ratio = 0;
}

abbrev started : Populated Unit
started = record {
  procs = [];
  swap_offset_array = replicate 3 0;
  processrecords = records;
  shared = shared;
}

abbrev populated : Populated Unit
populated = (populate_procs machine params 0 0 (pos 1 ∷ pos 2 ∷ []) started).0

populated_done : populate_procs machine params 0 0 (pos 1 ∷ pos 2 ∷ []) started ≡ (populated, true)
unfolding populate_procs populate_proc count_swap_offsets valid
populated_done = refl

populated_fresh : All (λ (p : ProcessRecord Unit). p.proportional_swap ≡ 0) populated.procs
unfolding populate_procs populate_proc count_swap_offsets valid
populated_fresh = (refl, (refl, tt))

abbrev table : Option (Params ℕ × Bytes)
table =
    print_procs machine populated.swap_offset_array
      (sorted machine true (select_sort by_pss) populated.procs) params

abbrev or_nothing : Option (Params ℕ × Bytes) → Params ℕ × Bytes
or_nothing none = (params, [])
or_nothing (some q) = q

some-or_nothing : (o : Option (Params ℕ × Bytes)) → is_some o ≡ true → o ≡ some (or_nothing o)
some-or_nothing none h = cc
some-or_nothing (some q) h = refl

table-is_some : is_some table ≡ true
unfolding populate_procs populate_proc count_swap_offsets valid print_procs add_to_totals
    calculate_swap sorted select_sort insertion_sort insert
table-is_some = refl

total_pswap_bound_example :
    (or_nothing table).0.total_pswap * 1024 ≤ 4096 * used_slots populated.swap_offset_array 3
total_pswap_bound_example =
    total_pswap_bound machine machine-Permutes params (or_nothing table).0 0 0 3
      (pos 1 ∷ pos 2 ∷ []) records shared true by_pss (or_nothing table).1 populated refl refl
      populated_done populated_fresh (some-or_nothing table table-is_some)

print_procs_totals_example :
    ((or_nothing table).0.total_pss % u64_mod ≡ add64 0 (sum_by pss_of populated.procs))
    × ((or_nothing table).0.total_uss % u64_mod ≡ add64 0 (sum_by uss_of populated.procs))
print_procs_totals_example =
    print_procs_totals machine machine-Permutes populated.swap_offset_array populated.procs true
      by_pss params (or_nothing table).0 (or_nothing table).1 (some-or_nothing table table-is_some)

process_line :
    print_processrecord params (process 1 [])
    ≡ codes "    1        8K       0K       1K       1K       0K       0K       0K  init\n"
unfolding print_processrecord int_text pad_left
process_line = refl
