-- ===== src/SmapInfo/Record.antt =====
-- libsmapinfo/processrecord.cpp: the class ProcessRecord, a process with its usage and swap.
use android_system_memory_li.Common.{
  ℕ, ◌/◌, Bool, true, false, not, List, [], ◌∷◌, ◌++◌, Option, none, some, ◌==◌, if◌then◌else◌,
  add64, get_elem?, ◌>>=◌, ℤ, pos, negsuc, Map, find, emplace, ltb_ℤ,
}
use android_system_memory_li.ProcMem.Process.{
  ProcMemInfo, smaps, usage as usage_of, wss as wss_of, swap_offsets as swap_offsets_of, is_nil,
}
use android_system_memory_li.ProcMem.Usage.{MemUsage, no_usage}
use android_system_memory_li.SmapInfo.{Machine, Shared, env_of}
use android_system_memory_li.Text.{Bytes, codes, c_string}

-- A pid of -1 marks a record that is not valid. `procmem` keeps the page accounting and the kernel
-- as the constructor leaves them.
pub record ProcessRecord (World : Type 0) : Type 0 where
  pub procmem : ProcMemInfo World
  pub pid : ℤ
  pub cmdline : Bytes
  pub oomadj : ℤ
  pub proportional_swap : ℕ
  pub unique_swap : ℕ
  pub zswap : ℕ
  pub usage_or_wss : MemUsage
  pub swap_offsets : List ℕ

abbrev pub ProcessMap : Type 0 → Type 0
ProcessMap World = Map ℤ (ProcessRecord World)

abbrev pub has_newline : Bytes → Bool
has_newline [] = false
has_newline (c ∷ cs) = if c == b'\n' then true else has_newline cs

-- `erase(pos)` at the last newline, if there is one.
unfoldable pub erase_last_newline : Bytes → Bytes
erase_last_newline [] = []
erase_last_newline (c ∷ cs) =
    let rest = erase_last_newline cs in
    if has_newline cs then c ∷ rest else if c == b'\n' then [] else c ∷ cs

-- OOM_SCORE_ADJ_MAX + 1 of linux/oom.h.
abbrev pub no_oomadj : ℤ
no_oomadj = pos 1001

module _ {World Float : Type 0} (m : Machine World Float) where
  -- The name of a kernel thread, in brackets.
  unfoldable pub comm_name : ℤ → Bytes
  unfolding erase_last_newline
  comm_name pid = codes "[" ++ c_string (erase_last_newline (m.comm_file pid).0) ++ codes "]"

  unfoldable pub read_cmdline : ℤ → Bytes
  unfolding comm_name
  read_cmdline pid =
      let (text, read) = m.cmdline_file pid in
      let name = c_string (if read then text else codes "<unknown>") in
      if is_nil name then comm_name pid else name

  -- `none` where the constructor returns.
  unfoldable pub read_oomadj : Bool → ℤ → Option ℤ
  read_oomadj get_oomadj pid =
      let (text, read) = m.oom_score_adj_file pid in
      if not get_oomadj then some no_oomadj else if read then m.parse_int (m.trim text) else none

  -- ProcMemInfo(pid, get_wss, pgflags, pgflags_mask).
  abbrev pub new_proc_mem_info : Bool → ℕ → ℕ → Shared World → ProcMemInfo World
  new_proc_mem_info get_wss pgflags pgflags_mask (acct, world) = record {
    get_wss = get_wss;
    pgflags = pgflags;
    pgflags_mask = pgflags_mask;
    maps = [];
    usage = no_usage;
    swap_offsets = [];
    acct = acct;
    world = world;
  }

  -- The members as the constructor starts with them, with the command line.
  abbrev pub unread_record : ProcMemInfo World → Bytes → ProcessRecord World
  unread_record p cmdline = record {
    procmem = p;
    pid = negsuc 0;
    cmdline = cmdline;
    oomadj = no_oomadj;
    proportional_swap = 0;
    unique_swap = 0;
    zswap = 0;
    usage_or_wss = no_usage;
    swap_offsets = [];
  }

  -- The rest of the constructor: the maps are read once, then the usage and the swap offsets.
  unfoldable pub read_usage : Bool → ℤ → ℤ → ProcessRecord World → ProcessRecord World
  read_usage get_wss pid oomadj r =
      let k = m.kernel in
      let env = env_of m pid in
      let p₁ = smaps k env m.parser (m.smaps_file pid) true true r.procmem in
      let p₂ = if get_wss then wss_of k env p₁ else usage_of k env p₁ in
      let p₃ = swap_offsets_of k env p₂ in
      record r {
        procmem = p₃;
        pid = pid;
        oomadj = oomadj;
        usage_or_wss = p₂.usage;
        swap_offsets = p₃.swap_offsets;
      }

  abbrev pub after_oomadj : Bool → ℤ → ProcessRecord World → Option ℤ → ProcessRecord World
  after_oomadj get_wss pid r none = r
  after_oomadj get_wss pid r (some oomadj) = read_usage get_wss pid oomadj r

  unfoldable pub new_process_record :
      ℤ → Bool → ℕ → ℕ → Bool → Bool → Shared World → ProcessRecord World × Shared World
  unfolding read_cmdline read_oomadj
  new_process_record pid get_wss pgflags pgflags_mask get_cmdline get_oomadj s =
      let p = new_proc_mem_info get_wss pgflags pgflags_mask s in
      let r = unread_record p (if get_cmdline then read_cmdline pid else []) in
      let done = after_oomadj get_wss pid r (read_oomadj get_oomadj pid) in
      (done, (done.procmem.acct, done.procmem.world))

  -- `Smaps()`, with its defaults: the maps that the constructor read, or a second attempt.
  unfoldable pub record_smaps : ProcessRecord World → ProcessRecord World
  record_smaps r = record r {
    procmem = smaps m.kernel (env_of m r.pid) m.parser (m.smaps_file r.pid) false false r.procmem;
  }

  -- One offset of CalculateSwap; `none` is a read out of bounds or a division by zero.
  abbrev pub share_of : ProcessRecord World → Float → Option ℕ → Option (ProcessRecord World)
  share_of r zram_compression_ratio none = none
  share_of r zram_compression_ratio (some n) =
      let proportional = add64 r.proportional_swap (m.page_size / n) in
      if n == 0
      then none
      else some (record r {
        proportional_swap = proportional;
        unique_swap = add64 r.unique_swap (if n == 1 then m.page_size else 0);
        zswap = m.scale proportional zram_compression_ratio;
      })

  unfoldable pub swap_shares :
      List ℕ → Float → List ℕ → ProcessRecord World → Option (ProcessRecord World)
  swap_shares swap_offset_array zram_compression_ratio [] r = some r
  swap_shares swap_offset_array zram_compression_ratio (off ∷ offs) r = do
    r' ← share_of r zram_compression_ratio (get_elem? swap_offset_array off)
    swap_shares swap_offset_array zram_compression_ratio offs r'

  abbrev pub in_kb : ProcessRecord World → ProcessRecord World
  in_kb r = record r {
    proportional_swap = r.proportional_swap / 1024;
    unique_swap = r.unique_swap / 1024;
    zswap = r.zswap / 1024;
  }

  unfoldable pub calculate_swap :
      List ℕ → Float → ProcessRecord World → Option (ProcessRecord World)
  unfolding swap_shares
  calculate_swap swap_offset_array zram_compression_ratio r = do
    r' ← swap_shares swap_offset_array zram_compression_ratio r.swap_offsets r
    some (in_kb r')

unfoldable pub valid : {World : Type 0} → ProcessRecord World → Bool
valid r = elim r.pid [ pos n ↦ true | negsuc n ↦ not (n == 0) ]

-- The record of a pid: the one in the map, or a new one, which is put there.
abbrev pub if_found :
    {World : Type 0}
    → (Shared World → ProcessRecord World × Shared World)
    → ℤ
    → ProcessMap World
    → Shared World
    → Option (ProcessRecord World)
    → ProcessRecord World × ProcessMap World × Shared World
if_found create pid records s (some r) = (r, records, s)
if_found create pid records s none = let (r, s') = create s in (r, emplace ltb_ℤ pid r records, s')

abbrev pub find_or_create :
    {World : Type 0}
    → (Shared World → ProcessRecord World × Shared World)
    → ℤ
    → ProcessMap World
    → Shared World
    → ProcessRecord World × ProcessMap World × Shared World
find_or_create create pid records s = if_found create pid records s (find ltb_ℤ pid records)

-- What run_procrank, run_librank and run_showmap print and return, with the records of the processes. Where the caller has no
-- map of records, it is an empty one.
pub record Report (World : Type 0) : Type 0 where
  pub out : Bytes
  pub success : Bool
  pub processrecords : ProcessMap World
  pub shared : Shared World
