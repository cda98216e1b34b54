-- ===== src/PageAcct.antt =====
-- pageacct.cpp, include/meminfo/pageacct.h and the bit macros of meminfo_private.h: the kernel's
-- tables of page frames. What the kernel answers is a parameter: see `Kernel`.
pub mod Facts
use Prim.Native.Nat.{bit_and}
use android_system_memory_li.Common.{
  ℕ, zero, suc, ◌+◌, ◌*◌, ◌/◌, ◌%◌, ◌^◌, Bool, true, false, not, ◌&&◌, Option, none, some, ◌==◌,
  if◌then◌else◌, mul64,
}

-- The macro _BITS.
unfoldable pub bits : ℕ → ℕ → ℕ → ℕ
bits x offset width = x / 2 ^ offset % 2 ^ width

unfoldable pub page_present : ℕ → Bool
unfolding bits
page_present x = bits x 63 1 == 1

unfoldable pub page_swapped : ℕ → Bool
unfolding bits
page_swapped x = bits x 62 1 == 1

unfoldable pub page_pfn : ℕ → ℕ
unfolding bits
page_pfn x = bits x 0 55

unfoldable pub page_swap_offset : ℕ → ℕ
unfolding bits
page_swap_offset x = bits x 5 50

unfoldable pub page_swap_type : ℕ → ℕ
unfolding bits
page_swap_type x = bits x 0 5

unfoldable pub kpageflag_thp : ℕ → Bool
unfolding bits
kpageflag_thp x = bits x 22 1 == 1

-- /proc/kpagecount, /proc/kpageflags and the bitmap of idle pages. An offset is in bytes, a read
-- is of eight bytes, and `none` is a read that is not complete. A write to the bitmap may change
-- the world; it gives 0, or the error number.
pub record Kernel (World : Type 0) : Type 0 where
  pub has_page_idle : World → Bool
  pub can_open_count : World → Bool
  pub can_open_flags : World → Bool
  pub can_open_idle : World → Bool
  pub read_count : World → ℕ → Option ℕ
  pub read_flags : World → ℕ → Option ℕ
  pub write_idle : World → ℕ → ℕ → World × ℕ
  pub read_idle : World → ℕ → Option ℕ
  pub read_idle_errno : World → ℕ

-- Which descriptors are open.
pub record PageAcct : Type 0 where
  pub kpagecount_fd : Bool
  pub kpageflags_fd : Bool
  pub pageidle_fd : Bool

abbrev pub closed_acct : PageAcct
closed_acct = record { kpagecount_fd = false; kpageflags_fd = false; pageidle_fd = false }

-- `pfn_to_idle_bitmap_offset`.
unfoldable pub pfn_to_idle_bitmap_offset : ℕ → ℕ
pfn_to_idle_bitmap_offset pfn = pfn / 64 * 8

-- The result of IsPageIdle: a negative error number, or the bit.
pub data IdleStatus : Type 0 where
  failed : ℕ → IdleStatus
  status : Bool → IdleStatus

module _ {World : Type 0} (k : Kernel World) where
  open_idle : World → Bool → PageAcct → PageAcct × Bool
  open_idle world enable a =
      if enable && not a.pageidle_fd
      then (if k.can_open_idle world then (record a { pageidle_fd = true }, true) else (a, false))
      else (a, true)

  open_flags : World → Bool → PageAcct → PageAcct × Bool
  unfolding open_idle
  open_flags world enable a =
      if not a.kpageflags_fd
      then (if k.can_open_flags world
          then open_idle world enable (record a { kpageflags_fd = true })
          else (a, false))
      else open_idle world enable a

  open_count : World → Bool → PageAcct → PageAcct × Bool
  unfolding open_flags
  open_count world enable a =
      if not a.kpagecount_fd
      then (if k.can_open_count world
          then open_flags world enable (record a { kpagecount_fd = true })
          else (a, false))
      else open_flags world enable a

  unfoldable pub init_page_acct : World → Bool → PageAcct → PageAcct × Bool
  unfolding open_count
  init_page_acct world pageidle_enable a =
      if pageidle_enable && not (k.has_page_idle world)
      then (a, false)
      else open_count world pageidle_enable a

  -- `if (fd < 0) { if (!InitPageAcct()) return false; }`
  abbrev ready : World → Bool → PageAcct → PageAcct × Bool
  ready world fd a = if not fd then init_page_acct world false a else (a, true)

  unfoldable pub page_flags : World → ℕ → PageAcct → PageAcct × Option ℕ
  unfolding init_page_acct
  page_flags world pfn a =
      let (a', done) = ready world a.kpageflags_fd a in
      (a', if done then k.read_flags world (mul64 pfn 8) else none)

  unfoldable pub page_map_count : World → ℕ → PageAcct → PageAcct × Option ℕ
  unfolding init_page_acct
  page_map_count world pfn a =
      let (a', done) = ready world a.kpagecount_fd a in
      (a', if done then k.read_count world (mul64 pfn 8) else none)

  unfoldable pub mark_page_idle : World → ℕ → World × ℕ
  unfolding pfn_to_idle_bitmap_offset
  mark_page_idle world pfn = k.write_idle world (pfn_to_idle_bitmap_offset pfn) (2 ^ (pfn % 64))

  abbrev idle_bit : World → ℕ → Option ℕ → IdleStatus
  idle_bit world pfn none = failed (k.read_idle_errno world)
  idle_bit world pfn (some idle_bits) = status (idle_bits / 2 ^ (pfn % 64) % 2 == 1)

  unfoldable pub get_page_idle : World → ℕ → IdleStatus
  unfolding pfn_to_idle_bitmap_offset
  get_page_idle world pfn = idle_bit world pfn (k.read_idle world (pfn_to_idle_bitmap_offset pfn))

  abbrev after_mark : ℕ → World × ℕ → World × IdleStatus
  after_mark pfn (world, zero) = (world, get_page_idle world pfn)
  after_mark pfn (world, suc errno) = (world, failed (suc errno))

  abbrev eopnotsupp : ℕ
  eopnotsupp = 95

  unfoldable pub is_page_idle : World → ℕ → PageAcct → PageAcct × World × IdleStatus
  unfolding init_page_acct mark_page_idle get_page_idle
  is_page_idle world pfn a =
      let (a', done) = (if not a.pageidle_fd then init_page_acct world true a else (a, true)) in
      let (world', s) = after_mark pfn (mark_page_idle world pfn) in
      if done then (a', world', s) else (a', world, failed eopnotsupp)
