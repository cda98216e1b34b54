-- ===== src/PageAcct/Facts.antt =====
-- What opening the tables guarantees, and how the idle bitmap is addressed.
use android_system_memory_li.Common.{ℕ, ◌+◌, ◌*◌, ◌%◌, ◌^◌, ◌≡◌, Bool, true, not, ◌||◌, ◌&&◌, arith}
use android_system_memory_li.PageAcct.{
  Kernel, PageAcct, init_page_acct, page_flags, page_map_count, pfn_to_idle_bitmap_offset,
}

-- The descriptors that were open stay open.
pub record Extends (a a' : PageAcct) : Type 0 where
  pub count : (a.kpagecount_fd || a'.kpagecount_fd) ≡ a'.kpagecount_fd
  pub flags : (a.kpageflags_fd || a'.kpageflags_fd) ≡ a'.kpageflags_fd
  pub idle : (a.pageidle_fd || a'.pageidle_fd) ≡ a'.pageidle_fd

-- What InitPageAcct needs of the kernel: each table that it wants is open already or can be opened.
abbrev pub can_init : {World : Type 0} → Kernel World → World → Bool → PageAcct → Bool
can_init k world enable a =
    (not enable || k.has_page_idle world)
    && (a.kpagecount_fd || k.can_open_count world)
    && (a.kpageflags_fd || k.can_open_flags world)
    && (not enable || (a.pageidle_fd || k.can_open_idle world))

module _ {World : Type 0} (k : Kernel World) where
  -- InitPageAcct succeeds exactly when every table that it wants is open or can be opened. Then both
  -- /proc tables are open, and the bitmap where idle pages were asked for. In every case the
  -- descriptors that were open stay open.
  pub init_page_acct_lem :
      (world : World) (enable : Bool) (a : PageAcct)
      → let r = init_page_acct k world enable a in
        (r.1 ≡ can_init k world enable a)
        × ((not r.1 || (r.0.kpagecount_fd && r.0.kpageflags_fd && (not enable || r.0.pageidle_fd)))
            ≡ true)
        × Extends a r.0
  unfolding init_page_acct
  init_page_acct_lem world enable a = ground arith

  -- Once a table is open, a lookup leaves the descriptors alone and gives what the kernel has at
  -- eight times the frame number.
  pub lookup_open :
      (world : World) (pfn : ℕ) (a : PageAcct)
      → a.kpagecount_fd ≡ true
      → a.kpageflags_fd ≡ true
      → (page_flags k world pfn a ≡ (a, k.read_flags world (pfn * 8 % 2 ^ 64)))
        × (page_map_count k world pfn a ≡ (a, k.read_count world (pfn * 8 % 2 ^ 64)))
  unfolding page_flags page_map_count
  lookup_open world pfn a c f = ground arith

-- The bitmap's bit for a frame: the byte offset is a multiple of eight, and the bit within those
-- eight bytes makes up the frame number. So no two frames share a bit.
pub idle_address :
    (pfn : ℕ)
    → (pfn_to_idle_bitmap_offset pfn % 8 ≡ 0) × (pfn_to_idle_bitmap_offset pfn * 8 + pfn % 64 ≡ pfn)
unfolding pfn_to_idle_bitmap_offset
idle_address pfn = omega arith
