-- ===== src/Heaps/Names.antt =====
-- The enumerators of meminfo/androidprocheaps.h that name a heap, in their order; a place of the
-- statistics, and the classification of a mapping by its name, in ExtractAndroidHeapStatsFromFile.
use android_system_memory_li.Common.{
  ℕ, ◌-◌, ◌%◌, ◌^◌, Bool, true, false, ◌&&◌, ◌||◌, Option, none, some, ltb, if◌then◌else◌, length,
  take,
}
use android_system_memory_li.Text.{Bytes, codes, c_string, find_text}

abbrev pub heap_unknown : ℕ
heap_unknown = 0

abbrev pub heap_dalvik : ℕ
heap_dalvik = 1

abbrev pub heap_native : ℕ
heap_native = 2

abbrev pub heap_dalvik_other : ℕ
heap_dalvik_other = 3

abbrev pub heap_stack : ℕ
heap_stack = 4

abbrev pub heap_cursor : ℕ
heap_cursor = 5

abbrev pub heap_ashmem : ℕ
heap_ashmem = 6

abbrev pub heap_gl_dev : ℕ
heap_gl_dev = 7

abbrev pub heap_unknown_dev : ℕ
heap_unknown_dev = 8

abbrev pub heap_so : ℕ
heap_so = 9

abbrev pub heap_jar : ℕ
heap_jar = 10

abbrev pub heap_apk : ℕ
heap_apk = 11

abbrev pub heap_ttf : ℕ
heap_ttf = 12

abbrev pub heap_dex : ℕ
heap_dex = 13

abbrev pub heap_oat : ℕ
heap_oat = 14

abbrev pub heap_art : ℕ
heap_art = 15

abbrev pub heap_unknown_map : ℕ
heap_unknown_map = 16

abbrev pub heap_dalvik_normal : ℕ
heap_dalvik_normal = 20

abbrev pub heap_dalvik_large : ℕ
heap_dalvik_large = 21

abbrev pub heap_dalvik_zygote : ℕ
heap_dalvik_zygote = 22

abbrev pub heap_dalvik_non_moving : ℕ
heap_dalvik_non_moving = 23

abbrev pub heap_dalvik_other_linearalloc : ℕ
heap_dalvik_other_linearalloc = 24

abbrev pub heap_dalvik_other_accounting : ℕ
heap_dalvik_other_accounting = 25

abbrev pub heap_dalvik_other_zygote_code_cache : ℕ
heap_dalvik_other_zygote_code_cache = 26

abbrev pub heap_dalvik_other_app_code_cache : ℕ
heap_dalvik_other_app_code_cache = 27

abbrev pub heap_dalvik_other_compiler_metadata : ℕ
heap_dalvik_other_compiler_metadata = 28

abbrev pub heap_dalvik_other_indirect_reference_table : ℕ
heap_dalvik_other_indirect_reference_table = 29

abbrev pub heap_dex_boot_vdex : ℕ
heap_dex_boot_vdex = 30

abbrev pub heap_dex_app_dex : ℕ
heap_dex_app_dex = 31

abbrev pub heap_dex_app_vdex : ℕ
heap_dex_app_vdex = 32

abbrev pub heap_art_app : ℕ
heap_art_app = 33

abbrev pub heap_art_boot : ℕ
heap_art_boot = 34

-- _NUM_HEAP and _NUM_EXCLUSIVE_HEAP.
abbrev pub num_heap : ℕ
num_heap = 35

abbrev pub num_exclusive_heap : ℕ
num_exclusive_heap = 20

-- StartsWith and EndsWith, the text first.
pub record Affixes : Type 0 where
  pub starts_with : Bytes → Bytes → Bool
  pub ends_with : Bytes → Bytes → Bool

-- `which_heap`, `sub_heap` and `is_swappable`.
pub record Place : Type 0 where
  pub which_heap : ℕ
  pub sub_heap : ℕ
  pub is_swappable : Bool

unfoldable pub place : ℕ → ℕ → Bool → Place
place which_heap sub_heap is_swappable = record {
  which_heap = which_heap;
  sub_heap = sub_heap;
  is_swappable = is_swappable;
}

abbrev pub is_found : Option Bytes → Bool
is_found none = false
is_found (some rest) = true

unfoldable pub contains : Bytes → Bytes → Bool
unfolding find_text c_string
contains needle name = is_found (find_text needle (c_string name))

-- The parts of the boot image: system@framework@boot and system/framework/boot|apex.
unfoldable pub is_boot : Bytes → Bool
unfolding contains
is_boot name =
    contains (codes "@boot") name || contains (codes "/boot") name || contains (codes "/apex") name

module _ (a : Affixes) where
  -- The name without " (deleted)".
  unfoldable pub vma_name : Bytes → Bytes
  vma_name name =
      if a.ends_with name (codes " (deleted)") then take (length name - 10) name else name

  -- The branch of "/dev/".
  unfoldable pub dev_place : Bytes → Place
  dev_place name =
      if a.starts_with name (codes "/dev/kgsl-3d0")
      then place heap_gl_dev heap_unknown false
      else if a.starts_with name (codes "/dev/ashmem/CursorWindow")
      then place heap_cursor heap_unknown false
      else if a.starts_with name (codes "/dev/ashmem/jit-zygote-cache")
      then place heap_dalvik_other heap_dalvik_other_zygote_code_cache false
      else if a.starts_with name (codes "/dev/ashmem")
      then place heap_ashmem heap_unknown false
      else place heap_unknown_dev heap_unknown false

  -- The branch of "[anon:dalvik-".
  unfoldable pub dalvik_place : Bytes → Place
  dalvik_place name =
      if a.starts_with name (codes "[anon:dalvik-LinearAlloc")
      then place heap_dalvik_other heap_dalvik_other_linearalloc false
      else if a.starts_with name (codes "[anon:dalvik-alloc space")
          || a.starts_with name (codes "[anon:dalvik-main space")
      then place heap_dalvik heap_dalvik_normal false
      else if a.starts_with name (codes "[anon:dalvik-large object space")
          || a.starts_with name (codes "[anon:dalvik-free list large object space")
      then place heap_dalvik heap_dalvik_large false
      else if a.starts_with name (codes "[anon:dalvik-non moving space")
      then place heap_dalvik heap_dalvik_non_moving false
      else if a.starts_with name (codes "[anon:dalvik-zygote space")
      then place heap_dalvik heap_dalvik_zygote false
      else if a.starts_with name (codes "[anon:dalvik-indirect ref")
      then place heap_dalvik_other heap_dalvik_other_indirect_reference_table false
      else if a.starts_with name (codes "[anon:dalvik-jit-code-cache")
          || a.starts_with name (codes "[anon:dalvik-data-code-cache")
      then place heap_dalvik_other heap_dalvik_other_app_code_cache false
      else if a.starts_with name (codes "[anon:dalvik-CompilerMetadata")
      then place heap_dalvik_other heap_dalvik_other_compiler_metadata false
      else place heap_dalvik_other heap_dalvik_other_accounting false

  -- The chain of tests; `is_bss` is that of its last branch, where the name is empty.
  unfoldable pub name_place : Bytes → Bool → Place
  unfolding dev_place dalvik_place is_boot contains place
  name_place name is_bss =
      if a.starts_with name (codes "[heap]")
      then place heap_native heap_unknown false
      else if a.starts_with name (codes "[anon:libc_malloc]")
      then place heap_native heap_unknown false
      else if a.starts_with name (codes "[anon:scudo:")
      then place heap_native heap_unknown false
      else if a.starts_with name (codes "[anon:GWP-ASan")
      then place heap_native heap_unknown false
      else if a.starts_with name (codes "[stack")
      then place heap_stack heap_unknown false
      else if a.starts_with name (codes "[anon:stack_and_tls:")
      then place heap_stack heap_unknown false
      else if a.ends_with name (codes ".so")
      then place heap_so heap_unknown true
      else if a.ends_with name (codes ".jar")
      then place heap_jar heap_unknown true
      else if a.ends_with name (codes ".apk")
      then place heap_apk heap_unknown true
      else if a.ends_with name (codes ".ttf")
      then place heap_ttf heap_unknown true
      else if a.ends_with name (codes ".odex")
          || (ltb 4 (length name % 2 ^ 32) && contains (codes ".dex") name)
      then place heap_dex heap_dex_app_dex true
      else if a.ends_with name (codes ".vdex")
      then (if is_boot name
          then place heap_dex heap_dex_boot_vdex true
          else place heap_dex heap_dex_app_vdex true)
      else if a.ends_with name (codes ".oat")
      then place heap_oat heap_unknown true
      else if a.ends_with name (codes ".art") || a.ends_with name (codes ".art]")
      then (if is_boot name
          then place heap_art heap_art_boot true
          else place heap_art heap_art_app true)
      else if a.starts_with name (codes "/dev/")
      then dev_place name
      else if a.starts_with name (codes "/memfd:jit-cache")
      then place heap_dalvik_other heap_dalvik_other_app_code_cache false
      else if a.starts_with name (codes "/memfd:jit-zygote-cache")
      then place heap_dalvik_other heap_dalvik_other_zygote_code_cache false
      else if a.starts_with name (codes "[anon:")
      then (if a.starts_with name (codes "[anon:dalvik-")
          then dalvik_place name
          else place heap_unknown heap_unknown false)
      else if ltb 0 (length name % 2 ^ 32)
      then place heap_unknown_map heap_unknown false
      else if is_bss
      then place heap_so heap_unknown false
      else place heap_unknown heap_unknown false
