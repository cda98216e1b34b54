-- ===== src/SysMem/Zram.antt =====
-- The zram devices of sysmeminfo.cpp. fscanf on mm_stat is a parameter: the numbers that it converts.
use android_system_memory_li.Common.{
  ℕ, zero, suc, ◌+◌, ◌/◌, Bool, List, ◌∷◌, Option, none, some, ◌==◌, if◌then◌else◌, add64, sub64,
  ullong_max,
}
use android_system_memory_li.Text.{Bytes, c_string, strtoull}

-- /sys/block/zram<i>: is it there; mm_stat, `none` if it cannot be opened, as its numbers; and
-- mem_used_total.
pub record ZramDevice : Type 0 where
  pub exists_dir : Bool
  pub mm_stat : Option (List ℕ)
  pub mem_used_total : Option Bytes

-- fscanf with two numbers passed over: the third.
abbrev pub third : List ℕ → Option ℕ
third (a ∷ b ∷ c ∷ rest) = some c
third _ = none

abbrev pub used_total : Option Bytes → Option ℕ
used_total none = none
used_total (some text) =
    let value = strtoull (c_string text) in if value == ullong_max then none else some value

unfoldable pub mem_zram_device : Option (List ℕ) → Option Bytes → Option ℕ
unfolding strtoull c_string
mem_zram_device (some numbers) used = third numbers
mem_zram_device none used = used_total used

abbrev pub two_numbers : List ℕ → Option ℕ
two_numbers (uncompressed ∷ compressed ∷ rest) = some (sub64 uncompressed compressed)
two_numbers _ = none

unfoldable pub get_total_mem_compacted : Option (List ℕ) → Option ℕ
get_total_mem_compacted (some numbers) = two_numbers numbers
get_total_mem_compacted none = none

abbrev pub k_max_zram_devices : ℕ
k_max_zram_devices = 256

abbrev pub or_zero : Option ℕ → ℕ
or_zero none = 0
or_zero (some total) = total / 1024

module _ (read_device : ZramDevice → Option ℕ) (device : ℕ → ZramDevice) where
  -- The loop of mem_zram_kb and mem_compacted_kb; `none` is `return 0`.
  unfoldable pub sum_devices : ℕ → ℕ → ℕ → Option ℕ
  sum_devices zero i total = some total
  sum_devices (suc rounds) i total =
      if (device i).exists_dir
      then elim (read_device (device i)) [
        | none ↦ none
        | some n ↦ sum_devices rounds (i + 1) (add64 total n)
      ]
      else some total

abbrev pub zram_bytes : ZramDevice → Option ℕ
zram_bytes d = mem_zram_device d.mm_stat d.mem_used_total

abbrev pub compacted_bytes : ZramDevice → Option ℕ
compacted_bytes d = get_total_mem_compacted d.mm_stat

-- The device that the caller names, or all of them.
unfoldable pub mem_zram_kb : (ℕ → ZramDevice) → Option ZramDevice → ℕ
mem_zram_kb device (some d) = or_zero (zram_bytes d)
mem_zram_kb device none = or_zero (sum_devices zram_bytes device k_max_zram_devices 0 0)

unfoldable pub mem_compacted_kb : (ℕ → ZramDevice) → Option ZramDevice → ℕ
mem_compacted_kb device (some d) = or_zero (compacted_bytes d)
mem_compacted_kb device none = or_zero (sum_devices compacted_bytes device k_max_zram_devices 0 0)
