-- ===== src/SysMem/Gpu.antt =====
-- The GPU memory of sysmeminfo.cpp, as built for Android. The BPF map is a parameter: whether it is
-- valid, its keys in the order of getFirstKey and getNextKey, and what reading a key gives.
use android_system_memory_li.Common.{
  ℕ, ◌+◌, ◌*◌, ◌/◌, ◌%◌, ◌^◌, Bool, true, false, not, List, [], ◌∷◌, ◌==◌, if◌then◌else◌, add64,
  u32_mod,
}

-- ENOENT, another error, or a value.
pub data GpuValue : Type 0 where
  missing unreadable : GpuValue
  value : ℕ → GpuValue

pub record GpuMap : Type 0 where
  pub is_valid : Bool
  pub keys : List ℕ
  pub read_value : ℕ → GpuValue

abbrev pub GpuUsage : Type 0
GpuUsage = List (ℕ × ℕ)

unfoldable pub add_usage : ℕ → ℕ → GpuUsage → GpuUsage
add_usage pid kb [] = (pid, kb) ∷ []
add_usage pid kb ((p, n) ∷ m) =
    if p == pid then (p, add64 n kb) ∷ m else (p, n) ∷ add_usage pid kb m

module _ (map : GpuMap) where
  unfoldable pub gpu_keys : List ℕ → GpuUsage → GpuUsage × Bool
  unfolding add_usage
  gpu_keys [] out = (out, true)
  gpu_keys (key ∷ keys) out = elim (map.read_value key) [
    | missing ↦ (out, false)
    | unreadable ↦ (out, false)
    | value v ↦ gpu_keys keys (add_usage (key % u32_mod) (v / 1024) out)
  ]

  -- `out` is not null.
  unfoldable pub read_per_process_gpu_mem : GpuUsage → GpuUsage × Bool
  unfolding gpu_keys
  read_per_process_gpu_mem out = if not map.is_valid then (out, false) else gpu_keys map.keys []

  -- The key: the GPU in the upper 32 bits, the pid in the lower ones, both uint32_t.
  abbrev pub gpu_key : ℕ → ℕ → ℕ
  gpu_key gpu_id pid = gpu_id * 2 ^ 32 + pid

  abbrev pub usage_kb : ℕ → GpuValue → ℕ × Bool
  usage_kb size missing = (0, true)
  usage_kb size unreadable = (size, false)
  usage_kb size (value v) = (v / 1024, true)

  unfoldable pub read_process_gpu_usage_kb : ℕ → ℕ → ℕ → ℕ × Bool
  read_process_gpu_usage_kb pid gpu_id size =
      if not map.is_valid
      then (size, false)
      else usage_kb size (map.read_value (gpu_key gpu_id pid))

  unfoldable pub read_gpu_total_usage_kb : ℕ → ℕ × Bool
  unfolding read_process_gpu_usage_kb
  read_gpu_total_usage_kb size = read_process_gpu_usage_kb 0 0 size
