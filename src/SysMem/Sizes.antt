-- ===== src/SysMem/Sizes.antt =====
-- The sums of sysmeminfo.cpp: zram devices and GPU memory.
use android_system_memory_li.Common.{
  ℕ, zero, suc, ◌+◌, ◌/◌, ◌%◌, ◌<◌, ◌≤◌, ◌≡◌, refl, sym, ap, ◌∙◌, arith, Bool, true, false, not,
  List, [], ◌∷◌, Option, none, some, ◌==◌, if◌then◌else◌, if_cases, length, sum_by, All, add64,
  u64_mod, u32_mod,
}
use android_system_memory_li.SysMem.Zram.{
  ZramDevice, sum_devices, zram_bytes, mem_zram_kb, or_zero, k_max_zram_devices,
}
use android_system_memory_li.SysMem.Gpu.{
  GpuValue, GpuMap, GpuUsage, add_usage, gpu_keys, read_per_process_gpu_mem,
}

-- The devices from `i` on that stand before the first missing one: `ns` are their sizes.
abbrev pub AreDevices : (ZramDevice → Option ℕ) → (ℕ → ZramDevice) → ℕ → List ℕ → Type 0
AreDevices read_device device i [] = (device i).exists_dir ≡ false
AreDevices read_device device i (n ∷ ns) =
    ((device i).exists_dir ≡ true)
    × (read_device (device i) ≡ some n)
    × AreDevices read_device device (i + 1) ns

abbrev pub total : List ℕ → ℕ
total ns = sum_by (λ (n : ℕ). n) ns

module _ (read_device : ZramDevice → Option ℕ) (device : ℕ → ZramDevice) where
  -- The loop at one device, by what it finds.
  abbrev at_device : ℕ → ℕ → ℕ → Bool → Option ℕ → Option ℕ
  at_device rounds i acc b o =
      if b
      then elim o [
        | none ↦ none
        | some n ↦ sum_devices read_device device rounds (i + 1) (add64 acc n)
      ]
      else some acc

  sum_devices-at :
      (rounds i acc : ℕ) {b : Bool} {o : Option ℕ}
      → (device i).exists_dir ≡ b
      → read_device (device i) ≡ o
      → sum_devices read_device device (suc rounds) i acc ≡ at_device rounds i acc b o
  unfolding sum_devices
  sum_devices-at rounds i acc {b} {o} e r =
      ap (λ x. at_device rounds i acc x (read_device (device i))) e
      ∙ ap (at_device rounds i acc b) r

  sum_devices_lem :
      (rounds i acc : ℕ) (ns : List ℕ)
      → AreDevices read_device device i ns
      → length ns < rounds
      → acc < u64_mod
      → sum_devices read_device device rounds i acc ≡ some ((acc + total ns) % u64_mod)
  sum_devices_lem zero i acc ns h l a = elim l [ ]
  sum_devices_lem (suc rounds) i acc [] h l a =
      sum_devices-at rounds i acc h refl ∙ ap some (omega (arith, a))
  sum_devices_lem (suc rounds) i acc (n ∷ ns) (e, r, h) l a =
      sum_devices-at rounds i acc e r
      ∙ sum_devices_lem rounds (i + 1) (add64 acc n) ns h (omega (arith, l)) (omega arith)
      ∙ ap some (omega arith)

  -- A device that is there but cannot be read, behind `skip` others.
  sum_devices-unreadable :
      (rounds i acc skip : ℕ)
      → ((k : ℕ) → k ≤ skip → (device (i + k)).exists_dir ≡ true)
      → read_device (device (i + skip)) ≡ none
      → skip < rounds
      → sum_devices read_device device rounds i acc ≡ none
  sum_devices-unreadable zero i acc skip present bad l = elim l [ ]
  sum_devices-unreadable (suc rounds) i acc zero present bad l =
      sum_devices-at rounds i acc (at (i + 0) (omega arith) (present 0 (omega arith)))
        (same (i + 0) (omega arith) bad)
    where
      at : (j : ℕ) → j ≡ i → (device j).exists_dir ≡ true → (device i).exists_dir ≡ true
      at j e h = ap (λ x. (device x).exists_dir) (sym e) ∙ h

      same : (j : ℕ) → j ≡ i → read_device (device j) ≡ none → read_device (device i) ≡ none
      same j e h = ap (λ x. read_device (device x)) (sym e) ∙ h
  sum_devices-unreadable (suc rounds) i acc (suc skip) present bad l =
      sum_devices-at rounds i acc
        (ap (λ x. (device x).exists_dir) (omega arith) ∙ present 0 (omega arith)) refl
      ∙ behind (read_device (device i)) (λ n.
        sum_devices-unreadable rounds (i + 1) (add64 acc n) skip
          (λ k h.
            ap (λ x. (device x).exists_dir) (omega arith) ∙ present (suc k) (omega (arith, h)))
          (ap (λ x. read_device (device x)) (omega arith) ∙ bad) (omega (arith, l)))
    where
      behind :
          (o : Option ℕ)
          → ((n : ℕ) → sum_devices read_device device rounds (i + 1) (add64 acc n) ≡ none)
          → at_device rounds i acc true o ≡ none
      behind none k = refl
      behind (some n) k = k n

-- If the devices present are those in front of the first missing one, fewer than 256, and each can be
-- read, then mem_zram_kb over all devices is their total (modulo 2 ^ 64) in kB.
pub mem_zram_kb_lem :
    (device : ℕ → ZramDevice) (ns : List ℕ)
    → AreDevices zram_bytes device 0 ns
    → length ns < k_max_zram_devices
    → mem_zram_kb device none ≡ total ns % u64_mod / 1024
unfolding mem_zram_kb
mem_zram_kb_lem device ns h l =
    ap or_zero (sum_devices_lem zram_bytes device k_max_zram_devices 0 0 ns h l (omega arith))
    ∙ ap (λ x. x % u64_mod / 1024) (omega arith)

-- One device that is there but cannot be read, with no gap in front of it, makes the result 0.
pub mem_zram_kb-unreadable :
    (device : ℕ → ZramDevice) (skip : ℕ)
    → ((k : ℕ) → k ≤ skip → (device k).exists_dir ≡ true)
    → zram_bytes (device skip) ≡ none
    → skip < k_max_zram_devices
    → mem_zram_kb device none ≡ 0
unfolding mem_zram_kb
mem_zram_kb-unreadable device skip present bad l = ap or_zero (
    sum_devices-unreadable zram_bytes device k_max_zram_devices 0 0 skip
      (λ k h. ap (λ x. (device x).exists_dir) (omega arith) ∙ present k h)
      (ap (λ x. zram_bytes (device x)) (omega arith) ∙ bad) l)

-- The kB of a pid in a list of usages, and in the BPF map: the values of its keys, each rounded down.
abbrev pub usage_of : ℕ → GpuUsage → ℕ
usage_of pid [] = 0
usage_of pid ((p, n) ∷ m) = if p == pid then n else usage_of pid m

abbrev pub kb_of : GpuValue → ℕ
kb_of GpuValue.missing = 0
kb_of GpuValue.unreadable = 0
kb_of (GpuValue.value v) = v / 1024

abbrev pub keys_kb : GpuMap → ℕ → List ℕ → ℕ
keys_kb map pid [] = 0
keys_kb map pid (key ∷ keys) =
    (if key % u32_mod == pid then kb_of (map.read_value key) else 0) + keys_kb map pid keys

usage_of-add_usage :
    (pid q kb : ℕ) (m : GpuUsage)
    → usage_of q (add_usage pid kb m) % u64_mod
      ≡ (usage_of q m + (if pid == q then kb else 0)) % u64_mod
unfolding add_usage
usage_of-add_usage pid q kb [] = ground arith
usage_of-add_usage pid q kb ((p, n) ∷ m) = ground (arith, usage_of-add_usage pid q kb m)

abbrev pub Sums : GpuMap → List ℕ → GpuUsage → GpuUsage × Bool → Type 0
Sums map keys start (out, done) =
    (done ≡ true)
    × ((pid : ℕ)
        → usage_of pid out % u64_mod ≡ (usage_of pid start + keys_kb map pid keys) % u64_mod)

module _ (map : GpuMap) where
  at_key : ℕ → List ℕ → GpuUsage → GpuValue → GpuUsage × Bool
  at_key key keys out v = elim v [
    | GpuValue.missing ↦ (out, false)
    | GpuValue.unreadable ↦ (out, false)
    | GpuValue.value n ↦ gpu_keys map keys (add_usage (key % u32_mod) (n / 1024) out)
  ]

  one_key :
      (key n : ℕ) (keys : List ℕ) (out : GpuUsage) (r : GpuUsage × Bool)
      → map.read_value key ≡ GpuValue.value n
      → Sums map keys (add_usage (key % u32_mod) (n / 1024) out) r
      → Sums map (key ∷ keys) out r
  one_key key n keys out (out', done) e (d, total) = (
    d,
    λ pid. omega (
      arith,
      total pid,
      usage_of-add_usage (key % u32_mod) pid (n / 1024) out,
      ap (λ v. if key % u32_mod == pid then kb_of v else 0) e,
    ),
  )

  gpu_keys_lem :
      (keys : List ℕ) (out : GpuUsage)
      → All (λ (key : ℕ). (n : ℕ) × (map.read_value key ≡ GpuValue.value n)) keys
      → Sums map keys out (gpu_keys map keys out)
  unfolding gpu_keys at_key
  gpu_keys_lem [] out h = (refl, λ pid. omega arith)
  gpu_keys_lem (key ∷ keys) out ((n, e), h) = one_key key n keys out _ e (
      coe_sums (ap (at_key key keys out) e)
        (gpu_keys_lem keys (add_usage (key % u32_mod) (n / 1024) out) h))
    where
      coe_sums :
          {r r' : GpuUsage × Bool}
          → r ≡ r'
          → Sums map keys (add_usage (key % u32_mod) (n / 1024) out) r'
          → Sums map keys (add_usage (key % u32_mod) (n / 1024) out) r
      coe_sums p (d, total) = (
        ap (λ (r : GpuUsage × Bool). r.1) p ∙ d,
        λ pid. ap (λ (r : GpuUsage × Bool). usage_of pid r.0 % u64_mod) p ∙ total pid,
      )

  -- If the BPF map is valid and each of its keys can be read, ReadPerProcessGpuMem succeeds, and gives
  -- each pid the sum over its keys, on all GPUs, of their values in kB, each rounded down (modulo
  -- 2 ^ 64), whatever the output held before.
  pub read_per_process_gpu_mem_lem :
      (out : GpuUsage)
      → map.is_valid ≡ true
      → All (λ (key : ℕ). (n : ℕ) × (map.read_value key ≡ GpuValue.value n)) map.keys
      → Sums map map.keys [] (read_per_process_gpu_mem map out)
  unfolding read_per_process_gpu_mem
  read_per_process_gpu_mem_lem out valid h =
      if_cases (Sums map map.keys []) (not map.is_valid) (λ e. absurd (clash valid e))
        (λ _. gpu_keys_lem map.keys [] h)
    where
      clash : {b : Bool} → b ≡ true → not b ≡ true → ⊥
      clash e e' = ground (arith, e, e')
