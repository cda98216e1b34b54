-- ===== src/Dmabuf/Totals.antt =====
-- The sums of dmabuf_sysfs_stats.cpp.
use android_system_memory_li.Common.{
  ℕ, ◌+◌, ◌/◌, ◌%◌, ◌≡◌, refl, sym, ap, ◌∙◌, arith, Bool, true, false, List, [], ◌∷◌, Option, none,
  some, if_cases, if_both, length, length-append, sum_by, sum_by-append, add64, u64_mod, u32_mod,
}
use android_system_memory_li.Dmabuf.{AndroidBase}
use android_system_memory_li.Dmabuf.Sysfs.{
  BufferDir, DmabufInfo, DmabufTotal, DmabufSysfsStats, no_stats, add_total, add_exporter,
  add_buffer, is_dot, read_entry, info_of, read_uint_from_file, sysfs_entries,
  get_dmabuf_sysfs_stats, sum_sizes, in_kb, get_dmabuf_total_exported_kb,
}
use android_system_memory_li.Text.{Bytes, text_eq}

abbrev pub size_of : DmabufInfo → ℕ
size_of i = i.size

-- The sum of the sizes of the exporters, and of their counts.
abbrev pub exporter_size : Bytes × DmabufTotal → ℕ
exporter_size (e, t) = t.size

abbrev pub exporter_count : Bytes × DmabufTotal → ℕ
exporter_count (e, t) = t.buffer_count

-- The totals are those of the buffers listed, and those of the exporters together: sizes modulo
-- 2 ^ 64, counts modulo 2 ^ 32.
pub record IsSummed (s : DmabufSysfsStats) : Type 0 where
  pub size : s.total.size ≡ sum_by size_of s.buffer_stats % u64_mod
  pub count : s.total.buffer_count ≡ length s.buffer_stats % u32_mod
  pub exporters_size : sum_by exporter_size s.exporter_info % u64_mod ≡ s.total.size
  pub exporters_count : sum_by exporter_count s.exporter_info % u32_mod ≡ s.total.buffer_count

add_exporter-size :
    (e : Bytes) (n : ℕ) (m : List (Bytes × DmabufTotal))
    → sum_by exporter_size (add_exporter e n m) % u64_mod ≡ (sum_by exporter_size m + n) % u64_mod
unfolding add_exporter add_total
add_exporter-size e n [] = ap (λ x. x % u64_mod) (omega arith)
add_exporter-size e n ((f, t) ∷ m) =
    if_cases
      (λ m'. sum_by exporter_size m' % u64_mod ≡ (t.size + sum_by exporter_size m + n) % u64_mod)
      (text_eq f e) (λ _. omega arith) (λ _. omega (arith, add_exporter-size e n m))

add_exporter-count :
    (e : Bytes) (n : ℕ) (m : List (Bytes × DmabufTotal))
    → sum_by exporter_count (add_exporter e n m) % u32_mod ≡ (sum_by exporter_count m + 1) % u32_mod
unfolding add_exporter add_total
add_exporter-count e n [] = refl
add_exporter-count e n ((f, t) ∷ m) =
    if_cases
      (λ m'.
        sum_by exporter_count m' % u32_mod
        ≡ (t.buffer_count + sum_by exporter_count m + 1) % u32_mod)
      (text_eq f e) (λ _. omega arith) (λ _. omega (arith, add_exporter-count e n m))

add_buffer-IsSummed :
    (i : DmabufInfo) (s : DmabufSysfsStats) → IsSummed s → IsSummed (add_buffer i s)
unfolding add_buffer add_total
add_buffer-IsSummed i s h = record {
  size = omega (arith, h.size, sum_by-append size_of s.buffer_stats (i ∷ []));
  count = omega (arith, h.count, length-append s.buffer_stats (i ∷ []));
  exporters_size =
      omega (arith, h.exporters_size, add_exporter-size i.exp_name i.size s.exporter_info);
  exporters_count =
      omega (arith, h.exporters_count, add_exporter-count i.exp_name i.size s.exporter_info);
}

abbrev SummedAfter : DmabufSysfsStats × Bool → Type 0
SummedAfter (s, done) = IsSummed s

module _ (base : AndroidBase) where
  sysfs_entries-IsSummed :
      (ds : List BufferDir) (s : DmabufSysfsStats)
      → IsSummed s
      → SummedAfter (sysfs_entries base ds s)
  unfolding sysfs_entries
  sysfs_entries-IsSummed [] s h = h
  sysfs_entries-IsSummed (d ∷ ds) s h =
      if_cases SummedAfter (is_dot d.dir_name) (λ _. sysfs_entries-IsSummed ds s h)
        (λ _.
          entry (read_entry base d)
            (λ i. sysfs_entries-IsSummed ds (add_buffer i s) (add_buffer-IsSummed i s h)))
    where
      entry :
          (o : Option DmabufInfo)
          → ((i : DmabufInfo) → SummedAfter (sysfs_entries base ds (add_buffer i s)))
          → SummedAfter
              (elim o [ none ↦ (s, false) | some i ↦ sysfs_entries base ds (add_buffer i s) ])
      entry none k = h
      entry (some i) k = k i

  -- Whenever the directory opens, GetDmabufSysfsStats leaves statistics whose totals agree with the
  -- buffers listed and with the exporters together, also where it gives up at an entry.
  pub get_dmabuf_sysfs_stats-IsSummed :
      (ds : List BufferDir) (s : DmabufSysfsStats)
      → IsSummed (get_dmabuf_sysfs_stats base (some ds) s).0
  unfolding get_dmabuf_sysfs_stats
  get_dmabuf_sysfs_stats-IsSummed ds s =
      sysfs_entries-IsSummed ds no_stats
        (record { size = refl; count = refl; exporters_size = refl; exporters_count = refl })

  -- If the statistics were read, the sum of the sizes was too, and is their total.
  abbrev Agree : DmabufSysfsStats × Bool → ℕ × Bool → Type 0
  Agree (s, done) (n, done') = done ≡ true → (done' ≡ true) × (n ≡ s.total.size)

  add_buffer-size :
      (i : DmabufInfo) (s : DmabufSysfsStats)
      → (add_buffer i s).total.size ≡ add64 s.total.size i.size
  unfolding add_buffer add_total
  add_buffer-size i s = refl

  entries-Agree :
      (ds : List BufferDir) (s : DmabufSysfsStats) (n : ℕ)
      → n ≡ s.total.size
      → Agree (sysfs_entries base ds s) (sum_sizes base ds n)
  unfolding sysfs_entries sum_sizes read_entry
  entries-Agree [] s n e = λ _. (refl, e)
  entries-Agree (d ∷ ds) s n e = if_both Agree (is_dot d.dir_name) (entries-Agree ds s n e) (
      entry (base.parse_uint d.dir_name) d.exporter_name (read_uint_from_file base d.size) (λ i.
        entries-Agree ds (add_buffer i s) (add64 n i.size)
          (ap (λ x. add64 x i.size) e ∙ sym (add_buffer-size i s))))
    where
      entry :
          (inode : Option ℕ) (exporter : Option Bytes) (size : Option ℕ)
          → ((i : DmabufInfo)
              → Agree (sysfs_entries base ds (add_buffer i s)) (sum_sizes base ds (add64 n i.size)))
          → Agree
              (elim (info_of base inode exporter size) [
                | none ↦ (s, false)
                | some i ↦ sysfs_entries base ds (add_buffer i s)
              ])
              (elim size [ none ↦ (n, false) | some size' ↦ sum_sizes base ds (add64 n size') ])
      entry none exporter size k = λ f. cc
      entry (some inode) none size k = λ f. cc
      entry (some inode) (some exporter) none k = λ f. cc
      entry (some inode) (some exporter) (some size) k =
          k (record { inode = inode; exp_name = base.trim exporter; size = size })

  in_kb-Agree :
      (r : DmabufSysfsStats × Bool) (q : ℕ × Bool)
      → Agree r q
      → r.1 ≡ true
      → in_kb base q ≡ (r.0.total.size / 1024, true)
  in_kb-Agree (s, done) (n, true) a h = ap (λ x. (x / 1024, true)) (a h).1
  in_kb-Agree (s, done) (n, false) a h = absurd (clash (a h).0)
    where
      clash : false ≡ true → ⊥
      clash e = cc

  -- Whenever GetDmabufSysfsStats succeeds, so does GetDmabufTotalExportedKb on the same directory,
  -- and gives the total size of those statistics in kB.
  pub get_dmabuf_total_exported_kb_lem :
      (ds : List BufferDir) (s : DmabufSysfsStats) (old : ℕ)
      → (get_dmabuf_sysfs_stats base (some ds) s).1 ≡ true
      → get_dmabuf_total_exported_kb base (some ds) old
        ≡ ((get_dmabuf_sysfs_stats base (some ds) s).0.total.size / 1024, true)
  unfolding get_dmabuf_sysfs_stats get_dmabuf_total_exported_kb
  get_dmabuf_total_exported_kb_lem ds s old h =
      in_kb-Agree (sysfs_entries base ds no_stats) (sum_sizes base ds 0)
        (entries-Agree ds no_stats 0 refl) h
