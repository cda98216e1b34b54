-- ===== src/Dmabuf/Refs.antt =====
-- The references of the buffers that the readers of dmabufinfo.cpp return.
use android_system_memory_li.Common.{
  ℕ, ◌+◌, ◌<◌, ◌%◌, ◌≡◌, ◌≢◌, refl, sym, ◌∙◌, arith, Bool, false, ◌||◌, List, [], ◌∷◌, ◌==◌,
  if_cases, All, length, u64_mod,
}
use android_system_memory_li.Dmabuf.{
  DmaBuffer, PidMap, dma_buffer, add_ref, insert_pid, add_fd_ref, add_map_ref,
}
use android_system_memory_li.Dmabuf.Procfs.{FdInfo, find_or_add, complete}
use android_system_memory_li.Text.{Bytes}

-- The references of a map, those of all its processes together.
abbrev pub refs_in : PidMap → ℕ
refs_in [] = 0
refs_in ((p, n) ∷ m) = n + refs_in m

abbrev pub has_pid : ℕ → PidMap → Bool
has_pid pid [] = false
has_pid pid ((p, n) ∷ m) = p == pid || has_pid pid m

abbrev pub is_member : ℕ → List ℕ → Bool
is_member pid [] = false
is_member pid (p ∷ ps) = p == pid || is_member pid ps

abbrev pub refs_of : DmaBuffer → ℕ
refs_of b = refs_in b.fdrefs + refs_in b.maprefs

pub refs_in-add_ref : (pid : ℕ) (m : PidMap) → refs_in (add_ref pid m) ≡ refs_in m + 1
unfolding add_ref
refs_in-add_ref pid [] = refl
refs_in-add_ref pid ((p, n) ∷ m) = ground (arith, refs_in-add_ref pid m)

pub has_pid-add_ref :
    (q pid : ℕ) (m : PidMap) → has_pid q (add_ref pid m) ≡ (pid == q || has_pid q m)
unfolding add_ref
has_pid-add_ref q pid [] = ground arith
has_pid-add_ref q pid ((p, n) ∷ m) = ground (arith, has_pid-add_ref q pid m)

pub is_member-insert_pid :
    (q pid : ℕ) (ps : List ℕ) → is_member q (insert_pid pid ps) ≡ (pid == q || is_member q ps)
unfolding insert_pid
is_member-insert_pid q pid [] = ground arith
is_member-insert_pid q pid (p ∷ ps) = ground (arith, is_member-insert_pid q pid ps)

insert_pid-nonempty : (pid : ℕ) (ps : List ℕ) → 0 < length (insert_pid pid ps)
unfolding insert_pid
insert_pid-nonempty pid [] = omega arith
insert_pid-nonempty pid (p ∷ ps) = ground arith

-- total_refs is the number of references in the two maps, and pids are their processes.
pub record IsCounted (b : DmaBuffer) : Type 0 where
  pub total : b.total_refs ≡ refs_of b % u64_mod
  pub known : (pid : ℕ) → is_member pid b.pids ≡ (has_pid pid b.fdrefs || has_pid pid b.maprefs)

pub record IsTracked (b : DmaBuffer) : Type 0 where
  pub counts : IsCounted b
  pub held : 0 < length b.pids

pub dma_buffer-IsCounted :
    (inode size count : ℕ) (exporter name : Bytes)
    → IsCounted (dma_buffer inode size count exporter name)
unfolding dma_buffer
dma_buffer-IsCounted inode size count exporter name = record { total = refl; known = λ pid. refl }

pub complete-IsCounted : (i : FdInfo) (b : DmaBuffer) → IsCounted b → IsCounted (complete i b)
unfolding complete
complete-IsCounted i b c = record { total = c.total; known = c.known }

pub add_fd_ref-IsTracked : (pid : ℕ) (b : DmaBuffer) → IsCounted b → IsTracked (add_fd_ref pid b)
unfolding add_fd_ref
add_fd_ref-IsTracked pid b c = record {
  counts = record {
    total = omega (arith, c.total, refs_in-add_ref pid b.fdrefs);
    known = λ q.
        ground
          (arith, c.known q, is_member-insert_pid q pid b.pids, has_pid-add_ref q pid b.fdrefs);
  };
  held = insert_pid-nonempty pid b.pids;
}

pub add_map_ref-IsTracked : (pid : ℕ) (b : DmaBuffer) → IsCounted b → IsTracked (add_map_ref pid b)
unfolding add_map_ref
add_map_ref-IsTracked pid b c = record {
  counts = record {
    total = omega (arith, c.total, refs_in-add_ref pid b.maprefs);
    known = λ q.
        ground
          (arith, c.known q, is_member-insert_pid q pid b.pids, has_pid-add_ref q pid b.maprefs);
  };
  held = insert_pid-nonempty pid b.pids;
}

-- No two buffers have the same inode.
abbrev pub Once : List DmaBuffer → Type 0
Once [] = Unit
Once (b ∷ bs) = All (λ (c : DmaBuffer). c.inode ≢ b.inode) bs × Once bs

module _ (inode : ℕ) (change : DmaBuffer → DmaBuffer) (new : DmaBuffer) where
  pub All-find_or_add :
      (P : DmaBuffer → Type 0) (bufs : List DmaBuffer)
      → ((b : DmaBuffer) → b.inode ≡ inode → P b → P (change b))
      → P new
      → All P bufs
      → All P (find_or_add inode change new bufs)
  unfolding find_or_add
  All-find_or_add P [] step here all = (here, tt)
  All-find_or_add P (b ∷ bs) step here (p, ps) =
      if_cases (All P) (b.inode == inode) (λ e. (step b (ground arith) p, ps))
        (λ _. (p, All-find_or_add P bs step here ps))

  pub find_or_add-Once :
      (bufs : List DmaBuffer)
      → ((b : DmaBuffer) → (change b).inode ≡ b.inode)
      → new.inode ≡ inode
      → Once bufs
      → Once (find_or_add inode change new bufs)
  unfolding find_or_add
  find_or_add-Once [] keep e once = (tt, tt)
  find_or_add-Once (b ∷ bs) keep e (other, once) =
      if_cases Once (b.inode == inode) (λ _. (coe_other (sym (keep b)) bs other, once))
        (λ ne. (
          All-find_or_add (λ (c : DmaBuffer). c.inode ≢ b.inode) bs
              (λ c _ d. λ eq. d (sym (keep c) ∙ eq)) (λ eq. ground (arith, ne, eq, e)) other,
          find_or_add-Once bs keep e once,
        ))
    where
      coe_other :
          {i j : ℕ}
          → i ≡ j
          → (bs : List DmaBuffer) → All (λ (c : DmaBuffer). c.inode ≢ i) bs
          → All (λ (c : DmaBuffer). c.inode ≢ j) bs
      coe_other e' [] h = tt
      coe_other e' (c ∷ cs) (h, hs) = (λ eq. h (eq ∙ sym e'), coe_other e' cs hs)
