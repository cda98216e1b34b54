-- ===== src/Heaps/Sums.antt =====
-- The sums that androidprocheaps.cpp keeps over the heaps.
use android_system_memory_li.Common.{
  ℕ, zero, suc, ◌+◌, ◌%◌, ◌<◌, ◌≡◌, refl, sym, ap, ◌∙◌, arith, Bool, true, false, List, ◌==◌,
  if◌then◌else◌, get_or, get_or-set, length-set, length, u32_mod,
}
use android_system_memory_li.Heaps.{
  AndroidHeapStats, no_heap, add_int, add_heap, add_at, has_sub_heap,
}
use android_system_memory_li.Heaps.Names.{
  Place, num_heap, num_exclusive_heap, heap_dalvik, heap_dalvik_normal, heap_dalvik_other,
  heap_dalvik_other_linearalloc, heap_dex, heap_dex_boot_vdex, heap_art, heap_art_app,
}
use android_system_memory_li.Heaps.Places.{is_place, within}
use android_system_memory_li.ProcMem.Usage.{MemUsage}

-- The fields of AndroidHeapStats, less swappablePss, which no line of smaps gives.
pub data Field : Type 0 where
  pss rss private_dirty shared_dirty private_clean shared_clean swapped_out swapped_out_pss : Field

abbrev pub field : Field → AndroidHeapStats → ℕ
field Field.pss s = s.pss
field Field.rss s = s.rss
field Field.private_dirty s = s.private_dirty
field Field.shared_dirty s = s.shared_dirty
field Field.private_clean s = s.private_clean
field Field.shared_clean s = s.shared_clean
field Field.swapped_out s = s.swapped_out
field Field.swapped_out_pss s = s.swapped_out_pss

-- What of a mapping's usage goes to the field.
abbrev pub amount : Field → MemUsage → ℕ
amount Field.pss u = u.pss
amount Field.rss u = u.rss
amount Field.private_dirty u = u.private_dirty
amount Field.shared_dirty u = u.shared_dirty
amount Field.private_clean u = u.private_clean
amount Field.shared_clean u = u.shared_clean
amount Field.swapped_out u = u.swap
amount Field.swapped_out_pss u = u.swap_pss

-- The field of one heap, and its sum over `n` heaps from `low` on.
abbrev pub at_heap : Field → List AndroidHeapStats → ℕ → ℕ
at_heap f stats heap = field f (get_or stats heap no_heap)

abbrev pub over_heaps : Field → List AndroidHeapStats → ℕ → ℕ → ℕ
over_heaps f stats low zero = 0
over_heaps f stats low (suc n) = at_heap f stats low + over_heaps f stats (low + 1) n

field-add_heap :
    (f : Field) (u : MemUsage) (n : ℕ) (s : AndroidHeapStats)
    → field f (add_heap u n s) ≡ add_int (field f s) (amount f u)
unfolding add_heap
field-add_heap Field.pss u n s = refl
field-add_heap Field.rss u n s = refl
field-add_heap Field.private_dirty u n s = refl
field-add_heap Field.shared_dirty u n s = refl
field-add_heap Field.private_clean u n s = refl
field-add_heap Field.shared_clean u n s = refl
field-add_heap Field.swapped_out u n s = refl
field-add_heap Field.swapped_out_pss u n s = refl

none_within : (low heap : ℕ) → false ≡ within low (low + 0) heap
none_within low heap = ground arith

apart : true ≡ false → ⊥
apart e = cc

-- One more heap in front of a sum.
one_more :
    (a x a' r r' : ℕ) (b c d : Bool)
    → a' ≡ (if b then add_int a x else a)
    → r' % u32_mod ≡ (r + (if c then x else 0)) % u32_mod
    → (b ≡ true → (c ≡ false) × (d ≡ true))
    → (b ≡ false → c ≡ d)
    → (a' + r') % u32_mod ≡ (a + r + (if d then x else 0)) % u32_mod
one_more a x a' r r' true true d e e' h i = absurd (apart (h refl).0)
one_more a x a' r r' true false true e e' h i = omega (arith, e, e')
one_more a x a' r r' true false false e e' h i = absurd (apart (sym (h refl).1))
one_more a x a' r r' false true true e e' h i = omega (arith, e, e')
one_more a x a' r r' false true false e e' h i = absurd (apart (i refl))
one_more a x a' r r' false false true e e' h i = absurd (apart (sym (i refl)))
one_more a x a' r r' false false false e e' h i = omega (arith, e, e')

module _ (u : MemUsage) (n : ℕ) (heap : ℕ) (stats : List AndroidHeapStats)
    (h : heap < length stats) where
  at_heap-add_at :
      (f : Field) (j : ℕ)
      → at_heap f (add_at u n heap stats) j
        ≡ (if heap == j then add_int (at_heap f stats j) (amount f u) else at_heap f stats j)
  unfolding add_at
  at_heap-add_at f j =
      ap (field f) (get_or-set stats heap j (add_heap u n (get_or stats heap no_heap)) no_heap h)
      ∙ if_field (heap == j) (λ e. ground (arith, e))
    where
      if_field :
          (b : Bool)
          → (b ≡ true → heap ≡ j)
          → field f (if b then add_heap u n (get_or stats heap no_heap) else get_or stats j no_heap)
            ≡ (if b then add_int (at_heap f stats j) (amount f u) else at_heap f stats j)
      if_field true e =
          field-add_heap f u n (get_or stats heap no_heap)
          ∙ ap (λ k. add_int (at_heap f stats k) (amount f u)) (e refl)
      if_field false e = refl

  pub over_heaps-add_at :
      (f : Field) (low k : ℕ)
      → over_heaps f (add_at u n heap stats) low k % u32_mod
        ≡ (over_heaps f stats low k + (if within low (low + k) heap then amount f u else 0))
          % u32_mod
  over_heaps-add_at f low zero =
      ap (λ (b : Bool). (0 + (if b then amount f u else 0)) % u32_mod) (none_within low heap)
  over_heaps-add_at f low (suc k) =
      one_more (at_heap f stats low) (amount f u) (at_heap f (add_at u n heap stats) low)
        (over_heaps f stats (low + 1) k) (over_heaps f (add_at u n heap stats) (low + 1) k)
        (heap == low) (within (low + 1) (low + 1 + k) heap) (within low (low + suc k) heap)
        (at_heap-add_at f low) (over_heaps-add_at f (low + 1) k) (λ e. ground (arith, e))
        (λ e. ground (arith, e))

abbrev pub in_range : ℕ → ℕ → ℕ → ℕ → ℕ
in_range low k heap x = if within low (low + k) heap then x else 0

-- Each heap that is split has, in every field, the sum of its parts (as 32-bit words).
pub record AreParts (stats : List AndroidHeapStats) : Type 0 where
  pub size : length stats ≡ num_heap
  pub dalvik :
      (f : Field)
      → at_heap f stats heap_dalvik % u32_mod ≡ over_heaps f stats heap_dalvik_normal 4 % u32_mod
  pub dalvik_other :
      (f : Field)
      → at_heap f stats heap_dalvik_other % u32_mod
        ≡ over_heaps f stats heap_dalvik_other_linearalloc 6 % u32_mod
  pub dex :
      (f : Field)
      → at_heap f stats heap_dex % u32_mod ≡ over_heaps f stats heap_dex_boot_vdex 3 % u32_mod
  pub art :
      (f : Field) → at_heap f stats heap_art % u32_mod ≡ over_heaps f stats heap_art_app 2 % u32_mod

pub length-add_at :
    (u : MemUsage) (n heap : ℕ) (stats : List AndroidHeapStats)
    → length (add_at u n heap stats) ≡ length stats
unfolding add_at
length-add_at u n heap stats = length-set stats heap _

-- What a part's sum gets when a mapping is added to its heap and to the part.
module _ (u : MemUsage) (n heap sub : ℕ) (stats : List AndroidHeapStats)
    (size : length stats ≡ num_heap) where
  pub two_adds :
      (f : Field) (low k : ℕ)
      → heap < num_heap
      → sub < num_heap
      → over_heaps f (add_at u n sub (add_at u n heap stats)) low k % u32_mod
        ≡ (over_heaps f stats low k
            + in_range low k heap (amount f u)
            + in_range low k sub (amount f u))
          % u32_mod
  two_adds f low k h i = omega (
    arith,
    over_heaps-add_at u n sub (add_at u n heap stats)
        (omega (arith, length-add_at u n heap stats, size)) f low k,
    over_heaps-add_at u n heap stats (omega (arith, size)) f low k,
  )

-- What a mapping at a place adds to the sum over a range of heaps.
abbrev pub added : ℕ → ℕ → Place → ℕ → ℕ
added low k p x =
    in_range low k p.which_heap x
    + (if has_sub_heap p.which_heap then in_range low k p.sub_heap x else 0)

pub added_dalvik :
    (p : Place) (x : ℕ)
    → is_place p ≡ true
    → added heap_dalvik 1 p x ≡ added heap_dalvik_normal 4 p x
added_dalvik p x h = ground arith

pub added_dalvik_other :
    (p : Place) (x : ℕ)
    → is_place p ≡ true
    → added heap_dalvik_other 1 p x ≡ added heap_dalvik_other_linearalloc 6 p x
added_dalvik_other p x h = ground arith

pub added_dex :
    (p : Place) (x : ℕ) → is_place p ≡ true → added heap_dex 1 p x ≡ added heap_dex_boot_vdex 3 p x
added_dex p x h = ground arith

pub added_art :
    (p : Place) (x : ℕ) → is_place p ≡ true → added heap_art 1 p x ≡ added heap_art_app 2 p x
added_art p x h = ground arith

pub added_exclusive : (p : Place) (x : ℕ) → is_place p ≡ true → added 0 num_exclusive_heap p x ≡ x
added_exclusive p x h = ground arith

pub in_bounds :
    (p : Place) → is_place p ≡ true → (p.which_heap < num_heap) × (p.sub_heap < num_heap)
in_bounds p h = (ground arith, ground arith)
