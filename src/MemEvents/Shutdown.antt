-- ===== src/MemEvents/Shutdown.antt =====
-- deregisterAllEvents, which the destructor calls too.
use android_system_memory_li.Common.{
  ℕ, zero, suc, ◌+◌, ◌<◌, ◌≤◌, ◌≡◌, refl, arith, Bool, true, false, not, ◌&&◌, ◌||◌, List, [], ◌∷◌,
  Option, none, some, get_or, length, ◌==◌, Bool-cases, inl, inr, ltb, if_cases, ◌∙◌,
}
use android_system_memory_li.MemEvents.{
  Listener, Attachment, Bpf, find_attachment, is_registered, skips_bpf, deregister_event,
  deregister_from, deregister_all_events, nr_mem_events, detach, ok, is_valid_event_type,
}
use android_system_memory_li.MemEvents.Invariant.{
  Inv, count_set, is_some, deregister_event-Inv, deregister_from-Inv,
}
use android_system_memory_li.MemEvents.Operations.{
  Sets, can_detach, deregisters, deregister_event_lem,
}

none_set→count : (bs : List Bool) → ((j : ℕ) → get_or bs j false ≡ false) → count_set bs ≡ 0
none_set→count [] h = refl
none_set→count (b ∷ bs) h = ground (arith, h 0, none_set→count bs (λ j. h (suc j)))

count→none_set : (bs : List Bool) → count_set bs ≡ 0 → (j : ℕ) → get_or bs j false ≡ false
count→none_set [] h j = refl
count→none_set (b ∷ bs) h zero = ground arith
count→none_set (b ∷ bs) h (suc j) = count→none_set bs (ground arith) j

beyond : (bs : List Bool) (j : ℕ) → length bs ≤ j → get_or bs j false ≡ false
beyond [] j h = refl
beyond (b ∷ bs) zero h = elim h [ ]
beyond (b ∷ bs) (suc j) h = beyond bs j (omega arith)

abbrev SameOk : Listener → Listener × Bool → Type 0
SameOk l (l', done) = ok l' ≡ ok l

all_three : (a b : Bool) {c : Bool} → a ≡ true → b ≡ true → c ≡ true → a && b && c ≡ true
all_three true true h i k = k
all_three true false h i k = cc
all_three false b h i k = cc

or_three : (r k d : Bool) → (r ≡ true → k ≡ false → d ≡ true) → not r || k || d ≡ true
or_three false k d h = refl
or_three true true d h = refl
or_three true false d h = h refl refl

cleared_after :
    (l : Listener) (i : ℕ) {want : Bool} (r : Listener × Bool)
    → Sets l i false want r
    → want ≡ true
    → ((j : ℕ) → j < i → is_registered l j ≡ false)
    → (j : ℕ) → j < i + 1
    → is_registered r.0 j ≡ false
cleared_after l i (l', done) (a, b, c) w before j h = ground (arith, a, w, b j, before j)

module _ (bpf : Bpf) (detaches : (a : Attachment) → bpf.detach_tracepoint a ≡ true) where
  detach-ok : (l : Listener) (e : ℕ) (o : Option Attachment) → SameOk l (detach bpf l e o)
  detach-ok l e none = refl
  detach-ok l e (some a) =
      if_cases (SameOk l) (not (bpf.detach_tracepoint a)) (λ _. refl) (λ _. refl)

  deregister_event-ok : (l : Listener) (e : ℕ) → SameOk l (deregister_event bpf l e)
  unfolding deregister_event
  deregister_event-ok l e =
      if_cases (SameOk l) (not (ok l)) (λ _. refl)
        λ _.
          if_cases (SameOk l) (not (is_valid_event_type e)) (λ _. refl)
            λ _.
              if_cases (SameOk l) (not (is_registered l e)) (λ _. refl)
                λ _.
                  if_cases (SameOk l) (skips_bpf l) (λ _. refl)
                    (λ _. detach-ok l e (find_attachment e l.client))

  can_detach_some : (o : Option Attachment) → is_some o ≡ true → can_detach bpf o ≡ true
  can_detach_some none h = cc
  can_detach_some (some a) h = detaches a

  succeeds :
      (l : Listener) (e : ℕ) → Inv l → ok l ≡ true → e < nr_mem_events → deregisters bpf l e ≡ true
  succeeds l e v is_ok h = all_three (ok l) (is_valid_event_type e) is_ok (ground arith) (
      or_three (is_registered l e) (skips_bpf l) _
        (λ on no_skip. can_detach_some (find_attachment e l.client) (v.supported e on no_skip)))

  cleared_one :
      (l : Listener) (i : ℕ)
      → Inv l
      → ok l ≡ true
      → i < nr_mem_events
      → ((j : ℕ) → j < i → is_registered l j ≡ false)
      → (j : ℕ) → j < i + 1
      → is_registered (deregister_event bpf l i).0 j ≡ false
  cleared_one l i v is_ok h before j jh =
      cleared_after l i (deregister_event bpf l i) (deregister_event_lem bpf l i v.flags)
        (succeeds l i v is_ok h) before j jh

  all_cleared :
      (rounds i : ℕ) (l : Listener)
      → Inv l
      → ok l ≡ true
      → rounds + i ≡ nr_mem_events
      → ((j : ℕ) → j < i → is_registered l j ≡ false)
      → (j : ℕ) → j < nr_mem_events
      → is_registered (deregister_from bpf rounds i l) j ≡ false
  unfolding deregister_from
  all_cleared zero i l v is_ok total before = λ j h. before j (omega arith)
  all_cleared (suc rounds) i l v is_ok total before =
      if_cases
        (λ l'.
          (j : ℕ)
          → j < nr_mem_events
          → is_registered (deregister_from bpf rounds (i + 1) l') j ≡ false)
        (is_registered l i)
        (λ on.
          all_cleared rounds (i + 1) (deregister_event bpf l i).0 (deregister_event-Inv bpf l i v)
            (deregister_event-ok l i ∙ is_ok) (omega arith)
            (cleared_one l i v is_ok (omega arith) before))
        (λ off.
          all_cleared rounds (i + 1) l v is_ok (omega arith) (λ j h. ground (arith, before j, off)))

  all_unset :
      (l : Listener)
      → Inv l
      → ((j : ℕ) → j < nr_mem_events → is_registered l j ≡ false)
      → (l.num_events_registered ≡ 0) × ((j : ℕ) → is_registered l j ≡ false)
  all_unset l v below = (omega (arith, v.counted, none_set→count l.events_registered every), every)
    where
      every : (j : ℕ) → get_or l.events_registered j false ≡ false
      every j = elim (Bool-cases (ltb j nr_mem_events)) [
        | inl h ↦ below j (ground arith)
        | inr h ↦ beyond l.events_registered j (ground (arith, v.flags))
      ]

  abbrev Shut : Listener → Type 0
  Shut l = (l.num_events_registered ≡ 0) × ((j : ℕ) → is_registered l j ≡ false)

  -- If every program can be detached, deregisterAllEvents on a usable listener that satisfies the
  -- invariant leaves no event registered and the count at 0.
  pub deregister_all_events_lem :
      (l : Listener)
      → Inv l
      → ok l ≡ true
      → (deregister_all_events bpf l).num_events_registered ≡ 0
        × ((j : ℕ) → is_registered (deregister_all_events bpf l) j ≡ false)
  unfolding deregister_all_events
  deregister_all_events_lem l v is_ok =
      if_cases Shut (not (ok l)) (λ h. absurd (clash is_ok h))
        λ _.
          if_cases Shut (l.num_events_registered == 0)
            (λ h. (
              ground (arith, h),
              count→none_set l.events_registered (ground (arith, h, v.counted)),
            ))
            (λ _.
              all_unset (deregister_from bpf nr_mem_events 0 l)
                (deregister_from-Inv bpf nr_mem_events 0 l v)
                (all_cleared nr_mem_events 0 l v is_ok refl (λ j h. elim h [ ])))
    where
      clash : {b : Bool} → b ≡ true → not b ≡ true → ⊥
      clash e h = ground (arith, e, h)
