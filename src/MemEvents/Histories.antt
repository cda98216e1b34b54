-- ===== src/MemEvents/Histories.antt =====
-- A listener from its construction on: any sequence of calls, on any kinds of events, with libbpf
-- answering differently at each call.
use android_system_memory_li.Common.{
  ℕ, zero, suc, ◌<◌, ◌≡◌, refl, arith, Bool, true, false, List, [], ◌∷◌, ◌++◌, some, get_elem?,
  get_or, length, All, if◌then◌else◌, not, ap, ◌∙◌, sym, Option, none, ◌==◌, ◌↔◌, is_some,
  Bool-cases, inl, inr, if_cases, ==_iff,
}
use android_system_memory_li.MemEvents.{
  Listener, Bpf, new_listener, register_event, deregister_event, deregister_all_events,
  nr_mem_events, MemEvent, keep_registered, keep_if, get_mem_events, append_kept, is_registered, ok,
}
use android_system_memory_li.MemEvents.Invariant.{
  Inv, new_listener-Inv, register_event-Inv, deregister_event-Inv, deregister_all_events-Inv,
}

-- A listener that the constructor returned, or that a call left.
pub data Reach : Listener → Type 0 where
  created :
      (client : ℕ) (tests supported initialized : Bool) {l : Listener}
      → new_listener client tests supported initialized ≡ some l
      → Reach l
  registered : (bpf : Bpf) (e : ℕ) {l : Listener} → Reach l → Reach (register_event bpf l e).0
  deregistered : (bpf : Bpf) (e : ℕ) {l : Listener} → Reach l → Reach (deregister_event bpf l e).0
  deregistered_all : (bpf : Bpf) {l : Listener} → Reach l → Reach (deregister_all_events bpf l)

-- Whatever calls are made, the listener satisfies the invariant: a flag for each kind of event, the
-- count of the set ones, and none set for which the client has no program.
pub Reach-Inv : {l : Listener} → Reach l → Inv l
Reach-Inv (created client tests supported initialized e) =
    new_listener-Inv client tests supported initialized e
Reach-Inv (registered bpf e {l} r) = register_event-Inv bpf l e (Reach-Inv r)
Reach-Inv (deregistered bpf e {l} r) = deregister_event-Inv bpf l e (Reach-Inv r)
Reach-Inv (deregistered_all bpf {l} r) = deregister_all_events-Inv bpf l (Reach-Inv r)

-- The events whose kind is registered, in their order.
abbrev pub delivered : Listener → List MemEvent → List MemEvent
delivered l [] = []
delivered l (e ∷ es) = if is_registered l e.type then e ∷ delivered l es else delivered l es

get_elem?-get_or :
    (bs : List Bool) (i : ℕ) → i < length bs → get_elem? bs i ≡ some (get_or bs i false)
get_elem?-get_or [] i h = elim h [ ]
get_elem?-get_or (b ∷ bs) zero h = refl
get_elem?-get_or (b ∷ bs) (suc i) h = get_elem?-get_or bs i (ground arith)

keep_one :
    (b : Bool) (e : MemEvent) (es : List MemEvent)
    → keep_if (some b) e (some es) ≡ some (if b then e ∷ es else es)
keep_one true e es = refl
keep_one false e es = refl

keep_registered_lem :
    (l : Listener) (es : List MemEvent)
    → length l.events_registered ≡ nr_mem_events
    → All (λ (e : MemEvent). e.type < nr_mem_events) es
    → keep_registered l es ≡ some (delivered l es)
unfolding keep_registered
keep_registered_lem l [] flags h = refl
keep_registered_lem l (e ∷ es) flags (h, hs) =
    ap (λ o. keep_if o e (keep_registered l es))
      (get_elem?-get_or l.events_registered e.type (omega (arith, flags)))
    ∙ ap (keep_if (some (is_registered l e.type)) e) (keep_registered_lem l es flags hs)
    ∙ keep_one (is_registered l e.type) e (delivered l es)

-- The events of kinds that there are flags for.
abbrev pub AreKnown : List MemEvent → Type 0
AreKnown = All (λ (e : MemEvent). e.type < nr_mem_events)

get_elem?-is_some : (bs : List Bool) (i : ℕ) → is_some (get_elem? bs i) ≡ true → i < length bs
get_elem?-is_some [] i h = cc
get_elem?-is_some (b ∷ bs) zero h = omega arith
get_elem?-is_some (b ∷ bs) (suc i) h = omega (arith, get_elem?-is_some bs i h)

keep_if-is_some :
    (flag : Option Bool) (e : MemEvent) (kept : Option (List MemEvent))
    → is_some (keep_if flag e kept) ≡ true
    → (is_some flag ≡ true) × (is_some kept ≡ true)
keep_if-is_some none e kept h = cc
keep_if-is_some (some true) e none h = cc
keep_if-is_some (some false) e none h = cc
keep_if-is_some (some b) e (some es) h = (refl, refl)

keep_registered-AreKnown :
    (l : Listener) (es : List MemEvent)
    → length l.events_registered ≡ nr_mem_events
    → is_some (keep_registered l es) ≡ true
    → AreKnown es
unfolding keep_registered
keep_registered-AreKnown l [] flags h = tt
keep_registered-AreKnown l (e ∷ es) flags h =
    let both = keep_if-is_some (get_elem? l.events_registered e.type) e (keep_registered l es) h in
    (
      omega (arith, flags, get_elem?-is_some l.events_registered e.type both.0),
      keep_registered-AreKnown l es flags both.1,
    )

append_kept-is_some :
    (old : List MemEvent) (consumed : Bool) (kept : Option (List MemEvent))
    → is_some (append_kept old consumed kept) ≡ true
    → is_some kept ≡ true
append_kept-is_some old consumed none h = cc
append_kept-is_some old consumed (some es) h = refl

-- The events of one kind, in their order.
abbrev pub of_kind : ℕ → List MemEvent → List MemEvent
of_kind k [] = []
of_kind k (e ∷ es) = if e.type == k then e ∷ of_kind k es else of_kind k es

of_kind-delivered :
    (l : Listener) (k : ℕ) (es : List MemEvent)
    → of_kind k (delivered l es) ≡ (if is_registered l k then of_kind k es else [])
of_kind-delivered l k [] =
    if_cases (λ (x : List MemEvent). [] ≡ x) (is_registered l k) (λ e. refl) (λ e. refl)
of_kind-delivered l k (e ∷ es) =
    let ih = of_kind-delivered l k es in
    elim (Bool-cases (e.type == k)) [
      | inl same ↦
          let flag : is_registered l e.type ≡ is_registered l k =
            ap (is_registered l) ((==_iff e.type k).0 same) in
          elim (Bool-cases (is_registered l k)) [
            | inl on ↦ rw (flag ∙ on, same, ih, on) refl
            | inr off ↦ rw (flag ∙ off, ih, off) refl
          ]
      | inr other ↦ elim (Bool-cases (is_registered l e.type)) [
        | inl on ↦ rw (on, other, ih) refl
        | inr off ↦ rw (off, other, ih) refl
      ]
    ]

-- However a usable listener came about, getMemEvents is defined (it reads no flag out of bounds)
-- exactly where the kinds of all events in the ring buffer are below NR_MEM_EVENTS. It then appends
-- to the vector the events of each registered kind, in their order, and none of the other kinds, and
-- returns what ConsumeAll reported.
pub get_mem_events_lem :
    {l : Listener} (messages old : List MemEvent) (consumed : Bool)
    → Reach l
    → ok l ≡ true
    → let r = get_mem_events (messages, consumed) l old in
      ((is_some r ≡ true) ↔ AreKnown messages)
      × ((r ≡ some (old ++ delivered l messages, consumed)) ↔ AreKnown messages)
      × ((k : ℕ)
          → of_kind k (delivered l messages)
            ≡ (if is_registered l k then of_kind k messages else []))
unfolding get_mem_events
get_mem_events_lem {l} messages old consumed r is_ok =
    let flags = (Reach-Inv r).flags in
    let opened : get_mem_events (messages, consumed) l old
        ≡ append_kept old consumed (keep_registered l messages) =
      ap
        (λ b.
          if not b
          then some (old, false)
          else append_kept old consumed (keep_registered l messages))
        is_ok in
    let known : is_some (get_mem_events (messages, consumed) l old) ≡ true → AreKnown messages =
      λ h. keep_registered-AreKnown l messages flags (
        append_kept-is_some old consumed (keep_registered l messages)
          (ap is_some (sym opened) ∙ h)) in
    let appended : AreKnown messages
        → get_mem_events (messages, consumed) l old ≡ some (old ++ delivered l messages, consumed) =
      λ h. opened ∙ ap (append_kept old consumed) (keep_registered_lem l messages flags h) in
    (
      (known, λ h. ap is_some (appended h)),
      (λ h. known (ap is_some h), appended),
      λ k. of_kind-delivered l k messages,
    )
