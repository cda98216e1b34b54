-- ===== src/MemEvents/Invariant.antt =====
-- What holds of a listener between two calls.
use android_system_memory_li.Common.{
  ℕ, zero, suc, ◌+◌, ◌<◌, ◌≡◌, refl, arith, Bool, true, false, not, ◌&&◌, List, [], ◌∷◌, Option,
  none, some, get_or, set, replicate, length, ◌==◌, ltb, if◌then◌else◌, if_cases,
}
use android_system_memory_li.MemEvents.{
  Listener, Attachment, Bpf, Client, find_attachment, new_listener, is_registered, skips_bpf,
  register_event, deregister_event, deregister_from, deregister_all_events, nr_mem_events,
  mark_registered, mark_deregistered, attach, detach, ok, is_valid_event_type, client_of, is_test,
}

-- How many flags are set.
abbrev pub count_set : List Bool → ℕ
count_set [] = 0
count_set (b ∷ bs) = (if b then 1 else 0) + count_set bs

count_set-set-true :
    (bs : List Bool) (i : ℕ)
    → i < length bs
    → get_or bs i false ≡ false
    → count_set (set bs i true) ≡ count_set bs + 1
count_set-set-true [] i h e = elim h [ ]
count_set-set-true (b ∷ bs) zero h e = ground arith
count_set-set-true (b ∷ bs) (suc i) h e = omega (arith, count_set-set-true bs i (omega arith) e)

count_set-set-false :
    (bs : List Bool) (i : ℕ)
    → get_or bs i false ≡ true
    → count_set bs ≡ count_set (set bs i false) + 1
count_set-set-false [] i e = cc
count_set-set-false (b ∷ bs) zero e = ground arith
count_set-set-false (b ∷ bs) (suc i) e = omega (arith, count_set-set-false bs i e)

length-set : (bs : List Bool) (i : ℕ) (b : Bool) → length (set bs i b) ≡ length bs
length-set [] i b = refl
length-set (x ∷ bs) zero b = refl
length-set (x ∷ bs) (suc i) b = omega (arith, length-set bs i b)

pub get_or-set :
    (bs : List Bool) (i j : ℕ) (b : Bool)
    → i < length bs
    → get_or (set bs i b) j false ≡ (if i == j then b else get_or bs j false)
get_or-set [] i j b h = elim h [ ]
get_or-set (x ∷ bs) zero zero b h = refl
get_or-set (x ∷ bs) zero (suc j) b h = ground arith
get_or-set (x ∷ bs) (suc i) zero b h = ground arith
get_or-set (x ∷ bs) (suc i) (suc j) b h = ground (arith, get_or-set bs i j b)

abbrev pub is_some {ℓ} : {A : Type ℓ} → Option A → Bool
is_some none = false
is_some (some a) = true

-- There is a flag for each kind of event, the count is that of the flags set, and a client is
-- registered only to kinds that it has a program for (a test instance that does not attach: to any).
pub record Inv (l : Listener) : Type 0 where
  pub flags : length l.events_registered ≡ nr_mem_events
  pub counted : l.num_events_registered ≡ count_set l.events_registered
  pub supported :
      (e : ℕ)
      → is_registered l e ≡ true
      → skips_bpf l ≡ false
      → is_some (find_attachment e l.client) ≡ true

mark_registered-Inv :
    (l : Listener) (e : ℕ)
    → Inv l
    → ltb e nr_mem_events ≡ true
    → is_registered l e ≡ false
    → (skips_bpf l ≡ false → is_some (find_attachment e l.client) ≡ true)
    → Inv (mark_registered l e)
mark_registered-Inv l e v valid off can = record {
  flags = omega (arith, v.flags, length-set l.events_registered e true);
  counted =
      omega
        (arith, v.counted, count_set-set-true l.events_registered e (ground (arith, v.flags)) off);
  supported = λ j on skip. supported j on skip;
}
  where
    supported :
        (j : ℕ)
        → get_or (set l.events_registered e true) j false ≡ true
        → skips_bpf l ≡ false
        → is_some (find_attachment j l.client) ≡ true
    supported j on skip = ground (
      arith,
      get_or-set l.events_registered e j true (ground (arith, v.flags)),
      v.supported j,
      can skip,
    )

mark_deregistered-Inv :
    (l : Listener) (e : ℕ)
    → Inv l
    → ltb e nr_mem_events ≡ true
    → is_registered l e ≡ true
    → Inv (mark_deregistered l e)
mark_deregistered-Inv l e v valid on = record {
  flags = omega (arith, v.flags, length-set l.events_registered e false);
  counted = omega (arith, v.counted, count_set-set-false l.events_registered e on);
  supported = λ j on' skip.
      ground
        (arith, get_or-set l.events_registered e j false (ground (arith, v.flags)), v.supported j);
}

abbrev InvAfter : Listener × Bool → Type 0
InvAfter (l, done) = Inv l

module _ (bpf : Bpf) where
  attach-Inv :
      (l : Listener) (e : ℕ) (o : Option Attachment)
      → find_attachment e l.client ≡ o
      → Inv l
      → ltb e nr_mem_events ≡ true
      → is_registered l e ≡ false
      → Inv (attach bpf l e o).0
  attach-Inv l e none eq v valid off = v
  attach-Inv l e (some a) eq v valid off =
      ground (arith, v, mark_registered-Inv l e v valid off (λ _. ground arith))

  -- registerEvent keeps the invariant, whatever it returns.
  pub register_event-Inv : (l : Listener) (e : ℕ) → Inv l → Inv (register_event bpf l e).0
  unfolding register_event
  register_event-Inv l e v =
      if_cases InvAfter (not (ok l)) (λ _. v)
        λ _.
          if_cases InvAfter (not (is_valid_event_type e)) (λ _. v)
            λ invalid.
              if_cases InvAfter (is_registered l e) (λ _. v)
                λ off.
                  if_cases InvAfter (skips_bpf l)
                    (λ skip. mark_registered-Inv l e v (ground arith) off (λ no_skip. cc))
                    (λ _. attach-Inv l e (find_attachment e l.client) refl v (ground arith) off)

  detach-Inv :
      (l : Listener) (e : ℕ) (o : Option Attachment)
      → Inv l
      → ltb e nr_mem_events ≡ true
      → is_registered l e ≡ true
      → Inv (detach bpf l e o).0
  detach-Inv l e none v valid on = v
  detach-Inv l e (some a) v valid on =
      if_cases (λ (r : Listener × Bool). Inv r.0) (not (bpf.detach_tracepoint a)) (λ _. v)
        (λ _. mark_deregistered-Inv l e v valid on)

  -- deregisterEvent keeps the invariant, whatever it returns.
  pub deregister_event-Inv : (l : Listener) (e : ℕ) → Inv l → Inv (deregister_event bpf l e).0
  unfolding deregister_event
  deregister_event-Inv l e v =
      if_cases InvAfter (not (ok l)) (λ _. v)
        λ _.
          if_cases InvAfter (not (is_valid_event_type e)) (λ _. v)
            λ invalid.
              if_cases InvAfter (not (is_registered l e)) (λ _. v)
                λ on.
                  if_cases InvAfter (skips_bpf l)
                    (λ _. mark_deregistered-Inv l e v (ground arith) (ground arith))
                    (λ _.
                      detach-Inv l e (find_attachment e l.client) v (ground arith) (ground arith))

  pub deregister_from-Inv :
      (rounds i : ℕ) (l : Listener) → Inv l → Inv (deregister_from bpf rounds i l)
  unfolding deregister_from
  deregister_from-Inv zero i l v = v
  deregister_from-Inv (suc rounds) i l v =
      deregister_from-Inv rounds (i + 1) _
        (if_cases Inv (is_registered l i) (λ _. deregister_event-Inv l i v) (λ _. v))

  -- So does deregisterAllEvents.
  pub deregister_all_events-Inv : (l : Listener) → Inv l → Inv (deregister_all_events bpf l)
  unfolding deregister_all_events
  deregister_all_events-Inv l v =
      if_cases Inv (not (ok l)) (λ _. v)
        λ _.
          if_cases Inv (l.num_events_registered == 0) (λ _. v)
            (λ _. deregister_from-Inv nr_mem_events 0 l v)

fresh-Inv :
    (c : Client) (tests supported initialized : Bool)
    → Inv (record {
      events_registered = replicate nr_mem_events false;
      num_events_registered = 0;
      client = c;
      mem_bpf_rb = initialized;
      attach_tp_for_tests = tests;
      ring_buffer_supported = supported;
    })
fresh-Inv c tests supported initialized = record {
  flags = refl;
  counted = refl;
  supported = λ e on skip. absurd (none_set e on);
}
  where
    none_set : (e : ℕ) → get_or (replicate nr_mem_events false) e false ≡ true → ⊥
    none_set zero h = cc
    none_set (suc zero) h = cc
    none_set (suc (suc zero)) h = cc
    none_set (suc (suc (suc zero))) h = cc
    none_set (suc (suc (suc (suc zero)))) h = cc
    none_set (suc (suc (suc (suc (suc e))))) h = cc

abbrev IfSome : Option Listener → Type 0
IfSome none = Unit
IfSome (some l) = Inv l

new_listener-IfSome :
    (client : ℕ) (tests supported initialized : Bool)
    → IfSome (new_listener client tests supported initialized)
unfolding new_listener
new_listener-IfSome client tests supported initialized = on_client (client_of client)
  where
    on_client :
        (o : Option Client)
        → IfSome (elim o [
          | none ↦ none
          | some c ↦
              if not (is_test c) && tests
              then none
              else some (record {
                events_registered = replicate nr_mem_events false;
                num_events_registered = 0;
                client = c;
                mem_bpf_rb = initialized;
                attach_tp_for_tests = tests;
                ring_buffer_supported = supported;
              })
        ])
    on_client none = tt
    on_client (some c) =
        if_cases IfSome (not (is_test c) && tests) (λ _. tt)
          (λ _. fresh-Inv c tests supported initialized)

-- A listener that the constructor returns satisfies the invariant.
pub new_listener-Inv :
    (client : ℕ) (tests supported initialized : Bool) {l : Listener}
    → new_listener client tests supported initialized ≡ some l
    → Inv l
new_listener-Inv client tests supported initialized e =
    rw e at (new_listener-IfSome client tests supported initialized)
