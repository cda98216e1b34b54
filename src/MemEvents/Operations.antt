-- ===== src/MemEvents/Operations.antt =====
-- What each call of a listener does to its registrations.
use android_system_memory_li.Common.{
  ℕ, ◌<◌, ◌≡◌, refl, arith, Bool, true, false, not, ◌&&◌, ◌||◌, Option, none, some, length, ◌==◌,
  if◌then◌else◌, if_cases, ap, sym, ◌∙◌,
}
use android_system_memory_li.MemEvents.{
  Listener, Attachment, Bpf, find_attachment, is_registered, skips_bpf, register_event,
  attach_fails, deregister_event, nr_mem_events, mark_registered, mark_deregistered, attach, detach,
  ok, is_valid_event_type,
}
use android_system_memory_li.MemEvents.Invariant.{get_or-set}

-- The program of a kind of event can be found, retrieved and attached (or is attached already).
abbrev pub can_attach : Bpf → Option Attachment → Bool
can_attach bpf none = false
can_attach bpf (some a) = bpf.retrieve_program a && not (attach_fails (bpf.attach_tracepoint a))

abbrev pub can_detach : Bpf → Option Attachment → Bool
can_detach bpf none = false
can_detach bpf (some a) = bpf.detach_tracepoint a

-- When registerEvent is to succeed.
abbrev pub registers : Bpf → Listener → ℕ → Bool
registers bpf l e =
    ok l
    && is_valid_event_type e
    && (is_registered l e || skips_bpf l || can_attach bpf (find_attachment e l.client))

abbrev pub deregisters : Bpf → Listener → ℕ → Bool
deregisters bpf l e =
    ok l
    && is_valid_event_type e
    && (not (is_registered l e) || skips_bpf l || can_detach bpf (find_attachment e l.client))

-- A call returned `want`; on success the registration to `e` is `on`, every other is as before; on
-- failure nothing changed.
abbrev pub Sets : Listener → ℕ → Bool → Bool → Listener × Bool → Type 0
Sets l e on want (l', done) =
    (done ≡ want)
    × ((j : ℕ) → is_registered l' j ≡ (if done && (e == j) then on else is_registered l j))
    × (l' ≡ (if done then l' else l))

retarget :
    (l : Listener) (e : ℕ) (on : Bool) {want want' : Bool} (r : Listener × Bool)
    → want ≡ want'
    → Sets l e on want' r
    → Sets l e on want r
retarget l e on (l', done) eq (a, b, c) = (a ∙ sym eq, b, c)

fails : (l : Listener) (e : ℕ) (on want : Bool) → want ≡ false → Sets l e on want (l, false)
fails l e on want w = (sym w, λ j. refl, refl)

keeps :
    (l : Listener) (e : ℕ) (on want : Bool)
    → want ≡ true
    → is_registered l e ≡ on
    → Sets l e on want (l, true)
keeps l e on want w same = (sym w, λ j. at j, refl)
  where
    at : (j : ℕ) → is_registered l j ≡ (if true && (e == j) then on else is_registered l j)
    at j =
        if_cases (λ r. is_registered l j ≡ r) (e == j)
          (λ eq. ap (is_registered l) (ground arith) ∙ same) (λ _. refl)

marks :
    (l : Listener) (e : ℕ) (want : Bool)
    → e < length l.events_registered
    → want ≡ true
    → Sets l e true want (mark_registered l e, true)
marks l e want h w = (sym w, λ j. get_or-set l.events_registered e j true h, refl)

unmarks :
    (l : Listener) (e : ℕ) (want : Bool)
    → e < length l.events_registered
    → want ≡ true
    → Sets l e false want (mark_deregistered l e, true)
unmarks l e want h w = (sym w, λ j. get_or-set l.events_registered e j false h, refl)

unless : (a b : Bool) → b ≡ true → a && not b ≡ false
unless true true h = refl
unless false b h = refl
unless true false h = cc

not_ok : (a b c : Bool) → not a ≡ true → a && b && c ≡ false
not_ok false b c h = refl
not_ok true b c h = cc

not_valid : (a b c : Bool) → not b ≡ true → a && b && c ≡ false
not_valid true false c h = refl
not_valid false b c h = refl
not_valid true true c h = cc

-- Past the first two guards, the result is that of the third.
past : (a b c : Bool) → not a ≡ false → not b ≡ false → a && b && c ≡ c
past true true c h i = refl
past true false c h i = cc
past false b c h i = cc

first : (a b c : Bool) → a ≡ true → a || b || c ≡ true
first true b c h = refl
first false b c h = cc

second : (a b c : Bool) → b ≡ true → a || b || c ≡ true
second true b c h = refl
second false true c h = refl
second false false c h = cc

third : (a b c : Bool) → a ≡ false → b ≡ false → a || b || c ≡ c
third false false c h i = refl
third false true c h i = cc
third true b c h i = cc

bound :
    (l : Listener) (e : ℕ)
    → length l.events_registered ≡ nr_mem_events
    → not (is_valid_event_type e) ≡ false
    → e < length l.events_registered
bound l e flags valid = ground arith

module _ (bpf : Bpf) (l : Listener) (e : ℕ) where
  attach_lem :
      (o : Option Attachment)
      → e < length l.events_registered
      → Sets l e true (can_attach bpf o) (attach bpf l e o)
  attach_lem none h = fails l e true false refl
  attach_lem (some a) h =
      if_cases S (not (bpf.retrieve_program a)) (λ r. fails l e true want (ground (arith, r)))
        λ r.
          if_cases S (attach_fails (bpf.attach_tracepoint a))
            (λ f.
              fails l e true want
                (unless (bpf.retrieve_program a) (attach_fails (bpf.attach_tracepoint a)) f))
            (λ f. marks l e want h (ground (arith, r, f)))
    where
      want : Bool
      want = can_attach bpf (some a)

      S : Listener × Bool → Type 0
      S = Sets l e true (can_attach bpf (some a))

  detach_lem :
      (o : Option Attachment)
      → e < length l.events_registered
      → Sets l e false (can_detach bpf o) (detach bpf l e o)
  detach_lem none h = fails l e false false refl
  detach_lem (some a) h =
      if_cases (Sets l e false want) (not want) (λ f. fails l e false want (ground (arith, f)))
        (λ f. unmarks l e want h (ground (arith, f)))
    where
      want : Bool
      want = bpf.detach_tracepoint a

  -- registerEvent succeeds exactly when the listener is ok, the event valid, and it is registered
  -- already, needs no program, or has one that can be attached. On success that event is registered
  -- and every other is as before; on failure nothing changes.
  pub register_event_lem :
      length l.events_registered ≡ nr_mem_events
      → Sets l e true (registers bpf l e) (register_event bpf l e)
  unfolding register_event
  register_event_lem flags =
      if_cases S (not (ok l)) (λ h. fails l e true want (not_ok (ok l) v c h))
        λ is_ok.
          if_cases S (not v) (λ h. fails l e true want (not_valid (ok l) v c h))
            λ valid.
              if_cases S r
                (λ h. keeps l e true want (past (ok l) v c is_ok valid ∙ first r k a h) h)
                λ off.
                  if_cases S k
                    (λ h.
                      marks l e want (bound l e flags valid)
                        (past (ok l) v c is_ok valid ∙ second r k a h))
                    (λ h.
                      retarget l e true (attach bpf l e (find_attachment e l.client))
                        (past (ok l) v c is_ok valid ∙ third r k a off h)
                        (attach_lem (find_attachment e l.client) (bound l e flags valid)))
    where
      r : Bool
      r = is_registered l e

      k : Bool
      k = skips_bpf l

      v : Bool
      v = is_valid_event_type e

      a : Bool
      a = can_attach bpf (find_attachment e l.client)

      c : Bool
      c = r || k || a

      want : Bool
      want = registers bpf l e

      S : Listener × Bool → Type 0
      S = Sets l e true (registers bpf l e)

  -- deregisterEvent succeeds exactly when the listener is ok, the event valid, and it is not
  -- registered, has no program attached, or has one that can be detached. On success that event is
  -- not registered and every other is as before; on failure nothing changes.
  pub deregister_event_lem :
      length l.events_registered ≡ nr_mem_events
      → Sets l e false (deregisters bpf l e) (deregister_event bpf l e)
  unfolding deregister_event
  deregister_event_lem flags =
      if_cases S (not (ok l)) (λ h. fails l e false want (not_ok (ok l) v c h))
        λ is_ok.
          if_cases S (not v) (λ h. fails l e false want (not_valid (ok l) v c h))
            λ valid.
              if_cases S r
                (λ h.
                  keeps l e false want (past (ok l) v c is_ok valid ∙ first r k d h)
                    (ground (arith, h)))
                λ on.
                  if_cases S k
                    (λ h.
                      unmarks l e want (bound l e flags valid)
                        (past (ok l) v c is_ok valid ∙ second r k d h))
                    (λ h.
                      retarget l e false (detach bpf l e (find_attachment e l.client))
                        (past (ok l) v c is_ok valid ∙ third r k d on h)
                        (detach_lem (find_attachment e l.client) (bound l e flags valid)))
    where
      r : Bool
      r = not (is_registered l e)

      k : Bool
      k = skips_bpf l

      v : Bool
      v = is_valid_event_type e

      d : Bool
      d = can_detach bpf (find_attachment e l.client)

      c : Bool
      c = r || k || d

      want : Bool
      want = deregisters bpf l e

      S : Listener × Bool → Type 0
      S = Sets l e false (deregisters bpf l e)
