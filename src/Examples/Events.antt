-- ===== src/Examples/Events.antt =====
-- A listener of the client lmkd, with a libbpf that answers every call with success.
use android_system_memory_li.Common.{
  ℕ, ◌≡◌, refl, true, false, [], ◌∷◌, ◌++◌, some, ◌↔◌, is_some, if◌then◌else◌, replicate,
}
use android_system_memory_li.MemEvents.{
  Bpf, Listener, attached, lmkd, is_registered, new_listener, register_event, deregister_event,
  deregister_all_events, MemEvent, get_mem_events, is_registered, nr_mem_events, find_attachment,
  ok,
}
use android_system_memory_li.MemEvents.Histories.{
  Reach, created, registered, Reach-Inv, delivered, get_mem_events_lem, AreKnown, of_kind,
}
use android_system_memory_li.MemEvents.Invariant.{Inv}
use android_system_memory_li.MemEvents.Operations.{
  Sets, registers, deregisters, register_event_lem, deregister_event_lem,
}
use android_system_memory_li.MemEvents.Shutdown.{deregister_all_events_lem}

abbrev bpf : Bpf
bpf = record {
  retrieve_program = λ a. true;
  attach_tracepoint = λ a. attached;
  detach_tracepoint = λ a. true;
}

abbrev fresh : Listener
fresh = record {
  events_registered = replicate nr_mem_events false;
  num_events_registered = 0;
  client = lmkd;
  mem_bpf_rb = true;
  attach_tp_for_tests = false;
  ring_buffer_supported = true;
}

fresh-created : new_listener 1 false true true ≡ some fresh
unfolding new_listener
fresh-created = refl

fresh-Reach : Reach fresh
fresh-Reach = created 1 false true true fresh-created

abbrev listening : Listener
listening = (register_event bpf fresh 3).0

listening-Reach : Reach listening
listening-Reach = registered bpf 3 fresh-Reach

register_event_lem_example : Sets fresh 3 true (registers bpf fresh 3) (register_event bpf fresh 3)
register_event_lem_example = register_event_lem bpf fresh 3 refl

deregister_event_lem_example :
    Sets fresh 3 false (deregisters bpf fresh 3) (deregister_event bpf fresh 3)
deregister_event_lem_example = deregister_event_lem bpf fresh 3 refl

Reach-Inv_example : Inv listening
Reach-Inv_example = Reach-Inv listening-Reach

listening-ok : ok listening ≡ true
unfolding register_event find_attachment
listening-ok = refl

deregister_all_events_lem_example :
    ((deregister_all_events bpf listening).num_events_registered ≡ 0)
    × ((j : ℕ) → is_registered (deregister_all_events bpf listening) j ≡ false)
deregister_all_events_lem_example =
    deregister_all_events_lem bpf (λ a. refl) listening (Reach-Inv listening-Reach) listening-ok

abbrev wake : MemEvent
wake = record { type = 3; event_data = [] }

abbrev kill : MemEvent
kill = record { type = 0; event_data = [] }

get_mem_events_lem_example :
    let messages = wake ∷ kill ∷ [] in
    let r = get_mem_events (messages, true) listening (kill ∷ []) in
    ((is_some r ≡ true) ↔ AreKnown messages)
    × ((r ≡ some (kill ∷ [] ++ delivered listening messages, true)) ↔ AreKnown messages)
    × ((k : ℕ)
        → of_kind k (delivered listening messages)
          ≡ (if is_registered listening k then of_kind k messages else []))
get_mem_events_lem_example =
    get_mem_events_lem (wake ∷ kill ∷ []) (kill ∷ []) true listening-Reach listening-ok

-- Behind the registration to kswapd's waking up, that event is delivered and the other is not.
delivery : get_mem_events (wake ∷ kill ∷ [], true) listening [] ≡ some (wake ∷ [], true)
unfolding get_mem_events register_event find_attachment
delivery = refl
