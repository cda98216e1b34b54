-- ===== src/MemEvents.antt =====
-- libmemevents/memevents.cpp with memevents.h and bpf_types.h: a client registers to kinds of
-- memory events, and reads from its ring buffer the events of those kinds. Logging is left out.
pub mod Invariant
pub mod Operations
pub mod Shutdown
pub mod Histories
use android_system_memory_li.Common.{
  ℕ, zero, suc, ◌+◌, ◌-◌, Bool, true, false, not, ◌&&◌, ◌||◌, List, [], ◌∷◌, ◌++◌, Option, none,
  some, ltb, leb, ◌==◌, if◌then◌else◌, get_elem?, get_or, set, replicate,
}
use android_system_memory_li.Text.{Bytes, codes}

-- mem_event_type_t.
abbrev pub mem_event_oom_kill : ℕ
mem_event_oom_kill = 0

abbrev pub mem_event_base : ℕ
mem_event_base = 0

abbrev pub mem_event_direct_reclaim_begin : ℕ
mem_event_direct_reclaim_begin = 1

abbrev pub mem_event_direct_reclaim_end : ℕ
mem_event_direct_reclaim_end = 2

abbrev pub mem_event_kswapd_wake : ℕ
mem_event_kswapd_wake = 3

abbrev pub mem_event_kswapd_sleep : ℕ
mem_event_kswapd_sleep = 4

abbrev pub nr_mem_events : ℕ
nr_mem_events = 5

-- MemEventClient.
pub data Client : Type 0 where
  ams lmkd test_client : Client

-- The enumerators by value; NR_CLIENTS is 3, and no client has such a number.
unfoldable pub client_of : ℕ → Option Client
client_of zero = some ams
client_of (suc zero) = some lmkd
client_of (suc (suc zero)) = some test_client
client_of (suc (suc (suc n))) = none

pub data TpGroup : Type 0 where
  oom vmscan : TpGroup

pub data TpEvent : Type 0 where
  mark_victim mm_vmscan_direct_reclaim_begin mm_vmscan_direct_reclaim_end : TpEvent
  mm_vmscan_kswapd_wake mm_vmscan_kswapd_sleep : TpEvent

-- MemBpfAttachment; the program is named by its pinned path.
pub record Attachment : Type 0 where
  pub prog : Bytes
  pub tp_group : TpGroup
  pub tp_event : TpEvent
  pub event_type : ℕ

unfoldable pub attachments : Client → List Attachment
attachments ams =
    record {
      prog = codes "/sys/fs/bpf/prog_bpfMemEvents_tracepoint_oom_mark_victim_ams";
      tp_group = oom;
      tp_event = mark_victim;
      event_type = mem_event_oom_kill;
    }
    ∷ []
attachments lmkd =
    record {
      prog =
          codes
            "/sys/fs/bpf/prog_bpfMemEvents_tracepoint_vmscan_mm_vmscan_direct_reclaim_begin_lmkd";
      tp_group = vmscan;
      tp_event = mm_vmscan_direct_reclaim_begin;
      event_type = mem_event_direct_reclaim_begin;
    }
    ∷ record {
      prog =
          codes "/sys/fs/bpf/prog_bpfMemEvents_tracepoint_vmscan_mm_vmscan_direct_reclaim_end_lmkd";
      tp_group = vmscan;
      tp_event = mm_vmscan_direct_reclaim_end;
      event_type = mem_event_direct_reclaim_end;
    }
    ∷ record {
      prog = codes "/sys/fs/bpf/prog_bpfMemEvents_tracepoint_vmscan_mm_vmscan_kswapd_wake_lmkd";
      tp_group = vmscan;
      tp_event = mm_vmscan_kswapd_wake;
      event_type = mem_event_kswapd_wake;
    }
    ∷ record {
      prog = codes "/sys/fs/bpf/prog_bpfMemEvents_tracepoint_vmscan_mm_vmscan_kswapd_sleep_lmkd";
      tp_group = vmscan;
      tp_event = mm_vmscan_kswapd_sleep;
      event_type = mem_event_kswapd_sleep;
    }
    ∷ []
attachments test_client =
    record {
      prog = codes "/sys/fs/bpf/prog_bpfMemEventsTest_tracepoint_oom_mark_victim";
      tp_group = oom;
      tp_event = mark_victim;
      event_type = mem_event_oom_kill;
    }
    ∷ []

unfoldable pub find_by_type : ℕ → List Attachment → Option Attachment
find_by_type event_type [] = none
find_by_type event_type (a ∷ as') =
    if a.event_type == event_type then some a else find_by_type event_type as'

unfoldable pub find_attachment : ℕ → Client → Option Attachment
unfolding find_by_type attachments
find_attachment event_type client = find_by_type event_type (attachments client)

-- What libbpf answers to bpf_attach_tracepoint: success, or an error with its errno.
pub data AttachResult : Type 0 where
  attached eexist failed : AttachResult

-- The calls of libbpf: does `retrieveProgram` give a descriptor, what does bpf_attach_tracepoint
-- answer, and does bpf_detach_tracepoint succeed?
pub record Bpf : Type 0 where
  pub retrieve_program : Attachment → Bool
  pub attach_tracepoint : Attachment → AttachResult
  pub detach_tracepoint : Attachment → Bool

-- The fields of MemEventListener, `memBpfRb` as whether it is set, and the global
-- isBpfRingBufferSupported.
pub record Listener : Type 0 where
  pub events_registered : List Bool
  pub num_events_registered : ℕ
  pub client : Client
  pub mem_bpf_rb : Bool
  pub attach_tp_for_tests : Bool
  pub ring_buffer_supported : Bool

abbrev pub is_test : Client → Bool
is_test test_client = true
is_test ams = false
is_test lmkd = false

-- The constructor; `none` is std::abort. `initialized` is the result of MemBpfRingbuf::Initialize.
unfoldable pub new_listener : ℕ → Bool → Bool → Bool → Option Listener
unfolding client_of
new_listener client attach_tp_for_tests supported initialized = elim (client_of client) [
  | none ↦ none
  | some c ↦
      if not (is_test c) && attach_tp_for_tests
      then none
      else some (record {
        events_registered = replicate nr_mem_events false;
        num_events_registered = 0;
        client = c;
        mem_bpf_rb = initialized;
        attach_tp_for_tests = attach_tp_for_tests;
        ring_buffer_supported = supported;
      })
]

abbrev pub is_valid_event_type : ℕ → Bool
is_valid_event_type event_type = ltb event_type nr_mem_events && leb mem_event_base event_type

abbrev pub ok : Listener → Bool
ok l = l.ring_buffer_supported && l.mem_bpf_rb

-- `mEventsRegistered[event_type]`, at a valid type.
abbrev pub is_registered : Listener → ℕ → Bool
is_registered l event_type = get_or l.events_registered event_type false

-- A test instance that does not attach.
abbrev pub skips_bpf : Listener → Bool
skips_bpf l = is_test l.client && not l.attach_tp_for_tests

abbrev pub mark_registered : Listener → ℕ → Listener
mark_registered l event_type = record l {
  events_registered = set l.events_registered event_type true;
  num_events_registered = l.num_events_registered + 1;
}

-- The count is an `int`; it is lowered only for a registered event, so it is not 0 here.
abbrev pub mark_deregistered : Listener → ℕ → Listener
mark_deregistered l event_type = record l {
  events_registered = set l.events_registered event_type false;
  num_events_registered = l.num_events_registered - 1;
}

abbrev pub attach_fails : AttachResult → Bool
attach_fails attached = false
attach_fails eexist = false
attach_fails failed = true

module _ (bpf : Bpf) where
  abbrev pub attach : Listener → ℕ → Option Attachment → Listener × Bool
  attach l event_type none = (l, false)
  attach l event_type (some a) =
      if not (bpf.retrieve_program a)
      then (l, false)
      else if attach_fails (bpf.attach_tracepoint a)
      then (l, false)
      else (mark_registered l event_type, true)

  unfoldable pub register_event : Listener → ℕ → Listener × Bool
  register_event l event_type =
      if not (ok l)
      then (l, false)
      else if not (is_valid_event_type event_type)
      then (l, false)
      else if is_registered l event_type
      then (l, true)
      else if skips_bpf l
      then (mark_registered l event_type, true)
      else attach l event_type (find_attachment event_type l.client)

  abbrev pub detach : Listener → ℕ → Option Attachment → Listener × Bool
  detach l event_type none = (l, false)
  detach l event_type (some a) =
      if not (bpf.detach_tracepoint a) then (l, false) else (mark_deregistered l event_type, true)

  unfoldable pub deregister_event : Listener → ℕ → Listener × Bool
  deregister_event l event_type =
      if not (ok l)
      then (l, false)
      else if not (is_valid_event_type event_type)
      then (l, false)
      else if not (is_registered l event_type)
      then (l, true)
      else if skips_bpf l
      then (mark_deregistered l event_type, true)
      else detach l event_type (find_attachment event_type l.client)

  -- The loop of deregisterAllEvents, `rounds` before the end; a failure to deregister is passed over.
  unfoldable pub deregister_from : ℕ → ℕ → Listener → Listener
  deregister_from zero i l = l
  deregister_from (suc rounds) i l =
      deregister_from rounds (i + 1) (if is_registered l i then (deregister_event l i).0 else l)

  -- Also the destructor.
  unfoldable pub deregister_all_events : Listener → Listener
  unfolding deregister_from
  deregister_all_events l =
      if not (ok l)
      then l
      else if l.num_events_registered == 0
      then l
      else deregister_from nr_mem_events 0 l

-- `wait` is what MemBpfRingbuf::wait returns.
unfoldable pub listen : Bool → Listener → Bool
listen wait l = if not (ok l) then false else if l.num_events_registered == 0 then false else wait

-- mem_event_t: the type, and the data, which the listener only copies.
pub record MemEvent : Type 0 where
  pub type : ℕ
  pub event_data : Bytes

abbrev pub keep_if : Option Bool → MemEvent → Option (List MemEvent) → Option (List MemEvent)
keep_if (some true) e (some es) = some (e ∷ es)
keep_if (some false) e (some es) = some es
keep_if _ _ _ = none

-- The callback on each message of the ring buffer; `none` is a read of mEventsRegistered beyond its
-- end, which the source does not guard.
unfoldable pub keep_registered : Listener → List MemEvent → Option (List MemEvent)
keep_registered l [] = some []
keep_registered l (e ∷ es) = keep_if (get_elem? l.events_registered e.type) e (keep_registered l es)

abbrev pub append_kept :
    List MemEvent → Bool → Option (List MemEvent) → Option (List MemEvent × Bool)
append_kept old done none = none
append_kept old done (some kept) = some (old ++ kept, done)

-- getMemEvents: the messages that ConsumeAll passes on with whether it succeeded, and the vector.
unfoldable pub get_mem_events :
    List MemEvent × Bool → Listener → List MemEvent → Option (List MemEvent × Bool)
unfolding keep_registered
get_mem_events (messages, done) l mem_events =
    if not (ok l)
    then some (mem_events, false)
    else append_kept mem_events done (keep_registered l messages)

-- getRingBufferFd; `none` is -1.
unfoldable pub get_ring_buffer_fd : ℕ → Listener → Option ℕ
get_ring_buffer_fd fd l = if not (ok l) then none else some fd
