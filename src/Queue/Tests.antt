-- ===== src/Queue/Tests.antt =====
-- src/cymo_queue.c at a concrete queue.
use libcymo.Common.{◌≡◌, refl, arith, true, false, some, [], ◌∷◌}
use libcymo.Memory.{ok, ◌>>=◌}
use libcymo.Spsc.{next_record}
use libcymo.Spsc.Threads.{Producer, Consumer, State, produce, consume, run}
use libcymo.Spsc.Threads.Fifo.{IsFifo, at_rest}
use libcymo.Spsc.Slots.{IsValid, contents}
use libcymo.Event.{EventType, Events}
use libcymo.Queue.{QueueType, CmQueue, cm_queue_clear}
use libcymo.Queue.Wakeup.{push_between, pop_all, three_accesses, push_wakes, lost_wakeup}
use libcymo.Queue.Clear.{release, drained, cm_queue_clear-release}

-- Two events, at 64 and 128, in a ring that wraps around.
abbrev two_events : CmQueue
two_events = record {
  type = QueueType.data_queue;
  name = 0;
  loop = 4096;
  spsc = record { capacity = 3; records = 128 ∷ 7 ∷ 64 ∷ []; read_pos = 2; write_pos = 1 };
}

abbrev idle : CmQueue
idle = record two_events {
  spsc = record { capacity = 3; records = 128 ∷ 7 ∷ 64 ∷ []; read_pos = 1; write_pos = 1 };
}

abbrev heap : Events
heap a = some (record {
  timestamp = 11;
  type = EventType.trade;
  ref = 2;
  exchange_timestamp = 12;
  provider = 13;
  instrument = 14;
  price = 15;
  size = 16;
})

two_events-IsValid : IsValid two_events.spsc
two_events-IsValid = omega arith

idle-IsValid : IsValid idle.spsc
idle-IsValid = omega arith

cm_queue_clear-release_example : cm_queue_clear two_events heap ≡ (
    release (contents two_events.spsc) heap >>= λ h'.
    ok (record two_events { spsc = drained two_events.spsc }, h'))
cm_queue_clear-release_example = cm_queue_clear-release two_events heap two_events-IsValid

idle-IsFifo : IsFifo (at_rest idle.spsc)
idle-IsFifo = record {
  valid = idle-IsValid;
  history = refl;
  producer_knows = tt;
  consumer_knows = tt;
}

-- The consumer begins a pop between the loads and ends it, with nothing, behind them; another one is
-- under way during the push.
push_wakes_example :
    let (s', woken) =
      push_between 4096 true 256
        (consume ∷ [])
        (consume ∷ [])
        (produce ∷ consume ∷ produce ∷ produce ∷ consume ∷ [])
        (at_rest idle.spsc) in
    (s'.producer ≡ Producer.resting) × (s'.sent ≡ 256 ∷ []) × (woken ≡ true)
push_wakes_example =
    push_wakes (at_rest idle.spsc) 4096 true 256 (consume ∷ []) (consume ∷ [])
      (produce ∷ consume ∷ produce ∷ produce ∷ consume ∷ []) idle-IsFifo refl refl tt tt tt
      (omega arith)

-- The two events, sent and not received yet.
abbrev waiting : State
waiting = record (at_rest two_events.spsc) { sent = 64 ∷ 128 ∷ [] }

waiting-IsFifo : IsFifo waiting
unfolding next_record
waiting-IsFifo = record {
  valid = two_events-IsValid;
  history = refl;
  producer_knows = tt;
  consumer_knows = tt;
}

lost_wakeup_example :
    let u = run (pop_all 2) waiting in
    let (s', woken) = push_between 4096 false 256 [] (pop_all 2) three_accesses waiting in
    (woken ≡ false)
    × (u.received ≡ 64 ∷ 128 ∷ [])
    × (contents u.ring ≡ [])
    × (s'.consumer ≡ Consumer.resting)
    × (contents s'.ring ≡ 256 ∷ [])
unfolding next_record
lost_wakeup_example = lost_wakeup waiting 4096 false 256 64 (128 ∷ []) waiting-IsFifo refl refl refl
