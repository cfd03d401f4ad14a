-- ===== src/Loop/Dequeue/Tests.antt =====
-- src/cymo_loop.c: rounds of a dequeue function at a concrete loop.
use libcymo.Common.{◌≡◌, refl, arith, true, none, some, [], ◌∷◌, ◌==◌, if◌then◌else◌}
use libcymo.Memory.{update, out_of_fuel}
use libcymo.Tree.{leaf, node, elems, first}
use libcymo.Tree.Plain.{plain}
use libcymo.Pipe.{event_pipe_is_empty}
use libcymo.Loop.{ClockType, CymoMode, World, at_clock, at_pipe, data_pipe, historical_pipe, Loop}
use libcymo.Loop.Samples.{
  timers, pipes, no_timers, loop, event, allocation, early, late, two_timers, no_queues,
  two_timers-IsValid, timed_world,
}
use libcymo.Loop.Dequeue.{rounds, simulator_round}
use libcymo.Queue.{QueueType, CmQueue}
use libcymo.Loop.Dequeue.Exchange.{IsTicking}
use libcymo.Loop.Dequeue.Ticks.{Gives, exchange_before_tick}
use libcymo.Loop.Dequeue.Stop.{IsBlock, IsEnding, Ends, stop_drains}
use libcymo.Loop.Dequeue.Starves.{IsFed, simulator_starves}
use libcymo.Reminder.Due.{select}

-- Both reminders wait for the exchange clock; the time of the tick at 64 is 12.
abbrev ticking : Loop timers pipes
ticking = record loop {
  clock_queue = at_clock loop.clock_queue ClockType.exchange_clock two_timers;
}

ticking-IsTicking : IsTicking timers pipes timed_world event ticking
unfolding plain elems no_timers no_queues event_pipe_is_empty first
ticking-IsTicking = record {
  quiet = record {
    data_is_empty = true;
    data_answers = refl;
    no_execution = refl;
    no_service = refl;
    no_local = refl;
  };
  saved = refl;
  there = refl;
  ticks = refl;
  reads_before = refl;
}

exchange_before_tick_example :
    Gives timers pipes timed_world event 0
      (λ i. 1000)
      (λ i. allocation)
      CymoMode.simulator
      5
      ticking
      (early ∷ [])
      (late ∷ [])
unfolding plain elems select two_timers
exchange_before_tick_example =
    exchange_before_tick timers pipes timed_world event 0 (λ i. 1000) (λ i. allocation)
      CymoMode.simulator 5 ticking ticking-IsTicking two_timers-IsValid

-- The end of a simulation with both reminders on the local clock.
abbrev ending : Loop timers pipes
ending = record loop {
  clock_queue = at_clock loop.clock_queue ClockType.local_clock two_timers;
  saved_event = 0;
}

ending-IsEnding : IsEnding timers pipes timed_world ending
unfolding plain elems event_pipe_is_empty first no_timers no_queues
ending-IsEnding = record {
  no_data = refl;
  no_execution = refl;
  no_service = refl;
  unsaved = refl;
  stopped = refl;
  not_cleared = refl;
  read = refl;
}

block-IsBlock : IsBlock allocation 128
block-IsBlock = record { given = refl; roomy = omega arith }

stop_drains_example :
    Ends timers pipes timed_world 0
      (λ i. 1000)
      (λ i. allocation)
      128
      block-IsBlock
      5
      ending
      (early ∷ late ∷ [])
unfolding plain elems two_timers
stop_drains_example =
    stop_drains timers pipes timed_world 0 (λ i. 1000) (λ i. allocation) 128 block-IsBlock 5
      (early ∷ late ∷ []) ending ending-IsEnding refl

-- The event at 64 is returned, and no reminder waits.
abbrev returned : Loop timers pipes
returned = record loop { saved_event = 0 }

-- A service queue at 512, with an empty ring.
abbrev served : CmQueue
served = record { type = QueueType.service_queue; name = 0; loop = 0; spsc = loop.pending }

abbrev served_world : CmQueue → World
served_world queue = record timed_world {
  store = record (timed_world.store) { queues = λ a. if a == 512 then some queue else none };
}

abbrev served_loop : Loop timers pipes
unfolding plain
served_loop = record loop {
  pipe =
      at_pipe loop.pipe historical_pipe
        (record { nodes = node leaf (record { q = 512; queue_id = 1 }) leaf; queue_counter = 2 });
}

abbrev owned_world : World
owned_world = record timed_world {
  store = record (timed_world.store) {
    queues = update (served_world served).store.queues 512 (some (record served { loop = 4096 }));
  };
}

-- The ring of the queue at 512 holds two events.
abbrev full_queue : CmQueue
full_queue = record {
  type = QueueType.data_queue;
  name = 0;
  loop = 0;
  spsc = record { capacity = 3; records = 64 ∷ 64 ∷ 0 ∷ []; read_pos = 0; write_pos = 2 };
}

abbrev fed : Loop timers pipes
unfolding plain
fed = record loop {
  pipe =
      at_pipe loop.pipe data_pipe
        (record { nodes = node leaf (record { q = 512; queue_id = 1 }) leaf; queue_counter = 2 });
  saved_event = 0;
}

fed-IsFed :
    IsFed timers pipes
      (record { q = 512; queue_id = 1 })
      []
      full_queue
      (served_world full_queue)
      fed
unfolding plain elems no_timers no_queues fed
fed-IsFed = record {
  nodes = refl;
  there = refl;
  valid = omega arith;
  no_execution = refl;
  no_service = refl;
  no_local = refl;
  unsaved = refl;
}

simulator_starves_example :
    rounds timers pipes 1000 (simulator_round timers pipes 0) (served_world full_queue) fed
    ≡ out_of_fuel
simulator_starves_example =
    simulator_starves timers pipes 0 (record { q = 512; queue_id = 1 }) [] 1000 full_queue
      (served_world full_queue) fed fed-IsFed
