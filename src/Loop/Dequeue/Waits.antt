-- ===== src/Loop/Dequeue/Waits.antt =====
-- src/cymo_loop.c: a loop that waits for events.
use libcymo.Common.{ℕ, zero, suc, ◌≡◌, refl, arith, true, false, []}
use libcymo.Memory.{Addr, ok, out_of_fuel}
use libcymo.Tree.{OrderedTree, elems}
use libcymo.Reminder.{TimerNode}
use libcymo.Pipe.{PipeNode}
use libcymo.Loop.{
  ClockType, CymoMode, World, Allocation, data_pipe, execution_pipe, service_pipe, Loop,
}
use libcymo.Loop.Dequeue.{
  Round, Result, is_set, onward, realtime_local, local_saved, exchange_part, return_saved,
  return_stop, simulator_data, realtime_round, simulator_round, round_of, rounds,
}
use libcymo.Loop.Dequeue.Quiet.{
  IsSilent, silent_read, realtime_data_skip, simulator_data_skip, simulator_local_skip,
}

module _ (timers : OrderedTree TimerNode) (pipes : OrderedTree PipeNode) where
  -- No event waits in a pipe or is saved, and no simulation has ended.
  pub record IsWaiting (w : World) (loop : Loop timers pipes) : Type 0 where
    pub no_data : IsSilent timers pipes w loop data_pipe
    pub no_execution : IsSilent timers pipes w loop execution_pipe
    pub no_service : IsSilent timers pipes w loop service_pipe
    pub unsaved : loop.saved_event ≡ 0
    pub not_stopped : is_set loop.is_simulation_stop ≡ false

  rounds_idle :
      (round : World → Loop timers pipes → Result timers pipes) (w : World)
      (loop : Loop timers pipes)
      → round w loop ≡ ok (Round.again, w, loop)
      → (fuel : ℕ) → rounds timers pipes fuel round w loop ≡ out_of_fuel
  unfolding rounds
  rounds_idle round w loop h zero = refl
  rounds_idle round w loop h (suc fuel) = rw h (rounds_idle round w loop h fuel)

  pub rounds_idle_next :
      (round : World → Loop timers pipes → Result timers pipes) (w : World)
      (loop : Loop timers pipes)
      → round w loop ≡ ok (Round.next, w, loop)
      → (fuel : ℕ) → rounds timers pipes fuel round w loop ≡ out_of_fuel
  unfolding rounds
  rounds_idle_next round w loop h zero = refl
  rounds_idle_next round w loop h (suc fuel) = rw h (rounds_idle_next round w loop h fuel)

  module _ (w : World) (loop : Loop timers pipes) (unsaved : loop.saved_event ≡ 0) where
    pub exchange_waits : exchange_part timers pipes w loop ≡ ok (Round.next, w, loop)
    unfolding exchange_part
    exchange_waits = ground (arith, unsaved)

    pub saved_waits : return_saved timers pipes w loop ≡ ok (Round.next, w, loop)
    unfolding return_saved
    saved_waits = ground (arith, unsaved)

    -- A round of the simulator mode whose data part goes on with this world and loop.
    pub simulator_rest :
        (raw : Addr) (w0 : World) (loop0 : Loop timers pipes)
        → IsSilent timers pipes w loop execution_pipe
        → IsSilent timers pipes w loop service_pipe
        → elems (timers.shape (loop.clock_queue ClockType.local_clock).nodes) ≡ []
        → simulator_data timers pipes raw w0 loop0 ≡ ok (Round.next, w, loop)
        → simulator_round timers pipes raw w0 loop0 ≡ ok (Round.next, w, loop)
    unfolding simulator_round onward
    simulator_rest raw w0 loop0 execution service e read =
        rw
          (
            read,
            simulator_local_skip timers pipes w loop e,
            exchange_waits,
            silent_read timers pipes w loop raw execution_pipe execution,
            silent_read timers pipes w loop raw service_pipe service,
            saved_waits,
          )
          refl

  module _ (raw now : ℕ) (m : Allocation) (w : World) (loop : Loop timers pipes)
      (t : IsWaiting w loop) where
    local_waits : realtime_local timers pipes w loop ≡ ok (Round.next, w, loop)
    unfolding realtime_local local_saved
    local_waits = ground (arith, t.unsaved, t.not_stopped)

    realtime_idle : realtime_round timers pipes raw now m w loop ≡ ok (Round.again, w, loop)
    unfolding realtime_round onward return_stop
    realtime_idle =
        rw
          (
            realtime_data_skip timers pipes w loop raw now true t.no_data refl,
            silent_read timers pipes w loop raw execution_pipe t.no_execution,
            local_waits,
            exchange_waits w loop t.unsaved,
            silent_read timers pipes w loop raw service_pipe t.no_service,
            saved_waits w loop t.unsaved,
            t.not_stopped,
          )
          refl

    simulator_idle :
        elems (timers.shape (loop.clock_queue ClockType.local_clock).nodes) ≡ []
        → simulator_round timers pipes raw w loop ≡ ok (Round.next, w, loop)
    simulator_idle e =
        simulator_rest w loop t.unsaved raw w loop t.no_execution t.no_service e
          (simulator_data_skip timers pipes w loop raw true t.no_data refl)

    -- While nothing waits in a pipe or is saved, a dequeue function goes round for ever: no number of
    -- rounds is enough, whether the loop is to quit or not, and in the real-time mode however many
    -- reminders are due. In the simulator mode no reminder waits for the local clock.
    pub waits_forever :
        (mode : CymoMode)
        → (mode ≡ CymoMode.simulator
            → elems (timers.shape (loop.clock_queue ClockType.local_clock).nodes) ≡ [])
        → (fuel : ℕ)
        → rounds timers pipes fuel (round_of timers pipes raw now m mode) w loop ≡ out_of_fuel
    unfolding round_of
    waits_forever CymoMode.realtime e fuel = rounds_idle _ w loop realtime_idle fuel
    waits_forever CymoMode.simulator e fuel =
        rounds_idle_next _ w loop (simulator_idle (e refl)) fuel
