-- ===== src/Loop/Thread/Waiting.antt =====
-- src/cymo_loop.c: `cymo_stop` while the thread of the loop waits in a dequeue function.
use libcymo.Common.{ℕ, ◌≡◌, ◌≢◌, refl, []}
use libcymo.Common.Int.{pos}
use libcymo.Memory.{Addr, Outcome, out_of_fuel, ◌>>=◌}
use libcymo.Event.{cm_event_process}
use libcymo.Tree.{OrderedTree, elems}
use libcymo.Reminder.{TimerNode}
use libcymo.Pipe.{PipeNode}
use libcymo.Loop.{ClockType, CymoMode, CymoStatus, World, Allocation, Loop, cymo_stop}
use libcymo.Loop.Control.{joins}
use libcymo.Loop.Dequeue.{round_of, rounds}
use libcymo.Loop.Dequeue.Waits.{IsWaiting, waits_forever}
use libcymo.Loop.Run.{main_rest}

module _ (timers : OrderedTree TimerNode) (pipes : OrderedTree PipeNode) where
  module _ (pick : World → Loop timers pipes → Outcome (Addr × World × Loop timers pipes))
      (others : World → Loop timers pipes → World × Loop timers pipes) where
    -- The thread from a round of a dequeue function on: it leaves the function, processes the event
    -- and goes on with its loop.
    abbrev pub inside :
        (raw now : ℕ) (m : Allocation) (mode : CymoMode) (fuel more : ℕ)
        → World
        → Loop timers pipes
        → Outcome (World × Loop timers pipes)
    inside raw now m mode fuel more w loop =
        rounds timers pipes fuel (round_of timers pipes raw now m mode) w loop >>= λ r.
        let processed : World = record (r.1) {
          store = record (r.1.store) { events = cm_event_process r.0 r.1.store.events };
        } in
        main_rest timers pipes more pick others (others processed r.2).0 (others processed r.2).1

    -- `cymo_stop`, of a loop that is not stopped, never returns while the thread is in a dequeue
    -- function, no event waits in a pipe, is saved or comes in, and no simulation has ended: the
    -- thread looks at `quit` only when that function returns, which it does not, after any number of
    -- rounds. In the simulator mode no reminder waits for the local clock.
    pub stop_hangs :
        (raw now : ℕ) (m told : Allocation) (fuel more : ℕ) (w : World) (loop : Loop timers pipes)
        → loop.status ≢ CymoStatus.stopped
        → IsWaiting timers pipes w loop
        → (loop.mode ≡ CymoMode.simulator
            → elems (timers.shape (loop.clock_queue ClockType.local_clock).nodes) ≡ [])
        → cymo_stop timers pipes (inside raw now m loop.mode fuel more) told w loop ≡ out_of_fuel
    unfolding cymo_stop
    stop_hangs raw now m told fuel more w loop started t quiet =
        let asked : Loop timers pipes = record loop {
          quit = pos 1;
          status = CymoStatus.stopping;
        } in
        let waits : IsWaiting timers pipes w asked = record {
          no_data = t.no_data;
          no_execution = t.no_execution;
          no_service = t.no_service;
          unsaved = t.unsaved;
          not_stopped = t.not_stopped;
        } in
        rw
          (
            joins timers pipes (inside raw now m loop.mode fuel more) w loop loop.status refl
                started,
            waits_forever timers pipes raw now m w asked waits loop.mode quiet fuel,
          )
          refl
