-- ===== src/Loop/Dequeue/Due.antt =====
-- src/cymo_loop.c: what `simulator_dequeue` does with the reminders of the local clock.
use libcymo.Common.{
  ℕ, suc, ◌≤◌, ◌≡◌, ◌⊎◌, refl, arith, Bool, true, none, some, List, ◌∷◌, ◌==◌, leb, inl, inr, not,
  ◌||◌,
}
use libcymo.Memory.{Addr, ok, fault, load-some}
use libcymo.Event.{Event}
use libcymo.Tree.{OrderedTree, elems}
use libcymo.Reminder.{Reminder, TimerNode}
use libcymo.Reminder.Pop.{peek-some, is_empty-some}
use libcymo.Pipe.{PipeNode, event_pipe_is_empty}
use libcymo.Loop.{ClockType, World, data_pipe, Loop}
use libcymo.Loop.Dequeue.{
  Round, is_before, onward, local_before, simulator_local, simulator_round, rounds,
}
use libcymo.Loop.Dequeue.Quiet.{simulator_data_skip}

module _ (timers : OrderedTree TimerNode) (pipes : OrderedTree PipeNode) where
  module _ (w : World) (loop : Loop timers pipes) (n : TimerNode) (l : List TimerNode)
      (r : Reminder)
      (waits : elems (timers.shape (loop.clock_queue ClockType.local_clock).nodes) ≡ n ∷ l)
      (at : w.reminders n.reminder ≡ some r)
      (reads_before : is_before loop.reminder_order ≡ true) where
    -- Nothing is saved, and NULL points to no event, or the saved event is not before the reminder.
    abbrev pub IsReached : Type 0
    IsReached =
        ((loop.saved_event ≡ 0) × (w.store.events 0 ≡ none))
        ⊎ ((event : Event) × (w.store.events loop.saved_event ≡ some event)
            × (r.timestamp ≤ event.timestamp))

    local_reached :
        IsReached
        → simulator_local timers pipes w loop ≡ fault
          ⊎ simulator_local timers pipes w loop ≡ ok (Round.fell_off, w, loop)
    unfolding simulator_local local_before
    local_reached (inl (unsaved, null)) =
        rw
          (
            is_empty-some timers (loop.clock_queue ClockType.local_clock) n l waits,
            reads_before,
            peek-some timers (loop.clock_queue ClockType.local_clock) n l waits,
            load-some w.reminders n.reminder r at,
          )
          (inl (ground (arith, unsaved, null)))
    local_reached (inr (event, there, le)) =
        let due : leb r.timestamp event.timestamp ≡ true = ground (arith, le) in
        rw
          (
            is_empty-some timers (loop.clock_queue ClockType.local_clock) n l waits,
            reads_before,
            peek-some timers (loop.clock_queue ClockType.local_clock) n l waits,
            load-some w.reminders n.reminder r at,
            load-some w.store.events loop.saved_event event there,
            due,
          )
          (inr refl)

    -- In the simulator mode a call of `dequeue` with a reminder of the local clock is undefined: with no
    -- event saved it reads through NULL, and with a saved event at the time of the first reminder or
    -- later, it leaves the function without a result. Nothing is read from the data pipe in this
    -- round, and `reminder_order` has reminders before events.
    pub due_faults :
        (raw : Addr) (b : Bool)
        → event_pipe_is_empty pipes w.store (loop.pipe data_pipe) ≡ ok b
        → b || not (loop.saved_event == 0) ≡ true
        → IsReached
        → (fuel : ℕ)
        → rounds timers pipes (suc fuel) (simulator_round timers pipes raw) w loop ≡ fault
    unfolding rounds simulator_round onward
    due_faults raw b answers skip reached fuel = elim (local_reached reached) [
      | inl bad ↦ rw (simulator_data_skip timers pipes w loop raw b answers skip, bad) refl
      | inr left ↦ rw (simulator_data_skip timers pipes w loop raw b answers skip, left) refl
    ]
