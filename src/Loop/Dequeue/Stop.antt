-- ===== src/Loop/Dequeue/Stop.antt =====
-- src/cymo_loop.c: how `realtime_dequeue` ends a simulation: the reminders of the local clock, and then
-- the event that says so.
use libcymo.Common.{
  ℕ, suc, ◌≤◌, ◌≡◌, refl, ◌∙◌, arith, true, false, some, List, [], ◌∷◌, ◌++◌, length, ltb,
}
use libcymo.Common.Int.{pos}
use libcymo.Memory.{Addr, update, update_self, ok, load-some}
use libcymo.Event.{
  EventType, Event, event_check_type, event_classes, bytes_written, new_event, cm_event_new,
}
use libcymo.Tree.{OrderedTree, elems}
use libcymo.Reminder.{TimerNode, ReminderQueue}
use libcymo.Reminder.Pop.{reminders_of, pop-some, is_empty-some}
use libcymo.Pipe.{PipeNode}
use libcymo.Loop.{
  ClockType, World, Allocation, data_pipe, execution_pipe, service_pipe, at_clock, Loop,
}
use libcymo.Loop.Settings.{cymo_get_datetime}
use libcymo.Loop.Dequeue.{
  Round, is_set, stamp, onward, return_reminder, realtime_local, exchange_part, return_saved,
  return_stop, realtime_round,
}
use libcymo.Loop.Dequeue.Quiet.{
  IsSilent, silent_read, realtime_data_skip, realtime_local_skip, polls, polls-suc,
}

-- The event that tells of the end, at the time `now`.
abbrev pub stop_event : Event → ℕ → Event
stop_event raw now = record (new_event EventType.simulator_stop raw) { timestamp = now }

-- A block of 0 bytes at the address `p` that takes the header of an event.
pub record IsBlock (m : Allocation) (p : Addr) : Type 0 where
  pub given : m.block ≡ some p
  pub roomy : 12 ≤ m.usable 0

module _ (timers : OrderedTree TimerNode) (pipes : OrderedTree PipeNode) where
  abbrev pub local_queue : Loop timers pipes → ReminderQueue timers
  local_queue loop = loop.clock_queue ClockType.local_clock

  -- The simulation has ended, its reminders are to be read, and nothing else waits.
  pub record IsEnding (w : World) (loop : Loop timers pipes) : Type 0 where
    pub no_data : IsSilent timers pipes w loop data_pipe
    pub no_execution : IsSilent timers pipes w loop execution_pipe
    pub no_service : IsSilent timers pipes w loop service_pipe
    pub unsaved : loop.saved_event ≡ 0
    pub stopped : is_set loop.is_simulation_stop ≡ true
    pub not_cleared : is_set loop.clear_reminders ≡ false
    pub read : is_set loop.read_reminders ≡ true

  abbrev with_local : Loop timers pipes → ReminderQueue timers → Loop timers pipes
  with_local loop q = record loop {
    clock_queue = at_clock loop.clock_queue ClockType.local_clock q;
  }

  module _ (w : World) where
    with_local-IsEnding :
        (loop : Loop timers pipes) (q : ReminderQueue timers)
        → IsEnding w loop
        → IsEnding w (with_local loop q)
    with_local-IsEnding loop q t = record {
      no_data = t.no_data;
      no_execution = t.no_execution;
      no_service = t.no_service;
      unsaved = t.unsaved;
      stopped = t.stopped;
      not_cleared = t.not_cleared;
      read = t.read;
    }

    module _ (loop : Loop timers pipes) (t : IsEnding w loop) (raw now : ℕ) (m : Allocation) where
      round-local :
          (n : TimerNode) (l : List TimerNode)
          → elems (timers.shape (local_queue loop).nodes) ≡ n ∷ l
          → (q : ReminderQueue timers) × (realtime_round timers pipes raw now m w loop
              ≡ ok (Round.returned n.reminder, w, with_local loop q))
            × (elems (timers.shape q.nodes) ≡ l)
      unfolding realtime_round onward realtime_local return_reminder
      round-local n l e =
          let (q, pop, rest, _) = pop-some timers (local_queue loop) n l e in
          (
            q,
            rw
                (
                  realtime_data_skip timers pipes w loop raw now true t.no_data refl,
                  silent_read timers pipes w loop raw execution_pipe t.no_execution,
                  realtime_local,
                  is_empty-some timers (local_queue loop) n l e,
                  t.stopped,
                  t.not_cleared,
                  t.read,
                  pop,
                )
                refl,
            rest,
          )

      -- What is left of the loop behind the last event.
      abbrev ended : Loop timers pipes
      ended = record loop { is_simulation_stop = pos 0; saved_event = 0 }

      return_stop_lem :
          (p : Addr)
          → IsBlock m p
          → (w' : World) × (return_stop timers pipes now m w loop
              ≡ ok (Round.returned p, w', ended))
            × (w'.store.events p
                ≡ some (stop_event m.raw (cymo_get_datetime timers pipes now loop)))
      unfolding return_stop cm_event_new event_check_type event_classes bytes_written stamp
      return_stop_lem p b =
          let event = new_event EventType.simulator_stop m.raw in
          let made = update w.store.events p (some event) in
          let time = cymo_get_datetime timers pipes now loop in
          let fits : ltb (m.usable 0) 12 ≡ false = ground (arith, b.roomy) in
          (
            record w {
              store = record (w.store) {
                events = update made p (some (record event { timestamp = time }));
              };
            },
            rw
                (
                  t.stopped,
                  b.given,
                  fits,
                  load-some made p event (update_self w.store.events p (some event)),
                )
                refl,
            update_self made p _,
          )

      round-stop :
          elems (timers.shape (local_queue loop).nodes) ≡ []
          → realtime_round timers pipes raw now m w loop ≡ return_stop timers pipes now m w loop
      unfolding realtime_round onward exchange_part return_saved
      round-stop e =
          rw
            (
              realtime_data_skip timers pipes w loop raw now true t.no_data refl,
              silent_read timers pipes w loop raw execution_pipe t.no_execution,
              realtime_local_skip timers pipes w loop e,
            )
            (ground
              (arith, t.unsaved, silent_read timers pipes w loop raw service_pipe t.no_service))

    module _ (raw : Addr) (now : ℕ → ℕ) (m : ℕ → Allocation) (p : Addr) (b : IsBlock (m 0) p)
        (fuel : ℕ) where
      -- The calls after which the loop has given the reminders `l` and the event at `p`.
      abbrev pub Ends : Loop timers pipes → List TimerNode → Type 0
      Ends loop l =
          (w' : World) × (loop' : Loop timers pipes) × (polls timers pipes (suc (length l)) fuel
              (λ i. realtime_round timers pipes raw (now i) (m i)) w loop
            ≡ ok (reminders_of l ++ p ∷ [], w', loop'))
          × (w'.store.events p
              ≡ some (stop_event (m 0).raw (cymo_get_datetime timers pipes (now 0) loop)))
          × (elems (timers.shape (local_queue loop').nodes) ≡ [])
          × (loop'.is_simulation_stop ≡ pos 0)
          × (loop'.saved_event ≡ 0)

      -- At the end of a simulation, with no event in a pipe or saved, and `read_reminders` set but not
      -- `clear_reminders`, the calls of `realtime_dequeue` return the reminders of the local clock,
      -- each once and in the order of the queue, and then a new event SIMULATOR_STOP with the time of
      -- the loop, at the address that `malloc` gives; the end is told once, and no reminder of the
      -- local clock is left. The block of 0 bytes takes the header of an event.
      pub stop_drains :
          (l : List TimerNode) (loop : Loop timers pipes)
          → IsEnding w loop
          → elems (timers.shape (local_queue loop).nodes) ≡ l
          → Ends loop l
      unfolding polls cymo_get_datetime
      stop_drains [] loop t e =
          let (w', told, there) = return_stop_lem loop t raw (now 0) (m 0) p b in
          (
            w',
            ended loop t raw (now 0) (m 0),
            polls-suc timers pipes 0 fuel (λ i. realtime_round timers pipes raw (now i) (m i)) p []
                w w' w' loop (ended loop t raw (now 0) (m 0)) (ended loop t raw (now 0) (m 0))
                (round-stop loop t raw (now 0) (m 0) e ∙ told) refl,
            there,
            e,
            refl,
            refl,
          )
      stop_drains (n ∷ l) loop t e =
          let k = suc (length l) in
          let (q, round, rest) = round-local loop t raw (now k) (m k) n l e in
          let (w', loop', polled, there, none_left, told, unsaved) =
            stop_drains l (with_local loop q) (with_local-IsEnding loop q t) rest in
          (
            w',
            loop',
            polls-suc timers pipes k fuel (λ i. realtime_round timers pipes raw (now i) (m i))
                n.reminder (reminders_of l ++ p ∷ []) w w w' loop (with_local loop q) loop' round
                polled,
            there,
            none_left,
            told,
            unsaved,
          )
