-- ===== src/Loop/Dequeue.antt =====
-- src/cymo_loop.c: `realtime_dequeue` and `simulator_dequeue`, which pick the next event or
-- reminder. A `while (true)` is a number of rounds on fuel. Each part of a round is a function, in the
-- order of the source; the calls of `datetime_now` in one round have one result.
pub mod Data
mod Tests
pub mod Quiet
pub mod Exchange
pub mod Ticks
pub mod Stop
pub mod Due
pub mod Waits
pub mod Starves
pub mod Kept
use libcymo.Common.{
  ℕ, zero, suc, Bool, true, false, not, ◌&&◌, ◌||◌, Option, none, some, leb, ltb, ◌==◌,
  if◌then◌else◌,
}
use libcymo.Common.Int.{ℤ, pos, negsuc}
use libcymo.Memory.{Addr, update, Outcome, ok, fault, out_of_fuel, ◌>>=◌, load}
use libcymo.Spsc.{spsc_queue_pop}
use libcymo.Event.{EventType, code_of, Event, cm_event_new, cm_event_process}
use libcymo.Queue.{CmQueue, index_of}
use libcymo.Tree.{OrderedTree}
use libcymo.Reminder.{
  TimerNode, reminder_queue_pop, reminder_queue_peek, reminder_queue_is_empty, reminder_queue_clear,
}
use libcymo.Pipe.{PipeNode, event_pipe_add, event_pipe_read, event_pipe_is_empty}
use libcymo.Loop.{
  ClockType, CymoMode, ReminderOrder, CymoStatus, World, Allocation, data_pipe, execution_pipe,
  service_pipe, at_clock, at_pipe, Loop,
}
use libcymo.Loop.Settings.{cymo_get_datetime}

-- How a part of a round ends: it returns, by `continue`, by `break`, or at its end.
pub data Round : Type 0 where
  returned : Addr → Round
  again fell_off next : Round

abbrev pub is_set : ℤ → Bool
is_set (pos n) = not (n == 0)
is_set (negsuc n) = true

abbrev pub is_before : ReminderOrder → Bool
is_before ReminderOrder.before = true
is_before ReminderOrder.after = false

abbrev pub is_type : EventType → Event → Bool
is_type t e = code_of e.type == code_of t

abbrev pub is_tick : Event → Bool
is_tick e = is_type EventType.bid e || is_type EventType.ask e || is_type EventType.trade e

-- `e->timestamp = time`.
unfoldable pub stamp : Addr → ℕ → World → Outcome World
stamp e time w = load w.store.events e >>= λ event. ok (record w {
  store = record (w.store) {
    events = update w.store.events e (some (record event { timestamp = time }));
  };
})

module _ (timers : OrderedTree TimerNode) (pipes : OrderedTree PipeNode) where
  abbrev pub Result : Type 0
  Result = Outcome (Round × World × Loop timers pipes)

  -- The next part, if a part ends at its end.
  unfoldable pub onward : Result → (World → Loop timers pipes → Result) → Result
  onward m k = m >>= λ r. elim r.0 [
    | Round.next ↦ k r.1 r.2
    | Round.returned e ↦ ok r
    | Round.again ↦ ok r
    | Round.fell_off ↦ ok r
  ]

  -- `raw` is what the variable of `event_pipe_read` holds before.
  module _ (raw : Addr) where
    unfoldable pub read_pipe :
        ℕ → World → Loop timers pipes → Outcome (Addr × World × Loop timers pipes)
    read_pipe i w loop = event_pipe_read pipes w.store raw (loop.pipe i) >>= λ r.
        ok (r.0, record w { store = r.1 }, record loop { pipe = at_pipe loop.pipe i r.2 })

    -- Returns what a pipe gives, if it is not empty.
    unfoldable pub return_read : ℕ → World → Loop timers pipes → Result
    return_read i w loop = event_pipe_is_empty pipes w.store (loop.pipe i) >>= λ is_empty.
        if is_empty
        then ok (Round.next, w, loop)
        else (read_pipe i w loop >>= λ r. ok (Round.returned r.0, r.1, r.2))

    -- What is done with the event `e` of the data pipe; `time` is the time of the loop.
    unfoldable pub keep_data : ℕ → Addr → World → Loop timers pipes → Result
    keep_data time e w loop = load w.store.events e >>= λ event.
        let saved : Loop timers pipes = record loop { saved_event = e } in
        let stamped : Result = stamp e time w >>= λ w'. ok (Round.next, w', saved) in
        if is_type EventType.simulator_stop event
        then ok (Round.again, w, record loop { is_simulation_stop = pos 1 })
        else if not (ltb event.timestamp time)
        then ok (Round.next, w, saved)
        else if is_type EventType.queue_opened event
            || is_type EventType.queue_closed event
            || is_type EventType.simulator_progress event
        then stamped
        else ok (Round.again, w, loop)

    -- `now` is what `datetime_now` returns.
    unfoldable pub realtime_data : ℕ → World → Loop timers pipes → Result
    realtime_data now w loop =
        event_pipe_is_empty pipes w.store (loop.pipe data_pipe) >>= λ is_empty.
        if not is_empty && (loop.saved_event == 0)
        then (read_pipe data_pipe w loop >>= λ r.
            keep_data (cymo_get_datetime timers pipes now loop) r.0 r.1 r.2)
        else ok (Round.next, w, loop)

    unfoldable pub simulator_data : World → Loop timers pipes → Result
    simulator_data w loop = event_pipe_is_empty pipes w.store (loop.pipe data_pipe) >>= λ is_empty.
        if not is_empty && (loop.saved_event == 0)
        then (read_pipe data_pipe w loop >>= λ r.
            ok (Round.next, r.1, record (r.2) { saved_event = r.0 }))
        else ok (Round.next, w, loop)

  unfoldable pub return_reminder : ClockType → World → Loop timers pipes → Result
  return_reminder c w loop =
      let (rc, t, q) = reminder_queue_pop timers (loop.clock_queue c) in
      ok (Round.returned t, w, record loop { clock_queue = at_clock loop.clock_queue c q })

  -- The first reminder of the local clock against the saved event.
  unfoldable pub local_before : World → Loop timers pipes → Result
  local_before w loop =
      load w.reminders (reminder_queue_peek timers (loop.clock_queue ClockType.local_clock))
      >>= λ t. load w.store.events loop.saved_event >>= λ event.
          if leb t.timestamp event.timestamp
          then ok (Round.fell_off, w, loop)
          else if ltb t.timestamp event.timestamp
          then return_reminder ClockType.local_clock w loop
          else ok (Round.next, w, loop)

  unfoldable pub local_saved : World → Loop timers pipes → Result
  local_saved w loop =
      if not (loop.saved_event == 0) && is_before loop.reminder_order
      then local_before w loop
      else ok (Round.next, w, loop)

  unfoldable pub realtime_local : World → Loop timers pipes → Result
  realtime_local w loop =
      let c = ClockType.local_clock in
      if reminder_queue_is_empty timers (loop.clock_queue c)
      then ok (Round.next, w, loop)
      else if is_set loop.is_simulation_stop && is_set loop.clear_reminders
      then local_saved w (record loop {
        clock_queue =
            at_clock loop.clock_queue c (reminder_queue_clear timers (loop.clock_queue c));
      })
      else if is_set loop.is_simulation_stop && is_set loop.read_reminders
      then return_reminder c w loop
      else local_saved w loop

  unfoldable pub simulator_local : World → Loop timers pipes → Result
  simulator_local w loop =
      if not (reminder_queue_is_empty timers (loop.clock_queue ClockType.local_clock))
        && is_before loop.reminder_order
      then local_before w loop
      else ok (Round.next, w, loop)

  -- The exchange clock, in both modes.
  unfoldable pub exchange_part : World → Loop timers pipes → Result
  exchange_part w loop =
      let c = ClockType.exchange_clock in
      if reminder_queue_is_empty timers (loop.clock_queue c) || (loop.saved_event == 0)
      then ok (Round.next, w, loop)
      else (load w.store.events loop.saved_event >>= λ event.
          if is_tick event && is_before loop.reminder_order
          then (load w.reminders (reminder_queue_peek timers (loop.clock_queue c)) >>= λ t.
              if leb t.timestamp event.exchange_timestamp
              then return_reminder c w loop
              else if ltb t.timestamp event.exchange_timestamp
              then return_reminder c w loop
              else ok (Round.next, w, loop))
          else ok (Round.next, w, loop))

  unfoldable pub return_saved : World → Loop timers pipes → Result
  return_saved w loop =
      if loop.saved_event == 0
      then ok (Round.next, w, loop)
      else ok (Round.returned loop.saved_event, w, record loop { saved_event = 0 })

  -- The end of the simulation is told by an event of its own.
  unfoldable pub return_stop : ℕ → Allocation → World → Loop timers pipes → Result
  return_stop now m w loop =
      if is_set loop.is_simulation_stop
      then (cm_event_new m.usable m.block m.raw EventType.simulator_stop w.store.events >>= λ r.
          stamp r.0 (cymo_get_datetime timers pipes now loop)
            (record w { store = record (w.store) { events = r.1 } })
          >>= λ w'.
              ok (
                Round.returned r.0,
                w',
                record loop { is_simulation_stop = pos 0; saved_event = 0 },
              ))
      else ok (Round.again, w, loop)

  unfoldable pub realtime_round : Addr → ℕ → Allocation → World → Loop timers pipes → Result
  realtime_round raw now m w loop = onward (realtime_data raw now w loop) (λ w1 l1.
      onward (return_read raw execution_pipe w1 l1) (λ w2 l2.
        onward (realtime_local w2 l2) (λ w3 l3. onward (exchange_part w3 l3) (λ w4 l4.
          onward (return_read raw service_pipe w4 l4)
            (λ w5 l5. onward (return_saved w5 l5) (λ w6 l6. return_stop now m w6 l6))))))

  unfoldable pub simulator_round : Addr → World → Loop timers pipes → Result
  simulator_round raw w loop = onward (simulator_data raw w loop) (λ w1 l1.
      onward (simulator_local w1 l1) (λ w2 l2. onward (exchange_part w2 l2) (λ w3 l3.
        onward (return_read raw execution_pipe w3 l3)
          (λ w4 l4. onward (return_read raw service_pipe w4 l4) (λ w5 l5. return_saved w5 l5)))))

  -- The function that `dequeue` calls, by the mode of the loop.
  unfoldable pub round_of : Addr → ℕ → Allocation → CymoMode → World → Loop timers pipes → Result
  round_of raw now m CymoMode.simulator = simulator_round raw
  round_of raw now m CymoMode.realtime = realtime_round raw now m

  -- `while (true)` over a round. A `break` leaves the function without a result, which its caller
  -- uses all the same.
  unfoldable pub rounds :
      ℕ
      → (World → Loop timers pipes → Result)
      → World
      → Loop timers pipes
      → Outcome (Addr × World × Loop timers pipes)
  rounds zero round w loop = out_of_fuel
  rounds (suc fuel) round w loop = round w loop >>= λ r. elim r.0 [
    | Round.returned e ↦ ok (e, r.1, r.2)
    | Round.again ↦ rounds fuel round r.1 r.2
    | Round.next ↦ rounds fuel round r.1 r.2
    | Round.fell_off ↦ fault
  ]
