-- ===== src/Loop/Dequeue/Kept/Parts.antt =====
-- src/cymo_loop.c: the parts of a round keep the reminders valid and the historical pipe as it is.
use libcymo.Common.{ℕ, ◌≡◌, refl, false, not, ◌||◌, ◌&&◌, ltb, leb, ◌==◌}
use libcymo.Memory.{Addr, load}
use libcymo.Event.{EventType, cm_event_new}
use libcymo.Tree.{OrderedTree}
use libcymo.Reminder.{
  TimerNode, reminder_queue_pop, reminder_queue_clear, reminder_queue_peek, reminder_queue_is_empty,
}
use libcymo.Reminder.Kept.{pop-IsValid, clear-IsValid}
use libcymo.Pipe.{PipeNode, event_pipe_is_empty}
use libcymo.Loop.{ClockType, World, Allocation, data_pipe, historical_pipe, at_clock, Loop}
use libcymo.Loop.Settings.{cymo_get_datetime}
use libcymo.Loop.Dequeue.{
  is_type, is_tick, is_before, is_set, return_read, keep_data, realtime_data, simulator_data,
  return_reminder, local_before, local_saved, realtime_local, simulator_local, exchange_part,
  return_saved, return_stop,
}
use libcymo.Loop.Dequeue.Kept.{
  AllHold, bind-AllHold, if-AllHold, same-AllHold, read-AllHold, stamp-AllHold, unchanged,
  queue-Holds, trans-AllHold,
}

module _ (timers : OrderedTree TimerNode) (pipes : OrderedTree PipeNode) where
  module _ (w : World) (loop : Loop timers pipes) where
    pub return_reminder-AllHold :
        (c : ClockType) → AllHold timers pipes w loop (return_reminder timers pipes c w loop)
    unfolding return_reminder
    return_reminder-AllHold c = AllHold.held (
        queue-Holds timers pipes w loop c (reminder_queue_pop timers (loop.clock_queue c)).2
          (pop-IsValid timers w.reminders (loop.clock_queue c)))

    pub return_read-AllHold :
        (raw : Addr) (i : ℕ)
        → (historical_pipe == i) ≡ false
        → AllHold timers pipes w loop (return_read timers pipes raw i w loop)
    unfolding return_read
    return_read-AllHold raw i other =
        bind-AllHold timers pipes (event_pipe_is_empty pipes w.store (loop.pipe i)) λ is_empty.
          if-AllHold timers pipes is_empty (unchanged timers pipes)
            (read-AllHold timers pipes w loop raw i other λ r. (unchanged timers pipes))

    pub keep_data-AllHold :
        (raw : Addr) (time : ℕ) (e : Addr)
        → AllHold timers pipes w loop (keep_data timers pipes raw time e w loop)
    unfolding keep_data
    keep_data-AllHold raw time e = bind-AllHold timers pipes (load w.store.events e) λ event.
        if-AllHold timers pipes (is_type EventType.simulator_stop event)
          (same-AllHold timers pipes refl refl refl refl)
          (if-AllHold timers pipes (not (ltb event.timestamp time))
            (same-AllHold timers pipes refl refl refl refl)
            (if-AllHold timers pipes
              (is_type EventType.queue_opened event
                || is_type EventType.queue_closed event
                || is_type EventType.simulator_progress event)
              (stamp-AllHold timers pipes w loop e time w
                λ w' same. same-AllHold timers pipes same refl refl refl)
              (unchanged timers pipes)))

    pub local_before-AllHold : AllHold timers pipes w loop (local_before timers pipes w loop)
    unfolding local_before
    local_before-AllHold =
        bind-AllHold timers pipes
          (load w.reminders (reminder_queue_peek timers (loop.clock_queue ClockType.local_clock)))
          λ t. bind-AllHold timers pipes (load w.store.events loop.saved_event) λ event.
            if-AllHold timers pipes (leb t.timestamp event.timestamp) (unchanged timers pipes) (
              if-AllHold timers pipes (ltb t.timestamp event.timestamp)
                (return_reminder-AllHold ClockType.local_clock) (unchanged timers pipes))

    pub local_saved-AllHold : AllHold timers pipes w loop (local_saved timers pipes w loop)
    unfolding local_saved
    local_saved-AllHold =
        if-AllHold timers pipes (not (loop.saved_event == 0) && is_before loop.reminder_order)
          local_before-AllHold (unchanged timers pipes)

    pub exchange_part-AllHold : AllHold timers pipes w loop (exchange_part timers pipes w loop)
    unfolding exchange_part
    exchange_part-AllHold =
        let peek = reminder_queue_peek timers (loop.clock_queue ClockType.exchange_clock) in
        if-AllHold timers pipes
          (reminder_queue_is_empty timers (loop.clock_queue ClockType.exchange_clock)
            || (loop.saved_event == 0))
          (unchanged timers pipes)
          (bind-AllHold timers pipes (load w.store.events loop.saved_event) λ event.
            if-AllHold timers pipes (is_tick event && is_before loop.reminder_order)
              (bind-AllHold timers pipes (load w.reminders peek) λ t.
                if-AllHold timers pipes (leb t.timestamp event.exchange_timestamp)
                  (return_reminder-AllHold ClockType.exchange_clock)
                  (if-AllHold timers pipes (ltb t.timestamp event.exchange_timestamp)
                    (return_reminder-AllHold ClockType.exchange_clock) (unchanged timers pipes)))
              (unchanged timers pipes))

    pub return_saved-AllHold : AllHold timers pipes w loop (return_saved timers pipes w loop)
    unfolding return_saved
    return_saved-AllHold =
        if-AllHold timers pipes (loop.saved_event == 0) (unchanged timers pipes)
          (same-AllHold timers pipes refl refl refl refl)

    pub return_stop-AllHold :
        (now : ℕ) (m : Allocation)
        → AllHold timers pipes w loop (return_stop timers pipes now m w loop)
    unfolding return_stop
    return_stop-AllHold now m =
        if-AllHold timers pipes (is_set loop.is_simulation_stop)
          (bind-AllHold timers pipes
            (cm_event_new m.usable m.block m.raw EventType.simulator_stop w.store.events)
            λ r.
              stamp-AllHold timers pipes w loop r.0 (cymo_get_datetime timers pipes now loop)
                (record w { store = record (w.store) { events = r.1 } })
                λ w' same. same-AllHold timers pipes same refl refl refl)
          (unchanged timers pipes)

    pub simulator_local-AllHold : AllHold timers pipes w loop (simulator_local timers pipes w loop)
    unfolding simulator_local
    simulator_local-AllHold =
        if-AllHold timers pipes
          (not (reminder_queue_is_empty timers (loop.clock_queue ClockType.local_clock))
            && is_before loop.reminder_order)
          local_before-AllHold (unchanged timers pipes)

    pub simulator_data-AllHold :
        (raw : ℕ) → AllHold timers pipes w loop (simulator_data timers pipes raw w loop)
    unfolding simulator_data
    simulator_data-AllHold raw =
        bind-AllHold timers pipes (event_pipe_is_empty pipes w.store (loop.pipe data_pipe))
          λ is_empty.
            if-AllHold timers pipes (not is_empty && (loop.saved_event == 0))
              (read-AllHold timers pipes w loop raw data_pipe refl
                λ r. same-AllHold timers pipes refl refl refl refl)
              (unchanged timers pipes)

  module _ (w : World) (loop : Loop timers pipes) where
    pub realtime_data-AllHold :
        (raw now : ℕ) → AllHold timers pipes w loop (realtime_data timers pipes raw now w loop)
    unfolding realtime_data
    realtime_data-AllHold raw now =
        bind-AllHold timers pipes (event_pipe_is_empty pipes w.store (loop.pipe data_pipe))
          λ is_empty.
            if-AllHold timers pipes (not is_empty && (loop.saved_event == 0))
              (read-AllHold timers pipes w loop raw data_pipe refl
                λ r. keep_data-AllHold r.1 r.2 raw (cymo_get_datetime timers pipes now loop) r.0)
              (unchanged timers pipes)

    pub realtime_local-AllHold : AllHold timers pipes w loop (realtime_local timers pipes w loop)
    unfolding realtime_local
    realtime_local-AllHold =
        let c = ClockType.local_clock in
        let q = loop.clock_queue c in
        if-AllHold timers pipes (reminder_queue_is_empty timers q) (unchanged timers pipes) (
          if-AllHold timers pipes (is_set loop.is_simulation_stop && is_set loop.clear_reminders)
            (trans-AllHold timers pipes
              (queue-Holds timers pipes w loop c (reminder_queue_clear timers q)
                (clear-IsValid timers w.reminders q))
              (local_saved-AllHold w (record loop {
                clock_queue = at_clock loop.clock_queue c (reminder_queue_clear timers q);
              })))
            (if-AllHold timers pipes (is_set loop.is_simulation_stop && is_set loop.read_reminders)
              (return_reminder-AllHold w loop c) (local_saved-AllHold w loop)))
