-- ===== src/Loop/Dequeue/Kept.antt =====
-- src/cymo_loop.c: what no round of a dequeue function changes, and how it passes through the
-- control flow of a round.
pub mod Parts
pub mod Rounds
use libcymo.Common.{
  ℕ, zero, suc, ◌≡◌, refl, ◌∙◌, subst, sym, arith, Bool, true, false, not, ◌||◌, ◌&&◌, ltb, leb,
  Option, none, some, List, ◌==◌, if◌then◌else◌,
}
use libcymo.Common.Int.{ℤ}
use libcymo.Memory.{Addr, update, Outcome, ok, fault, out_of_fuel, ◌>>=◌, load}
use libcymo.Event.{EventType, Event, cm_event_new}
use libcymo.Tree.{OrderedTree}
use libcymo.Reminder.{
  Reminders, TimerNode, ReminderQueue, reminder_queue_pop, reminder_queue_clear,
  reminder_queue_peek, reminder_queue_is_empty,
}
use libcymo.Reminder.Order.{IsValid}
use libcymo.Reminder.Kept.{pop-IsValid, clear-IsValid}
use libcymo.Pipe.{PipeNode, Store, EventPipe, event_pipe_read, event_pipe_is_empty}
use libcymo.Loop.{
  ClockType, CymoMode, CymoStatus, ReminderOrder, World, Allocation, data_pipe, historical_pipe,
  execution_pipe, service_pipe, at_clock, at_pipe, Loop,
}
use libcymo.Loop.Settings.{cymo_get_datetime}
use libcymo.Loop.Dequeue.{
  Round, Result, is_type, is_tick, is_before, is_set, stamp, onward, read_pipe, return_read,
  keep_data, realtime_data, simulator_data, return_reminder, local_before, local_saved,
  realtime_local, simulator_local, exchange_part, return_saved, return_stop, realtime_round,
  simulator_round, round_of, rounds,
}

module _ (timers : OrderedTree TimerNode) (pipes : OrderedTree PipeNode) where
  -- What the other threads set.
  abbrev pub settings :
      Loop timers pipes → ℤ × CymoStatus × CymoMode × (ClockType → ℕ) × ReminderOrder
  settings loop = (loop.quit, loop.status, loop.mode, loop.clock_datetime, loop.reminder_order)

  -- The reminders, the historical pipe and the settings are the same, and the queues of reminders are still valid.
  pub record Holds (w : World) (loop : Loop timers pipes) (w' : World) (loop' : Loop timers pipes)
      : Type 0 where
    pub same_reminders : w'.reminders ≡ w.reminders
    pub same_historical : loop'.pipe historical_pipe ≡ loop.pipe historical_pipe
    pub same_settings : settings loop' ≡ settings loop
    pub same_validity :
        (c : ClockType)
        → IsValid timers w.reminders (loop.clock_queue c)
        → IsValid timers w'.reminders (loop'.clock_queue c)

  -- What holds if the result is one.
  pub data AllHold (w : World) (loop : Loop timers pipes) : Result timers pipes → Type 0 where
    held : {a : Round × World × Loop timers pipes} → Holds w loop a.1 a.2 → AllHold w loop (ok a)
    faulted : AllHold w loop fault
    spent : AllHold w loop out_of_fuel

  Holds-refl : (w : World) (loop : Loop timers pipes) → Holds w loop w loop
  Holds-refl w loop = record {
    same_reminders = refl;
    same_historical = refl;
    same_settings = refl;
    same_validity = λ c v. v;
  }

  pub Holds-trans :
      {w w1 w2 : World} {loop loop1 loop2 : Loop timers pipes}
      → Holds w loop w1 loop1
      → Holds w1 loop1 w2 loop2
      → Holds w loop w2 loop2
  Holds-trans a b = record {
    same_reminders = b.same_reminders ∙ a.same_reminders;
    same_historical = b.same_historical ∙ a.same_historical;
    same_settings = b.same_settings ∙ a.same_settings;
    same_validity = λ c v. b.same_validity c (a.same_validity c v);
  }

  pub trans-AllHold :
      {w w1 : World} {loop loop1 : Loop timers pipes} {r : Result timers pipes}
      → Holds w loop w1 loop1
      → AllHold w1 loop1 r
      → AllHold w loop r
  trans-AllHold a (AllHold.held b) = AllHold.held (Holds-trans a b)
  trans-AllHold a AllHold.faulted = AllHold.faulted
  trans-AllHold a AllHold.spent = AllHold.spent

  module _ {w : World} {loop : Loop timers pipes} where
    pub bind-AllHold :
        {A : Type 0} (m : Outcome A) {k : A → Result timers pipes}
        → ((a : A) → AllHold w loop (k a))
        → AllHold w loop (m >>= k)
    bind-AllHold (ok a) h = h a
    bind-AllHold fault h = AllHold.faulted
    bind-AllHold out_of_fuel h = AllHold.spent

    pub if-AllHold :
        (b : Bool) {x y : Result timers pipes}
        → AllHold w loop x
        → AllHold w loop y
        → AllHold w loop (if b then x else y)
    if-AllHold true h k = h
    if-AllHold false h k = k

    pub onward-AllHold :
        {m : Result timers pipes} {k : World → Loop timers pipes → Result timers pipes}
        → AllHold w loop m
        → ((w' : World) (loop' : Loop timers pipes) → AllHold w' loop' (k w' loop'))
        → AllHold w loop (onward timers pipes m k)
    unfolding onward
    onward-AllHold {m = ok (Round.next, w', loop')} (AllHold.held h) next =
        trans-AllHold h (next w' loop')
    onward-AllHold {m = ok (Round.returned e, w', loop')} h next = h
    onward-AllHold {m = ok (Round.again, w', loop')} h next = h
    onward-AllHold {m = ok (Round.fell_off, w', loop')} h next = h
    onward-AllHold {m = fault} h next = AllHold.faulted
    onward-AllHold {m = out_of_fuel} h next = AllHold.spent

    pub same-AllHold :
        {r : Round} {w' : World} {loop' : Loop timers pipes}
        → w'.reminders ≡ w.reminders
        → loop'.pipe historical_pipe ≡ loop.pipe historical_pipe
        → settings loop' ≡ settings loop
        → loop'.clock_queue ≡ loop.clock_queue
        → AllHold w loop (ok (r, w', loop'))
    same-AllHold same_reminders same_historical same_settings same_queues = AllHold.held (record {
      same_reminders = same_reminders;
      same_historical = same_historical;
      same_settings = same_settings;
      same_validity = λ c v. rw (same_reminders, same_queues) v;
    })

    pub unchanged : {r : Round} → AllHold w loop (ok (r, w, loop))
    unchanged = AllHold.held (Holds-refl w loop)

  module _ (w : World) (loop : Loop timers pipes) where
    -- A queue of reminders that is valid if it was, in place of that of the clock `c`.
    pub queue-Holds :
        (c : ClockType) (q : ReminderQueue timers)
        → (IsValid timers w.reminders (loop.clock_queue c) → IsValid timers w.reminders q)
        → Holds w loop w (record loop { clock_queue = at_clock loop.clock_queue c q })
    queue-Holds c q h = record {
      same_reminders = refl;
      same_historical = refl;
      same_settings = refl;
      same_validity = validity c h;
    }
      where
        validity :
            (c : ClockType)
            → (IsValid timers w.reminders (loop.clock_queue c) → IsValid timers w.reminders q)
            → (d : ClockType) → IsValid timers w.reminders (loop.clock_queue d)
            → IsValid timers w.reminders (at_clock loop.clock_queue c q d)
        validity ClockType.local_clock h ClockType.local_clock v = h v
        validity ClockType.local_clock h ClockType.exchange_clock v = v
        validity ClockType.exchange_clock h ClockType.local_clock v = v
        validity ClockType.exchange_clock h ClockType.exchange_clock v = h v

    pub read-AllHold :
        (raw : Addr) (i : ℕ) {k : Addr × World × Loop timers pipes → Result timers pipes}
        → (historical_pipe == i) ≡ false
        → ((r : Addr × World × Loop timers pipes) → AllHold r.1 r.2 (k r))
        → AllHold w loop (read_pipe timers pipes raw i w loop >>= k)
    unfolding read_pipe
    read-AllHold raw i {k} other h = go (event_pipe_read pipes w.store raw (loop.pipe i))
      where
        read : Addr × Store × EventPipe pipes → Addr × World × Loop timers pipes
        read r = (r.0, record w { store = r.1 }, record loop { pipe = at_pipe loop.pipe i r.2 })

        go :
            (o : Outcome (Addr × Store × EventPipe pipes))
            → AllHold w loop ((o >>= λ r. ok (read r)) >>= k)
        go (ok r) =
            trans-AllHold
              (record {
                same_reminders = refl;
                same_historical = rw other refl;
                same_settings = refl;
                same_validity = λ c v. v;
              })
              (h (read r))
        go fault = AllHold.faulted
        go out_of_fuel = AllHold.spent

    pub stamp-AllHold :
        (e : Addr) (time : ℕ) (w' : World) {k : World → Result timers pipes}
        → ((w'' : World) → w''.reminders ≡ w'.reminders → AllHold w loop (k w''))
        → AllHold w loop (stamp e time w' >>= k)
    unfolding stamp
    stamp-AllHold e time w' {k} h = go (w'.store.events e)
      where
        go :
            (o : Option Event)
            → AllHold w loop (
                (elim o as (λ _. Outcome Event) [ none ↦ fault | some x ↦ ok x ] >>= λ event.
                ok (record w' {
                  store = record (w'.store) {
                    events = update w'.store.events e (some (record event { timestamp = time }));
                  };
                }))
                >>= k)
        go none = AllHold.faulted
        go (some event) = h _ refl
