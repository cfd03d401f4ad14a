-- ===== src/Loop/Dequeue/Exchange.antt =====
-- src/cymo_loop.c: the reminders of the exchange clock in a round with a tick saved, in
-- both modes.
use libcymo.Common.{ℕ, ◌≡◌, refl, ◌∙◌, arith, true, false, some, List, [], ◌∷◌, ◌==◌, leb}
use libcymo.Memory.{Addr, ok, load-some}
use libcymo.Event.{Event}
use libcymo.Tree.{OrderedTree, elems}
use libcymo.Reminder.{Reminder, TimerNode, ReminderQueue}
use libcymo.Reminder.Pop.{pop-some, peek-some, is_empty-some, is_empty-none}
use libcymo.Pipe.{PipeNode}
use libcymo.Loop.{
  ClockType, CymoMode, World, Allocation, execution_pipe, service_pipe, at_clock, Loop,
}
use libcymo.Loop.Dequeue.{
  Round, is_before, is_tick, onward, return_reminder, exchange_part, return_saved, round_of,
}
use libcymo.Loop.Dequeue.Quiet.{IsQuiet, silent_read, realtime_quiet, simulator_quiet}

module _ (timers : OrderedTree TimerNode) (pipes : OrderedTree PipeNode) where
  abbrev pub exchange_queue : Loop timers pipes → ReminderQueue timers
  exchange_queue loop = loop.clock_queue ClockType.exchange_clock

  -- A quiet loop with the tick `event` saved, which reads reminders before events.
  pub record IsTicking (w : World) (event : Event) (loop : Loop timers pipes) : Type 0 where
    pub quiet : IsQuiet timers pipes w loop
    pub saved : (loop.saved_event == 0) ≡ false
    pub there : w.store.events loop.saved_event ≡ some event
    pub ticks : is_tick event ≡ true
    pub reads_before : is_before loop.reminder_order ≡ true

  abbrev pub with_exchange : Loop timers pipes → ReminderQueue timers → Loop timers pipes
  with_exchange loop q = record loop {
    clock_queue = at_clock loop.clock_queue ClockType.exchange_clock q;
  }

  module _ (w : World) (event : Event) where
    pub with_exchange-IsTicking :
        (loop : Loop timers pipes) (q : ReminderQueue timers)
        → IsTicking w event loop
        → IsTicking w event (with_exchange loop q)
    with_exchange-IsTicking loop q t = record {
      quiet = record {
        data_is_empty = t.quiet.data_is_empty;
        data_answers = t.quiet.data_answers;
        no_execution = t.quiet.no_execution;
        no_service = t.quiet.no_service;
        no_local = t.quiet.no_local;
      };
      saved = t.saved;
      there = t.there;
      ticks = t.ticks;
      reads_before = t.reads_before;
    }

    module _ (loop : Loop timers pipes) (t : IsTicking w event loop) where
      -- The part of the round that looks at the exchange clock.
      pub exchange_due :
          (n : TimerNode) (l : List TimerNode) (r : Reminder)
          → elems (timers.shape (exchange_queue loop).nodes) ≡ n ∷ l
          → w.reminders n.reminder ≡ some r
          → leb r.timestamp event.exchange_timestamp ≡ true
          → (q : ReminderQueue timers) × (exchange_part timers pipes w loop
              ≡ ok (Round.returned n.reminder, w, with_exchange loop q))
            × (elems (timers.shape q.nodes) ≡ l)
      unfolding exchange_part return_reminder
      exchange_due n l r e at due =
          let (q, pop, rest, _) = pop-some timers (exchange_queue loop) n l e in
          (
            q,
            rw
                (
                  is_empty-some timers (exchange_queue loop) n l e,
                  t.saved,
                  load-some w.store.events loop.saved_event event t.there,
                  t.ticks,
                  t.reads_before,
                  peek-some timers (exchange_queue loop) n l e,
                  load-some w.reminders n.reminder r at,
                  due,
                  pop,
                )
                refl,
            rest,
          )

      pub exchange_none :
          elems (timers.shape (exchange_queue loop).nodes) ≡ []
          → exchange_part timers pipes w loop ≡ ok (Round.next, w, loop)
      unfolding exchange_part
      exchange_none e = rw (is_empty-none timers (exchange_queue loop) e) refl

      pub exchange_later :
          (n : TimerNode) (l : List TimerNode) (r : Reminder)
          → elems (timers.shape (exchange_queue loop).nodes) ≡ n ∷ l
          → w.reminders n.reminder ≡ some r
          → leb r.timestamp event.exchange_timestamp ≡ false
          → exchange_part timers pipes w loop ≡ ok (Round.next, w, loop)
      unfolding exchange_part
      exchange_later n l r e at later =
          rw
            (
              is_empty-some timers (exchange_queue loop) n l e,
              t.saved,
              load-some w.store.events loop.saved_event event t.there,
              t.ticks,
              t.reads_before,
              peek-some timers (exchange_queue loop) n l e,
              load-some w.reminders n.reminder r at,
              later,
            )
            (ground (arith, later))

      module _ (raw now : ℕ) (m : Allocation) where
        return_saved_lem :
            return_saved timers pipes w loop
            ≡ ok (Round.returned loop.saved_event, w, record loop { saved_event = 0 })
        unfolding return_saved
        return_saved_lem = rw (t.saved) refl

        -- A round returns what the exchange clock gives, or the saved event.
        pub round-due :
            (mode : CymoMode) (e : Addr) (loop' : Loop timers pipes)
            → exchange_part timers pipes w loop ≡ ok (Round.returned e, w, loop')
            → round_of timers pipes raw now m mode w loop ≡ ok (Round.returned e, w, loop')
        unfolding round_of onward
        round-due CymoMode.simulator e loop' h =
            simulator_quiet timers pipes w loop raw t.quiet t.saved ∙ rw h refl
        round-due CymoMode.realtime e loop' h =
            realtime_quiet timers pipes w loop raw t.quiet t.saved now m ∙ rw h refl

        pub round-tick :
            (mode : CymoMode)
            → exchange_part timers pipes w loop ≡ ok (Round.next, w, loop)
            → round_of timers pipes raw now m mode w loop
              ≡ ok (Round.returned loop.saved_event, w, record loop { saved_event = 0 })
        unfolding round_of onward
        round-tick CymoMode.simulator h =
            simulator_quiet timers pipes w loop raw t.quiet t.saved
            ∙ rw
                (
                  h,
                  silent_read timers pipes w loop raw execution_pipe t.quiet.no_execution,
                  silent_read timers pipes w loop raw service_pipe t.quiet.no_service,
                )
                return_saved_lem
        round-tick CymoMode.realtime h =
            realtime_quiet timers pipes w loop raw t.quiet t.saved now m
            ∙ rw
                (
                  h,
                  silent_read timers pipes w loop raw service_pipe t.quiet.no_service,
                  return_saved_lem,
                )
                refl
