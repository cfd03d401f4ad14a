-- ===== src/Loop/Dequeue/Ticks.antt =====
-- src/cymo_loop.c: the reminders of the exchange clock come before the tick that is saved.
use libcymo.Common.{
  ℕ, suc, ◌≡◌, refl, arith, not, List, [], ◌∷◌, ◌++◌, length, Bool-cases, inl, inr,
}
use libcymo.Memory.{Addr, ok}
use libcymo.Event.{Event}
use libcymo.Tree.{OrderedTree, elems}
use libcymo.Tree.Place.{All, IsSorted}
use libcymo.Reminder.{TimerNode}
use libcymo.Reminder.Order.{time_of, IsKnown, IsValid}
use libcymo.Reminder.Pop.{reminders_of}
use libcymo.Pipe.{PipeNode}
use libcymo.Loop.{CymoMode, World, Allocation, Loop}
use libcymo.Loop.Dequeue.{Round, exchange_part, round_of}
use libcymo.Loop.Dequeue.Quiet.{polls, polls-suc}
use libcymo.Reminder.Due.{select, is_due, select-due, select-later}
use libcymo.Loop.Dequeue.Exchange.{
  exchange_queue, IsTicking, with_exchange, with_exchange-IsTicking, exchange_due, exchange_none,
  exchange_later, round-due, round-tick,
}

module _ (timers : OrderedTree TimerNode) (pipes : OrderedTree PipeNode) where
  module _ (w : World) (event : Event) where
    module _ (raw : Addr) (now : ℕ → ℕ) (m : ℕ → Allocation) (mode : CymoMode) (fuel : ℕ) where
      -- The loop after it has given the reminders `due` and the tick, with the reminders `later` left.
      abbrev pub Gives : Loop timers pipes → (due later : List TimerNode) → Type 0
      Gives loop due later =
          (loop' : Loop timers pipes) × (polls timers pipes (suc (length due)) fuel
              (λ i. round_of timers pipes raw (now i) (m i) mode) w loop
            ≡ ok (reminders_of due ++ loop.saved_event ∷ [], w, loop'))
          × (elems (timers.shape (exchange_queue timers pipes loop').nodes) ≡ later)
          × (loop'.saved_event ≡ 0)
          × (loop'.pipe ≡ loop.pipe)

      Gives-tick :
          (loop : Loop timers pipes) (later : List TimerNode)
          → IsTicking timers pipes w event loop
          → elems (timers.shape (exchange_queue timers pipes loop).nodes) ≡ later
          → exchange_part timers pipes w loop ≡ ok (Round.next, w, loop)
          → Gives loop [] later
      unfolding polls
      Gives-tick loop later t e h = (
        record loop { saved_event = 0 },
        polls-suc timers pipes 0 fuel (λ i. round_of timers pipes raw (now i) (m i) mode)
            loop.saved_event [] w w w loop (record loop { saved_event = 0 })
            (record loop { saved_event = 0 })
            (round-tick timers pipes w event loop t raw (now _) (m _) mode h) refl,
        e,
        refl,
        refl,
      )

      in_order :
          (c : ℕ) (l : List TimerNode) (loop : Loop timers pipes)
          → IsTicking timers pipes w event loop
          → elems (timers.shape (exchange_queue timers pipes loop).nodes) ≡ l
          → IsSorted (time_of w.reminders) l
          → All (IsKnown w.reminders c) l
          → Gives loop
              (select (is_due w.reminders event.exchange_timestamp) l)
              (select (λ x. not (is_due w.reminders event.exchange_timestamp x)) l)
      unfolding select
      in_order c [] loop t e s k =
          Gives-tick loop [] t e (exchange_none timers pipes w event loop t e)
      in_order c (n ∷ l) loop t e s k =
          let (r, at, _, _, _) = k.0 in
          let time : time_of w.reminders n ≡ r.timestamp = ground (arith, at) in
          elim (Bool-cases (is_due w.reminders event.exchange_timestamp n)) [
            | inl due ↦
                let (q, part, rest) =
                  exchange_due timers pipes w event loop t n l r e at (ground (arith, due, time)) in
                let (loop', polled, left, unsaved, same) =
                  in_order c l (with_exchange timers pipes loop q)
                    (with_exchange-IsTicking timers pipes w event loop q t) rest s.1 k.1 in
                let (first, others) = select-due w.reminders event.exchange_timestamp n l due in
                rw (first, others)
                  (
                    loop',
                    polls-suc timers pipes _ fuel
                        (λ i. round_of timers pipes raw (now i) (m i) mode) n.reminder _ w w w loop
                        (with_exchange timers pipes loop q) loop'
                        (round-due timers pipes w event loop t raw (now _) (m _) mode n.reminder
                          (with_exchange timers pipes loop q) part)
                        polled,
                    left,
                    unsaved,
                    same,
                  )
            | inr later ↦
                let (none_due, all_later) =
                  select-later w.reminders event.exchange_timestamp (time_of w.reminders n) l later
                    s.0 in
                rw (later, none_due, all_later)
                  (Gives-tick loop (n ∷ l) t e (
                    exchange_later timers pipes w event loop t n l r e at
                      (ground (arith, later, time))))
          ]

      -- In both modes, while no event of an execution or a service comes in, and no reminder waits
      -- for the local clock, a dequeue function with a tick saved returns the reminders of the
      -- exchange clock with a time up to that of the tick, each once and in the order of their times,
      -- and then the tick; the reminders with a later time stay. `reminder_order` has reminders
      -- before events.
      pub exchange_before_tick :
          (loop : Loop timers pipes)
          → IsTicking timers pipes w event loop
          → IsValid timers w.reminders (exchange_queue timers pipes loop)
          → let l = elems (timers.shape (exchange_queue timers pipes loop).nodes) in
            Gives loop
              (select (is_due w.reminders event.exchange_timestamp) l)
              (select (λ x. not (is_due w.reminders event.exchange_timestamp x)) l)
      exchange_before_tick loop t v =
          in_order (exchange_queue timers pipes loop).timer_counter _ loop t refl v.sorted v.known
