-- ===== src/Loop/Timers.antt =====
-- src/cymo_loop.c: what `cymo_add_reminder` makes of the result of `reminder_queue_push`.
use libcymo.Common.{ℕ, ◌<◌, ◌^◌, ◌≡◌, ◌≢◌, refl, ap, ◌∙◌, arith, true, false, none, some, ◌==◌}
use libcymo.Common.Int.{negsuc}
use libcymo.Memory.{Addr, update, update_self, ok}
use libcymo.Event.{EventType, code_of}
use libcymo.Tree.{OrderedTree, elems}
use libcymo.Tree.Place.{All, place}
use libcymo.Reminder.{Reminder, TimerNode}
use libcymo.Reminder.Order.{time_of, IsValid}
use libcymo.Reminder.Push.{new_node, IsFresh, push_fresh, grown}
use libcymo.Pipe.{PipeNode}
use libcymo.Loop.{World, ClockType, at_clock, Loop, cymo_add_reminder}

-- The reminder as `cymo_add_reminder` fills it in.
abbrev pub timer_of : Reminder → (time_at cb data_ : ℕ) → Reminder
timer_of raw time_at cb data_ = record raw {
  callback = cb;
  user_data = data_;
  type = code_of EventType.reminder;
  timestamp = time_at;
}

at_clock_self : {A : Type 0} (f : ClockType → A) (c : ClockType) (a : A) → at_clock f c a c ≡ a
at_clock_self f ClockType.local_clock a = refl
at_clock_self f ClockType.exchange_clock a = refl

module _ (timers : OrderedTree TimerNode) (pipes : OrderedTree PipeNode) where
  -- For a reminder unlike those in the queue of the clock, `cymo_add_reminder` returns -2 and frees
  -- the reminder, but its node is in the queue, at its place.
  pub add_reminder_dangles :
      (p : Addr) (raw : Reminder) (w : World) (loop : Loop timers pipes) (c : ClockType)
      (time_at cb data_ : ℕ)
      → let r = timer_of raw time_at cb data_ in
        let h = update w.reminders p (some r) in
        let q = loop.clock_queue c in
        p ≢ 0
        → IsValid timers h q
        → q.timer_counter < 2 ^ 31
        → All (IsFresh h p r) (elems (timers.shape q.nodes))
        → (w' : World) × (loop' : Loop timers pipes) × (cymo_add_reminder timers pipes
              (some p)
              raw
              true
              w
              loop
              c
              time_at
              cb
              data_
            ≡ ok (negsuc 1, w', loop'))
          × (w'.reminders p ≡ none)
          × (elems (timers.shape (loop'.clock_queue c).nodes)
              ≡ place (time_of h) (new_node timers q p) (elems (timers.shape q.nodes)))
  unfolding cymo_add_reminder
  add_reminder_dangles p raw w loop c time_at cb data_ present v room fresh =
      let r = timer_of raw time_at cb data_ in
      let h = update w.reminders p (some r) in
      let q = loop.clock_queue c in
      let (t, pushed, nonzero, there, _) =
        push_fresh timers h q v p r (update_self w.reminders p (some r)) present room fresh in
      let busy : (q.timer_counter == 0) ≡ false = ground (arith, v.counted) in
      (
        record w { reminders = update h p none },
        record loop { clock_queue = at_clock loop.clock_queue c (grown timers q t) },
        rw (pushed, busy) refl,
        update_self h p none,
        ap (λ k. elems (timers.shape k.nodes)) (at_clock_self loop.clock_queue c (grown timers q t))
            ∙ there,
      )
