-- ===== src/Event/New.antt =====
-- src/cymo_event.c: which events `cm_event_new` can make.
use libcymo.Common.{ℕ, ◌≤◌, ◌<◌, ◌≡◌, ◌≢◌, ◌↔◌, refl, arith, some}
use libcymo.Memory.{Addr, update, update_self, update_ne, ok, fault}
use libcymo.Event.{
  EventType, code_of, Event, Events, tick_event_init, event_check_type, event_classes,
  bytes_written, new_event, cm_event_new,
}

-- With a `malloc` that gives no more bytes than asked for, `cm_event_new` writes past its block for
-- each type but the three kinds of tick.
pub cm_event_new-fault_iff :
    (p : Addr) (raw : Event) (t : EventType) (h : Events)
    → (cm_event_new (λ n. n) (some p) raw t h ≡ fault) ↔ (3 ≤ code_of t)
unfolding cm_event_new event_check_type event_classes bytes_written
cm_event_new-fault_iff p raw EventType.ask h = (λ e. cc, λ k. absurd (omega arith))
cm_event_new-fault_iff p raw EventType.bid h = (λ e. cc, λ k. absurd (omega arith))
cm_event_new-fault_iff p raw EventType.trade h = (λ e. cc, λ k. absurd (omega arith))
cm_event_new-fault_iff p raw _ h = (λ e. omega arith, λ k. refl)

-- A new tick, from any `malloc` that gives at least what was asked for: one reference, no provider,
-- instrument, price or size, and nothing else on the heap changed.
pub cm_event_new-tick :
    (usable : ℕ → ℕ) (p : Addr) (raw : Event) (t : EventType) (h : Events)
    → ((n : ℕ) → n ≤ usable n)
    → code_of t < 3
    → (h' : Events) × (cm_event_new usable (some p) raw t h ≡ ok (p, h'))
      × (h' p
          ≡ some
              (record raw { type = t; ref = 1; provider = 0; instrument = 0; price = 0; size = 0 }))
      × ((a : Addr) → a ≢ p → h' a ≡ h a)
unfolding cm_event_new event_check_type event_classes bytes_written new_event tick_event_init
cm_event_new-tick usable p raw EventType.ask h u k = (
  update h p (some (new_event EventType.ask raw)),
  ground (arith, u 48),
  update_self h p _,
  λ a n. update_ne h p a _ n,
)
cm_event_new-tick usable p raw EventType.bid h u k = (
  update h p (some (new_event EventType.bid raw)),
  ground (arith, u 48),
  update_self h p _,
  λ a n. update_ne h p a _ n,
)
cm_event_new-tick usable p raw EventType.trade h u k = (
  update h p (some (new_event EventType.trade raw)),
  ground (arith, u 48),
  update_self h p _,
  λ a n. update_ne h p a _ n,
)
cm_event_new-tick usable p raw _ h u k = absurd (omega arith)
