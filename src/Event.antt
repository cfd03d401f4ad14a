-- ===== src/Event.antt =====
-- src/cymo_event.c and src/cymo_event.h: events with a reference count. `malloc` is an argument: the
-- address that it returns (none for NULL), what the block holds, and how many bytes of a block of
-- `n` bytes can be used.
pub mod New
pub mod RefCount
mod Tests
use libcymo.Common.{
  ℕ, ◌+◌, ◌-◌, ◌%◌, ◌^◌, Bool, true, false, not, Option, none, some, u16, ltb, leb, ◌==◌,
  if◌then◌else◌,
}
use libcymo.Memory.{Addr, Heap, update, Outcome, ok, fault, ◌>>=◌, ◌>>◌, load, assert}

pub data EventType : Type 0 where
  ask bid trade : EventType
  queue_opened queue_closed : EventType
  reminder : EventType
  simulator_start simulator_stop simulator_progress : EventType
  loop_resume loop_step loop_pause loop_stopped : EventType
  custom_start : EventType

-- The value of the enumerator.
abbrev pub code_of : EventType → ℕ
code_of EventType.ask = 0
code_of EventType.bid = 1
code_of EventType.trade = 2
code_of EventType.queue_opened = 3
code_of EventType.queue_closed = 4
code_of EventType.reminder = 5
code_of EventType.simulator_start = 6
code_of EventType.simulator_stop = 7
code_of EventType.simulator_progress = 8
code_of EventType.loop_resume = 9
code_of EventType.loop_step = 10
code_of EventType.loop_pause = 11
code_of EventType.loop_stopped = 12
code_of EventType.custom_start = 13

-- `event_t`, with the fields of `tick_t` behind it. The price is the bit pattern of the `double`,
-- which is 0 for the number 0.
pub record Event : Type 0 where
  pub timestamp : ℕ
  pub type : EventType
  pub ref : ℕ
  pub exchange_timestamp : ℕ
  pub provider : ℕ
  pub instrument : ℕ
  pub price : ℕ
  pub size : ℕ

abbrev pub Events : Type 0
Events = Heap Event

-- The result is the count before.
unfoldable pub event_ref : Addr → Events → Outcome (ℕ × Events)
event_ref p h = do e ← load h p; ok (e.ref, update h p (some (record e { ref = u16 (e.ref + 1) })))

-- `cm_event_free` calls the class's `destory`, which no class has, and frees the block.
unfoldable pub cm_event_free : Addr → Events → Outcome Events
cm_event_free p h = do e ← load h p; ok (update h p none)

unfoldable pub event_unref : Addr → Events → Outcome (ℕ × Events)
event_unref p h = do
  e ← load h p
  let h' = update h p (some (record e { ref = u16 (e.ref + 2 ^ 16 - 1) }))
  left ← if e.ref == 1 then cm_event_free p h' else ok h'
  ok (e.ref, left)

unfoldable pub event_is_single_ref : Addr → Events → Outcome Bool
event_is_single_ref p h = load h p >>= λ e. ok (e.ref == 1)

unfoldable pub tick_event_init : Event → Event
tick_event_init e = record e { provider = 0; instrument = 0; price = 0; size = 0 }

-- `true` is the result 1, for a type that is not one of the enumeration's own.
unfoldable pub event_check_type : EventType → Bool
event_check_type t = leb (code_of EventType.custom_start) (code_of t)

-- `sizeof(tick_t)` on a 64-bit target.
abbrev pub sizeof_tick : ℕ
sizeof_tick = 48

pub record EventClass : Type 0 where
  pub size : ℕ
  pub init : Option (Event → Event)

-- The table names the first three classes; the others are all zero. No class has `destory`.
unfoldable pub event_classes : EventType → EventClass
event_classes EventType.ask = record { size = sizeof_tick; init = some tick_event_init }
event_classes EventType.bid = record { size = sizeof_tick; init = some tick_event_init }
event_classes EventType.trade = record { size = sizeof_tick; init = some tick_event_init }
event_classes _ = record { size = 0; init = none }

-- Where the last byte ends that `cm_event_new` writes: `ref` ends at 12 on a 64-bit target, and
-- `tick_event_init` writes up to the end of `tick_t`.
unfoldable pub bytes_written : EventType → ℕ
bytes_written t = elim (event_classes t).init [ none ↦ 12 | some _ ↦ sizeof_tick ]

-- The event as it stands in the block that held `raw`.
unfoldable pub new_event : EventType → Event → Event
new_event t raw =
    let e = record raw { type = t; ref = 1 } in
    elim (event_classes t).init [ none ↦ e | some init ↦ init e ]

-- `usable n` bytes of a block of `n` bytes can be written.
unfoldable pub cm_event_new :
    (ℕ → ℕ) → Option Addr → Event → EventType → Events → Outcome (Addr × Events)
cm_event_new usable block raw t h = assert (not (event_check_type t)) >> elim block [
  | none ↦ ok (0, h)
  | some p ↦
      if ltb (usable (event_classes t).size) (bytes_written t)
      then fault
      else ok (p, update h p (some (new_event t raw)))
]

-- `cm_event_process` does nothing.
unfoldable pub cm_event_process : Addr → Events → Events
cm_event_process p h = h
