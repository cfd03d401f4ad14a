-- ===== src/Event/Tests.antt =====
-- src/cymo_event.c at concrete events.
use libcymo.Common.{none, some, List, [], ◌∷◌, ◌-◌, ◌^◌}
use libcymo.Event.{EventType, Event, Events}
use libcymo.Event.RefCount.{Use}

-- What a block may hold before, and an event with one reference.
abbrev dirty : Event
dirty = record {
  timestamp = 11;
  type = EventType.reminder;
  ref = 77;
  exchange_timestamp = 12;
  provider = 13;
  instrument = 14;
  price = 15;
  size = 16;
}

abbrev nothing : Events
nothing a = none

abbrev one_event : Events
one_event a = some (record dirty { ref = 1 })

-- Two threads share the event in turn.
abbrev shared : List Use
shared = Use.take ∷ Use.take ∷ Use.give ∷ Use.take ∷ Use.give ∷ Use.give ∷ []

abbrev crowded : Events
crowded a = some (record dirty { ref = 2 ^ 16 - 1 })
