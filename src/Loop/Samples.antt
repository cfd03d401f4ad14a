-- ===== src/Loop/Samples.antt =====
-- src/cymo_loop.c: a loop for the tests.
use libcymo.Common.{ℕ, refl, arith, ◌==◌, if◌then◌else◌, none, some, [], ◌∷◌, ◌+◌}
use libcymo.Common.Int.{pos}
use libcymo.Event.{EventType, Event}
use libcymo.Tree.{leaf, node, elems, OrderedTree}
use libcymo.Tree.Plain.{plain}
use libcymo.Reminder.{Reminder, Reminders, TimerNode, ReminderQueue}
use libcymo.Reminder.Order.{IsValid}
use libcymo.Pipe.{PipeNode, EventPipe}
use libcymo.Loop.{CymoMode, ReminderOrder, CymoStatus, World, Allocation, Loop}

abbrev pub timers : OrderedTree TimerNode
timers = plain TimerNode

abbrev pub pipes : OrderedTree PipeNode
pipes = plain PipeNode

unfoldable pub no_timers : ReminderQueue timers
unfolding plain
no_timers = record { nodes = leaf; timer_counter = 1 }

unfoldable pub no_queues : EventPipe pipes
unfolding plain
no_queues = record { nodes = leaf; queue_counter = 1 }

-- A loop in the simulator's mode, with the event at 64 saved.
abbrev pub loop : Loop timers pipes
loop = record {
  pending = record { capacity = 2; records = 0 ∷ 0 ∷ []; read_pos = 0; write_pos = 0 };
  mode = CymoMode.simulator;
  quit = pos 0;
  status = CymoStatus.running;
  stepping = pos 0;
  step_event_type = EventType.trade;
  pipe = λ i. no_queues;
  clock_queue = λ c. no_timers;
  clock_datetime = λ c. 50;
  reminder_order = ReminderOrder.before;
  is_simulation_stop = pos 1;
  show_warnings = pos 1;
  clear_reminders = pos 0;
  read_reminders = pos 1;
  saved_event = 64;
}

abbrev pub event : Event
event = record {
  timestamp = 50;
  type = EventType.trade;
  ref = 1;
  exchange_timestamp = 12;
  provider = 13;
  instrument = 14;
  price = 15;
  size = 16;
}

abbrev pub world : World
world = record {
  store = record { queues = λ a. none; events = λ a. some event };
  reminders = λ a. none;
}

abbrev pub allocation : Allocation
allocation = record { usable = λ n. n + 24; block = some 128; raw = event }

-- Reminders at 256 and 264, with the times 10 and 20.
abbrev pub timed : ℕ → Reminder
timed t = record { timestamp = t; type = 5; ref = 1; callback = 4096; user_data = 0 }

abbrev pub early : TimerNode
early = record { reminder = 256; timer_id = 1 }

abbrev pub late : TimerNode
late = record { reminder = 264; timer_id = 2 }

abbrev pub reminders : Reminders
reminders a = if a == 256 then some (timed 10) else if a == 264 then some (timed 20) else none

unfoldable pub two_timers : ReminderQueue timers
unfolding plain
two_timers = record { nodes = node leaf early (node leaf late leaf); timer_counter = 3 }

-- Only the event at 64 exists.
abbrev pub timed_world : World
timed_world = record {
  store = record { queues = λ a. none; events = λ a. if a == 64 then some event else none };
  reminders = reminders;
}

pub two_timers-IsValid : IsValid timers reminders two_timers
unfolding plain elems two_timers
two_timers-IsValid = record {
  sorted = ((omega arith, tt), (tt, tt));
  known = (
    (timed 10, refl, omega arith, omega arith, omega arith),
    ((timed 20, refl, omega arith, omega arith, omega arith), tt),
  );
  counted = omega arith;
}
