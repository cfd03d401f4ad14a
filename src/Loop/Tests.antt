-- ===== src/Loop/Tests.antt =====
-- src/cymo_loop.c at a concrete loop.
use libcymo.Common.{◌≡◌, refl, arith, true, none, some, List, [], ◌∷◌, ◌==◌, if◌then◌else◌}
use libcymo.Common.Int.{negsuc}
use libcymo.Memory.{update, Outcome, ok}
use libcymo.Tree.{leaf, node, elems}
use libcymo.Tree.Place.{place}
use libcymo.Tree.Plain.{plain}
use libcymo.Reminder.{Reminder}
use libcymo.Reminder.Order.{time_of, IsValid}
use libcymo.Reminder.Push.{new_node}
use libcymo.Pipe.{EventPipe}
use libcymo.Loop.{ClockType, CymoMode, World, Loop, cymo_add_reminder}
use libcymo.Loop.Samples.{timers, pipes, no_timers, loop, event, world}
use libcymo.Loop.Clocks.{Setting, latest, set_all, clocks_latest}
use libcymo.Loop.Timers.{timer_of, add_reminder_dangles}
use libcymo.Spsc.{Spsc}
use libcymo.Spsc.Slots.{contents}
use libcymo.Spsc.Slots
use libcymo.Queue.{QueueType, CmQueue}

abbrev raw : Reminder
raw = record { timestamp = 1; type = 2; ref = 3; callback = 4; user_data = 5 }

abbrev settings : List Setting
settings = Setting.local_to 70 ∷ Setting.exchange_to 40 ∷ Setting.local_to 60 ∷ []

clocks_latest_example :
    (set_all timers pipes settings loop).clock_datetime ClockType.local_clock
    ≡ latest ClockType.local_clock settings 50
clocks_latest_example = clocks_latest timers pipes settings loop ClockType.local_clock refl

no_timers-IsValid :
    IsValid timers (update world.reminders 256 (some (timer_of raw 70 8 9))) no_timers
unfolding plain elems no_timers
no_timers-IsValid = record { sorted = tt; known = tt; counted = omega arith }

add_reminder_dangles_example :
    (w' : World) × (loop' : Loop timers pipes) × (cymo_add_reminder timers pipes
        (some 256)
        raw
        true
        world
        loop
        ClockType.local_clock
        70
        8
        9
      ≡ ok (negsuc 1, w', loop'))
    × (w'.reminders 256 ≡ none)
    × (elems (timers.shape (loop'.clock_queue ClockType.local_clock).nodes)
        ≡ place
            (time_of (update world.reminders 256 (some (timer_of raw 70 8 9))))
            (new_node timers no_timers 256)
            (elems (timers.shape no_timers.nodes)))
unfolding plain elems no_timers
add_reminder_dangles_example =
    add_reminder_dangles timers pipes 256 raw world loop ClockType.local_clock 70 8 9 (omega arith)
      no_timers-IsValid (omega arith) tt

-- The loop's thread ends at once.
abbrev ends : World → Loop timers pipes → Outcome (World × Loop timers pipes)
ends w l = ok (w, l)

-- A ring with the pointer 512 and room for another.
abbrev ring : Spsc
ring = record { capacity = 3; records = 512 ∷ 0 ∷ 0 ∷ []; read_pos = 0; write_pos = 1 }

ring-IsValid : Slots.IsValid ring
ring-IsValid = omega arith

abbrev handed_over : Loop timers pipes
handed_over = record loop { pending = ring }

-- The queue at 256 holds the event at 512, in the only queue of each pipe.
abbrev busy : CmQueue
busy = record { type = QueueType.data_queue; name = 0; loop = 4096; spsc = ring }

abbrev busy_pipe : EventPipe pipes
unfolding plain
busy_pipe = record { nodes = node leaf (record { q = 256; queue_id = 1 }) leaf; queue_counter = 2 }

abbrev busy_loop : Loop timers pipes
busy_loop = record loop { mode = CymoMode.realtime; pipe = λ i. busy_pipe; saved_event = 0 }

abbrev busy_world : World
busy_world = record {
  store = record { queues = λ a. some busy; events = λ a. if a == 512 then some event else none };
  reminders = λ a. none;
}
