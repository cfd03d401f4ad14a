-- ===== src/Loop/Life/Tests.antt =====
-- src/cymo_loop.c: the life of a concrete loop.
use libcymo.Common.{none, [], ◌∷◌}
use libcymo.Common.Int.{pos}
use libcymo.Memory.{update}
use libcymo.Spsc.{Spsc}
use libcymo.Loop.{CymoStatus}
use libcymo.Loop.Control.{emptied}
use libcymo.Loop.Samples.{timers, pipes, loop, world, timed_world, two_timers}
use libcymo.Loop.Life.{Thread, Control, Life}

-- A new loop, and one that is started and told to end.
abbrev fresh : Life timers pipes
fresh = record {
  world = world;
  loop = record loop { status = CymoStatus.init };
  thread = Thread.absent;
  control = Control.free;
}

abbrev told : Life timers pipes
told = record {
  world = world;
  loop = record loop { quit = pos 1; status = CymoStatus.stopping };
  thread = Thread.looping;
  control = Control.joining;
}

-- The saved event is freed.
abbrev left : Life timers pipes
left = record {
  world = record world {
    store = record (world.store) { events = update world.store.events 64 none };
  };
  loop = record (emptied timers pipes told.loop) { status = CymoStatus.stopping };
  thread = Thread.ended;
  control = Control.joining;
}

-- A loop with no event saved, and the same loop when its thread has ended.
abbrev unsaved : Life timers pipes
unsaved = record fresh { loop = record (fresh.loop) { saved_event = 0 } }

abbrev over : Life timers pipes
over = record unsaved {
  loop = record (emptied timers pipes unsaved.loop) { quit = pos 1; status = CymoStatus.stopping };
  thread = Thread.ended;
  control = Control.joining;
}

-- The same with two reminders of each clock; a queue is handed over before the loop is told to end.
abbrev minding : Life timers pipes
minding = record fresh {
  world = timed_world;
  loop = record (fresh.loop) { clock_queue = λ c. two_timers };
}

abbrev handed : Spsc
handed = record { capacity = 2; records = 512 ∷ 0 ∷ []; read_pos = 0; write_pos = 1 }

abbrev minded : Life timers pipes
minded = record told {
  world = timed_world;
  loop = record (told.loop) { clock_queue = λ c. two_timers; pending = handed };
}
