-- ===== src/Loop/Life/Unsaved.antt =====
-- src/cymo_loop.c: the saved event, which belongs to the `while` of `cymo_main`.
use libcymo.Common.{◌≡◌, ◌≢◌}
use libcymo.Tree.{OrderedTree}
use libcymo.Reminder.{TimerNode}
use libcymo.Pipe.{PipeNode}
use libcymo.Loop.{Loop}
use libcymo.Loop.Life.{Thread, Life}

module _ (timers : OrderedTree TimerNode) (pipes : OrderedTree PipeNode) where
  -- A call that leaves the saved event as it is.
  abbrev Saves : Loop timers pipes → Loop timers pipes → Type 0
  Saves loop loop' = loop'.saved_event ≡ loop.saved_event

  -- Outside of the loop of its thread, no event is saved.
  abbrev IsUnsaved : Life timers pipes → Type 0
  IsUnsaved s = s.thread ≢ Thread.looping → s.loop.saved_event ≡ 0
