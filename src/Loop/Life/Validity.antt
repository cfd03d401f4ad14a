-- ===== src/Loop/Life/Validity.antt =====
-- src/cymo_loop.c: whatever the threads do, the queues of reminders stay in order.
use libcymo.Tree.{OrderedTree}
use libcymo.Reminder.{TimerNode}
use libcymo.Pipe.{PipeNode}
use libcymo.Loop.{World, Loop}
use libcymo.Loop.Run.Validity.{Minds}
use libcymo.Loop.Life.{Life}

module _ (timers : OrderedTree TimerNode) (pipes : OrderedTree PipeNode) where
  abbrev Keeps : World → Loop timers pipes → World → Loop timers pipes → Type 0
  Keeps = Minds timers pipes

  abbrev KeepsLife : Life timers pipes → Life timers pipes → Type 0
  KeepsLife s t = Keeps s.world s.loop t.world t.loop
