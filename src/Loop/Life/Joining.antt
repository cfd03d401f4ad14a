-- ===== src/Loop/Life/Joining.antt =====
-- src/cymo_loop.c: `cymo_stop` while it waits for the thread of the loop.
use libcymo.Common.{◌≡◌, ◌⊎◌, true}
use libcymo.Memory.{ok, >>=-ok}
use libcymo.Tree.{OrderedTree}
use libcymo.Reminder.{TimerNode}
use libcymo.Pipe.{PipeNode}
use libcymo.Loop.{CymoStatus, World, Loop, free_event, cymo_clear}
use libcymo.Loop.Control.{emptied}
use libcymo.Loop.Dequeue.{is_set}
use libcymo.Loop.Life.{Thread, Control, Life}

module _ (timers : OrderedTree TimerNode) (pipes : OrderedTree PipeNode) where
  pub clear-emptied :
      (w w' : World) (loop loop' : Loop timers pipes)
      → cymo_clear timers pipes w loop ≡ ok (w', loop')
      → loop' ≡ emptied timers pipes loop
  unfolding cymo_clear
  clear-emptied w w' loop loop' e =
      let (w1, freed, end) = >>=-ok (free_event loop.saved_event w) _ (w', loop') e in cc end

  -- While the controlling thread waits in `uv_thread_join`, the loop is told to quit.
  abbrev IsTold : Life timers pipes → Type 0
  IsTold s = s.control ≡ Control.joining → is_set s.loop.quit ≡ true

  -- The thread leaves its loop, or the loop is as before.
  abbrev pub Advances : Life timers pipes → Life timers pipes → Type 0
  Advances s t =
      ((t.thread ≡ Thread.ended) × (t.loop.saved_event ≡ 0) × (t.loop.status ≡ CymoStatus.stopping))
      ⊎ ((t.thread ≡ s.thread) × (t.loop ≡ record (s.loop) { pending = t.loop.pending }))

  -- The controlling thread waits for a thread that is not there.
  abbrev IsStuck : Life timers pipes → Type 0
  IsStuck s = (s.control ≡ Control.joining) × (s.thread ≡ Thread.absent)
