-- ===== src/Loop/Queues.antt =====
-- src/cymo_loop.c: `cymo_add_queue` on the thread of the loop, and what is read of the queue.
use libcymo.Common.{◌≡◌, Bool, false, some}
use libcymo.Common.Int.{ℤ}
use libcymo.Memory.{Addr, update, ok}
use libcymo.Queue.{QueueType, CmQueue}
use libcymo.Tree.{OrderedTree}
use libcymo.Reminder.{TimerNode}
use libcymo.Pipe.{PipeNode, EventPipe, event_pipe_add}
use libcymo.Loop.{World, historical_pipe, service_pipe, at_pipe, Loop}

module _ (timers : OrderedTree TimerNode) (pipes : OrderedTree PipeNode) where
  module _ (self : Addr) (allocated : Bool) (w : World) (loop : Loop timers pipes) (q : Addr)
      (queue : CmQueue) (there : w.store.queues q ≡ some queue)
      (service : queue.type ≡ QueueType.service_queue) where
    -- The queue with the loop as its owner.
    abbrev owned : World
    owned = record w {
      store = record (w.store) {
        queues = update w.store.queues q (some (record queue { loop = self }));
      };
    }

    -- What `cymo_add_queue` returns once the queue is added.
    abbrev result : ℤ × EventPipe pipes → ℤ × World × Loop timers pipes × Bool
    result r = (r.0, owned, record loop { pipe = at_pipe loop.pipe historical_pipe r.1 }, false)

    abbrev IsAdded : ℤ → World → Loop timers pipes → Type 0
    IsAdded rc w1 loop1 =
        (event_pipe_add pipes w1.store allocated (loop.pipe historical_pipe) q
          ≡ ok (rc, loop1.pipe historical_pipe))
        × (loop1.pipe service_pipe ≡ loop.pipe service_pipe)
