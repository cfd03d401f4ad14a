-- ===== src/Loop/Dequeue/Data.antt =====
-- src/cymo_loop.c: what `realtime_dequeue` makes of an event in the data pipe.
use libcymo.Common.{ℕ, ◌≡◌, arith, none, some, List, ◌∷◌, inl, inr}
use libcymo.Memory.{Addr, fault}
use libcymo.Spsc.Slots.{IsValid, contents}
use libcymo.Queue.{CmQueue}
use libcymo.Tree.{OrderedTree, elems}
use libcymo.Reminder.{TimerNode}
use libcymo.Pipe.{PipeNode}
use libcymo.Pipe.Read.{read_cases, is_empty_lem}
use libcymo.Loop.{World, Allocation, data_pipe, Loop}
use libcymo.Loop.Dequeue.{onward, read_pipe, keep_data, realtime_data, realtime_round}

module _ (timers : OrderedTree TimerNode) (pipes : OrderedTree PipeNode) where
  -- In the real-time mode, with no event saved, a round reads through NULL as soon as the first
  -- queue of the data pipe holds an event.
  pub realtime_fault :
      (raw now : ℕ) (m : Allocation) (w : World) (loop : Loop timers pipes) (n : PipeNode)
      (l : List PipeNode) (queue : CmQueue) (x : Addr) (xs : List Addr)
      → elems (pipes.shape (loop.pipe data_pipe).nodes) ≡ n ∷ l
      → w.store.queues n.q ≡ some queue
      → IsValid queue.spsc
      → contents queue.spsc ≡ x ∷ xs
      → w.store.events 0 ≡ none
      → w.store.events raw ≡ none
      → loop.saved_event ≡ 0
      → realtime_round timers pipes raw now m w loop ≡ fault
  unfolding realtime_round onward realtime_data read_pipe keep_data
  realtime_fault raw now m w loop n l queue x xs nodes there v holds null wild saved =
      let filled = is_empty_lem pipes w.store (loop.pipe data_pipe) n l queue nodes there v in
      elim (read_cases pipes w.store raw (loop.pipe data_pipe) n l queue nodes there v wild) [
        | inl (none_left, _) ↦ cc
        | inr (y, ys, s', queue', _, read, _, _, same) ↦
            rw (filled, holds, saved, read) (ground (arith, same, null))
      ]
