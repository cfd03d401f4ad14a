-- ===== src/Pipe.antt =====
-- src/event_pipe.c and src/event_pipe.h: queues of events in the order of their first events. The
-- caller's pointer `p` is never NULL. The nodes of the tree are values; `queue_id`, which no two
-- share, stands for the node's address.
pub mod Order
pub mod Add
pub mod Read
mod Tests
use libcymo.Common.{
  ℕ, ◌+◌, ◌^◌, Bool, true, false, not, ◌&&◌, Option, none, some, List, [], ◌∷◌, compare, Ordering,
  ltb, ◌==◌, if◌then◌else◌, u64,
}
use libcymo.Common.Int.{ℤ, pos, negsuc}
use libcymo.Memory.{Addr, Heap, update, Outcome, ok, fault, out_of_fuel, ◌>>=◌, ◌>>◌, load, assert}
use libcymo.Datetime.Clock.{max_date_time}
use libcymo.Event.{EventType, code_of, Event, Events, event_unref}
use libcymo.Queue.{CmQueue, cm_queue_peek, cm_queue_pop, cm_queue_is_empty, cm_queue_free}
use libcymo.Tree.{elems, OrderedTree, remove_each}

pub record PipeNode : Type 0 where
  pub q : Addr
  pub queue_id : ℕ

-- The memory that the pipe reads: the queues and the events.
pub record Store : Type 0 where
  pub queues : Heap CmQueue
  pub events : Events

-- The time of a queue's first event, and the last one that there is for an empty queue.
unfoldable pub queue_time : Store → Addr → Outcome ℕ
queue_time s q = load s.queues q >>= λ queue.
    let e = cm_queue_peek queue in
    if e == 0 then ok max_date_time else (load s.events e >>= λ event. ok event.timestamp)

-- The end of the comparison.
unfoldable pub compare_times : ℕ → ℕ → ℕ → ℕ → Ordering
compare_times lhs_time rhs_time lhs_id rhs_id =
    if ltb lhs_time rhs_time
    then Ordering.lt
    else if ltb rhs_time lhs_time
    then Ordering.gt
    else compare lhs_id rhs_id

-- The results -1, 0 and 1 are `lt`, `eq` and `gt`.
unfoldable pub pipe_node_compare : Store → PipeNode → PipeNode → Outcome Ordering
pipe_node_compare s lhs rhs =
    assert (not (lhs.q == 0))
    >> (assert (not (rhs.q == 0))
        >> (if lhs.q == rhs.q
            then ok Ordering.eq
            else (queue_time s lhs.q >>= λ a.
                queue_time s rhs.q >>= λ b. ok (compare_times a b lhs.queue_id rhs.queue_id))))

-- The test that finds the node again in the tree.
abbrev pub same_entry : PipeNode → PipeNode → Bool
same_entry n m = n.queue_id == m.queue_id

module _ (tree : OrderedTree PipeNode) where
  open tree use {Tree, shape, empty, find, insert, remove, min}

  pub record EventPipe : Type 0 where
    pub nodes : Tree
    pub queue_counter : ℕ

  -- The result is 0.
  unfoldable pub event_pipe_init : ℤ × EventPipe
  event_pipe_init = (pos 0, record { nodes = empty; queue_counter = 1 })

  -- `allocated` says whether `malloc` gives a block.
  unfoldable pub event_pipe_add : Store → Bool → EventPipe → Addr → Outcome (ℤ × EventPipe)
  event_pipe_add s allocated p q =
      let new : PipeNode = record { q = q; queue_id = p.queue_counter } in
      let counted : EventPipe = record p { queue_counter = u64 (p.queue_counter + 1) } in
      assert (not (q == 0))
      >> (if not allocated
          then ok (negsuc 0, p)
          else (insert (pipe_node_compare s new) new p.nodes >>= λ r. elim r.1 [
            | some found ↦ assert (found.q == q) >> ok (negsuc 1, counted)
            | none ↦ ok (pos 0, record counted { nodes = r.0 })
          ]))

  -- `garbage` is what the node on the stack has for an identifier.
  unfoldable pub pipe_find : Store → ℕ → EventPipe → Addr → Outcome (Option PipeNode)
  pipe_find s garbage p q =
      let fnode : PipeNode = record { q = q; queue_id = garbage } in
      find (pipe_node_compare s fnode) p.nodes

  unfoldable pub event_pipe_remove : Store → ℕ → EventPipe → Addr → Outcome (ℤ × EventPipe)
  event_pipe_remove s garbage p q = pipe_find s garbage p q >>= λ found. elim found [
    | none ↦ ok (negsuc 0, p)
    | some n ↦ assert (n.q == q) >> ok (pos 0, record p { nodes = remove (same_entry n) p.nodes })
  ]

  unfoldable pub event_pipe_is_empty : Store → EventPipe → Outcome Bool
  event_pipe_is_empty s p = elim (min p.nodes) [
    | none ↦ ok true
    | some n ↦ load s.queues n.q >>= λ queue. ok (cm_queue_is_empty queue)
  ]

  -- The end of `event_pipe_read`, with the event `e` from the queue of the node `n`: a queue that
  -- says that it is closed is freed, any other is put back behind those of the same time.
  unfoldable pub put_back : Store → EventPipe → PipeNode → Addr → Outcome (Addr × Store × EventPipe)
  put_back s p n e =
      let taken : EventPipe = record p { nodes = remove (same_entry n) p.nodes } in
      load s.events e >>= λ event.
      if code_of event.type == code_of EventType.queue_closed
      then (event_unref e s.events >>= λ r. load s.queues n.q >>= λ queue.
          cm_queue_free queue r.1 >>= λ events.
          ok (e, record { queues = update s.queues n.q none; events = events }, taken))
      else (let again : PipeNode = record n { queue_id = p.queue_counter } in
          insert (pipe_node_compare s again) again taken.nodes >>= λ r.
          ok (e, s, record { nodes = r.0; queue_counter = u64 (p.queue_counter + 1) }))

  -- What follows the call of `cm_queue_pop` on the queue of `n`, from its results.
  unfoldable pub read_popped :
      Store
      → Addr
      → EventPipe
      → PipeNode
      → ℤ × Option Addr × CmQueue
      → Outcome (Addr × Store × EventPipe)
  read_popped s raw p n (rc, item, queue) =
      let popped : Store = record s { queues = update s.queues n.q (some queue) } in
      let e : Addr = elim item [ none ↦ raw | some x ↦ x ] in
      let is_empty : Bool = elim rc [ pos k ↦ k == 0 | negsuc k ↦ false ] in
      if is_empty then ok (0, popped, p) else put_back popped p n e

  -- `raw` is what the variable `e` holds before `cm_queue_pop` stores to it. The variable `empty` is
  -- the negation of the result of `cm_queue_pop`.
  unfoldable pub event_pipe_read : Store → Addr → EventPipe → Outcome (Addr × Store × EventPipe)
  event_pipe_read s raw p = elim (min p.nodes) [
    | none ↦ ok (0, s, p)
    | some n ↦ load s.queues n.q >>= λ queue. read_popped s raw p n (cm_queue_pop queue)
  ]

  unfoldable pub event_pipe_clear : EventPipe → EventPipe
  event_pipe_clear p = record p {
    nodes = remove_each tree same_entry (elems (shape p.nodes)) p.nodes;
  }

  -- The result is 0.
  unfoldable pub event_pipe_destory : EventPipe → ℤ × EventPipe
  event_pipe_destory p = (pos 0, event_pipe_clear p)
