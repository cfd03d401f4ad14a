-- ===== src/Pipe/Read.antt =====
-- src/event_pipe.c: what `event_pipe_read` does with the first queue.
use libcymo.Common.{
  length, ◌==◌, ◌<◌, ◌≡◌, ◌⊎◌, refl, ap, ◌∙◌, arith, true, none, some, List, [], ◌∷◌, get_or, ◌==◌,
  Bool-cases, inl, inr,
}
use libcymo.Common.Int.{pos, negsuc}
use libcymo.Memory.{Addr, update, update_self, ok, fault}
use libcymo.Spsc.{spsc_queue_pop}
use libcymo.Spsc.Slots.{IsValid, contents, count}
use libcymo.Spsc.Refine.{queries, pop-empty, pop-some, contents-empty, contents-taken, taken}
use libcymo.Queue.{cm_queue_is_empty, CmQueue, cm_queue_pop}
use libcymo.Tree.{elems, first, OrderedTree, remove_each}
use libcymo.Tree.Remove.{elems-remove_each}
use libcymo.Pipe.{
  PipeNode, Store, same_entry, EventPipe, put_back, read_popped, event_pipe_read,
  event_pipe_is_empty, event_pipe_clear,
}

module _ (T : OrderedTree PipeNode) where
  module _ (s : Store) (raw : Addr) (p : EventPipe T) (n : PipeNode) (l : List PipeNode)
      (queue : CmQueue) where
    head_is : elems (T.shape p.nodes) ≡ n ∷ l → first (elems (T.shape p.nodes)) ≡ some n
    unfolding first
    head_is e = ap first e

    reads_first :
        T.min p.nodes ≡ some n
        → s.queues n.q ≡ some queue
        → event_pipe_read T s raw p ≡ read_popped T s raw p n (cm_queue_pop queue)
    unfolding event_pipe_read
    reads_first least there = rw (least, event_pipe_read) (ground (arith, there))

    popped_none :
        s.events raw ≡ none
        → spsc_queue_pop queue.spsc ≡ (negsuc 0, none, queue.spsc)
        → read_popped T s raw p n (cm_queue_pop queue) ≡ fault
    unfolding read_popped cm_queue_pop put_back
    popped_none wild e = rw e (ground (arith, wild))

    popped_some :
        {x : Addr}
        → spsc_queue_pop queue.spsc ≡ (pos 0, some x, taken queue.spsc)
        → read_popped T s raw p n (cm_queue_pop queue)
          ≡ ok (
            0,
            record s {
              queues = update s.queues n.q (some (record queue { spsc = taken queue.spsc }));
            },
            p,
          )
    unfolding read_popped cm_queue_pop
    popped_some e = rw e refl

    -- The read of a queue with events, in full.
    pub read-some :
        elems (T.shape p.nodes) ≡ n ∷ l
        → s.queues n.q ≡ some queue
        → IsValid queue.spsc
        → 0 < count queue.spsc
        → event_pipe_read T s raw p
          ≡ ok (
            0,
            record s {
              queues = update s.queues n.q (some (record queue { spsc = taken queue.spsc }));
            },
            p,
          )
    read-some first_node there v some_left =
        let least : T.min p.nodes ≡ some n = T.min_lem p.nodes ∙ head_is first_node in
        reads_first least there ∙ popped_some (pop-some queue.spsc v some_left)

    -- Where the first queue holds events, a read takes its oldest one out and returns NULL: the event
    -- is lost, and the tree is as before. Where the first queue is empty and the variable `e` points
    -- to no event, the read is undefined.
    pub read_cases :
        elems (T.shape p.nodes) ≡ n ∷ l
        → s.queues n.q ≡ some queue
        → IsValid queue.spsc
        → s.events raw ≡ none
        → ((contents queue.spsc ≡ []) × (event_pipe_read T s raw p ≡ fault))
          ⊎ ((x : Addr) × (xs : List Addr) × (s' : Store) × (queue' : CmQueue) × (contents
                  queue.spsc
                ≡ x ∷ xs)
              × (event_pipe_read T s raw p ≡ ok (0, s', p))
              × (s'.queues n.q ≡ some queue')
              × (contents queue'.spsc ≡ xs)
              × (s'.events ≡ s.events))
    read_cases first_node there v wild =
        let least : T.min p.nodes ≡ some n = T.min_lem p.nodes ∙ head_is first_node in
        let begins = reads_first least there in
        elim (Bool-cases (count queue.spsc == 0)) [
          | inl z ↦
              let none_left : count queue.spsc ≡ 0 = ground arith in
              inl (
                contents-empty queue.spsc v none_left,
                begins ∙ popped_none wild (pop-empty queue.spsc v none_left),
              )
          | inr nz ↦
              let some_left : 0 < count queue.spsc = ground arith in
              let rest : CmQueue = record queue { spsc = taken queue.spsc } in
              inr (
                get_or queue.spsc.records queue.spsc.read_pos 0,
                contents (taken queue.spsc),
                record s { queues = update s.queues n.q (some rest) },
                rest,
                (contents-taken queue.spsc v some_left).0,
                begins ∙ popped_some (pop-some queue.spsc v some_left),
                update_self s.queues n.q (some rest),
                refl,
                refl,
              )
        ]

  -- Of a pipe with queues, whether the first one is empty.
  pub is_empty_lem :
      (s : Store) (p : EventPipe T) (n : PipeNode) (l : List PipeNode) (queue : CmQueue)
      → elems (T.shape p.nodes) ≡ n ∷ l
      → s.queues n.q ≡ some queue
      → IsValid queue.spsc
      → event_pipe_is_empty T s p ≡ ok (length (contents queue.spsc) == 0)
  unfolding event_pipe_is_empty cm_queue_is_empty first
  is_empty_lem s p n l queue first_node there v =
      let least : T.min p.nodes ≡ some n = T.min_lem p.nodes ∙ ap first first_node in
      let test = (queries queue.spsc v).1 in
      rw (least, event_pipe_is_empty) (ground (arith, there, test))

  pub is_empty-none :
      (s : Store) (p : EventPipe T)
      → elems (T.shape p.nodes) ≡ []
      → event_pipe_is_empty T s p ≡ ok true
  unfolding event_pipe_is_empty first
  is_empty-none s p e =
      let least : T.min p.nodes ≡ none = T.min_lem p.nodes ∙ ap first e in
      rw (least, event_pipe_is_empty) refl

  same_entry_self : (n : PipeNode) → same_entry n n ≡ true
  same_entry_self n = ground arith

  -- `event_pipe_clear` takes every queue out: the pipe is empty then, and a read returns NULL.
  pub clear_empties :
      (s : Store) (raw : Addr) (p : EventPipe T)
      → let p' = event_pipe_clear T p in
        (elems (T.shape p'.nodes) ≡ [])
        × (event_pipe_is_empty T s p' ≡ ok true)
        × (event_pipe_read T s raw p' ≡ ok (0, s, p'))
        × (p'.queue_counter ≡ p.queue_counter)
  unfolding event_pipe_clear event_pipe_is_empty event_pipe_read first
  clear_empties s raw p =
      let e = elems-remove_each T same_entry same_entry_self _ p.nodes refl in
      let t = remove_each T same_entry (elems (T.shape p.nodes)) p.nodes in
      let least : T.min t ≡ none = T.min_lem t ∙ ap first e in
      (e, rw (least, event_pipe_is_empty) refl, rw (least, event_pipe_read) refl, refl)
