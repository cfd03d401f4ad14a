-- ===== src/Pipe/Add.antt =====
-- src/event_pipe.c: what `event_pipe_add` does to the order of the queues.
use libcymo.Common.{ℕ, ◌+◌, ◌^◌, ◌<◌, ◌≡◌, ◌≢◌, sym, subst, arith, true, none}
use libcymo.Common.Int.{pos}
use libcymo.Memory.{Addr, ok}
use libcymo.Tree.{OrderedTree, elems, descend}
use libcymo.Tree.Place.{All, All-map, All-both, IsSorted, place, All-place, IsSorted-place, Places}
use libcymo.Tree.Insert.{unfound, insert-place}
use libcymo.Pipe.{PipeNode, Store, queue_time, pipe_node_compare, EventPipe, event_pipe_add}
use libcymo.Pipe.Order.{time_in, IsQueued, IsOrdered, newest, compare-Places, compare-same_queue}

-- The pipe after an addition, with its tree.
abbrev pub grown : (T : OrderedTree PipeNode) → EventPipe T → T.Tree → EventPipe T
grown T p t = record { nodes = t; queue_counter = p.queue_counter + 1 }

module _ (T : OrderedTree PipeNode) (s : Store) (p : EventPipe T) (v : IsOrdered T s p) where
  later : All (IsQueued s (p.queue_counter + 1)) (elems (T.shape p.nodes))
  later =
      All-map (elems (T.shape p.nodes)) (λ y (t, at, n, lo, hi). (t, at, n, lo, omega arith))
        v.queued

  module _ (q : Addr) (a : ℕ) (at : queue_time s q ≡ ok a) (present : q ≢ 0) where
    placed :
        All
          (λ y.
            Places
              (time_in s)
              (newest q p.queue_counter)
              (pipe_node_compare s (newest q p.queue_counter) y)
              y)
          (elems (T.shape p.nodes))
    placed =
        All-map (elems (T.shape p.nodes))
          (λ y k. compare-Places s p.queue_counter q a y at present k) v.queued

    grown-IsOrdered :
        (t : T.Tree)
        → elems (T.shape t) ≡ place (time_in s) (newest q p.queue_counter) (elems (T.shape p.nodes))
        → IsOrdered T s (grown T p t)
    grown-IsOrdered t same = record {
      sorted = subst (IsSorted (time_in s)) (sym same) (IsSorted-place (time_in s) _ _ v.sorted);
      queued = subst (All (IsQueued s (p.queue_counter + 1))) (sym same) (
          All-place (time_in s) (IsQueued s (p.queue_counter + 1)) (newest q p.queue_counter) _
            (a, at, present, v.counted, omega arith) later);
      counted = omega arith;
    }

    adds :
        descend (pipe_node_compare s (newest q p.queue_counter)) (T.shape p.nodes) ≡ ok none
        → p.queue_counter + 1 < 2 ^ 64
        → (t : T.Tree) × (event_pipe_add T s true p q ≡ ok (pos 0, grown T p t))
          × (elems (T.shape t)
              ≡ place (time_in s) (newest q p.queue_counter) (elems (T.shape p.nodes)))
          × IsOrdered T s (grown T p t)
    unfolding event_pipe_add
    adds nothing room =
        let (t, inserted, at_place) =
          insert-place T (time_in s) (pipe_node_compare s (newest q p.queue_counter))
            (newest q p.queue_counter) p.nodes placed v.sorted nothing in
        (t, rw inserted (ground (arith, present)), at_place, grown-IsOrdered t at_place)

    -- A queue that is not in the pipe is added.
    pub add_fresh :
        p.queue_counter + 1 < 2 ^ 64
        → All (λ y. y.q ≢ q) (elems (T.shape p.nodes))
        → (t : T.Tree) × (event_pipe_add T s true p q ≡ ok (pos 0, grown T p t))
          × (elems (T.shape t)
              ≡ place (time_in s) (newest q p.queue_counter) (elems (T.shape p.nodes)))
          × IsOrdered T s (grown T p t)
    add_fresh room fresh =
        let f = pipe_node_compare s (newest q p.queue_counter) in
        let differ =
          All-map (elems (T.shape p.nodes))
            (λ y (k, ne) same. ne (compare-same_queue s p.queue_counter q a y at present k same))
            (All-both (IsQueued s p.queue_counter) (λ y. y.q ≢ q) _ v.queued fresh) in
        adds (unfound T (time_in s) f (newest q p.queue_counter) p.nodes placed differ) room
