-- ===== src/Pipe/Order.antt =====
-- src/event_pipe.c: `pipe_node_compare` against the order of the times of the first events.
use libcymo.Common.{
  ℕ, ◌≤◌, ◌<◌, ◌≡◌, ◌≢◌, ◌⊎◌, refl, arith, false, ◌==◌, Ordering, Bool-cases, inl, inr,
}
use libcymo.Memory.{Addr, ok, fault, out_of_fuel}
use libcymo.Tree.{OrderedTree, elems}
use libcymo.Tree.Place.{All, IsSorted, Places}
use libcymo.Pipe.{PipeNode, Store, queue_time, compare_times, pipe_node_compare, EventPipe}

-- The time of a node's queue.
abbrev pub time_in : Store → PipeNode → ℕ
time_in s n = elim (queue_time s n.q) [ ok t ↦ t | fault ↦ 0 | out_of_fuel ↦ 0 ]

-- A node with a queue whose time can be read, and an identifier below `c`.
abbrev pub IsQueued : Store → ℕ → PipeNode → Type 0
IsQueued s c n =
    (t : ℕ) × (queue_time s n.q ≡ ok t) × (n.q ≢ 0) × (1 ≤ n.queue_id) × (n.queue_id < c)

-- The nodes are in the order of the times that their queues have now, with earlier identifiers.
pub record IsOrdered (T : OrderedTree PipeNode) (s : Store) (p : EventPipe T) : Type 0 where
  pub sorted : IsSorted (time_in s) (elems (T.shape p.nodes))
  pub queued : All (IsQueued s p.queue_counter) (elems (T.shape p.nodes))
  pub counted : 1 ≤ p.queue_counter

compare_times-cases :
    (a b i j : ℕ)
    → j < i
    → ((compare_times a b i j ≡ Ordering.lt) × (a < b))
      ⊎ ((compare_times a b i j ≡ Ordering.gt) × (b ≤ a))
unfolding compare_times
compare_times-cases a b i j k = ground arith

-- A node that is newer than `y` compares equal only to one of the same queue.
pub pipe_node_compare-cases :
    (s : Store) (x y : PipeNode) (a b : ℕ)
    → queue_time s x.q ≡ ok a
    → queue_time s y.q ≡ ok b
    → x.q ≢ 0
    → y.q ≢ 0
    → ((pipe_node_compare s x y ≡ ok Ordering.eq) × (y.q ≡ x.q))
      ⊎ ((pipe_node_compare s x y ≡ ok (compare_times a b x.queue_id y.queue_id)) × (y.q ≢ x.q))
unfolding pipe_node_compare
pipe_node_compare-cases s x y a b e f nx ny =
    let px : (x.q == 0) ≡ false = ground arith in
    let py : (y.q == 0) ≡ false = ground arith in
    elim (Bool-cases (x.q == y.q)) [
      | inl one ↦ inl (rw (px, py, one) refl, ground arith)
      | inr two ↦ inr (rw (px, py, two) (rw (e, f) refl), ground arith)
    ]

-- The node that `event_pipe_add` makes.
abbrev pub newest : Addr → ℕ → PipeNode
newest q c = record { q = q; queue_id = c }

module _ (s : Store) (c q a : ℕ) (y : PipeNode) (at : queue_time s q ≡ ok a) (real : q ≢ 0)
    (k : IsQueued s c y) where
  -- A new node stands behind the nodes of the same time.
  pub compare-Places : Places (time_in s) (newest q c) (pipe_node_compare s (newest q c) y) y
  compare-Places =
      let (b, at_y, real_y, lo, hi) = k in
      let tx : time_in s (newest q c) ≡ a = rw (time_in, at) refl in
      let ty : time_in s y ≡ b = rw (time_in, at_y) refl in
      elim (pipe_node_compare-cases s (newest q c) y a b at at_y real real_y) [
        | inl (same, _) ↦ rw same tt
        | inr (times, _) ↦ elim (compare_times-cases a b c y.queue_id hi) [
          | inl (before, le) ↦ rw (times, before) (omega (arith, tx, ty, le))
          | inr (behind, le) ↦ rw (times, behind) (omega (arith, tx, ty, le))
        ]
      ]

  pub compare-same_queue : pipe_node_compare s (newest q c) y ≡ ok Ordering.eq → y.q ≡ q
  compare-same_queue same =
      let (b, at_y, real_y, lo, hi) = k in
      elim (pipe_node_compare-cases s (newest q c) y a b at at_y real real_y) [
        | inl (_, one) ↦ one
        | inr (times, _) ↦ elim (compare_times-cases a b c y.queue_id hi) [
          | inl (before, le) ↦ cc
          | inr (behind, le) ↦ cc
        ]
      ]
