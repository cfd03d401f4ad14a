-- ===== src/Loop/Run/Pending.antt =====
-- src/cymo_loop.c: the loop of `dequeue` over the queues that other threads hand over.
use libcymo.Common.{
  ℕ, suc, ◌<◌, ◌≡◌, ◌⊎◌, refl, arith, Bool, none, List, [], ◌∷◌, ◌==◌, get_or, Bool-cases, inl, inr,
}
use libcymo.Memory.{Addr, ok, fault}
use libcymo.Spsc.Slots.{IsValid, contents, count}
use libcymo.Spsc.Refine.{pop-empty, pop-some, contents-empty, contents-taken, taken}
use libcymo.Tree.{OrderedTree}
use libcymo.Reminder.{TimerNode}
use libcymo.Pipe.{PipeNode}
use libcymo.Loop.{World, Loop}
use libcymo.Loop.Run.{add_pending, pending_loop}

module _ (timers : OrderedTree TimerNode) (pipes : OrderedTree PipeNode) where
  module _ (fuel : ℕ) (self q : Addr) (allocated : Bool) (w : World)
      (loop : Loop timers pipes) where
    -- Where a queue is pending, the loop takes the oldest one out and ends: the queue reaches no
    -- pipe. Where none is pending, and the variable points to no queue, it is undefined.
    pub pending_cases :
        IsValid loop.pending
        → w.store.queues q ≡ none
        → ((contents loop.pending ≡ [])
            × (pending_loop timers pipes (suc fuel) self allocated q w loop ≡ fault))
          ⊎ ((x : Addr) × (xs : List Addr) × (loop' : Loop timers pipes) × (contents loop.pending
                ≡ x ∷ xs)
              × (pending_loop timers pipes (suc fuel) self allocated q w loop ≡ ok (w, loop'))
              × (contents loop'.pending ≡ xs)
              × (loop'.pipe ≡ loop.pipe))
    unfolding pending_loop add_pending
    pending_cases v wild = elim (Bool-cases (count loop.pending == 0)) [
      | inl z ↦
          let none_left : count loop.pending ≡ 0 = ground arith in
          inl (
            contents-empty loop.pending v none_left,
            rw (pop-empty loop.pending v none_left, pending_loop) (ground (arith, wild)),
          )
      | inr nz ↦
          let some_left : 0 < count loop.pending = ground arith in
          inr (
            get_or loop.pending.records loop.pending.read_pos 0,
            contents (taken loop.pending),
            record loop { pending = taken loop.pending },
            (contents-taken loop.pending v some_left).0,
            rw (pop-some loop.pending v some_left, pending_loop) refl,
            refl,
            refl,
          )
    ]
