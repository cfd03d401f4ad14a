-- ===== src/Spsc/Threads/Queries.antt =====
-- src/spsc_queue.c: spsc_queue_size, spsc_queue_is_empty and spsc_queue_is_full in one thread, while the
-- other one moves between their two loads.
use libcymo.Common.{
  ℕ, ◌+◌, ◌^◌, ◌≤◌, ◌<◌, ◌≡◌, sym, ap, ◌∙◌, arith, false, List, [], ◌∷◌, inl, inr, ◌⊎◌, length,
  ◌++◌, get_or,
}
use libcymo.Spsc.{Spsc, spsc_queue_size, spsc_queue_is_empty, spsc_queue_is_full}
use libcymo.Spsc.Slots.{count, contents}
use libcymo.Spsc.Refine.{
  taken, length-contents, size_lem, full_test, count_bound, empty_test, contents-taken,
}
use libcymo.Spsc.Threads.{Producer, Consumer, State, Move, call_push, consume, run, seen}
use libcymo.Spsc.Threads.Fifo.{IsFifo, run-IsFifo}
use libcymo.Spsc.Threads.Alone.{IsProducing, IsConsuming, run-Grows, run-Shrinks}
use libcymo.Spsc.Threads.Pops.{consumes, pop_succeeds}
use libcymo.Spsc.Threads.Progress.{IsCallFree, produces, push_succeeds}

module _ (s : State) (f : IsFifo s) (ms ms' : List Move) where
  -- The states of the two loads: after the schedule `ms`, and then after `ms'`.
  abbrev pub first_load : State
  first_load = run ms s

  abbrev pub second_load : State
  second_load = run ms' first_load

  -- What the two loads find, in either order, while the consumer does not move.
  seen-producing :
      IsProducing ms'
      → (seen first_load second_load ≡ first_load.ring)
        × (seen second_load first_load ≡ second_load.ring)
  unfolding seen
  seen-producing p =
      let g = run-Grows ms' first_load p (run-IsFifo ms s f) in
      (
        ap (λ r. record (first_load.ring) { read_pos = r }) g.same_read,
        ap (λ r. record (second_load.ring) { read_pos = r }) (sym g.same_read),
      )

  -- The same while the producer does not move.
  pub seen-consuming :
      IsConsuming ms'
      → (seen first_load second_load ≡ second_load.ring)
        × (seen second_load first_load ≡ first_load.ring)
  unfolding seen
  seen-consuming p =
      let g = run-Shrinks ms' first_load p (run-IsFifo ms s f) in
      (
        cc (g.same_capacity, g.same_write, g.same_records),
        cc (g.same_capacity, g.same_write, g.same_records),
      )

  module _ (ms'' : List Move) where
    -- The state in which the function returns.
    abbrev pub returned : State
    returned = run ms'' second_load

    abbrev pub IsWithin : ℕ → ℕ → Spsc → Type 0
    IsWithin lo hi q = (lo ≤ spsc_queue_size q) × (spsc_queue_size q ≤ hi)

    held : (t : State) → IsFifo t → t.ring.capacity ≤ 2 ^ 31 → spsc_queue_size t.ring ≡ count t.ring
    held t g small = size_lem t.ring g.valid small ∙ length-contents t.ring g.valid

    -- `spsc_queue_size`, called by the consumer of a ring with a capacity up to 2 ^ 31, while the
    -- producer moves before, between and behind its loads: the result is at least the number of
    -- entries at the call and at most that at the return, whichever load is the first.
    pub size_by_consumer :
        IsProducing ms
        → IsProducing ms'
        → IsProducing ms''
        → s.ring.capacity ≤ 2 ^ 31
        → let lo = length (contents s.ring) in
          let hi = length (contents returned.ring) in
          IsWithin lo hi (seen first_load second_load)
          × IsWithin lo hi (seen second_load first_load)
    size_by_consumer p p' p'' small =
        let f1 = run-IsFifo ms s f in
        let f2 = run-IsFifo ms' first_load f1 in
        let f3 = run-IsFifo ms'' second_load f2 in
        let g1 = run-Grows ms s p f in
        let g2 = run-Grows ms' first_load p' f1 in
        let g3 = run-Grows ms'' second_load p'' f2 in
        let (one, two) = seen-producing p' in
        let lo = length-contents s.ring f.valid in
        let hi = length-contents returned.ring f3.valid in
        let h1 = held first_load f1 (omega (arith, g1.same_capacity)) in
        let h2 = held second_load f2 (omega (arith, g1.same_capacity, g2.same_capacity)) in
        (
          rw (one, h1, lo, hi) (omega (arith, g1.more), omega (arith, g2.more, g3.more)),
          rw (two, h2, lo, hi) (omega (arith, g1.more, g2.more), omega (arith, g3.more)),
        )

    -- `spsc_queue_size`, called by the producer of a ring with a capacity up to 2 ^ 31, while the
    -- consumer moves before, between and behind its loads: the result is at least the number of
    -- entries at the return and at most that at the call, whichever load is the first.
    pub size_by_producer :
        IsConsuming ms
        → IsConsuming ms'
        → IsConsuming ms''
        → s.ring.capacity ≤ 2 ^ 31
        → let lo = length (contents returned.ring) in
          let hi = length (contents s.ring) in
          IsWithin lo hi (seen first_load second_load)
          × IsWithin lo hi (seen second_load first_load)
    size_by_producer p p' p'' small =
        let f1 = run-IsFifo ms s f in
        let f2 = run-IsFifo ms' first_load f1 in
        let f3 = run-IsFifo ms'' second_load f2 in
        let g1 = run-Shrinks ms s p f in
        let g2 = run-Shrinks ms' first_load p' f1 in
        let g3 = run-Shrinks ms'' second_load p'' f2 in
        let (one, two) = seen-consuming p' in
        let hi = length-contents s.ring f.valid in
        let lo = length-contents returned.ring f3.valid in
        let h1 = held first_load f1 (omega (arith, g1.same_capacity)) in
        let h2 = held second_load f2 (omega (arith, g1.same_capacity, g2.same_capacity)) in
        (
          rw (one, h2, lo, hi) (omega (arith, g3.less), omega (arith, g1.less, g2.less)),
          rw (two, h1, lo, hi) (omega (arith, g2.less, g3.less), omega (arith, g1.less)),
        )

  -- A producer that sees the ring not full succeeds with its next push: `spsc_queue_is_full`, with
  -- moves of the consumer before and between its loads, in either order, answers no; then a push,
  -- in any order with further moves of the consumer, ends and has sent its pointer.
  pub is_full-push :
      (e : ℕ) (ms'' : List Move)
      → s.producer ≡ Producer.resting
      → IsConsuming ms
      → IsConsuming ms'
      → (spsc_queue_is_full (seen first_load second_load) ≡ false)
        ⊎ (spsc_queue_is_full (seen second_load first_load) ≡ false)
      → IsCallFree ms''
      → 3 ≤ produces ms''
      → let s' = run (call_push e ∷ ms'') second_load in
        (s'.producer ≡ Producer.resting) × (s'.sent ≡ s.sent ++ e ∷ [])
  unfolding spsc_queue_is_full
  is_full-push e ms'' rests p p' answer free enough =
      let f1 = run-IsFifo ms s f in
      let f2 = run-IsFifo ms' first_load f1 in
      let g1 = run-Shrinks ms s p f in
      let g2 = run-Shrinks ms' first_load p' f1 in
      let (one, two) = seen-consuming p' in
      let test1 = full_test first_load.ring f1.valid in
      let test2 = full_test second_load.ring f2.valid in
      let bound1 = count_bound first_load.ring f1.valid in
      let bound2 = count_bound second_load.ring f2.valid in
      let room : count second_load.ring + 1 < second_load.ring.capacity = elim answer [
        | inl some_room ↦
            let answered : spsc_queue_is_full second_load.ring ≡ false = rw one at some_room in
            ground (arith, test2, bound2, answered)
        | inr some_room ↦
            let answered : spsc_queue_is_full first_load.ring ≡ false = rw two at some_room in
            let less : count first_load.ring + 1 < first_load.ring.capacity =
              ground (arith, test1, bound1, answered) in
            omega (arith, less, g2.less, g2.same_capacity)
      ] in
      let (ends, sent) =
        push_succeeds second_load e ms'' f2 (g2.same_producer ∙ g1.same_producer ∙ rests) room free
          enough in
      (ends, sent ∙ ap (λ l. l ++ e ∷ []) (g2.same_sent ∙ g1.same_sent))

  -- A consumer that sees the ring not empty succeeds with its next pop: `spsc_queue_is_empty`, with
  -- moves of the producer before and between its loads, in either order, answers no; then a pop, in
  -- any order with further moves of the producer, ends and has received the first entry.
  pub is_empty-pop :
      (ms'' : List Move)
      → s.consumer ≡ Consumer.resting
      → IsProducing ms
      → IsProducing ms'
      → (spsc_queue_is_empty (seen first_load second_load) ≡ false)
        ⊎ (spsc_queue_is_empty (seen second_load first_load) ≡ false)
      → consumes ms'' ≡ 3
      → let s' = run (consume ∷ ms'') second_load in
        (x : ℕ) × (xs : List ℕ) × (contents second_load.ring ≡ x ∷ xs)
        × (s'.consumer ≡ Consumer.resting)
        × (s'.received ≡ s.received ++ x ∷ [])
  unfolding spsc_queue_is_empty
  is_empty-pop ms'' rests p p' answer three =
      let f1 = run-IsFifo ms s f in
      let f2 = run-IsFifo ms' first_load f1 in
      let g1 = run-Grows ms s p f in
      let g2 = run-Grows ms' first_load p' f1 in
      let (one, two) = seen-producing p' in
      let test1 = empty_test first_load.ring f1.valid in
      let test2 = empty_test second_load.ring f2.valid in
      let some_left : 0 < count second_load.ring = elim answer [
        | inl there ↦
            let answered : spsc_queue_is_empty first_load.ring ≡ false = rw one at there in
            let left : 0 < count first_load.ring = ground (arith, test1, answered) in
            omega (arith, left, g2.more)
        | inr there ↦
            let answered : spsc_queue_is_empty second_load.ring ≡ false = rw two at there in
            ground (arith, test2, answered)
      ] in
      let (first, _) = contents-taken second_load.ring f2.valid some_left in
      let x = get_or second_load.ring.records second_load.ring.read_pos 0 in
      let xs = contents (taken second_load.ring) in
      let (ends, got) =
        pop_succeeds second_load x xs ms'' f2 (g2.same_consumer ∙ g1.same_consumer ∙ rests) first
          three in
      (x, xs, first, ends, got ∙ ap (λ l. l ++ x ∷ []) (g2.same_received ∙ g1.same_received))
