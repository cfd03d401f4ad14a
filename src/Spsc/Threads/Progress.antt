-- ===== src/Spsc/Threads/Progress.antt =====
-- src/spsc_queue.c: a push ends after three accesses of its own, whatever the consumer does.
use libcymo.Common.{
  ℕ, suc, ◌+◌, ◌-◌, ◌≤◌, ◌<◌, ◌≡◌, refl, sym, ap, subst, arith, false, List, [], ◌∷◌, ◌++◌, ◌==◌,
  Bool-cases, inl, inr,
}
use libcymo.Spsc.{Spsc}
use libcymo.Spsc.Slots.{count}
use libcymo.Spsc.Refine.{full_test, count-taken, taken}
use libcymo.Spsc.Threads.{
  Producer, Consumer, State, Move, call_push, produce, consume, start_push, produce_step,
  consume_step, step, run,
}
use libcymo.Spsc.Threads.Fifo.{ProducerKnows, ConsumerKnows, IsFifo, step-IsFifo}

-- The accesses that are left of a push.
abbrev pub left_of_push : Producer → ℕ
left_of_push Producer.resting = 0
left_of_push (Producer.loaded e w) = 3
left_of_push (Producer.checked e w) = 2
left_of_push (Producer.stored e w) = 1

-- A schedule without a further call of `spsc_queue_push`, and its accesses of the producer.
abbrev pub IsCallFree : List Move → Type 0
IsCallFree [] = Unit
IsCallFree (call_push e ∷ ms) = ⊥
IsCallFree (produce ∷ ms) = IsCallFree ms
IsCallFree (consume ∷ ms) = IsCallFree ms

abbrev pub produces : List Move → ℕ
produces [] = 0
produces (call_push e ∷ ms) = produces ms
produces (produce ∷ ms) = suc (produces ms)
produces (consume ∷ ms) = produces ms

-- A push of `e` behind `before`, with room in the ring until it has been tested.
abbrev Pushes : ℕ → List ℕ → Spsc → List ℕ → Producer → Type 0
Pushes e before q sent Producer.resting = sent ≡ before ++ e ∷ []
Pushes e before q sent (Producer.loaded x w) =
    (x ≡ e) × (sent ≡ before) × (count q + 1 < q.capacity)
Pushes e before q sent (Producer.checked x w) = (x ≡ e) × (sent ≡ before)
Pushes e before q sent (Producer.stored x w) = (x ≡ e) × (sent ≡ before)

module _ (e : ℕ) (before : List ℕ) where
  abbrev IsPushing : State → Type 0
  IsPushing s = Pushes e before s.ring s.sent s.producer

  module _ (s : State) (f : IsFifo s) where
    produce-IsPushing :
        (p : Producer)
        → s.producer ≡ p
        → ProducerKnows s.ring p
        → Pushes e before s.ring s.sent p
        → IsPushing (produce_step p s)
          × (left_of_push (produce_step p s).producer ≡ left_of_push p - 1)
    unfolding produce_step
    produce-IsPushing Producer.resting at k h = rw at (h, refl)
    produce-IsPushing (Producer.loaded x w) at k (same, sent, room) =
        let full : (count s.ring + 1 == s.ring.capacity) ≡ false = ground arith in
        rw (k, full_test s.ring f.valid, full) ((same, sent), refl)
    produce-IsPushing (Producer.checked x w) at k h = (h, refl)
    produce-IsPushing (Producer.stored x w) at k (same, sent) = (rw (same, sent) refl, refl)

    -- The consumer only makes room.
    taken-Pushes :
        (p : Producer)
        → 0 < count s.ring
        → Pushes e before s.ring s.sent p
        → Pushes e before (taken s.ring) s.sent p
    unfolding taken
    taken-Pushes Producer.resting some_left h = h
    taken-Pushes (Producer.loaded x w) some_left (same, sent, room) =
        (same, sent, omega (arith, count-taken s.ring f.valid some_left))
    taken-Pushes (Producer.checked x w) some_left h = h
    taken-Pushes (Producer.stored x w) some_left h = h

    consume-IsPushing :
        (c : Consumer)
        → ConsumerKnows s.ring c
        → IsPushing s
        → IsPushing (consume_step c s) × ((consume_step c s).producer ≡ s.producer)
    unfolding consume_step taken
    consume-IsPushing Consumer.resting k h = (h, refl)
    consume-IsPushing (Consumer.loaded r) k h = elim (Bool-cases (r == s.ring.write_pos)) [
      | inl z ↦ rw z (h, refl)
      | inr nz ↦ rw nz (h, refl)
    ]
    consume-IsPushing (Consumer.checked r) k h = (h, refl)
    consume-IsPushing (Consumer.fetched r x) k h = rw (k.0) (taken-Pushes s.producer k.1 h, refl)

  -- What is left of the push after a schedule.
  pushes_on :
      (ms : List Move) (s : State)
      → IsCallFree ms
      → IsFifo s
      → IsPushing s
      → IsPushing (run ms s)
        × (left_of_push (run ms s).producer ≡ left_of_push s.producer - produces ms)
  unfolding run step
  pushes_on [] s free f h = (h, omega arith)
  pushes_on (call_push x ∷ ms) s free f h = absurd free
  pushes_on (produce ∷ ms) s free f h =
      let (pushing, less) = produce-IsPushing s f s.producer refl f.producer_knows h in
      let (end, left) =
        pushes_on ms (produce_step s.producer s) free (step-IsFifo produce s f) pushing in
      (end, omega (arith, left, less))
  pushes_on (consume ∷ ms) s free f h =
      let (pushing, same) = consume-IsPushing s f s.consumer f.consumer_knows h in
      let (end, left) =
        pushes_on ms (consume_step s.consumer s) free (step-IsFifo consume s f) pushing in
      (end, omega (arith, left, ap left_of_push same))

  resting-Pushes :
      (q : Spsc) (sent : List ℕ) (p : Producer)
      → left_of_push p ≡ 0
      → Pushes e before q sent p
      → (p ≡ Producer.resting) × (sent ≡ before ++ e ∷ [])
  resting-Pushes q sent Producer.resting z h = (refl, h)
  resting-Pushes q sent (Producer.loaded x w) z h = absurd (omega arith)
  resting-Pushes q sent (Producer.checked x w) z h = absurd (omega arith)
  resting-Pushes q sent (Producer.stored x w) z h = absurd (omega arith)

-- A push into a ring with room succeeds: after the call, in any order with the moves of the consumer,
-- three accesses of the producer end the call, and the pointer has been sent, once and behind what
-- was sent before.
pub push_succeeds :
    (s : State) (e : ℕ) (ms : List Move)
    → IsFifo s
    → s.producer ≡ Producer.resting
    → count s.ring + 1 < s.ring.capacity
    → IsCallFree ms
    → 3 ≤ produces ms
    → let s' = run (call_push e ∷ ms) s in
      (s'.producer ≡ Producer.resting) × (s'.sent ≡ s.sent ++ e ∷ [])
unfolding run step start_push
push_succeeds s e ms f rests room free enough =
    let called : State = record s { producer = Producer.loaded e s.ring.write_pos } in
    let starts : start_push s.producer e s ≡ called = rw rests refl in
    let f' : IsFifo called = subst IsFifo starts (step-IsFifo (call_push e) s f) in
    let (end, left) = pushes_on e s.sent ms called free f' (refl, refl, room) in
    let run_from : run (call_push e ∷ ms) s ≡ run ms called = ap (run ms) starts in
    let t = run ms called in
    subst (λ (x : State). (x.producer ≡ Producer.resting) × (x.sent ≡ s.sent ++ e ∷ []))
      (sym run_from) (resting-Pushes e s.sent t.ring t.sent t.producer (omega (arith, left)) end)
