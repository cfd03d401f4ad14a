-- ===== src/Spsc/Threads/Pops.antt =====
-- src/spsc_queue.c: a pop ends after three accesses of its own, whatever the producer does.
use libcymo.Common.{
  ℕ, suc, ◌-◌, ◌<◌, ◌≡◌, refl, sym, ap, ◌∙◌, subst, arith, false, List, [], ◌∷◌, ◌++◌, get_or, set,
  ◌==◌, Bool-cases, inl, inr,
}
use libcymo.Spsc.{Spsc, next_record}
use libcymo.Spsc.Slots.{count, contents}
use libcymo.Spsc.Refine.{
  empty_test, contents-empty, contents-set, contents-advanced, contents-taken, advanced, taken,
}
use libcymo.Spsc.Threads.{
  Producer, Consumer, State, Move, call_push, produce, consume, start_push, produce_step,
  consume_step, step, run,
}
use libcymo.Spsc.Threads.Fifo.{ProducerKnows, ConsumerKnows, IsFifo, step-IsFifo}

-- The accesses that are left of a pop.
abbrev pub left_of_pop : Consumer → ℕ
left_of_pop Consumer.resting = 0
left_of_pop (Consumer.loaded r) = 3
left_of_pop (Consumer.checked r) = 2
left_of_pop (Consumer.fetched r x) = 1

-- The accesses of the consumer in a schedule.
abbrev pub consumes : List Move → ℕ
consumes [] = 0
consumes (call_push e ∷ ms) = consumes ms
consumes (produce ∷ ms) = consumes ms
consumes (consume ∷ ms) = suc (consumes ms)

abbrev pub IsFirst : ℕ → Spsc → Type 0
IsFirst x q = (ys : List ℕ) × (contents q ≡ x ∷ ys)

-- A pop that takes `x` behind `before`.
abbrev Pops : ℕ → List ℕ → Spsc → List ℕ → Consumer → Type 0
Pops x before q received Consumer.resting = received ≡ before ++ x ∷ []
Pops x before q received (Consumer.loaded r) = (received ≡ before) × IsFirst x q
Pops x before q received (Consumer.checked r) = (received ≡ before) × IsFirst x q
Pops x before q received (Consumer.fetched r y) = (received ≡ before) × IsFirst x q

-- The first entry stays the first while others come in behind it.
Pops-grow :
    (x : ℕ) (before : List ℕ) (q q' : Spsc) (received : List ℕ) (c : Consumer)
    → (IsFirst x q → IsFirst x q')
    → Pops x before q received c
    → Pops x before q' received c
Pops-grow x before q q' received Consumer.resting g h = h
Pops-grow x before q q' received (Consumer.loaded r) g h = (h.0, g h.1)
Pops-grow x before q q' received (Consumer.checked r) g h = (h.0, g h.1)
Pops-grow x before q q' received (Consumer.fetched r y) g h = (h.0, g h.1)

module _ (x : ℕ) (before : List ℕ) where
  abbrev IsPopping : State → Type 0
  IsPopping s = Pops x before s.ring s.received s.consumer

  module _ (s : State) (f : IsFifo s) where
    start-IsPopping :
        (p : Producer) (e : ℕ)
        → IsPopping s
        → IsPopping (start_push p e s) × ((start_push p e s).consumer ≡ s.consumer)
    unfolding start_push
    start-IsPopping Producer.resting e h = (h, refl)
    start-IsPopping _ e h = (h, refl)

    produce-IsPopping :
        (p : Producer)
        → ProducerKnows s.ring p
        → IsPopping s
        → IsPopping (produce_step p s) × ((produce_step p s).consumer ≡ s.consumer)
    unfolding produce_step advanced
    produce-IsPopping Producer.resting k h = (h, refl)
    produce-IsPopping (Producer.loaded e w) k h =
        elim (Bool-cases (next_record s.ring.capacity w == s.ring.read_pos)) [
          | inl full ↦ rw full (h, refl)
          | inr room ↦ rw room (h, refl)
        ]
    produce-IsPopping (Producer.checked e w) k h = rw (k.0) (
      Pops-grow x before s.ring
          (record (s.ring) { records = set s.ring.records s.ring.write_pos e }) s.received
          s.consumer (λ g. (g.0, contents-set s.ring f.valid e ∙ g.1)) h,
      refl,
    )
    produce-IsPopping (Producer.stored e w) k h =
        let (grown, _, _) = contents-advanced s.ring f.valid k.1 in
        rw (k.0) (
          Pops-grow x before s.ring (advanced s.ring) s.received s.consumer
              (λ g. (
                g.0 ++ get_or s.ring.records s.ring.write_pos 0 ∷ [],
                grown ∙ ap (λ l. l ++ get_or s.ring.records s.ring.write_pos 0 ∷ []) g.1,
              ))
              h,
          refl,
        )

    some_left : IsFirst x s.ring → 0 < count s.ring
    some_left (ys, e) = elim (Bool-cases (count s.ring == 0)) [
      | inl z ↦
          let none_left : count s.ring ≡ 0 = ground arith in
          absurd (cc (contents-empty s.ring f.valid none_left, e))
      | inr nz ↦ ground arith
    ]

    consume-IsPopping :
        (c : Consumer)
        → ConsumerKnows s.ring c
        → 0 < left_of_pop c
        → Pops x before s.ring s.received c
        → IsPopping (consume_step c s)
          × (left_of_pop (consume_step c s).consumer ≡ left_of_pop c - 1)
    unfolding consume_step taken
    consume-IsPopping Consumer.resting k lt h = absurd (omega arith)
    consume-IsPopping (Consumer.loaded r) k lt h =
        let filled : (count s.ring == 0) ≡ false = ground (arith, some_left h.1) in
        rw (k, empty_test s.ring f.valid, filled) (h, refl)
    consume-IsPopping (Consumer.checked r) k lt h = (h, refl)
    consume-IsPopping (Consumer.fetched r y) k lt h =
        let (first, _) = contents-taken s.ring f.valid k.1 in
        let is_x : y ≡ x = cc (first, h.1.1, k.0, k.2) in (rw (h.0, is_x) refl, refl)

  pops_on :
      (ms : List Move) (s : State)
      → IsFifo s
      → consumes ms ≡ left_of_pop s.consumer
      → IsPopping s
      → IsPopping (run ms s) × (left_of_pop (run ms s).consumer ≡ 0)
  unfolding run step
  pops_on [] s f e h = (h, omega arith)
  pops_on (call_push v ∷ ms) s f e h =
      let (popping, same) = start-IsPopping s f s.producer v h in
      pops_on ms (start_push s.producer v s) (step-IsFifo (call_push v) s f)
        (omega (arith, ap left_of_pop same)) popping
  pops_on (produce ∷ ms) s f e h =
      let (popping, same) = produce-IsPopping s f s.producer f.producer_knows h in
      pops_on ms (produce_step s.producer s) (step-IsFifo produce s f)
        (omega (arith, ap left_of_pop same)) popping
  pops_on (consume ∷ ms) s f e h =
      let (popping, less) = consume-IsPopping s f s.consumer f.consumer_knows (omega arith) h in
      pops_on ms (consume_step s.consumer s) (step-IsFifo consume s f) (omega (arith, less)) popping

  resting-Pops :
      (q : Spsc) (received : List ℕ) (c : Consumer)
      → left_of_pop c ≡ 0
      → Pops x before q received c
      → (c ≡ Consumer.resting) × (received ≡ before ++ x ∷ [])
  resting-Pops q received Consumer.resting z h = (refl, h)
  resting-Pops q received (Consumer.loaded r) z h = absurd (omega arith)
  resting-Pops q received (Consumer.checked r) z h = absurd (omega arith)
  resting-Pops q received (Consumer.fetched r y) z h = absurd (omega arith)

-- A pop of a ring with entries succeeds: after the call, in any order with the calls and accesses of
-- the producer, three accesses of the consumer end it, and the first entry has been received, once
-- and behind what was received before.
pub pop_succeeds :
    (s : State) (x : ℕ) (xs : List ℕ) (ms : List Move)
    → IsFifo s
    → s.consumer ≡ Consumer.resting
    → contents s.ring ≡ x ∷ xs
    → consumes ms ≡ 3
    → let s' = run (consume ∷ ms) s in
      (s'.consumer ≡ Consumer.resting) × (s'.received ≡ s.received ++ x ∷ [])
unfolding run step consume_step
pop_succeeds s x xs ms f rests first three =
    let called : State = record s { consumer = Consumer.loaded s.ring.read_pos } in
    let starts : consume_step s.consumer s ≡ called = rw rests refl in
    let f' : IsFifo called = subst IsFifo starts (step-IsFifo consume s f) in
    let (end, left) = pops_on x s.received ms called f' three (refl, (xs, first)) in
    let run_from : run (consume ∷ ms) s ≡ run ms called = ap (run ms) starts in
    let t = run ms called in
    subst (λ (z : State). (z.consumer ≡ Consumer.resting) × (z.received ≡ s.received ++ x ∷ []))
      (sym run_from) (resting-Pops x s.received t.ring t.received t.consumer left end)
