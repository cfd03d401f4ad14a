-- ===== src/Spsc/Threads/Alone.antt =====
-- src/spsc_queue.c: what the ring, as one thread sees it, becomes by the moves of the other.
use libcymo.Common.{ℕ, ◌≤◌, ◌≡◌, refl, ◌∙◌, arith, List, [], ◌∷◌, ◌==◌, Bool-cases, inl, inr}
use libcymo.Spsc.{next_record}
use libcymo.Spsc.Slots.{count}
use libcymo.Spsc.Refine.{contents-advanced, count-taken, advanced, taken}
use libcymo.Spsc.Threads.{
  Producer, Consumer, State, Move, call_push, produce, consume, start_push, produce_step,
  consume_step, step, run,
}
use libcymo.Spsc.Threads.Fifo.{ProducerKnows, ConsumerKnows, IsFifo, step-IsFifo}

-- The moves of one thread alone.
abbrev pub IsProducing : List Move → Type 0
IsProducing [] = Unit
IsProducing (consume ∷ ms) = ⊥
IsProducing (_ ∷ ms) = IsProducing ms

abbrev pub IsConsuming : List Move → Type 0
IsConsuming [] = Unit
IsConsuming (consume ∷ ms) = IsConsuming ms
IsConsuming (_ ∷ ms) = ⊥

-- What the producer does to the ring that the consumer sees, and the other way round.
pub record Grows (s t : State) : Type 0 where
  pub same_capacity : t.ring.capacity ≡ s.ring.capacity
  pub same_read : t.ring.read_pos ≡ s.ring.read_pos
  pub more : count s.ring ≤ count t.ring
  pub same_consumer : t.consumer ≡ s.consumer
  pub same_received : t.received ≡ s.received

pub record Shrinks (s t : State) : Type 0 where
  pub same_capacity : t.ring.capacity ≡ s.ring.capacity
  pub same_write : t.ring.write_pos ≡ s.ring.write_pos
  pub same_records : t.ring.records ≡ s.ring.records
  pub less : count t.ring ≤ count s.ring
  pub same_producer : t.producer ≡ s.producer
  pub same_sent : t.sent ≡ s.sent

-- A move of the producer that leaves the ring.
Grows-still : (s : State) (p : Producer) → Grows s (record s { producer = p })
Grows-still s p = record {
  same_capacity = refl;
  same_read = refl;
  more = omega arith;
  same_consumer = refl;
  same_received = refl;
}

-- A move of the consumer that leaves the ring.
Shrinks-still : (s : State) (c : Consumer) → Shrinks s (record s { consumer = c })
Shrinks-still s c = record {
  same_capacity = refl;
  same_write = refl;
  same_records = refl;
  less = omega arith;
  same_producer = refl;
  same_sent = refl;
}

module _ (s : State) (f : IsFifo s) where
  start_push-Grows : (p : Producer) (e : ℕ) → Grows s (start_push p e s)
  unfolding start_push
  start_push-Grows Producer.resting e = Grows-still s _
  start_push-Grows _ e = Grows-still s s.producer

  produce_step-Grows : (p : Producer) → ProducerKnows s.ring p → Grows s (produce_step p s)
  unfolding produce_step advanced
  produce_step-Grows Producer.resting k = Grows-still s s.producer
  produce_step-Grows (Producer.loaded e w) k =
      elim (Bool-cases (next_record s.ring.capacity w == s.ring.read_pos)) [
        | inl full ↦ rw full (Grows-still s _)
        | inr room ↦ rw room (Grows-still s _)
      ]
  produce_step-Grows (Producer.checked e w) k = record {
    same_capacity = refl;
    same_read = refl;
    more = omega arith;
    same_consumer = refl;
    same_received = refl;
  }
  produce_step-Grows (Producer.stored e w) k =
      let (_, _, longer) = contents-advanced s.ring f.valid k.1 in
      rw (k.0) (record {
        same_capacity = refl;
        same_read = refl;
        more = omega (arith, longer);
        same_consumer = refl;
        same_received = refl;
      })

  consume_step-Shrinks : (c : Consumer) → ConsumerKnows s.ring c → Shrinks s (consume_step c s)
  unfolding consume_step taken
  consume_step-Shrinks Consumer.resting k = Shrinks-still s _
  consume_step-Shrinks (Consumer.loaded r) k = elim (Bool-cases (r == s.ring.write_pos)) [
    | inl z ↦ rw z (Shrinks-still s _)
    | inr nz ↦ rw nz (Shrinks-still s _)
  ]
  consume_step-Shrinks (Consumer.checked r) k = Shrinks-still s _
  consume_step-Shrinks (Consumer.fetched r x) k = rw (k.0) (record {
    same_capacity = refl;
    same_write = refl;
    same_records = refl;
    less = omega (arith, count-taken s.ring f.valid k.1);
    same_producer = refl;
    same_sent = refl;
  })

Grows-trans : (a b c : State) → Grows a b → Grows b c → Grows a c
Grows-trans a b c g h = record {
  same_capacity = h.same_capacity ∙ g.same_capacity;
  same_read = h.same_read ∙ g.same_read;
  more = omega (arith, g.more, h.more);
  same_consumer = h.same_consumer ∙ g.same_consumer;
  same_received = h.same_received ∙ g.same_received;
}

Shrinks-trans : (a b c : State) → Shrinks a b → Shrinks b c → Shrinks a c
Shrinks-trans a b c g h = record {
  same_capacity = h.same_capacity ∙ g.same_capacity;
  same_write = h.same_write ∙ g.same_write;
  same_records = h.same_records ∙ g.same_records;
  less = omega (arith, g.less, h.less);
  same_producer = h.same_producer ∙ g.same_producer;
  same_sent = h.same_sent ∙ g.same_sent;
}

pub run-Grows : (ms : List Move) (s : State) → IsProducing ms → IsFifo s → Grows s (run ms s)
unfolding run step
run-Grows [] s p f = Grows-still s s.producer
run-Grows (call_push e ∷ ms) s p f =
    Grows-trans s (start_push s.producer e s) _ (start_push-Grows s f s.producer e)
      (run-Grows ms (start_push s.producer e s) p (step-IsFifo (call_push e) s f))
run-Grows (produce ∷ ms) s p f =
    Grows-trans s (produce_step s.producer s) _ (produce_step-Grows s f s.producer f.producer_knows)
      (run-Grows ms (produce_step s.producer s) p (step-IsFifo produce s f))
run-Grows (consume ∷ ms) s p f = absurd p

pub run-Shrinks : (ms : List Move) (s : State) → IsConsuming ms → IsFifo s → Shrinks s (run ms s)
unfolding run step
run-Shrinks [] s p f = Shrinks-still s s.consumer
run-Shrinks (call_push e ∷ ms) s p f = absurd p
run-Shrinks (produce ∷ ms) s p f = absurd p
run-Shrinks (consume ∷ ms) s p f =
    Shrinks-trans s (consume_step s.consumer s) _
      (consume_step-Shrinks s f s.consumer f.consumer_knows)
      (run-Shrinks ms (consume_step s.consumer s) p (step-IsFifo consume s f))
