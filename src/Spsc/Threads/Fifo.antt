-- ===== src/Spsc/Threads/Fifo.antt =====
-- src/spsc_queue.c: whatever the order of the moves, the consumer gets what the producer sent.
use libcymo.Common.{
  ℕ, ◌+◌, ◌<◌, ◌≡◌, refl, sym, ap, ◌∙◌, arith, List, [], ◌∷◌, ◌++◌, get_or, set, ◌==◌, Bool-cases,
  inl, inr, length, length-set, get_or-set_ne, get_or-set_self,
}
use mathlib.Core.List.{append_assoc}
use libcymo.Spsc.{Spsc}
use libcymo.Spsc.Slots.{IsValid, count, contents}
use libcymo.Spsc.Refine.{
  full_test, empty_test, count-taken, count_bound, advanced, contents-advanced, contents-set,
  length-contents, taken, contents-taken,
}
use libcymo.Spsc.Threads.{
  Producer, Consumer, State, Move, call_push, produce, consume, start_push, produce_step,
  consume_step, step, run,
}

-- What each thread knows of the ring at its place.
abbrev pub ProducerKnows : Spsc → Producer → Type 0
ProducerKnows q Producer.resting = Unit
ProducerKnows q (Producer.loaded e w) = w ≡ q.write_pos
ProducerKnows q (Producer.checked e w) = (w ≡ q.write_pos) × (count q + 1 < q.capacity)
ProducerKnows q (Producer.stored e w) =
    (w ≡ q.write_pos) × (count q + 1 < q.capacity) × (get_or q.records w 0 ≡ e)

abbrev pub ConsumerKnows : Spsc → Consumer → Type 0
ConsumerKnows q Consumer.resting = Unit
ConsumerKnows q (Consumer.loaded r) = r ≡ q.read_pos
ConsumerKnows q (Consumer.checked r) = (r ≡ q.read_pos) × (0 < count q)
ConsumerKnows q (Consumer.fetched r x) =
    (r ≡ q.read_pos) × (0 < count q) × (get_or q.records r 0 ≡ x)

pub record IsFifo (s : State) : Type 0 where
  pub valid : IsValid s.ring
  pub history : s.sent ≡ s.received ++ contents s.ring
  pub producer_knows : ProducerKnows s.ring s.producer
  pub consumer_knows : ConsumerKnows s.ring s.consumer

-- What one thread knows stays true through the moves of the other.
module _ (q : Spsc) (v : IsValid q) where
  consumer-set :
      (c : Consumer) (e : ℕ)
      → ConsumerKnows q c
      → ConsumerKnows (record q { records = set q.records q.write_pos e }) c
  consumer-set Consumer.resting e k = tt
  consumer-set (Consumer.loaded r) e k = k
  consumer-set (Consumer.checked r) e k = k
  consumer-set (Consumer.fetched r x) e k =
      (k.0, k.1, get_or-set_ne q.records e 0 (ground (arith, k)) ∙ k.2)

  consumer-advanced :
      (c : Consumer) → count q + 1 < q.capacity → ConsumerKnows q c → ConsumerKnows (advanced q) c
  unfolding advanced
  consumer-advanced Consumer.resting h k = tt
  consumer-advanced (Consumer.loaded r) h k = k
  consumer-advanced (Consumer.checked r) h k = (k.0, omega (arith, (contents-advanced q v h).2))
  consumer-advanced (Consumer.fetched r x) h k =
      (k.0, omega (arith, (contents-advanced q v h).2), k.2)

  producer-taken : (p : Producer) → 0 < count q → ProducerKnows q p → ProducerKnows (taken q) p
  unfolding taken
  producer-taken Producer.resting h k = tt
  producer-taken (Producer.loaded e w) h k = k
  producer-taken (Producer.checked e w) h k = (k.0, omega (arith, count-taken q v h, k.1))
  producer-taken (Producer.stored e w) h k = (k.0, omega (arith, count-taken q v h, k.1), k.2)

-- The invariant with the two places as variables.
module _ (s : State) (f : IsFifo s) where
  open s use {ring, sent, received}

  start_push-IsFifo : (p : Producer) (e : ℕ) → IsFifo (start_push p e s)
  unfolding start_push
  start_push-IsFifo Producer.resting e = record {
    valid = f.valid;
    history = f.history;
    producer_knows = refl;
    consumer_knows = f.consumer_knows;
  }
  start_push-IsFifo _ e = f

  produce_step-IsFifo : (p : Producer) → ProducerKnows ring p → IsFifo (produce_step p s)
  unfolding produce_step advanced
  produce_step-IsFifo Producer.resting k = f
  produce_step-IsFifo (Producer.loaded e w) k =
      elim (Bool-cases (count ring + 1 == ring.capacity)) [
        | inl full ↦
            rw (k, full_test ring f.valid, full)
              (record {
                valid = f.valid;
                history = f.history;
                producer_knows = tt;
                consumer_knows = f.consumer_knows;
              })
        | inr room ↦
            rw (k, full_test ring f.valid, room)
              (record {
                valid = f.valid;
                history = f.history;
                producer_knows = (refl, ground (arith, count_bound ring f.valid));
                consumer_knows = f.consumer_knows;
              })
      ]
  produce_step-IsFifo (Producer.checked e w) k = rw (k.0) (record {
    valid = ground (arith, length-set ring.records ring.write_pos e, f.valid);
    history = rw (contents-set ring f.valid e) f.history;
    producer_knows =
        (refl, k.1, get_or-set_self ring.records ring.write_pos e 0 (omega (arith, f.valid)));
    consumer_knows = consumer-set ring f.valid s.consumer e f.consumer_knows;
  })
  produce_step-IsFifo (Producer.stored e w) k =
      let (grown, valid, longer) = contents-advanced ring f.valid k.1 in
      rw (k.0) (record {
        valid = valid;
        history =
            ap (λ l. l ++ e ∷ []) f.history
            ∙ append_assoc received (contents ring) (e ∷ [])
            ∙ ap (λ l. received ++ l)
                (sym (
                  grown
                  ∙ ap (λ x. contents ring ++ x ∷ [])
                      (ap (λ i. get_or ring.records i 0) (sym k.0) ∙ k.2)));
        producer_knows = tt;
        consumer_knows = consumer-advanced ring f.valid s.consumer k.1 f.consumer_knows;
      })

  consume_step-IsFifo : (c : Consumer) → ConsumerKnows ring c → IsFifo (consume_step c s)
  unfolding consume_step taken
  consume_step-IsFifo Consumer.resting k = record {
    valid = f.valid;
    history = f.history;
    producer_knows = f.producer_knows;
    consumer_knows = refl;
  }
  consume_step-IsFifo (Consumer.loaded r) k = elim (Bool-cases (count ring == 0)) [
    | inl none_left ↦
        rw (k, empty_test ring f.valid, none_left)
          (record {
            valid = f.valid;
            history = f.history;
            producer_knows = f.producer_knows;
            consumer_knows = tt;
          })
    | inr some_left ↦
        rw (k, empty_test ring f.valid, some_left)
          (record {
            valid = f.valid;
            history = f.history;
            producer_knows = f.producer_knows;
            consumer_knows = (refl, ground arith);
          })
  ]
  consume_step-IsFifo (Consumer.checked r) k = record {
    valid = f.valid;
    history = f.history;
    producer_knows = f.producer_knows;
    consumer_knows = (k.0, k.1, refl);
  }
  consume_step-IsFifo (Consumer.fetched r x) k =
      let (first, valid) = contents-taken ring f.valid k.1 in
      rw (k.0) (record {
        valid = valid;
        history =
            f.history
            ∙ ap (λ l. received ++ l)
                (first
                  ∙ ap (λ y. y ∷ contents (taken ring))
                      (ap (λ i. get_or ring.records i 0) (sym k.0) ∙ k.2))
            ∙ sym (append_assoc received (x ∷ []) (contents (taken ring)));
        producer_knows = producer-taken ring f.valid s.producer k.1 f.producer_knows;
        consumer_knows = tt;
      })

pub step-IsFifo : (m : Move) (s : State) → IsFifo s → IsFifo (step m s)
unfolding step
step-IsFifo (call_push e) s f = start_push-IsFifo s f s.producer e
step-IsFifo produce s f = produce_step-IsFifo s f s.producer f.producer_knows
step-IsFifo consume s f = consume_step-IsFifo s f s.consumer f.consumer_knows

pub run-IsFifo : (ms : List Move) (s : State) → IsFifo s → IsFifo (run ms s)
unfolding run
run-IsFifo [] s f = f
run-IsFifo (m ∷ ms) s f = run-IsFifo ms (step m s) (step-IsFifo m s f)

-- Both threads at rest, nothing sent yet.
abbrev pub at_rest : Spsc → State
at_rest q = record {
  ring = q;
  producer = Producer.resting;
  consumer = Consumer.resting;
  sent = [];
  received = [];
}

-- From an empty valid ring, after any moves of the two threads in any order: what was pushed is what
-- was popped and then what the ring holds, in order, and the ring holds less than its capacity.
pub interleaved_fifo :
    (q : Spsc) (ms : List Move)
    → IsValid q
    → contents q ≡ []
    → let s = run ms (at_rest q) in
      (s.sent ≡ s.received ++ contents s.ring) × (length (contents s.ring) < s.ring.capacity)
interleaved_fifo q ms v e =
    let f =
      run-IsFifo ms (at_rest q)
        (record { valid = v; history = sym e; producer_knows = tt; consumer_knows = tt }) in
    (
      f.history,
      omega (
        arith,
        length-contents (run ms (at_rest q)).ring f.valid,
        count_bound (run ms (at_rest q)).ring f.valid,
      ),
    )
