-- ===== src/Spsc/Tests.antt =====
-- src/spsc_queue.c at concrete rings.
use libcymo.Common.{ℕ, inl, inr, ◌<◌, ◌≡◌, refl, arith, List, [], ◌∷◌, ◌++◌, length}
use libcymo.Spsc.{Spsc, next_record, spsc_queue_is_empty, spsc_queue_is_full}
use libcymo.Spsc.Slots.{IsValid, contents}
use libcymo.Spsc.Threads.{
  Producer, Consumer, State, Move, call_push, produce, consume, start_push, produce_step,
  consume_step, step, run, seen,
}
use libcymo.Spsc.Threads.Fifo.{IsFifo, at_rest, interleaved_fifo}
use libcymo.Spsc.Threads.Progress.{push_succeeds}
use libcymo.Spsc.Threads.Pops.{pop_succeeds}
use libcymo.Spsc.Threads.Queries.{IsWithin, size_by_consumer, is_full-push, is_empty-pop}

-- Two entries, 8 and 9, that wrap around.
abbrev wrapped : Spsc
wrapped = record { capacity = 3; records = 9 ∷ 7 ∷ 8 ∷ []; read_pos = 2; write_pos = 1 }

wrapped-IsValid : IsValid wrapped
wrapped-IsValid = omega arith

abbrev fresh : Spsc
fresh = record { capacity = 3; records = 7 ∷ 7 ∷ 7 ∷ []; read_pos = 0; write_pos = 0 }

fresh-IsValid : IsValid fresh
fresh-IsValid = omega arith

wrapped_run : contents wrapped ≡ 8 ∷ 9 ∷ []
unfolding next_record
wrapped_run = refl

-- A push is overtaken by a pop that still sees the ring empty; a second push is under way.
abbrev schedule : List Move
schedule =
    call_push 5
    ∷ produce
    ∷ consume
    ∷ produce
    ∷ consume
    ∷ produce
    ∷ consume
    ∷ call_push 6
    ∷ consume
    ∷ produce
    ∷ consume
    ∷ produce
    ∷ consume
    ∷ []

overtaken_pop :
    ((run schedule (at_rest fresh)).sent ≡ 5 ∷ [])
    × ((run schedule (at_rest fresh)).received ≡ 5 ∷ [])
unfolding run step start_push produce_step consume_step next_record
overtaken_pop = (refl, refl)

interleaved_fifo_example :
    let s = run schedule (at_rest fresh) in
    (s.sent ≡ s.received ++ contents s.ring) × (length (contents s.ring) < s.ring.capacity)
interleaved_fifo_example = interleaved_fifo fresh schedule fresh-IsValid refl

fresh-IsFifo : IsFifo (at_rest fresh)
fresh-IsFifo = record {
  valid = fresh-IsValid;
  history = refl;
  producer_knows = tt;
  consumer_knows = tt;
}

-- The consumer finds the ring empty on the way.
push_succeeds_example :
    let s' =
      run (call_push 5 ∷ produce ∷ consume ∷ produce ∷ consume ∷ produce ∷ []) (at_rest fresh) in
    (s'.producer ≡ Producer.resting) × (s'.sent ≡ 5 ∷ [])
push_succeeds_example =
    push_succeeds (at_rest fresh) 5 (produce ∷ consume ∷ produce ∷ consume ∷ produce ∷ [])
      fresh-IsFifo refl (omega arith) tt (omega arith)

-- The two entries have been sent.
abbrev waiting : State
waiting = record {
  ring = wrapped;
  producer = Producer.resting;
  consumer = Consumer.resting;
  sent = 8 ∷ 9 ∷ [];
  received = [];
}

waiting-IsFifo : IsFifo waiting
unfolding next_record
waiting-IsFifo = record {
  valid = wrapped-IsValid;
  history = refl;
  producer_knows = tt;
  consumer_knows = tt;
}

pop_succeeds_example :
    let s' = run (consume ∷ consume ∷ call_push 5 ∷ consume ∷ produce ∷ consume ∷ []) waiting in
    (s'.consumer ≡ Consumer.resting) × (s'.received ≡ 8 ∷ [])
pop_succeeds_example =
    pop_succeeds waiting 8 (9 ∷ []) (consume ∷ call_push 5 ∷ consume ∷ produce ∷ consume ∷ [])
      waiting-IsFifo refl wrapped_run refl

-- A push up to the store of the write position, and that store.
abbrev most_of_push : List Move
most_of_push = call_push 5 ∷ produce ∷ produce ∷ []

abbrev end_of_push : List Move
end_of_push = produce ∷ []

abbrev most_of_pop : List Move
most_of_pop = consume ∷ consume ∷ consume ∷ []

abbrev end_of_pop : List Move
end_of_pop = consume ∷ []

-- The results are 0 and 1.
size_by_consumer_example :
    IsWithin
      (at_rest fresh)
      fresh-IsFifo
      most_of_push
      end_of_push
      []
      0
      1
      (seen (run most_of_push (at_rest fresh)) (run (most_of_push ++ end_of_push) (at_rest fresh)))
    × IsWithin (at_rest fresh) fresh-IsFifo most_of_push end_of_push [] 0 1 (
        seen (run (most_of_push ++ end_of_push) (at_rest fresh)) (run most_of_push (at_rest fresh)))
unfolding run step start_push produce_step next_record
size_by_consumer_example =
    size_by_consumer (at_rest fresh) fresh-IsFifo most_of_push end_of_push [] tt tt tt (omega arith)

is_full-push_example :
    let s' =
      run
        (call_push 5 ∷ produce ∷ produce ∷ produce ∷ [])
        (run (most_of_pop ++ end_of_pop) waiting) in
    (s'.producer ≡ Producer.resting) × (s'.sent ≡ 8 ∷ 9 ∷ 5 ∷ [])
unfolding run step consume_step next_record seen spsc_queue_is_full
is_full-push_example =
    is_full-push waiting waiting-IsFifo most_of_pop end_of_pop 5 (produce ∷ produce ∷ produce ∷ [])
      refl tt tt (inl refl) tt (omega arith)

is_empty-pop_example :
    let ready = run (most_of_push ++ end_of_push) (at_rest fresh) in
    let s' = run (consume ∷ consume ∷ consume ∷ consume ∷ []) ready in
    (x : ℕ) × (xs : List ℕ) × (contents ready.ring ≡ x ∷ xs)
    × (s'.consumer ≡ Consumer.resting)
    × (s'.received ≡ [] ++ x ∷ [])
unfolding run step start_push produce_step next_record seen spsc_queue_is_empty
is_empty-pop_example =
    is_empty-pop (at_rest fresh) fresh-IsFifo most_of_push end_of_push
      (consume ∷ consume ∷ consume ∷ []) refl tt tt (inr refl) refl
