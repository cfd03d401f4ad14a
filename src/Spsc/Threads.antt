-- ===== src/Spsc/Threads.antt =====
-- src/spsc_queue.c with its two threads: the atomic loads and stores of `spsc_queue_push` and
-- `spsc_queue_pop` as single moves, in any order. Memory is sequentially consistent here; the
-- acquire and release orders of the source are what makes the plain accesses to `records` so.
pub mod Fifo
pub mod Progress
pub mod Pops
pub mod Alone
pub mod Queries
use libcymo.Common.{
  ℕ, zero, suc, ◌+◌, ◌-◌, ◌≤◌, ◌<◌, ◌≡◌, ◌≢◌, refl, sym, ap, ◌∙◌, arith, true, false, List, [], ◌∷◌,
  ◌++◌, get_or, set, ◌==◌, if◌then◌else◌, Bool-cases, inl, inr, length, length-set, get_or-set_ne,
  get_or-set_self,
}
use libcymo.Spsc.{Spsc, next_record}

-- Where the producer stands in `spsc_queue_push(q, e)`: before it, after the load of `write_pos`
-- (`w`), after the test against `read_pos`, after the write to `records`.
pub data Producer : Type 0 where
  resting : Producer
  loaded : (e w : ℕ) → Producer
  checked : (e w : ℕ) → Producer
  stored : (e w : ℕ) → Producer

-- Where the consumer stands in `spsc_queue_pop`: before it, after the load of `read_pos` (`r`), after
-- the test against `write_pos`, after the read of `records` (`x`).
pub data Consumer : Type 0 where
  resting : Consumer
  loaded : (r : ℕ) → Consumer
  checked : (r : ℕ) → Consumer
  fetched : (r x : ℕ) → Consumer

-- `sent` lists the pointers whose push has returned 0, `received` those whose pop has.
pub record State : Type 0 where
  pub ring : Spsc
  pub producer : Producer
  pub consumer : Consumer
  pub sent : List ℕ
  pub received : List ℕ

-- The producer calls `spsc_queue_push` with `e`, or makes its next access; the consumer calls
-- `spsc_queue_pop` or makes its next access.
pub data Move : Type 0 where
  call_push : (e : ℕ) → Move
  produce consume : Move

unfoldable pub start_push : Producer → ℕ → State → State
start_push Producer.resting e s = record s { producer = Producer.loaded e s.ring.write_pos }
start_push p e s = s

unfoldable pub produce_step : Producer → State → State
produce_step Producer.resting s = s
produce_step (Producer.loaded e w) s =
    if next_record s.ring.capacity w == s.ring.read_pos
    then record s { producer = Producer.resting }
    else record s { producer = Producer.checked e w }
produce_step (Producer.checked e w) s = record s {
  ring = record (s.ring) { records = set s.ring.records w e };
  producer = Producer.stored e w;
}
produce_step (Producer.stored e w) s = record s {
  ring = record (s.ring) { write_pos = next_record s.ring.capacity w };
  producer = Producer.resting;
  sent = s.sent ++ e ∷ [];
}

unfoldable pub consume_step : Consumer → State → State
consume_step Consumer.resting s = record s { consumer = Consumer.loaded s.ring.read_pos }
consume_step (Consumer.loaded r) s =
    if r == s.ring.write_pos
    then record s { consumer = Consumer.resting }
    else record s { consumer = Consumer.checked r }
consume_step (Consumer.checked r) s = record s {
  consumer = Consumer.fetched r (get_or s.ring.records r 0);
}
consume_step (Consumer.fetched r x) s = record s {
  ring = record (s.ring) { read_pos = next_record s.ring.capacity r };
  consumer = Consumer.resting;
  received = s.received ++ x ∷ [];
}

unfoldable pub step : Move → State → State
step (call_push e) s = start_push s.producer e s
step produce s = produce_step s.producer s
step consume s = consume_step s.consumer s

-- A schedule: the moves of both threads in the order in which they take effect.
unfoldable pub run : List Move → State → State
run [] s = s
run (m ∷ ms) s = run ms (step m s)

-- The positions as a function finds them that loads `write_pos` in the one state and `read_pos` in the
-- other, as `spsc_queue_size`, `spsc_queue_is_empty` and `spsc_queue_is_full` do.
unfoldable pub seen : State → State → Spsc
seen s t = record (s.ring) { read_pos = t.ring.read_pos }
