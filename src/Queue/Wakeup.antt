-- ===== src/Queue/Wakeup.antt =====
-- src/cymo_queue.c: `cm_queue_push` in the thread of the producer, while the thread of the loop pops.
use libcymo.Common.{
  ℕ, zero, suc, ◌+◌, ◌≤◌, ◌<◌, ◌≡◌, refl, sym, ap, ◌∙◌, arith, Bool, true, false, not, ◌&&◌, List,
  [], ◌∷◌, ◌++◌, ◌==◌, if◌then◌else◌, length, length-append,
}
use mathlib.Core.List.{append_assoc, append_cancel_left, append-nil}
use libcymo.Common.Int.{pos, negsuc}
use libcymo.Memory.{Addr}
use libcymo.Spsc.{spsc_queue_is_empty}
use libcymo.Spsc.Slots.{count, contents}
use libcymo.Spsc.Refine.{length-contents, empty_test}
use libcymo.Spsc.Threads.{
  Producer, Consumer, State, Move, call_push, produce, consume, step, consume_step, run, seen,
}
use libcymo.Spsc.Threads.Fifo.{IsFifo, run-IsFifo}
use libcymo.Spsc.Threads.Alone.{IsConsuming, run-Shrinks, run-Grows}
use libcymo.Spsc.Threads.Queries.{seen-consuming}
use libcymo.Spsc.Threads.Pops.{pop_succeeds}
use libcymo.Spsc.Threads.Progress.{IsCallFree, produces, push_succeeds}
use libcymo.Queue.{wakes}

-- `cm_queue_push` from the state `s`, in which the first load of `spsc_queue_is_empty` takes place: the
-- moves between its loads, those behind them, and those of `spsc_queue_push` with what the consumer
-- does meanwhile. A push that returned 0 shows in `sent`. The result is the last state and whether
-- `cymo_wakeup` is called.
unfoldable pub push_between :
    Addr → Bool → Addr → List Move → List Move → List Move → State → State × Bool
push_between loop read_first e between behind during s =
    let t = run between s in
    let is_empty = spsc_queue_is_empty (if read_first then seen t s else seen s t) in
    let s' = run (call_push e ∷ during) (run behind t) in
    let err = if length s'.sent == length s.sent then negsuc 0 else pos 0 in
    (s', wakes is_empty err loop)

-- `n` pops, and one more.
abbrev pub pop_all : ℕ → List Move
pop_all zero = consume ∷ consume ∷ []
pop_all (suc n) = consume ∷ consume ∷ consume ∷ consume ∷ pop_all n

run-++ : (l m : List Move) (s : State) → run (l ++ m) s ≡ run m (run l s)
unfolding run
run-++ [] m s = refl
run-++ (x ∷ l) m s = run-++ l m (step x s)

abbrev one_pop : List Move
one_pop = consume ∷ consume ∷ consume ∷ consume ∷ []

pop_all-IsConsuming : (n : ℕ) → IsConsuming (pop_all n)
pop_all-IsConsuming zero = tt
pop_all-IsConsuming (suc n) = pop_all-IsConsuming n

-- What a ring holds, where the consumer has received `got` of what was sent.
rest_of :
    (s : State) (got l : List ℕ)
    → IsFifo s
    → s.received ≡ got
    → s.sent ≡ got ++ l
    → contents s.ring ≡ l
rest_of s got l f e h =
    append_cancel_left got (contents s.ring) l
      (ap (λ g. g ++ contents s.ring) (sym e) ∙ sym f.history ∙ h)

empty-count : (s : State) → IsFifo s → contents s.ring ≡ [] → count s.ring ≡ 0
empty-count s f none = sym (length-contents s.ring f.valid) ∙ ap length none

empty_answer : (s : State) → IsFifo s → spsc_queue_is_empty s.ring ≡ (count s.ring == 0)
unfolding spsc_queue_is_empty
empty_answer s f = empty_test s.ring f.valid

-- A pop of an empty ring ends where it began.
pop_nothing :
    (s : State)
    → IsFifo s
    → s.consumer ≡ Consumer.resting
    → contents s.ring ≡ []
    → run (consume ∷ consume ∷ []) s ≡ s
unfolding run step consume_step
pop_nothing s f rests none =
    let z : (s.ring.read_pos == s.ring.write_pos) ≡ true =
      ground (arith, empty_test s.ring f.valid, empty-count s f none) in
    rw (rests, z) refl

-- The consumer takes everything out and finds the ring empty.
pops_all :
    (l : List ℕ) (s : State)
    → IsFifo s
    → s.consumer ≡ Consumer.resting
    → contents s.ring ≡ l
    → let t = run (pop_all (length l)) s in
      (t.consumer ≡ Consumer.resting) × (t.received ≡ s.received ++ l) × (contents t.ring ≡ [])
pops_all [] s f rests none =
    rw (pop_nothing s f rests none) (rests, sym (append-nil s.received), none)
pops_all (x ∷ l) s f rests first =
    let t = run one_pop s in
    let (ends, got) = pop_succeeds s x l (consume ∷ consume ∷ consume ∷ []) f rests first refl in
    let g = run-Shrinks one_pop s tt f in
    let ft = run-IsFifo one_pop s f in
    let same_sent : t.sent ≡ (s.received ++ x ∷ []) ++ l =
      g.same_sent
      ∙ f.history
      ∙ ap (λ k. s.received ++ k) first
      ∙ sym (append_assoc s.received (x ∷ []) l) in
    let left = rest_of t (s.received ++ x ∷ []) l ft got same_sent in
    let (ends', got', none) = pops_all l t ft ends left in
    rw (run-++ one_pop (pop_all (length l)) s)
      (ends', got' ∙ ap (λ k. k ++ l) got ∙ append_assoc s.received (x ∷ []) l, none)

-- What `spsc_queue_is_empty` answers in the producer, with the loads in either order.
found_either :
    (s : State) (read_first answer : Bool) (between : List Move)
    → IsFifo s
    → IsConsuming between
    → spsc_queue_is_empty s.ring ≡ answer
    → spsc_queue_is_empty (run between s).ring ≡ answer
    → let t = run between s in
      spsc_queue_is_empty (if read_first then seen t s else seen s t) ≡ answer
unfolding run
found_either s true answer between f p one two =
    ap spsc_queue_is_empty ((seen-consuming s f [] between p).1) ∙ one
found_either s false answer between f p one two =
    ap spsc_queue_is_empty ((seen-consuming s f [] between p).0) ∙ two

longer : (l l' : List ℕ) (e : ℕ) → l' ≡ l ++ e ∷ [] → (length l' == length l) ≡ false
longer l l' e h = ground (arith, ap length h, length-append l (e ∷ []))

-- A push that succeeds wakes a loop exactly if it found the queue empty.
sent-wakes :
    (l l' : List ℕ) (e : ℕ) (is_empty : Bool) (loop : Addr)
    → l' ≡ l ++ e ∷ []
    → wakes is_empty (if length l' == length l then negsuc 0 else pos 0) loop
      ≡ (is_empty && not (loop == 0))
unfolding wakes
sent-wakes l l' e true loop h = rw (longer l l' e h) refl
sent-wakes l l' e false loop h = refl

-- The three accesses of a push that finds room.
abbrev pub three_accesses : List Move
three_accesses = produce ∷ produce ∷ produce ∷ []

-- A push onto a queue that is empty when `spsc_queue_is_empty` begins, of which the consumer moves at
-- any place, with the loads in either order: three accesses of the producer end it, the event is
-- queued, and it wakes the loop if the queue has one.
pub push_wakes :
    (s : State) (loop : Addr) (read_first : Bool) (e : Addr) (between behind during : List Move)
    → IsFifo s
    → s.producer ≡ Producer.resting
    → contents s.ring ≡ []
    → IsConsuming between
    → IsConsuming behind
    → IsCallFree during
    → 3 ≤ produces during
    → let (s', woken) = push_between loop read_first e between behind during s in
      (s'.producer ≡ Producer.resting) × (s'.sent ≡ s.sent ++ e ∷ []) × (woken ≡ not (loop == 0))
unfolding push_between
push_wakes s loop read_first e between behind during f rests none p p' free enough =
    let t = run between s in
    let u = run behind t in
    let ft = run-IsFifo between s f in
    let fu = run-IsFifo behind t ft in
    let g = run-Shrinks between s p f in
    let g' = run-Shrinks behind t p' ft in
    let zero_at = empty-count s f none in
    let room : count u.ring + 1 < u.ring.capacity = omega (arith, g.less, g'.less, fu.valid) in
    let (ends, sent) =
      push_succeeds u e during fu (g'.same_producer ∙ g.same_producer ∙ rests) room free enough in
    let all_sent = sent ∙ ap (λ l. l ++ e ∷ []) (g'.same_sent ∙ g.same_sent) in
    let found =
      found_either s read_first true between f p (ground (arith, empty_answer s f))
        (ground (arith, g.less, empty_answer t ft)) in
    (
      ends,
      all_sent,
      sent-wakes s.sent (run (call_push e ∷ during) u).sent e _ loop all_sent
          ∙ ap (λ b. b && not (loop == 0)) found,
    )

-- A wake-up is lost: where the queue has entries when `cm_queue_push` asks whether it is empty, and the
-- consumer then takes all of them out and finds the queue empty, the push is done without a wake-up,
-- and its event stays in a queue whose consumer has found nothing.
pub lost_wakeup :
    (s : State) (loop : Addr) (read_first : Bool) (e x : Addr) (xs : List Addr)
    → IsFifo s
    → s.producer ≡ Producer.resting
    → s.consumer ≡ Consumer.resting
    → contents s.ring ≡ x ∷ xs
    → let behind = pop_all (length (x ∷ xs)) in
      let (s', woken) = push_between loop read_first e [] behind three_accesses s in
      (woken ≡ false)
      × ((run behind s).received ≡ s.sent)
      × (contents (run behind s).ring ≡ [])
      × (s'.consumer ≡ Consumer.resting)
      × (contents s'.ring ≡ e ∷ [])
unfolding push_between run
lost_wakeup s loop read_first e x xs f rests idle first =
    let behind = pop_all (length (x ∷ xs)) in
    let u = run behind s in
    let after = call_push e ∷ three_accesses in
    let s' = run after u in
    let fu = run-IsFifo behind s f in
    let alone = pop_all-IsConsuming (length (x ∷ xs)) in
    let g = run-Shrinks behind s alone f in
    let h = run-Grows after u tt fu in
    let (rests', got, none) = pops_all (x ∷ xs) s f idle first in
    let all_got : u.received ≡ s.sent =
      got ∙ ap (λ k. s.received ++ k) (sym first) ∙ sym f.history in
    let none_left = empty-count u fu none in
    let room : count u.ring + 1 < u.ring.capacity = omega (arith, none_left, fu.valid) in
    let (_, sent) =
      push_succeeds u e three_accesses fu (g.same_producer ∙ rests) room tt (omega arith) in
    let all_sent : s'.sent ≡ s.sent ++ e ∷ [] = sent ∙ ap (λ k. k ++ e ∷ []) g.same_sent in
    let filled : spsc_queue_is_empty s.ring ≡ false =
      ground (arith, empty_answer s f, length-contents s.ring f.valid, ap length first) in
    let found = found_either s read_first false [] f tt filled filled in
    (
      sent-wakes s.sent s'.sent e _ loop all_sent ∙ ap (λ b. b && not (loop == 0)) found,
      all_got,
      none,
      h.same_consumer ∙ rests',
      rest_of s' s.sent (e ∷ []) (run-IsFifo after u fu) (h.same_received ∙ all_got) all_sent,
    )
