-- ===== src/Queue/Contract/Refine.antt =====
-- src/cymo_queue.c: any calls answer as the list of the waiting events does.
use libcymo.Common.{ℕ, ◌^◌, ◌≤◌, ◌≡◌, refl, ap, ap₂, ◌∙◌, List, [], ◌∷◌}
use libcymo.Common.Int.{ℤ}
use libcymo.Memory.{Addr, ok}
use libcymo.Spsc.{spsc_queue_push, spsc_queue_pop, spsc_queue_capacity}
use libcymo.Spsc.Slots.{IsValid, contents}
use libcymo.Spsc.Refine.{push, push_refines, pop_refines, queries, size_lem}
use libcymo.Queue.{
  CmQueue, cm_queue_pop, cm_queue_peek, cm_queue_is_empty, cm_queue_is_full, cm_queue_size,
  cm_queue_capacity,
}
use libcymo.Queue.Push.{cm_queue_push_lem}
use libcymo.Queue.Contract.{Call, Answer, play, play_all, IsFit, AllFit, act, act_all}

-- The rest of a queue that no call changes, and its valid ring.
pub record IsKept (q q' : CmQueue) : Type 0 where
  pub valid : IsValid q'.spsc
  pub same_capacity : q'.spsc.capacity ≡ q.spsc.capacity
  pub same_loop : q'.loop ≡ q.loop

abbrev Refines : Call → CmQueue → Type 0
Refines c q =
    let r = play q.spsc.capacity q.loop c (contents q.spsc) in
    (q' : CmQueue) × (act c q ≡ ok (r.0, q')) × (contents q'.spsc ≡ r.1) × IsKept q q'

-- A call that leaves the queue.
still : (q : CmQueue) → IsValid q.spsc → IsKept q q
still q v = record { valid = v; same_capacity = refl; same_loop = refl }

call-Refines :
    (c : Call) (q : CmQueue) → IsValid q.spsc → q.spsc.capacity ≤ 2 ^ 31 → IsFit c → Refines c q
unfolding act cm_queue_pop cm_queue_peek cm_queue_is_empty cm_queue_is_full cm_queue_size
    cm_queue_capacity spsc_queue_capacity
call-Refines (Call.push_event e) q v small fit =
    let (refines, valid, same) = push_refines q.spsc v e in
    let empty = (queries q.spsc v).1 in
    let rc : (spsc_queue_push q.spsc e).0 ≡ (push q.spsc.capacity (contents q.spsc) e).0 =
      ap (λ p. p.0) refines in
    (
      record q { spsc = (spsc_queue_push q.spsc e).1 },
      rw (cm_queue_push_lem q e fit) (rw (empty, rc) refl),
      ap (λ p. p.1) refines,
      record { valid = valid; same_capacity = same; same_loop = refl },
    )
call-Refines Call.pop_event q v small fit =
    let (refines, valid, same) = pop_refines q.spsc v in
    (
      record q { spsc = (spsc_queue_pop q.spsc).2 },
      ap
          (λ (p : ℤ × _ × List ℕ).
            ok (Answer.popped p.0 p.1, record q { spsc = (spsc_queue_pop q.spsc).2 }))
          refines,
      ap (λ p. p.2) refines,
      record { valid = valid; same_capacity = same; same_loop = refl },
    )
call-Refines Call.peek_event q v small fit = (q, rw ((queries q.spsc v).0) refl, refl, still q v)
call-Refines Call.ask_empty q v small fit = (q, rw ((queries q.spsc v).1) refl, refl, still q v)
call-Refines Call.ask_full q v small fit = (q, rw ((queries q.spsc v).2) refl, refl, still q v)
call-Refines Call.ask_size q v small fit = (q, rw (size_lem q.spsc v small) refl, refl, still q v)
call-Refines Call.ask_capacity q v small fit = (q, refl, refl, still q v)

-- Any calls on a queue with a valid ring of a capacity up to 2 ^ 31, of which no push is of NULL: all of
-- them return, they answer as a first-in first-out list of at most `capacity - 1` events does, and
-- leave its events; a push wakes the loop exactly if it puts the first event in and the queue has a
-- loop. The ring stays valid.
pub queue_refines :
    (cs : List Call) (q : CmQueue)
    → IsValid q.spsc
    → q.spsc.capacity ≤ 2 ^ 31
    → AllFit cs
    → let r = play_all q.spsc.capacity q.loop cs (contents q.spsc) in
      (q' : CmQueue) × (act_all cs q ≡ ok (r.0, q')) × (contents q'.spsc ≡ r.1) × IsKept q q'
unfolding act_all play_all
queue_refines [] q v small fit = (q, refl, refl, still q v)
queue_refines (c ∷ cs) q v small fit =
    let (q1, called, left, kept) = call-Refines c q v small fit.0 in
    let small1 : q1.spsc.capacity ≤ 2 ^ 31 = rw (kept.same_capacity) small in
    let (q2, rest, end, kept2) = queue_refines cs q1 kept.valid small1 fit.1 in
    let first = (play q.spsc.capacity q.loop c (contents q.spsc)).0 in
    let spec : List Addr → List Answer × List Addr = play_all q.spsc.capacity q.loop cs in
    let same : play_all q1.spsc.capacity q1.loop cs (contents q1.spsc)
        ≡ spec (play q.spsc.capacity q.loop c (contents q.spsc)).1 =
      ap (play_all q1.spsc.capacity q1.loop cs) left
      ∙ ap₂ (λ (a b : ℕ). play_all a b cs (play q.spsc.capacity q.loop c (contents q.spsc)).1)
          kept.same_capacity kept.same_loop in
    (
      q2,
      rw called (rw rest (ap (λ (r : List Answer × List Addr). ok (first ∷ r.0, q2)) same)),
      end ∙ ap (λ (r : List Answer × List Addr). r.1) same,
      record {
        valid = kept2.valid;
        same_capacity = kept2.same_capacity ∙ kept.same_capacity;
        same_loop = kept2.same_loop ∙ kept.same_loop;
      },
    )
