-- ===== src/Queue/Push.antt =====
-- src/cymo_queue.c: `cm_queue_push` and when it wakes the loop.
use libcymo.Common.{
  ℕ, ◌≡◌, ◌≢◌, ◌↔◌, ◌≤◌, ap, refl, arith, Bool, true, false, not, ◌&&◌, List, [], ◌∷◌, ◌==◌, length,
}
use libcymo.Common.Int.{ℤ, pos, negsuc}
use libcymo.Memory.{Addr, ok}
use libcymo.Spsc.{spsc_queue_push, spsc_queue_is_empty}
use libcymo.Spsc.Slots.{IsValid, contents}
use libcymo.Spsc.Refine.{push, push_refines, queries}
use libcymo.Queue.{CmQueue, cm_queue_push, wakes}

abbrev pub succeeded : ℤ → Bool
succeeded (pos n) = n == 0
succeeded (negsuc n) = false

-- Whether `cm_queue_push` wakes the loop.
abbrev pub woken_flag : CmQueue → Addr → Bool
woken_flag q e =
    spsc_queue_is_empty q.spsc && succeeded (spsc_queue_push q.spsc e).0 && not (q.loop == 0)

-- A push of an event that is not NULL.
pub cm_queue_push_lem :
    (q : CmQueue) (e : Addr)
    → e ≢ 0
    → cm_queue_push q e
      ≡ ok (
        (spsc_queue_push q.spsc e).0,
        record q { spsc = (spsc_queue_push q.spsc e).1 },
        woken_flag q e,
      )
unfolding cm_queue_push wakes
cm_queue_push_lem q e n = let present : (e == 0) ≡ false = ground arith in rw present

woken_lem :
    (l : List ℕ) (capacity e loop : ℕ)
    → 2 ≤ capacity
    → (((length l == 0) && succeeded (push capacity l e).0 && not (loop == 0)) ≡ true)
      ↔ ((l ≡ []) × (loop ≢ 0))
unfolding push
woken_lem [] capacity e loop h =
    let room : (1 == capacity) ≡ false = ground arith in
    rw room (λ k. (refl, ground arith), λ k. ground (arith, k.1))
woken_lem (x ∷ l) capacity e loop h = (λ k. ground arith, λ k. ground (arith, k.0))

-- A push of an event that is not NULL answers as the bounded queue of the contents, and wakes the
-- loop exactly if the queue was empty and has a loop.
pub cm_queue_push-refines :
    (q : CmQueue) (e : Addr)
    → IsValid q.spsc
    → e ≢ 0
    → (rc : ℤ) × (q' : CmQueue) × (woken : Bool) × (cm_queue_push q e ≡ ok (rc, q', woken))
      × ((rc, contents q'.spsc) ≡ push q.spsc.capacity (contents q.spsc) e)
      × IsValid q'.spsc
      × ((woken ≡ true) ↔ ((contents q.spsc ≡ []) × (q.loop ≢ 0)))
cm_queue_push-refines q e v n =
    let (refines, valid, same) = push_refines q.spsc v e in
    (
      (spsc_queue_push q.spsc e).0,
      record q { spsc = (spsc_queue_push q.spsc e).1 },
      woken_flag q e,
      cm_queue_push_lem q e n,
      refines,
      valid,
      rw (queries q.spsc v).1
          (rw (ap (λ p. p.0) refines) (woken_lem (contents q.spsc) q.spsc.capacity e q.loop v.two)),
    )
