-- ===== src/Queue/Clear.antt =====
-- src/cymo_queue.c: clearing a queue releases its events, oldest first.
use libcymo.Common.{
  ℕ, fun_ext, zero, suc, ◌<◌, ◌≡◌, sym, ap, ◌∙◌, arith, not, List, [], ◌∷◌, ◌==◌, Bool-cases, inl,
  inr, get_or,
}
use libcymo.Memory.{Addr, Outcome, ok, >>=-assoc, ◌>>=◌, ◌>>◌, assert}
use libcymo.Spsc.{Spsc}
use libcymo.Spsc.Slots.{IsValid, count, contents}
use libcymo.Spsc.Refine.{
  pop-empty, pop-some, contents-empty, taken, contents-taken, count-taken, count_bound,
}
use libcymo.Event.{Events, event_unref}
use libcymo.Queue.{CmQueue, clear_loop, cm_queue_clear}

-- One release of each event of a list, in order; a NULL entry fails an assertion.
unfoldable pub release : List Addr → Events → Outcome Events
release [] h = ok h
release (e ∷ l) h = assert (not (e == 0)) >> (event_unref e h >>= λ r. release l r.1)

-- The ring with all entries taken out.
abbrev pub drained : Spsc → Spsc
drained ring = record ring { read_pos = ring.write_pos }

drained-empty : (ring : Spsc) → IsValid ring → count ring ≡ 0 → drained ring ≡ ring
drained-empty ring v z =
    let e : ring.write_pos ≡ ring.read_pos = ground arith in
    ap (λ r. record ring { read_pos = r }) e

clear_loop-release :
    (fuel : ℕ) (ring : Spsc) (h : Events)
    → IsValid ring
    → count ring < fuel
    → clear_loop fuel ring h ≡ (release (contents ring) h >>= λ h'. ok (drained ring, h'))
unfolding clear_loop release taken
clear_loop-release zero ring h v k = absurd (omega arith)
clear_loop-release (suc fuel) ring h v k = elim (Bool-cases (count ring == 0)) [
  | inl z ↦
      let none_left : count ring ≡ 0 = ground arith in
      rw (pop-empty ring v none_left, clear_loop, contents-empty ring v none_left)
        (ap (λ r. ok (r, h)) (sym (drained-empty ring v none_left)))
  | inr nz ↦
      let some_left : 0 < count ring = ground arith in
      let x = get_or ring.records ring.read_pos 0 in
      let (first, valid) = contents-taken ring v some_left in
      let fewer : count (taken ring) < fuel = omega (arith, count-taken ring v some_left) in
      rw
        (
          pop-some ring v some_left,
          clear_loop,
          first,
          >>=-assoc (assert (not (x == 0))),
          >>=-assoc (event_unref x h),
        )
        (ap (λ f. assert (not (x == 0)) >> (event_unref x h >>= f))
          (fun_ext (λ r.
            ap (λ t. clear_loop fuel t.2 r.1) (pop-some ring v some_left)
            ∙ clear_loop-release fuel (taken ring) r.1 valid fewer)))
]

-- `cm_queue_clear` always ends. It releases the events of the queue once each, oldest first, and
-- leaves the ring empty; it fails only where such a release does.
pub cm_queue_clear-release :
    (q : CmQueue) (h : Events)
    → IsValid q.spsc
    → cm_queue_clear q h
      ≡ (release (contents q.spsc) h >>= λ h'. ok (record q { spsc = drained q.spsc }, h'))
unfolding cm_queue_clear
cm_queue_clear-release q h v = rw (
  clear_loop-release q.spsc.capacity q.spsc h v (count_bound q.spsc v),
  >>=-assoc (release (contents q.spsc) h),
)
