-- ===== src/Loop/Thread.antt =====
-- src/cymo_loop.c: when the thread of the loop ends, and `cymo_stop` with it.
pub mod Waiting
pub mod Restart
mod Tests
use libcymo.Common.{
  ℕ, zero, suc, ◌<◌, ◌≡◌, ◌⊎◌, inr, refl, sym, ap, ◌∙◌, subst, arith, Bool, true, false, some,
  if◌then◌else◌,
}
use libcymo.Memory.{>>=-ok, Addr, Outcome, ok, fault, out_of_fuel, ◌>>=◌}
use libcymo.Event.{Event}
use libcymo.Tree.{OrderedTree, elems}
use libcymo.Reminder.{TimerNode}
use libcymo.Pipe.{PipeNode}
use libcymo.Loop.{CymoStatus, World, Loop, cymo_clear, join_thread}
use libcymo.Loop.Control.{IsEmptied, emptied, clear-IsEmptied}
use libcymo.Loop.Dequeue.{is_set}
use libcymo.Loop.Run.{main_round, main_loop, main_rest, cymo_main}

module _ (timers : OrderedTree TimerNode) (pipes : OrderedTree PipeNode) where
  module _ (pick : World → Loop timers pipes → Outcome (Addr × World × Loop timers pipes))
      (others : World → Loop timers pipes → World × Loop timers pipes) where
    -- The loop after `k` rounds of its thread, each with what the other threads do behind it.
    unfoldable pub turns : ℕ → World → Loop timers pipes → Outcome (World × Loop timers pipes)
    turns zero w loop = ok (w, loop)
    turns (suc k) w loop =
        main_round timers pipes pick w loop >>= λ r. turns k (others r.0 r.1).0 (others r.0 r.1).1

    -- The thread has made `k` rounds, none of which found the loop told to quit, and then it is.
    pub record IsTold (k : ℕ) (w : World) (loop : Loop timers pipes) (w1 : World)
        (loop1 : Loop timers pipes) : Type 0 where
      pub reached : turns k w loop ≡ ok (w1, loop1)
      pub told : is_set loop1.quit ≡ true
      pub not_before :
          (j : ℕ) (w2 : World) (loop2 : Loop timers pipes)
          → j < k
          → turns j w loop ≡ ok (w2, loop2)
          → is_set loop2.quit ≡ false

    quits_at_once :
        (fuel : ℕ) (w : World) (loop : Loop timers pipes)
        → is_set loop.quit ≡ true
        → main_loop timers pipes (suc fuel) pick others w loop ≡ ok (w, loop)
    unfolding main_loop
    quits_at_once fuel w loop e = rw e refl

    pub goes_on :
        (fuel : ℕ) (w : World) (loop : Loop timers pipes)
        → is_set loop.quit ≡ false
        → main_loop timers pipes (suc fuel) pick others w loop ≡ (
            main_round timers pipes pick w loop >>= λ r.
            main_loop timers pipes fuel pick others (others r.0 r.1).0 (others r.0 r.1).1)
    unfolding main_loop
    goes_on fuel w loop e = rw e refl

    first_round :
        (k : ℕ) (w w1 : World) (loop loop1 : Loop timers pipes)
        → turns (suc k) w loop ≡ ok (w1, loop1)
        → (r : World × Loop timers pipes) × (main_round timers pipes pick w loop ≡ ok r)
          × (turns k (others r.0 r.1).0 (others r.0 r.1).1 ≡ ok (w1, loop1))
    unfolding turns
    first_round k w w1 loop loop1 e =
        >>=-ok (main_round timers pipes pick w loop)
          (λ r. turns k (others r.0 r.1).0 (others r.0 r.1).1) (w1, loop1) e

    main_loop-told :
        (k fuel : ℕ) (w w1 : World) (loop loop1 : Loop timers pipes)
        → IsTold k w loop w1 loop1
        → k < fuel
        → main_loop timers pipes fuel pick others w loop ≡ ok (w1, loop1)
    unfolding turns
    main_loop-told k zero w w1 loop loop1 t lt = absurd (omega arith)
    main_loop-told zero (suc fuel) w w1 loop loop1 t lt =
        let same : loop ≡ loop1 = cc (t.reached) in
        let quits : is_set loop.quit ≡ true =
          ap (λ (l : Loop timers pipes). is_set l.quit) same ∙ t.told in
        quits_at_once fuel w loop quits ∙ t.reached
    main_loop-told (suc k) (suc fuel) w w1 loop loop1 t lt =
        let (r, round, later) = first_round k w w1 loop loop1 t.reached in
        let rest : IsTold k (others r.0 r.1).0 (others r.0 r.1).1 w1 loop1 = record {
          reached = later;
          told = t.told;
          not_before =
              λ j w2 loop2 less there. t.not_before (suc j) w2 loop2 (omega arith) (rw round there);
        } in
        goes_on fuel w loop (t.not_before 0 w loop (omega arith) refl)
        ∙ rw round (
            main_loop-told k fuel (others r.0 r.1).0 w1 (others r.0 r.1).1 loop1 rest (omega arith))

    -- An event that may be freed: none, or a live one.
    abbrev pub IsLive : World → Loop timers pipes → Type 0
    IsLive w loop =
        (loop.saved_event ≡ 0) ⊎ ((e : Event) × (w.store.events loop.saved_event ≡ some e))

    main_rest-told :
        (k fuel : ℕ) (w w1 : World) (loop loop1 : Loop timers pipes)
        → IsTold k w loop w1 loop1
        → k < fuel
        → IsLive w1 loop1
        → (w' : World) × (main_rest timers pipes fuel pick others w loop
            ≡ ok (w', record (emptied timers pipes loop1) { status = CymoStatus.stopping }))
    unfolding main_rest
    main_rest-told k fuel w w1 loop loop1 t lt live =
        let (w', clear, _) = clear-IsEmptied timers pipes w1 loop1 live in
        (w', rw (main_loop-told k fuel w w1 loop loop1 t lt, clear) refl)

    -- The thread ends: if the calls of `dequeue` in its first `k` rounds return, and the loop is told
    -- to quit behind the last of them and not before, more rounds than `k` are enough for `cymo_main`
    -- to return, with everything taken out of the loop and the status stopping. An event that is
    -- saved then is a live one.
    pub cymo_main-told :
        (k fuel : ℕ) (w w1 : World) (loop loop1 : Loop timers pipes)
        → IsTold k w (record loop { status = CymoStatus.running }) w1 loop1
        → k < fuel
        → IsLive w1 loop1
        → (w' : World) × (loop' : Loop timers pipes) × (cymo_main timers pipes fuel pick others w
              loop
            ≡ ok (w', loop'))
          × (loop'.status ≡ CymoStatus.stopping)
          × IsEmptied timers pipes loop'
    unfolding cymo_main
    cymo_main-told k fuel w w1 loop loop1 t lt live =
        let (w', ends) = main_rest-told k fuel w w1 _ loop1 t lt live in
        let (_, _, empty) = clear-IsEmptied timers pipes w1 loop1 live in
        (
          w',
          record (emptied timers pipes loop1) { status = CymoStatus.stopping },
          ends,
          refl,
          record {
            nothing_saved = empty.nothing_saved;
            no_queues = empty.no_queues;
            no_reminders = empty.no_reminders;
          },
        )
