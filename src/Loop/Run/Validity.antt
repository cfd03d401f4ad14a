-- ===== src/Loop/Run/Validity.antt =====
-- src/cymo_loop.c: a round of the thread leaves the reminders, and their queues in order.
use libcymo.Common.{
  ℕ, zero, suc, ◌≡◌, refl, sym, ◌∙◌, subst, Bool, none, some, Bool-cases, inl, inr,
}
use libcymo.Memory.{Addr, Outcome, ok, >>=-ok, load}
use libcymo.Spsc.{spsc_queue_pop}
use libcymo.Queue.{index_of}
use libcymo.Tree.{OrderedTree}
use libcymo.Reminder.{TimerNode}
use libcymo.Reminder.Order.{IsValid}
use libcymo.Pipe.{PipeNode, event_pipe_add}
use libcymo.Loop.{ClockType, World, Allocation, at_pipe, Loop}
use libcymo.Loop.Dequeue.{is_set}
use libcymo.Loop.Dequeue.Kept.Rounds.{rounds-Holds}
use libcymo.Loop.Run.{add_pending, pending_loop, dequeue, main_round}
use libcymo.Loop.Run.Kept.{main_round-cases}

module _ (timers : OrderedTree TimerNode) (pipes : OrderedTree PipeNode) where
  -- The reminders are the same, and a queue of them that was valid still is.
  pub record Minds (w : World) (loop : Loop timers pipes) (w' : World) (loop' : Loop timers pipes)
      : Type 0 where
    pub same_reminders : w'.reminders ≡ w.reminders
    pub same_validity :
        (c : ClockType)
        → IsValid timers w.reminders (loop.clock_queue c)
        → IsValid timers w'.reminders (loop'.clock_queue c)

  pub Minds-same :
      (w w' : World) (loop loop' : Loop timers pipes)
      → w'.reminders ≡ w.reminders
      → loop'.clock_queue ≡ loop.clock_queue
      → Minds w loop w' loop'
  Minds-same w w' loop loop' same queues = record {
    same_reminders = same;
    same_validity = λ c v. rw (same, queues) v;
  }

  pub Minds-trans :
      (w w1 w2 : World) (loop loop1 loop2 : Loop timers pipes)
      → Minds w loop w1 loop1
      → Minds w1 loop1 w2 loop2
      → Minds w loop w2 loop2
  Minds-trans w w1 w2 loop loop1 loop2 a b = record {
    same_reminders = b.same_reminders ∙ a.same_reminders;
    same_validity = λ c v. b.same_validity c (a.same_validity c v);
  }

  -- What is returned is what was computed.
  pub ok-Minds :
      (w w1 w2 : World) (loop loop1 loop2 : Loop timers pipes)
      → ◌≡◌ {A = Outcome (World × Loop timers pipes)} (ok (w1, loop1)) (ok (w2, loop2))
      → Minds w loop w1 loop1
      → Minds w loop w2 loop2
  ok-Minds w w1 w2 loop loop1 loop2 e k =
      let same : ◌≡◌ {A = World × Loop timers pipes} (w1, loop1) (w2, loop2) = cc e in
      subst (λ (p : World × Loop timers pipes). Minds w loop p.0 p.1) same k

  add_pending-Minds :
      (self : Addr) (allocated : Bool) (q : Addr) (w w' : World) (loop loop' : Loop timers pipes)
      → add_pending timers pipes self allocated q w loop ≡ ok (w', loop')
      → Minds w loop w' loop'
  unfolding add_pending
  add_pending-Minds self allocated q w w' loop loop' e =
      let (queue, there, rest) = >>=-ok (load w.store.queues q) _ (w', loop') e in
      let (r, added, end) =
        >>=-ok (event_pipe_add pipes _ allocated (loop.pipe (index_of queue.type)) q) _ (w', loop')
          rest in
      ok-Minds w _ w' loop (record loop { pipe = at_pipe loop.pipe (index_of queue.type) r.1 })
        loop' end (Minds-same w _ loop _ refl refl)

  pending_loop-Minds :
      (fuel : ℕ) (self : Addr) (allocated : Bool) (q : Addr) (w w' : World)
      (loop loop' : Loop timers pipes)
      → pending_loop timers pipes fuel self allocated q w loop ≡ ok (w', loop')
      → Minds w loop w' loop'
  unfolding pending_loop
  pending_loop-Minds zero self allocated q w w' loop loop' e = cc
  pending_loop-Minds (suc fuel) self allocated q w w' loop loop' e =
      let popped : Loop timers pipes = record loop { pending = (spsc_queue_pop loop.pending).2 } in
      elim (Bool-cases (is_set (spsc_queue_pop loop.pending).0)) [
        | inl more ↦
            let q' : Addr = elim (spsc_queue_pop loop.pending).1 [ none ↦ q | some x ↦ x ] in
            let (r, added, rest) =
              >>=-ok (add_pending timers pipes self allocated q' w popped)
                (λ r. pending_loop timers pipes fuel self allocated q' r.0 r.1) (w', loop')
                (rw more at e) in
            Minds-trans w r.0 w' loop r.1 loop'
              (Minds-trans w w r.0 loop popped r.1 (Minds-same w w loop popped refl refl)
                (add_pending-Minds self allocated q' w r.0 popped r.1 added))
              (pending_loop-Minds fuel self allocated q' r.0 w' r.1 loop' rest)
        | inr done ↦
            ok-Minds w w w' loop popped loop' (rw done at e) (Minds-same w w loop popped refl refl)
      ]

  dequeue-Minds :
      (fuel : ℕ) (self raw_queue raw : Addr) (allocated : Bool) (now : ℕ) (m : Allocation)
      (w w' : World) (loop loop' : Loop timers pipes) (x : Addr)
      → dequeue timers pipes fuel self raw_queue raw allocated now m w loop ≡ ok (x, w', loop')
      → Minds w loop w' loop'
  unfolding dequeue
  dequeue-Minds fuel self raw_queue raw allocated now m w w' loop loop' x e =
      let (p, pending, rest) =
        >>=-ok (pending_loop timers pipes fuel self allocated raw_queue w loop) _ (x, w', loop')
          e in
      let kept = rounds-Holds timers pipes raw now m p.1.mode fuel p.0 w' p.1 loop' x rest in
      Minds-trans w p.0 w' loop p.1 loop'
        (pending_loop-Minds fuel self allocated raw_queue w p.0 loop p.1 pending)
        (record { same_reminders = kept.same_reminders; same_validity = kept.same_validity })

  -- A round of the thread.
  pub main_round-Minds :
      (fuel : ℕ) (self raw_queue raw : Addr) (allocated : Bool) (now : ℕ) (m : Allocation)
      (w w' : World) (loop loop' : Loop timers pipes)
      → main_round timers pipes
          (dequeue timers pipes fuel self raw_queue raw allocated now m)
          w
          loop
        ≡ ok (w', loop')
      → Minds w loop w' loop'
  main_round-Minds fuel self raw_queue raw allocated now m w w' loop loop' e =
      elim (main_round-cases timers pipes fuel self raw_queue raw allocated now m w loop) [
        | inl sleeps ↦
            ok-Minds w w w' loop loop loop' (sym sleeps ∙ e) (Minds-same w w loop loop refl refl)
        | inr works ↦
            let (r, picked, end) =
              >>=-ok (dequeue timers pipes fuel self raw_queue raw allocated now m w loop) _
                (w', loop') (sym works ∙ e) in
            Minds-trans w r.1 w' loop r.2 loop'
              (dequeue-Minds fuel self raw_queue raw allocated now m w r.1 loop r.2 r.0 picked)
              (ok-Minds r.1 _ w' r.2 r.2 loop' end (Minds-same r.1 _ r.2 r.2 refl refl))
      ]
