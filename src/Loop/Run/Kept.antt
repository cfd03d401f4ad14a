-- ===== src/Loop/Run/Kept.antt =====
-- src/cymo_loop.c: a round of the thread leaves what the other threads set.
use libcymo.Common.{
  ℕ, zero, suc, ◌≡◌, sym, ap, ◌∙◌, Bool, none, some, Bool-cases, arith, ◌⊎◌, inl, inr,
}
use libcymo.Memory.{Addr, Outcome, ok, ◌>>=◌, >>=-ok, load}
use libcymo.Spsc.{spsc_queue_pop}
use libcymo.Event.{cm_event_process}
use libcymo.Queue.{index_of}
use libcymo.Tree.{OrderedTree}
use libcymo.Reminder.{TimerNode}
use libcymo.Pipe.{PipeNode, event_pipe_add}
use libcymo.Loop.{World, Allocation, at_pipe, Loop}
use libcymo.Loop.Dequeue.{is_set}
use libcymo.Loop.Dequeue.Kept.{settings}
use libcymo.Loop.Dequeue.Kept.Rounds.{rounds-Holds}
use libcymo.Loop.Run.{add_pending, pending_loop, dequeue, main_round}

module _ (timers : OrderedTree TimerNode) (pipes : OrderedTree PipeNode) where
  abbrev Keeps : Loop timers pipes → Loop timers pipes → Type 0
  Keeps loop loop' = settings timers pipes loop' ≡ settings timers pipes loop

  snd_settings :
      (w w' : World) (loop loop' : Loop timers pipes)
      → ◌≡◌ {A = Outcome (World × Loop timers pipes)} (ok (w, loop)) (ok (w', loop'))
      → Keeps loop loop'
  snd_settings w w' loop loop' e = let same : loop' ≡ loop = cc e in ap (settings timers pipes) same

  add_pending-settings :
      (self : Addr) (allocated : Bool) (q : Addr) (w w' : World) (loop loop' : Loop timers pipes)
      → add_pending timers pipes self allocated q w loop ≡ ok (w', loop')
      → Keeps loop loop'
  unfolding add_pending
  add_pending-settings self allocated q w w' loop loop' e =
      let (queue, there, rest) = >>=-ok (load w.store.queues q) _ (w', loop') e in
      let (r, added, end) =
        >>=-ok (event_pipe_add pipes _ allocated (loop.pipe (index_of queue.type)) q) _ (w', loop')
          rest in
      snd_settings _ w' (record loop { pipe = at_pipe loop.pipe (index_of queue.type) r.1 }) loop'
        end

  pending_loop-settings :
      (fuel : ℕ) (self : Addr) (allocated : Bool) (q : Addr) (w w' : World)
      (loop loop' : Loop timers pipes)
      → pending_loop timers pipes fuel self allocated q w loop ≡ ok (w', loop')
      → Keeps loop loop'
  unfolding pending_loop
  pending_loop-settings zero self allocated q w w' loop loop' e = cc
  pending_loop-settings (suc fuel) self allocated q w w' loop loop' e =
      elim (Bool-cases (is_set (spsc_queue_pop loop.pending).0)) [
        | inl more ↦
            let q' : Addr = elim (spsc_queue_pop loop.pending).1 [ none ↦ q | some x ↦ x ] in
            let popped : Loop timers pipes = record loop {
              pending = (spsc_queue_pop loop.pending).2;
            } in
            let (r, added, rest) =
              >>=-ok (add_pending timers pipes self allocated q' w popped)
                (λ r. pending_loop timers pipes fuel self allocated q' r.0 r.1) (w', loop')
                (rw more at e) in
            pending_loop-settings fuel self allocated q' r.0 w' r.1 loop' rest
            ∙ add_pending-settings self allocated q' w r.0 popped r.1 added
        | inr done ↦
            snd_settings w w' (record loop { pending = (spsc_queue_pop loop.pending).2 }) loop'
              (rw done at e)
      ]

  dequeue-settings :
      (fuel : ℕ) (self raw_queue raw : Addr) (allocated : Bool) (now : ℕ) (m : Allocation)
      (w w' : World) (loop loop' : Loop timers pipes) (x : Addr)
      → dequeue timers pipes fuel self raw_queue raw allocated now m w loop ≡ ok (x, w', loop')
      → Keeps loop loop'
  unfolding dequeue
  dequeue-settings fuel self raw_queue raw allocated now m w w' loop loop' x e =
      let (p, pending, rest) =
        >>=-ok (pending_loop timers pipes fuel self allocated raw_queue w loop) _ (x, w', loop')
          e in
      let kept = rounds-Holds timers pipes raw now m p.1.mode fuel p.0 w' p.1 loop' x rest in
      kept.same_settings
      ∙ pending_loop-settings fuel self allocated raw_queue w p.0 loop p.1 pending

  module _ (fuel : ℕ) (self raw_queue raw : Addr) (allocated : Bool) (now : ℕ)
      (m : Allocation) where
    abbrev pub pick : World → Loop timers pipes → Outcome (Addr × World × Loop timers pipes)
    pick = dequeue timers pipes fuel self raw_queue raw allocated now m

    abbrev pub work : World → Loop timers pipes → Outcome (World × Loop timers pipes)
    work w loop = pick w loop >>= λ r. ok (
      record (r.1) {
        store = record (r.1.store) { events = cm_event_process r.0 r.1.store.events };
      },
      r.2,
    )

    work-settings :
        (w w' : World) (loop loop' : Loop timers pipes)
        → work w loop ≡ ok (w', loop')
        → Keeps loop loop'
    work-settings w w' loop loop' e =
        let (r, picked, end) = >>=-ok (pick w loop) _ (w', loop') e in
        snd_settings _ w' r.2 loop' end
        ∙ dequeue-settings fuel self raw_queue raw allocated now m w r.1 loop r.2 r.0 picked

    pub main_round-cases :
        (w : World) (loop : Loop timers pipes)
        → (main_round timers pipes pick w loop ≡ ok (w, loop))
          ⊎ (main_round timers pipes pick w loop ≡ work w loop)
    unfolding main_round
    main_round-cases w loop = ground arith

    -- Whatever a round of the thread does, the flag `quit`, the status, the mode, the clocks and the
    -- order of reminders and events stay as the other threads have set them.
    pub main_round-settings :
        (w w' : World) (loop loop' : Loop timers pipes)
        → main_round timers pipes pick w loop ≡ ok (w', loop')
        → settings timers pipes loop' ≡ settings timers pipes loop
    main_round-settings w w' loop loop' e = elim (main_round-cases w loop) [
      | inl sleeps ↦ snd_settings w w' loop loop' (sym sleeps ∙ e)
      | inr works ↦ work-settings w w' loop loop' (sym works ∙ e)
    ]
