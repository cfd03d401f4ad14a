-- ===== src/Loop/Run.antt =====
-- src/cymo_loop.c: `dequeue` with its loop over the pending queues, and `cymo_main`, which calls it.
pub mod Pending
pub mod Kept
pub mod Validity
use libcymo.Common.{ℕ, zero, suc, Bool, true, false, Option, none, some, if◌then◌else◌}
use libcymo.Common.Int.{ℤ, pos, negsuc}
use libcymo.Memory.{Addr, update, Outcome, ok, fault, out_of_fuel, ◌>>=◌, load}
use libcymo.Spsc.{spsc_queue_pop}
use libcymo.Event.{cm_event_process}
use libcymo.Queue.{CmQueue, index_of}
use libcymo.Tree.{OrderedTree}
use libcymo.Reminder.{TimerNode}
use libcymo.Pipe.{PipeNode, event_pipe_add}
use libcymo.Loop.{CymoStatus, World, Allocation, at_pipe, Loop, cymo_clear}
use libcymo.Loop.Dequeue.{is_set, round_of, rounds}

module _ (timers : OrderedTree TimerNode) (pipes : OrderedTree PipeNode) where
  -- The body of the loop over the pending queues, with the queue at `q`.
  unfoldable pub add_pending :
      Addr → Bool → Addr → World → Loop timers pipes → Outcome (World × Loop timers pipes)
  add_pending self allocated q w loop = load w.store.queues q >>= λ queue.
      let owned : World = record w {
        store = record (w.store) {
          queues = update w.store.queues q (some (record queue { loop = self }));
        };
      } in
      let i = index_of queue.type in
      event_pipe_add pipes owned.store allocated (loop.pipe i) q >>= λ r.
      ok (owned, record loop { pipe = at_pipe loop.pipe i r.1 })

  -- The loop goes on while the result of `spsc_queue_pop` is not 0; `q` is what the variable holds.
  unfoldable pub pending_loop :
      ℕ → Addr → Bool → Addr → World → Loop timers pipes → Outcome (World × Loop timers pipes)
  pending_loop zero self allocated q w loop = out_of_fuel
  pending_loop (suc fuel) self allocated q w loop =
      let (rc, item, ring) = spsc_queue_pop loop.pending in
      let popped : Loop timers pipes = record loop { pending = ring } in
      let q' : Addr = elim item [ none ↦ q | some x ↦ x ] in
      let body : Outcome (World × Loop timers pipes) =
        add_pending self allocated q' w popped >>= λ r.
        pending_loop fuel self allocated q' r.0 r.1 in
      if is_set rc then body else ok (w, popped)

  unfoldable pub dequeue :
      ℕ
      → (self raw_queue raw : Addr) → Bool
      → ℕ
      → Allocation
      → World
      → Loop timers pipes
      → Outcome (Addr × World × Loop timers pipes)
  dequeue fuel self raw_queue raw allocated now m w loop =
      pending_loop fuel self allocated raw_queue w loop >>= λ p.
      rounds timers pipes fuel (round_of timers pipes raw now m p.1.mode) p.0 p.1

  -- One round of the loop of `cymo_main`; a sleep changes nothing. `pick` is the call of `dequeue`.
  unfoldable pub main_round :
      (World → Loop timers pipes → Outcome (Addr × World × Loop timers pipes))
      → World
      → Loop timers pipes
      → Outcome (World × Loop timers pipes)
  main_round pick w loop =
      let work : Outcome (World × Loop timers pipes) = pick w loop >>= λ r. ok (
        record (r.1) {
          store = record (r.1.store) { events = cm_event_process r.0 r.1.store.events };
        },
        r.2,
      ) in
      elim loop.status [
        | CymoStatus.running ↦ work
        | CymoStatus.paused ↦ if is_set loop.stepping then work else ok (w, loop)
        | _ ↦ ok (w, loop)
      ]

  -- `others` is what the other threads do to the loop between two rounds.
  unfoldable pub main_loop :
      ℕ
      → (World → Loop timers pipes → Outcome (Addr × World × Loop timers pipes))
      → (World → Loop timers pipes → World × Loop timers pipes)
      → World
      → Loop timers pipes
      → Outcome (World × Loop timers pipes)
  main_loop zero pick others w loop = out_of_fuel
  main_loop (suc fuel) pick others w loop =
      let rest : Outcome (World × Loop timers pipes) = main_round pick w loop >>= λ r.
      main_loop fuel pick others (others r.0 r.1).0 (others r.0 r.1).1 in
      if is_set loop.quit then ok (w, loop) else rest

  -- The thread from the test of its loop on.
  unfoldable pub main_rest :
      ℕ
      → (World → Loop timers pipes → Outcome (Addr × World × Loop timers pipes))
      → (World → Loop timers pipes → World × Loop timers pipes)
      → World
      → Loop timers pipes
      → Outcome (World × Loop timers pipes)
  main_rest fuel pick others w loop = main_loop fuel pick others w loop >>= λ r.
      cymo_clear timers pipes r.0 r.1 >>= λ c.
      ok (c.0, record (c.1) { status = CymoStatus.stopping })

  unfoldable pub cymo_main :
      ℕ
      → (World → Loop timers pipes → Outcome (Addr × World × Loop timers pipes))
      → (World → Loop timers pipes → World × Loop timers pipes)
      → World
      → Loop timers pipes
      → Outcome (World × Loop timers pipes)
  cymo_main fuel pick others w loop =
      main_rest fuel pick others w (record loop { status = CymoStatus.running })
