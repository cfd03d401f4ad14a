-- ===== src/Loop/Dequeue/Starves.antt =====
-- src/cymo_loop.c: the events of the data pipe in the simulator mode.
use libcymo.Common.{
  ℕ, zero, suc, ◌<◌, ◌≡◌, refl, ◌∙◌, arith, true, false, some, List, [], ◌∷◌, ◌==◌, length,
  Bool-cases, inl, inr,
}
use libcymo.Memory.{Addr, update, update_self, ok, out_of_fuel}
use libcymo.Spsc.Slots.{IsValid, contents, count}
use libcymo.Spsc.Refine.{taken, contents-taken, length-contents}
use libcymo.Queue.{CmQueue}
use libcymo.Tree.{OrderedTree, elems}
use libcymo.Reminder.{TimerNode}
use libcymo.Pipe.{PipeNode}
use libcymo.Pipe.Read.{read-some, is_empty_lem, is_empty-none}
use libcymo.Loop.{ClockType, World, data_pipe, execution_pipe, service_pipe, at_pipe, Loop}
use libcymo.Loop.Dequeue.{Round, read_pipe, simulator_data, simulator_round, rounds}
use libcymo.Loop.Dequeue.Quiet.{simulator_data_skip}
use libcymo.Loop.Dequeue.Waits.{rounds_idle_next, simulator_rest}

module _ (timers : OrderedTree TimerNode) (pipes : OrderedTree PipeNode) where
  -- The data pipe has queues, `queue` first; nothing else waits.
  pub record IsFed (n : PipeNode) (l : List PipeNode) (queue : CmQueue) (w : World)
      (loop : Loop timers pipes) : Type 0 where
    pub nodes : elems (pipes.shape (loop.pipe data_pipe).nodes) ≡ n ∷ l
    pub there : w.store.queues n.q ≡ some queue
    pub valid : IsValid queue.spsc
    pub no_execution : elems (pipes.shape (loop.pipe execution_pipe).nodes) ≡ []
    pub no_service : elems (pipes.shape (loop.pipe service_pipe).nodes) ≡ []
    pub no_local : elems (timers.shape (loop.clock_queue ClockType.local_clock).nodes) ≡ []
    pub unsaved : loop.saved_event ≡ 0

  module _ (raw : Addr) (n : PipeNode) (l : List PipeNode) where
    -- The world and the loop after a round.
    abbrev drawn : CmQueue → World → World
    drawn queue w = record w {
      store = record (w.store) {
        queues = update w.store.queues n.q (some (record queue { spsc = taken queue.spsc }));
      };
    }

    abbrev lost : Loop timers pipes → Loop timers pipes
    lost loop = record loop {
      pipe = at_pipe loop.pipe data_pipe (loop.pipe data_pipe);
      saved_event = 0;
    }

    module _ (queue : CmQueue) (w : World) (loop : Loop timers pipes)
        (t : IsFed n l queue w loop) where
      draws :
          0 < count queue.spsc
          → simulator_data timers pipes raw w loop ≡ ok (Round.next, drawn queue w, lost loop)
      unfolding simulator_data read_pipe
      draws some_left =
          let filled : (length (contents queue.spsc) == 0) ≡ false =
            ground (arith, length-contents queue.spsc t.valid) in
          rw
            (
              is_empty_lem pipes w.store (loop.pipe data_pipe) n l queue t.nodes t.there t.valid,
              filled,
              t.unsaved,
              read-some pipes w.store raw (loop.pipe data_pipe) n l queue t.nodes t.there t.valid
                  some_left,
            )
            refl

      lost-IsFed :
          0 < count queue.spsc
          → IsFed n l (record queue { spsc = taken queue.spsc }) (drawn queue w) (lost loop)
      lost-IsFed some_left = record {
        nodes = t.nodes;
        there = update_self w.store.queues n.q (some (record queue { spsc = taken queue.spsc }));
        valid = (contents-taken queue.spsc t.valid some_left).1;
        no_execution = t.no_execution;
        no_service = t.no_service;
        no_local = t.no_local;
        unsaved = refl;
      }

      round-lost :
          0 < count queue.spsc
          → simulator_round timers pipes raw w loop ≡ ok (Round.next, drawn queue w, lost loop)
      round-lost some_left =
          simulator_rest timers pipes (drawn queue w) (lost loop) refl raw w loop
            (is_empty-none pipes (drawn queue w).store (loop.pipe execution_pipe) t.no_execution)
            (is_empty-none pipes (drawn queue w).store (loop.pipe service_pipe) t.no_service)
            t.no_local (draws some_left)

      round-empty :
          count queue.spsc ≡ 0 → simulator_round timers pipes raw w loop ≡ ok (Round.next, w, loop)
      round-empty none_left =
          let empty : (length (contents queue.spsc) == 0) ≡ true =
            ground (arith, length-contents queue.spsc t.valid, none_left) in
          simulator_rest timers pipes w loop t.unsaved raw w loop
            (is_empty-none pipes w.store (loop.pipe execution_pipe) t.no_execution)
            (is_empty-none pipes w.store (loop.pipe service_pipe) t.no_service) t.no_local
            (simulator_data_skip timers pipes w loop raw (length (contents queue.spsc) == 0)
              (is_empty_lem pipes w.store (loop.pipe data_pipe) n l queue t.nodes t.there t.valid)
              (rw empty refl))

    rounds-suc :
        (fuel : ℕ) (w w' : World) (loop loop' : Loop timers pipes)
        → simulator_round timers pipes raw w loop ≡ ok (Round.next, w', loop')
        → rounds timers pipes (suc fuel) (simulator_round timers pipes raw) w loop
          ≡ rounds timers pipes fuel (simulator_round timers pipes raw) w' loop'
    unfolding rounds
    rounds-suc fuel w w' loop loop' e = rw e refl

    -- With no queue in the execution and the service pipe, no event saved and no reminder of the local
    -- clock, `simulator_dequeue` never returns, however many events the first queue of the data pipe
    -- holds in its valid ring: no number of rounds is enough, and none of the events is returned.
    pub simulator_starves :
        (fuel : ℕ) (queue : CmQueue) (w : World) (loop : Loop timers pipes)
        → IsFed n l queue w loop
        → rounds timers pipes fuel (simulator_round timers pipes raw) w loop ≡ out_of_fuel
    unfolding rounds
    simulator_starves zero queue w loop t = refl
    simulator_starves (suc fuel) queue w loop t = elim (Bool-cases (count queue.spsc == 0)) [
      | inl z ↦
          let none_left : count queue.spsc ≡ 0 = ground arith in
          rounds_idle_next timers pipes (simulator_round timers pipes raw) w loop
            (round-empty queue w loop t none_left) (suc fuel)
      | inr nz ↦
          let some_left : 0 < count queue.spsc = ground arith in
          rounds-suc fuel w (drawn queue w) loop (lost loop) (round-lost queue w loop t some_left)
          ∙ simulator_starves fuel (record queue { spsc = taken queue.spsc }) (drawn queue w)
              (lost loop) (lost-IsFed queue w loop t some_left)
    ]
