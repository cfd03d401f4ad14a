-- ===== src/Loop/Dequeue/Quiet.antt =====
-- src/cymo_loop.c: rounds of `realtime_dequeue` and `simulator_dequeue` while the pipes are quiet and
-- no reminder waits for the local clock.
use libcymo.Common.{
  ℕ, zero, suc, ◌≡◌, refl, arith, Bool, true, false, not, ◌||◌, List, [], ◌∷◌, ◌==◌,
}
use libcymo.Memory.{Addr, Outcome, ok, ◌>>=◌}
use libcymo.Tree.{OrderedTree, elems}
use libcymo.Reminder.{TimerNode}
use libcymo.Reminder.Pop.{is_empty-none}
use libcymo.Pipe.{PipeNode, event_pipe_is_empty}
use libcymo.Loop.{ClockType, World, Allocation, data_pipe, execution_pipe, service_pipe, Loop}
use libcymo.Loop.Dequeue.{
  Round, Result, onward, return_read, realtime_data, simulator_data, realtime_local,
  simulator_local, exchange_part, return_saved, return_stop, realtime_round, simulator_round,
  rounds,
}

module _ (timers : OrderedTree TimerNode) (pipes : OrderedTree PipeNode) where
  -- `n` calls of a dequeue function, each with up to `fuel` more rounds than one: what they return.
  -- `round i` is the round of the call after which `i` calls are left.
  unfoldable pub polls :
      ℕ
      → ℕ
      → (ℕ → World → Loop timers pipes → Result timers pipes)
      → World
      → Loop timers pipes
      → Outcome (List Addr × World × Loop timers pipes)
  polls zero fuel round w loop = ok ([], w, loop)
  polls (suc n) fuel round w loop = rounds timers pipes (suc fuel) (round n) w loop >>= λ r.
      polls n fuel round r.1 r.2 >>= λ s. ok (r.0 ∷ s.0, s.1, s.2)

  pub rounds-returned :
      (fuel : ℕ) (round : World → Loop timers pipes → Result timers pipes) (e : Addr) (w w' : World)
      (loop loop' : Loop timers pipes)
      → round w loop ≡ ok (Round.returned e, w', loop')
      → rounds timers pipes (suc fuel) round w loop ≡ ok (e, w', loop')
  unfolding rounds
  rounds-returned fuel round e w w' loop loop' h = rw h refl

  pub polls-suc :
      (n fuel : ℕ) (round : ℕ → World → Loop timers pipes → Result timers pipes) (e : Addr)
      (l : List Addr) (w w1 w2 : World) (loop loop1 loop2 : Loop timers pipes)
      → round n w loop ≡ ok (Round.returned e, w1, loop1)
      → polls n fuel round w1 loop1 ≡ ok (l, w2, loop2)
      → polls (suc n) fuel round w loop ≡ ok (e ∷ l, w2, loop2)
  unfolding polls
  polls-suc n fuel round e l w w1 w2 loop loop1 loop2 h k =
      rw (rounds-returned fuel (round n) e w w1 loop loop1 h, k) refl

  -- The pipe with this index holds no event.
  abbrev pub IsSilent : World → Loop timers pipes → ℕ → Type 0
  IsSilent w loop i = event_pipe_is_empty pipes w.store (loop.pipe i) ≡ ok true

  -- No event of an execution or a service, no reminder of the local clock; the data pipe may hold
  -- events.
  pub record IsQuiet (w : World) (loop : Loop timers pipes) : Type 0 where
    pub data_is_empty : Bool
    pub data_answers : event_pipe_is_empty pipes w.store (loop.pipe data_pipe) ≡ ok data_is_empty
    pub no_execution : IsSilent w loop execution_pipe
    pub no_service : IsSilent w loop service_pipe
    pub no_local : elems (timers.shape (loop.clock_queue ClockType.local_clock).nodes) ≡ []

  module _ (w : World) (loop : Loop timers pipes) where
    pub silent_read :
        (raw : Addr) (i : ℕ)
        → IsSilent w loop i
        → return_read timers pipes raw i w loop ≡ ok (Round.next, w, loop)
    unfolding return_read
    silent_read raw i h = rw h refl

    -- With an event saved, or nothing to read, the data pipe is left alone.
    pub realtime_data_skip :
        (raw now : ℕ) (b : Bool)
        → event_pipe_is_empty pipes w.store (loop.pipe data_pipe) ≡ ok b
        → b || not (loop.saved_event == 0) ≡ true
        → realtime_data timers pipes raw now w loop ≡ ok (Round.next, w, loop)
    unfolding realtime_data
    realtime_data_skip raw now b h skip = rw h (ground (arith, skip))

    pub simulator_data_skip :
        (raw : ℕ) (b : Bool)
        → event_pipe_is_empty pipes w.store (loop.pipe data_pipe) ≡ ok b
        → b || not (loop.saved_event == 0) ≡ true
        → simulator_data timers pipes raw w loop ≡ ok (Round.next, w, loop)
    unfolding simulator_data
    simulator_data_skip raw b h skip = rw h (ground (arith, skip))

    pub realtime_local_skip :
        elems (timers.shape (loop.clock_queue ClockType.local_clock).nodes) ≡ []
        → realtime_local timers pipes w loop ≡ ok (Round.next, w, loop)
    unfolding realtime_local
    realtime_local_skip h =
        rw (is_empty-none timers (loop.clock_queue ClockType.local_clock) h) refl

    pub simulator_local_skip :
        elems (timers.shape (loop.clock_queue ClockType.local_clock).nodes) ≡ []
        → simulator_local timers pipes w loop ≡ ok (Round.next, w, loop)
    unfolding simulator_local
    simulator_local_skip h =
        rw (is_empty-none timers (loop.clock_queue ClockType.local_clock) h) refl

    -- The rounds of a quiet loop with an event saved.
    module _ (raw : Addr) (quiet : IsQuiet w loop) (saved : (loop.saved_event == 0) ≡ false) where
      busy : quiet.data_is_empty || not (loop.saved_event == 0) ≡ true
      busy = rw saved (ground arith)

      pub realtime_quiet :
          (now : ℕ) (m : Allocation)
          → realtime_round timers pipes raw now m w loop
            ≡ onward timers pipes (exchange_part timers pipes w loop) (λ w4 l4.
              onward timers pipes (return_read timers pipes raw service_pipe w4 l4) (λ w5 l5.
                onward timers pipes
                  (return_saved timers pipes w5 l5)
                  (λ w6 l6. return_stop timers pipes now m w6 l6)))
      unfolding realtime_round onward
      realtime_quiet now m =
          rw
            (
              realtime_data_skip raw now quiet.data_is_empty quiet.data_answers busy,
              silent_read raw execution_pipe quiet.no_execution,
              realtime_local_skip quiet.no_local,
            )
            refl

      pub simulator_quiet :
          simulator_round timers pipes raw w loop
          ≡ onward timers pipes (exchange_part timers pipes w loop) (λ w3 l3.
            onward timers pipes (return_read timers pipes raw execution_pipe w3 l3) (λ w4 l4.
              onward timers pipes
                (return_read timers pipes raw service_pipe w4 l4)
                (λ w5 l5. return_saved timers pipes w5 l5)))
      unfolding simulator_round onward
      simulator_quiet =
          rw
            (
              simulator_data_skip raw quiet.data_is_empty quiet.data_answers busy,
              simulator_local_skip quiet.no_local,
            )
            refl
