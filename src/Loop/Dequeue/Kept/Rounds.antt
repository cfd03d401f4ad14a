-- ===== src/Loop/Dequeue/Kept/Rounds.antt =====
-- src/cymo_loop.c: rounds of a dequeue function keep the reminders valid, and never read the historical
-- pipe.
use libcymo.Common.{ℕ, zero, suc, ◌≡◌, refl, subst}
use libcymo.Memory.{Addr, Outcome, ok, fault, out_of_fuel, ◌>>=◌}
use libcymo.Tree.{OrderedTree}
use libcymo.Reminder.{TimerNode}
use libcymo.Pipe.{PipeNode}
use libcymo.Loop.{CymoMode, World, Allocation, execution_pipe, service_pipe, Loop}
use libcymo.Loop.Dequeue.{Round, Result, realtime_round, simulator_round, round_of, rounds}
use libcymo.Loop.Dequeue.Kept.{Holds, AllHold, Holds-trans, onward-AllHold}
use libcymo.Loop.Dequeue.Kept.Parts.{
  return_read-AllHold, realtime_data-AllHold, simulator_data-AllHold, realtime_local-AllHold,
  simulator_local-AllHold, exchange_part-AllHold, return_saved-AllHold, return_stop-AllHold,
}

module _ (timers : OrderedTree TimerNode) (pipes : OrderedTree PipeNode) where
  module _ (raw now : ℕ) (m : Allocation) where
    round-AllHold :
        (mode : CymoMode) (w : World) (loop : Loop timers pipes)
        → AllHold timers pipes w loop (round_of timers pipes raw now m mode w loop)
    unfolding round_of realtime_round simulator_round
    round-AllHold CymoMode.simulator w loop =
        onward-AllHold timers pipes (simulator_data-AllHold timers pipes w loop raw) λ w1 l1.
          onward-AllHold timers pipes (simulator_local-AllHold timers pipes w1 l1) λ w2 l2.
            onward-AllHold timers pipes (exchange_part-AllHold timers pipes w2 l2) λ w3 l3.
              onward-AllHold timers pipes
                (return_read-AllHold timers pipes w3 l3 raw execution_pipe refl)
                λ w4 l4.
                  onward-AllHold timers pipes
                    (return_read-AllHold timers pipes w4 l4 raw service_pipe refl)
                    λ w5 l5. return_saved-AllHold timers pipes w5 l5
    round-AllHold CymoMode.realtime w loop =
        onward-AllHold timers pipes (realtime_data-AllHold timers pipes w loop raw now) λ w1 l1.
          onward-AllHold timers pipes
            (return_read-AllHold timers pipes w1 l1 raw execution_pipe refl)
            λ w2 l2.
              onward-AllHold timers pipes (realtime_local-AllHold timers pipes w2 l2) λ w3 l3.
                onward-AllHold timers pipes (exchange_part-AllHold timers pipes w3 l3) λ w4 l4.
                  onward-AllHold timers pipes
                    (return_read-AllHold timers pipes w4 l4 raw service_pipe refl)
                    λ w5 l5.
                      onward-AllHold timers pipes (return_saved-AllHold timers pipes w5 l5)
                        λ w6 l6. return_stop-AllHold timers pipes w6 l6 now m

    -- What holds of the world and the loop behind a call that returns.
    abbrev OnReturn :
        (World → Loop timers pipes → Type 0) → Outcome (Addr × World × Loop timers pipes) → Type 0
    OnReturn P (ok r) = P r.1 r.2
    OnReturn P fault = Unit
    OnReturn P out_of_fuel = Unit

    OnReturn-trans :
        (w w1 : World) (loop loop1 : Loop timers pipes)
        (o : Outcome (Addr × World × Loop timers pipes))
        → Holds timers pipes w loop w1 loop1
        → OnReturn (Holds timers pipes w1 loop1) o
        → OnReturn (Holds timers pipes w loop) o
    OnReturn-trans w w1 loop loop1 (ok r) h k = Holds-trans timers pipes h k
    OnReturn-trans w w1 loop loop1 fault h k = tt
    OnReturn-trans w w1 loop loop1 out_of_fuel h k = tt

    returns_held :
        (mode : CymoMode) (fuel : ℕ) (w : World) (loop : Loop timers pipes)
        → OnReturn
            (Holds timers pipes w loop)
            (rounds timers pipes fuel (round_of timers pipes raw now m mode) w loop)
    unfolding rounds
    returns_held mode zero w loop = tt
    returns_held mode (suc fuel) w loop =
        go (round_of timers pipes raw now m mode w loop) (round-AllHold mode w loop)
          (returns_held mode fuel)
      where
        go :
            (r : Result timers pipes)
            → AllHold timers pipes w loop r
            → ((w1 : World) (loop1 : Loop timers pipes)
                → OnReturn
                    (Holds timers pipes w1 loop1)
                    (rounds timers pipes fuel (round_of timers pipes raw now m mode) w1 loop1))
            → OnReturn (Holds timers pipes w loop) (
                r >>= λ r. elim r.0 [
                  | Round.returned e ↦ ok (e, r.1, r.2)
                  | Round.again ↦
                      rounds timers pipes fuel (round_of timers pipes raw now m mode) r.1 r.2
                  | Round.next ↦
                      rounds timers pipes fuel (round_of timers pipes raw now m mode) r.1 r.2
                  | Round.fell_off ↦ fault
                ])
        go fault h later = tt
        go out_of_fuel h later = tt
        go (ok (Round.returned e, w1, loop1)) (AllHold.held h) later = h
        go (ok (Round.again, w1, loop1)) (AllHold.held h) later =
            OnReturn-trans w w1 loop loop1 _ h (later w1 loop1)
        go (ok (Round.next, w1, loop1)) (AllHold.held h) later =
            OnReturn-trans w w1 loop loop1 _ h (later w1 loop1)
        go (ok (Round.fell_off, w1, loop1)) (AllHold.held h) later = tt

    pub rounds-Holds :
        (mode : CymoMode) (fuel : ℕ) (w w' : World) (loop loop' : Loop timers pipes) (e : Addr)
        → rounds timers pipes fuel (round_of timers pipes raw now m mode) w loop ≡ ok (e, w', loop')
        → Holds timers pipes w loop w' loop'
    rounds-Holds mode fuel w w' loop loop' e returned =
        subst (OnReturn (Holds timers pipes w loop)) returned (returns_held mode fuel w loop)
