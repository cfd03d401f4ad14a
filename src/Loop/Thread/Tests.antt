-- ===== src/Loop/Thread/Tests.antt =====
-- src/cymo_loop.c: the thread of a concrete loop.
use libcymo.Common.{ℕ, zero, suc, ◌<◌, ◌≡◌, refl, ap, inl, arith, false}
use libcymo.Common.Int.{pos}
use libcymo.Memory.{Addr, Outcome, ok, out_of_fuel}
use libcymo.Tree.{elems, first}
use libcymo.Tree.Plain.{plain}
use libcymo.Pipe.{event_pipe_is_empty}
use libcymo.Event.{cm_event_process}
use libcymo.Loop.{CymoMode, CymoStatus, World, Loop, cymo_stop}
use libcymo.Loop.Samples.{timers, pipes, no_timers, no_queues, loop, world, allocation}
use libcymo.Loop.Control.{IsEmptied}
use libcymo.Loop.Dequeue.{is_set}
use libcymo.Loop.Dequeue.Waits.{IsWaiting}
use libcymo.Loop.Run.{main_round, cymo_main}
use libcymo.Loop.Thread.{turns, IsTold, cymo_main-told}
use libcymo.Loop.Thread.Waiting.{inside, stop_hangs}

-- A call of `dequeue` that returns the saved event, and another thread that tells the loop to quit.
abbrev pick : World → Loop timers pipes → Outcome (Addr × World × Loop timers pipes)
pick w l = ok (l.saved_event, w, record l { saved_event = 0 })

abbrev tell : World → Loop timers pipes → World × Loop timers pipes
tell w l = (w, record l { quit = pos 1; status = CymoStatus.stopping })

abbrev told : Loop timers pipes
told = record loop { saved_event = 0; quit = pos 1; status = CymoStatus.stopping }

told-IsTold : IsTold timers pipes pick tell 1 world loop world told
unfolding turns main_round cm_event_process
told-IsTold = record { reached = refl; told = refl; not_before = not_before }
  where
    not_before :
        (j : ℕ) (w2 : World) (loop2 : Loop timers pipes)
        → j < 1
        → turns timers pipes pick tell j world loop ≡ ok (w2, loop2)
        → is_set loop2.quit ≡ false
    not_before zero w2 loop2 lt e =
        let same : loop2 ≡ loop = cc e in ap (λ (l : Loop timers pipes). is_set l.quit) same
    not_before (suc j) w2 loop2 lt e = absurd (omega arith)

cymo_main-told_example :
    (w' : World) × (loop' : Loop timers pipes) × (cymo_main timers pipes 2 pick tell world loop
      ≡ ok (w', loop'))
    × (loop'.status ≡ CymoStatus.stopping)
    × IsEmptied timers pipes loop'
cymo_main-told_example =
    cymo_main-told timers pipes pick tell 1 2 world world loop told told-IsTold (omega arith)
      (inl refl)

-- Nothing waits.
abbrev idle : Loop timers pipes
idle = record loop { saved_event = 0; is_simulation_stop = pos 0 }

idle-IsWaiting : IsWaiting timers pipes world idle
unfolding plain no_queues event_pipe_is_empty first elems
idle-IsWaiting = record {
  no_data = refl;
  no_execution = refl;
  no_service = refl;
  unsaved = refl;
  not_stopped = refl;
}

stop_hangs_example :
    cymo_stop timers pipes
      (inside timers pipes pick tell 0 1000 allocation CymoMode.simulator 100 5)
      allocation
      world
      idle
    ≡ out_of_fuel
unfolding plain no_timers elems
stop_hangs_example =
    stop_hangs timers pipes pick tell 0 1000 allocation allocation 100 5 world idle (λ e. cc)
      idle-IsWaiting (λ e. refl)
