-- ===== src/Loop/Thread/Restart.antt =====
-- src/cymo_loop.c: `cymo_stop` directly after `cymo_start`.
use libcymo.Common.{ℕ, suc, ◌≡◌, refl, ap}
use libcymo.Common.Int.{pos}
use libcymo.Memory.{Addr, Outcome, ok, ◌>>=◌}
use libcymo.Event.{EventType}
use libcymo.Tree.{OrderedTree}
use libcymo.Reminder.{TimerNode}
use libcymo.Pipe.{PipeNode}
use libcymo.Loop.{
  CymoMode, CymoStatus, World, Allocation, Loop, cymo_start, join_thread, cymo_stop, stop_rest,
}
use libcymo.Loop.Control.{IsRoomy, emptied, clear-IsEmptied, report_ok, stopped_report}
use libcymo.Loop.Run.{main_round, main_loop}
use libcymo.Loop.Thread.{IsLive, goes_on}

module _ (timers : OrderedTree TimerNode) (pipes : OrderedTree PipeNode) where
  joins_none :
      (joined : World → Loop timers pipes → Outcome (World × Loop timers pipes)) (w : World)
      (loop : Loop timers pipes)
      → loop.status ≡ CymoStatus.stopped
      → join_thread timers pipes joined w loop ≡ ok (w, loop)
  unfolding join_thread
  joins_none joined w loop e = rw (e, join_thread) (ap (λ s. ok (w, record loop { status = s })) e)

  -- A stopped loop, whose saved event if any is a live one, is started and stopped again before its new
  -- thread has set the status, and `malloc` succeeds: whatever the thread would do until it is
  -- joined, `cymo_stop` neither tells it to quit nor waits for it, and returns with the status
  -- stopped. The thread then sets the status and goes into its first round.
  pub start-stop :
      (mode : CymoMode) (m : Allocation) (w : World) (loop : Loop timers pipes)
      (pick : World → Loop timers pipes → Outcome (Addr × World × Loop timers pipes))
      (others : World → Loop timers pipes → World × Loop timers pipes)
      → loop.status ≡ CymoStatus.stopped
      → IsLive timers pipes pick others w loop
      → IsRoomy m
      → (w' : World) × (loop' : Loop timers pipes) × ((joined : World
            → Loop timers pipes
            → Outcome (World × Loop timers pipes))
          → cymo_stop timers pipes joined m w (cymo_start timers pipes mode loop) ≡ ok (w', loop'))
        × (loop'.status ≡ CymoStatus.stopped)
        × (loop'.quit ≡ pos 0)
        × ((fuel : ℕ)
            → let entered = record loop' { status = CymoStatus.running } in
              main_loop timers pipes (suc fuel) pick others w' entered ≡ (
                main_round timers pipes pick w' entered >>= λ r.
                main_loop timers pipes fuel pick others (others r.0 r.1).0 (others r.0 r.1).1))
  unfolding cymo_stop stop_rest cymo_start
  start-stop mode m w loop pick others stopped live room =
      let started : Loop timers pipes = record loop { quit = pos 0 } in
      let ended : Loop timers pipes = record started { status = CymoStatus.stopped } in
      let (w1, clear, _) = clear-IsEmptied timers pipes w ended live in
      let (w2, told) = report_ok m EventType.loop_stopped w1 room stopped_report in
      (
        w2,
        emptied timers pipes ended,
        λ joined. rw (joins_none joined w started stopped, clear, told) refl,
        refl,
        refl,
        λ fuel.
            goes_on timers pipes pick others fuel w2
              (record (emptied timers pipes ended) { status = CymoStatus.running }) refl,
      )
