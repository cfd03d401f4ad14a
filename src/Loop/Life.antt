-- ===== src/Loop/Life.antt =====
-- src/cymo_loop.c: the life of a loop, as the moves of its thread, of the one thread that controls it
-- and of those that feed its queues, in any order: cymo_main in its parts, and the calls cymo_start,
-- cymo_stop, cymo_pause, cymo_resume and cymo_step.
pub mod Joining
pub mod Unsaved
pub mod Validity
mod Tests
use libcymo.Common.{ℕ, ◌≡◌, ◌≢◌, Bool, true, false}
use libcymo.Common.Int.{pos}
use libcymo.Memory.{Addr, Outcome, ok}
use libcymo.Event.{EventType}
use libcymo.Spsc.{Spsc}
use libcymo.Tree.{OrderedTree}
use libcymo.Reminder.{TimerNode}
use libcymo.Pipe.{PipeNode, Store}
use libcymo.Loop.{
  CymoMode, CymoStatus, World, Allocation, Loop, cymo_clear, cymo_start, stop_rest, cymo_pause,
  cymo_resume, cymo_step,
}
use libcymo.Loop.Dequeue.{is_set}
use libcymo.Loop.Run.{dequeue, main_round}

-- The thread of the loop: none, before its first statement, in the `while` of `cymo_main`, or behind it.
pub data Thread : Type 0 where
  absent created looping ended : Thread

-- The controlling thread: between two calls, in `cymo_start` behind `uv_thread_create`, or in
-- `uv_thread_join`.
pub data Control : Type 0 where
  free starting joining : Control

module _ (timers : OrderedTree TimerNode) (pipes : OrderedTree PipeNode) where
  pub record Life : Type 0 where
    pub world : World
    pub loop : Loop timers pipes
    pub thread : Thread
    pub control : Control

  -- `create` and `started` are `cymo_start`; `tell` and `join` are `cymo_stop`, and `skip` is it where
  -- the status is stopped; `enter`, `turn` and `leave` are `cymo_main`. `feed` is what a
  -- thread that owns no part of the loop does: to events and queues, and to the queues handed over.
  pub data Move (s : Life) : Life → Type 0 where
    feed :
        (store : Store) (pending : Spsc)
        → Move s (record s {
          world = record (s.world) { store = store };
          loop = record (s.loop) { pending = pending };
        })
    create :
        s.control ≡ Control.free
        → s.thread ≡ Thread.absent
        → Move s (record s { thread = Thread.created; control = Control.starting })
    started :
        (mode : CymoMode)
        → s.control ≡ Control.starting
        → Move s (record s { loop = cymo_start timers pipes mode s.loop; control = Control.free })
    pause :
        (m : Allocation) (w : World) (loop : Loop timers pipes)
        → s.control ≡ Control.free
        → cymo_pause timers pipes m s.world s.loop ≡ ok (w, loop)
        → Move s (record s { world = w; loop = loop })
    resume :
        (m : Allocation) (w : World) (loop : Loop timers pipes)
        → s.control ≡ Control.free
        → cymo_resume timers pipes m s.world s.loop ≡ ok (w, loop)
        → Move s (record s { world = w; loop = loop })
    step :
        (m : Allocation) (type : EventType) (w : World) (loop : Loop timers pipes)
        → s.control ≡ Control.free
        → cymo_step timers pipes m type s.world s.loop ≡ ok (w, loop)
        → Move s (record s { world = w; loop = loop })
    tell :
        s.control ≡ Control.free
        → s.loop.status ≢ CymoStatus.stopped
        → Move s (record s {
          loop = record (s.loop) { quit = pos 1; status = CymoStatus.stopping };
          control = Control.joining;
        })
    join :
        (m : Allocation) (w : World) (loop : Loop timers pipes)
        → s.control ≡ Control.joining
        → s.thread ≡ Thread.ended
        → stop_rest timers pipes m s.world s.loop ≡ ok (w, loop)
        → Move s (record { world = w; loop = loop; thread = Thread.absent; control = Control.free })
    skip :
        (m : Allocation) (w : World) (loop : Loop timers pipes)
        → s.control ≡ Control.free
        → s.loop.status ≡ CymoStatus.stopped
        → stop_rest timers pipes m s.world s.loop ≡ ok (w, loop)
        → Move s (record s { world = w; loop = loop })
    enter :
        s.thread ≡ Thread.created
        → Move s (record s {
          loop = record (s.loop) { status = CymoStatus.running };
          thread = Thread.looping;
        })
    turn :
        (fuel : ℕ) (self raw_queue raw : Addr) (allocated : Bool) (now : ℕ) (m : Allocation)
        (w : World) (loop : Loop timers pipes)
        → s.thread ≡ Thread.looping
        → is_set s.loop.quit ≡ false
        → main_round timers pipes
            (dequeue timers pipes fuel self raw_queue raw allocated now m)
            s.world
            s.loop
          ≡ ok (w, loop)
        → Move s (record s { world = w; loop = loop })
    leave :
        (w : World) (loop : Loop timers pipes)
        → s.thread ≡ Thread.looping
        → is_set s.loop.quit ≡ true
        → cymo_clear timers pipes s.world s.loop ≡ ok (w, loop)
        → Move s (record s {
          world = w;
          loop = record loop { status = CymoStatus.stopping };
          thread = Thread.ended;
        })

  -- The states after any number of moves from `start`.
  pub data Reach (start : Life) : Life → Type 0 where
    here : Reach start start
    later : {s t : Life} → Reach start s → Move s t → Reach start t
