-- ===== src/Loop/Control.antt =====
-- src/cymo_loop.c: the status of the loop through `cymo_pause`, `cymo_resume` and `cymo_stop`.
use libcymo.Common.{
  ℕ, ◌≤◌, ◌≡◌, ◌≢◌, ◌⊎◌, inl, inr, refl, ap, arith, false, Option, none, some, [], ltb, ◌==◌,
  Bool-cases,
}
use libcymo.Common.Int.{pos}
use libcymo.Memory.{Addr, update, Outcome, ok}
use libcymo.Event.{
  EventType, Event, event_check_type, event_classes, bytes_written, new_event, cm_event_new,
  cm_event_process,
}
use libcymo.Tree.{OrderedTree, elems}
use libcymo.Reminder.{TimerNode, reminder_queue_clear}
use libcymo.Reminder.Pop.{clear-empty}
use libcymo.Pipe.{PipeNode, event_pipe_clear}
use libcymo.Pipe.Read.{clear_empties}
use libcymo.Loop.{
  ClockType, CymoStatus, World, Allocation, report, free_event, Loop, cymo_clear, join_thread,
  cymo_stop, stop_rest, cymo_resume,
}

-- A block of 0 bytes that takes the header of an event.
abbrev pub IsRoomy : Allocation → Type 0
IsRoomy m = 12 ≤ m.usable 0

-- The events that the loop reports.
abbrev pub IsReport : EventType → Type 0
IsReport t = (event_check_type t ≡ false) × ((event_classes t).size ≡ 0) × (bytes_written t ≡ 12)

pub report_ok :
    (m : Allocation) (t : EventType) (w : World)
    → IsRoomy m
    → IsReport t
    → (w' : World) × (report m t w ≡ ok w')
unfolding report cm_event_new cm_event_process
report_ok m t w room (own, zero_size, header) = go m.block refl
  where
    go : (b : Option Addr) → m.block ≡ b → (w' : World) × (report m t w ≡ ok w')
    go none e = (w, rw (own, e) (ground arith))
    go (some p) e =
        let fits : ltb (m.usable (event_classes t).size) (bytes_written t) ≡ false =
          rw (zero_size, header) (ground arith) in
        (
          record w {
            store = record (w.store) {
              events = update w.store.events p (some (new_event t m.raw));
            };
          },
          rw (own, e) (ground (arith, fits)),
        )

paused_report : IsReport EventType.loop_pause
unfolding event_check_type event_classes bytes_written
paused_report = (refl, refl, refl)

resumed_report : IsReport EventType.loop_resume
unfolding event_check_type event_classes bytes_written
resumed_report = (refl, refl, refl)

pub stopped_report : IsReport EventType.loop_stopped
unfolding event_check_type event_classes bytes_written
stopped_report = (refl, refl, refl)

free_event_ok :
    (p : Addr) (w : World)
    → (p ≡ 0) ⊎ ((e : Event) × (w.store.events p ≡ some e))
    → (w' : World) × (free_event p w ≡ ok w')
unfolding free_event
free_event_ok p w (inl z) = (w, ground arith)
free_event_ok p w (inr (e, there)) = elim (Bool-cases (p == 0)) [
  | inl z ↦ (w, rw z refl)
  | inr nz ↦ (
    record w { store = record (w.store) { events = update w.store.events p none } },
    rw nz (ground (arith, there)),
  )
]

module _ (timers : OrderedTree TimerNode) (pipes : OrderedTree PipeNode) where
  abbrev runs : Loop timers pipes → Loop timers pipes
  runs loop = record loop { status = CymoStatus.running }

  resume_from :
      (m : Allocation) (w : World) (loop : Loop timers pipes) (s : CymoStatus)
      → loop.status ≡ s
      → IsRoomy m
      → (w' : World) × (cymo_resume timers pipes m w loop ≡ ok (w', runs loop))
  unfolding cymo_resume
  resume_from m w loop CymoStatus.running e room =
      (w, rw (e, cymo_resume) (ap (λ s. ok (w, record loop { status = s })) e))
  resume_from m w loop _ e room =
      let (w', done) = report_ok m EventType.loop_resume w room resumed_report in
      (w', rw (e, cymo_resume, done) refl)

  -- Whatever the status was, stopped included, `cymo_resume` returns and leaves the loop running, if
  -- the block that `malloc` gives for 0 bytes takes an event.
  pub resume_running :
      (m : Allocation) (w : World) (loop : Loop timers pipes)
      → IsRoomy m
      → (w' : World) × (cymo_resume timers pipes m w loop
          ≡ ok (w', record loop { status = CymoStatus.running }))
  resume_running m w loop room = resume_from m w loop loop.status refl room

  -- Nothing saved, no queue in a pipe and no reminder in a queue.
  pub record IsEmptied (loop : Loop timers pipes) : Type 0 where
    pub nothing_saved : loop.saved_event ≡ 0
    pub no_queues : (i : ℕ) → elems (pipes.shape (loop.pipe i).nodes) ≡ []
    pub no_reminders : (c : ClockType) → elems (timers.shape (loop.clock_queue c).nodes) ≡ []

  -- An idle loop: stopped, nothing saved, no queue in a pipe and no reminder in a queue.
  pub record IsCleared (loop : Loop timers pipes) : Type 0 where
    pub is_stopped : loop.status ≡ CymoStatus.stopped
    pub nothing_saved : loop.saved_event ≡ 0
    pub no_queues : (i : ℕ) → elems (pipes.shape (loop.pipe i).nodes) ≡ []
    pub no_reminders : (c : ClockType) → elems (timers.shape (loop.clock_queue c).nodes) ≡ []

  -- What `cymo_clear` leaves.
  abbrev pub emptied : Loop timers pipes → Loop timers pipes
  emptied loop = record loop {
    saved_event = 0;
    clock_queue = λ c. reminder_queue_clear timers (loop.clock_queue c);
    pipe = λ i. event_pipe_clear pipes (loop.pipe i);
    is_simulation_stop = pos 0;
  }

  emptied-IsEmptied : (w : World) (loop : Loop timers pipes) → IsEmptied (emptied loop)
  emptied-IsEmptied w loop = record {
    nothing_saved = refl;
    no_queues = λ i. (clear_empties pipes w.store 0 (loop.pipe i)).0;
    no_reminders = λ c. (clear-empty timers (loop.clock_queue c)).0;
  }

  pub clear-IsEmptied :
      (w : World) (loop : Loop timers pipes)
      → (loop.saved_event ≡ 0) ⊎ ((e : Event) × (w.store.events loop.saved_event ≡ some e))
      → (w' : World) × (cymo_clear timers pipes w loop ≡ ok (w', emptied loop))
        × IsEmptied (emptied loop)
  unfolding cymo_clear
  clear-IsEmptied w loop saved =
      let (w', freed) = free_event_ok loop.saved_event w saved in
      (w', rw freed refl, emptied-IsEmptied w' loop)

  pub joins :
      (joined : World → Loop timers pipes → Outcome (World × Loop timers pipes)) (w : World)
      (loop : Loop timers pipes) (s : CymoStatus)
      → loop.status ≡ s
      → s ≢ CymoStatus.stopped
      → join_thread timers pipes joined w loop
        ≡ joined w (record loop { quit = pos 1; status = CymoStatus.stopping })
  unfolding join_thread
  joins joined w loop CymoStatus.stopped e ne = absurd (ne refl)
  joins joined w loop _ e ne = rw (e, join_thread) refl

  -- `cymo_stop` of a loop that is not stopped returns once its thread has ended, with the loop stopped
  -- and everything taken out of it. The event that is saved then, if any, is a live one, and the
  -- block that `malloc` gives for 0 bytes takes an event.
  pub stop_clears :
      (joined : World → Loop timers pipes → Outcome (World × Loop timers pipes)) (m : Allocation)
      (w w1 : World) (loop loop1 : Loop timers pipes)
      → loop.status ≢ CymoStatus.stopped
      → joined w (record loop { quit = pos 1; status = CymoStatus.stopping }) ≡ ok (w1, loop1)
      → (loop1.saved_event ≡ 0) ⊎ ((e : Event) × (w1.store.events loop1.saved_event ≡ some e))
      → IsRoomy m
      → (w' : World) × (loop' : Loop timers pipes) × (cymo_stop timers pipes joined m w loop
          ≡ ok (w', loop'))
        × IsCleared loop'
  unfolding cymo_stop stop_rest
  stop_clears joined m w w1 loop loop1 started ended saved room =
      let (w2, clear, idle) =
        clear-IsEmptied w1 (record loop1 { status = CymoStatus.stopped }) saved in
      let (w3, told) = report_ok m EventType.loop_stopped w2 room stopped_report in
      (
        w3,
        emptied (record loop1 { status = CymoStatus.stopped }),
        rw (joins joined w loop loop.status refl started, ended, clear, told) refl,
        record {
          is_stopped = refl;
          nothing_saved = idle.nothing_saved;
          no_queues = idle.no_queues;
          no_reminders = idle.no_reminders;
        },
      )
