-- ===== src/Loop.antt =====
-- src/cymo_loop.c and src/cymo_loop.h: the state of the loop and the calls that change it. The
-- caller's pointer `loop` is never NULL; a function that changes `*loop` returns the new state. The
-- mutex, the condition and the thread are libuv's.
pub mod Settings
pub mod Control
pub mod Clocks
pub mod Timers
pub mod Dequeue
pub mod Run
pub mod Queues
pub mod Sleep
pub mod Thread
pub mod Life
mod Samples
mod Tests
use libcymo.Common.{
  ℕ, ◌+◌, ◌*◌, ◌/◌, ◌%◌, Bool, true, false, not, ◌&&◌, Option, none, some, List, ltb, ◌==◌,
  if◌then◌else◌,
}
use libcymo.Common.Int.{ℤ, pos, negsuc}
use libcymo.Memory.{Addr, update, Outcome, ok, fault, out_of_fuel, ◌>>=◌, ◌>>◌, load, assert}
use libcymo.Datetime.Clock.{datetime_now}
use libcymo.Spsc.{Spsc, spsc_queue_init, spsc_queue_destroy, spsc_queue_push}
use libcymo.Event.{EventType, code_of, Event, Events, cm_event_new, cm_event_process}
use libcymo.Queue.{CmQueue, index_of}
use libcymo.Tree.{OrderedTree}
use libcymo.Reminder.{
  Reminder, Reminders, TimerNode, ReminderQueue, reminder_queue_init, reminder_queue_push,
  reminder_queue_clear, reminder_queue_destory,
}
use libcymo.Pipe.{
  PipeNode, Store, EventPipe, event_pipe_init, event_pipe_add, event_pipe_clear, event_pipe_destory,
}

pub data ClockType : Type 0 where
  local_clock exchange_clock : ClockType

pub data CymoMode : Type 0 where
  simulator realtime : CymoMode

pub data ReminderOrder : Type 0 where
  before after : ReminderOrder

pub data CymoStatus : Type 0 where
  init running paused stopping stopped : CymoStatus

-- The memory behind the loop.
pub record World : Type 0 where
  pub store : Store
  pub reminders : Reminders

-- What `malloc` returns for an event: its address (none for NULL), how many bytes of a block can be
-- used, and what it holds.
pub record Allocation : Type 0 where
  pub usable : ℕ → ℕ
  pub block : Option Addr
  pub raw : Event

abbrev pub pending_queue_size : ℕ
pending_queue_size = 1024

-- The indices of the pipes.
abbrev pub data_pipe : ℕ
data_pipe = 0

abbrev pub execution_pipe : ℕ
execution_pipe = 1

abbrev pub historical_pipe : ℕ
historical_pipe = 2

abbrev pub service_pipe : ℕ
service_pipe = 3

-- An element of an array by its index, replaced.
abbrev pub at_clock : {A : Type 0} → (ClockType → A) → ClockType → A → ClockType → A
at_clock f ClockType.local_clock a ClockType.local_clock = a
at_clock f ClockType.local_clock a ClockType.exchange_clock = f ClockType.exchange_clock
at_clock f ClockType.exchange_clock a ClockType.local_clock = f ClockType.local_clock
at_clock f ClockType.exchange_clock a ClockType.exchange_clock = a

abbrev pub at_pipe : {A : Type 0} → (ℕ → A) → ℕ → A → ℕ → A
at_pipe f i a j = if j == i then a else f j

-- `cm_event_process(cm_event_new(type))`.
unfoldable pub report : Allocation → EventType → World → Outcome World
report m type w = cm_event_new m.usable m.block m.raw type w.store.events >>= λ r.
    ok (record w { store = record (w.store) { events = cm_event_process r.0 r.1 } })

-- `free` of an event.
unfoldable pub free_event : Addr → World → Outcome World
free_event p w =
    if p == 0
    then ok w
    else (load w.store.events p >>= λ e.
        ok (record w { store = record (w.store) { events = update w.store.events p none } }))

module _ (timers : OrderedTree TimerNode) (pipes : OrderedTree PipeNode) where
  pub record Loop : Type 0 where
    pub pending : Spsc
    pub mode : CymoMode
    pub quit : ℤ
    pub status : CymoStatus
    pub stepping : ℤ
    pub step_event_type : EventType
    pub pipe : ℕ → EventPipe pipes
    pub clock_queue : ClockType → ReminderQueue timers
    pub clock_datetime : ClockType → ℕ
    pub reminder_order : ReminderOrder
    pub is_simulation_stop : ℤ
    pub show_warnings : ℤ
    pub clear_reminders : ℤ
    pub read_reminders : ℤ
    pub saved_event : Addr

  -- `storage` is what `malloc` returns for the ring; its failure is not looked at.
  unfoldable pub cymo_init : Option (List ℕ) → Loop → Outcome (ℤ × Loop)
  cymo_init storage loop = spsc_queue_init storage pending_queue_size >>= λ r. ok (
    pos 0,
    record loop {
      pending = elim r.1 [ none ↦ loop.pending | some ring ↦ ring ];
      show_warnings = pos 1;
      read_reminders = pos 1;
      mode = CymoMode.simulator;
      pipe = λ i. (event_pipe_init pipes).1;
      clock_queue = λ c. (reminder_queue_init timers).1;
    },
  )

  unfoldable pub cymo_destory : Loop → ℤ × Loop
  cymo_destory loop = (
    pos 0,
    record loop {
      pending = spsc_queue_destroy loop.pending;
      pipe = λ i. (event_pipe_destory pipes (loop.pipe i)).1;
      clock_queue = λ c. (reminder_queue_destory timers (loop.clock_queue c)).1;
    },
  )

  unfoldable pub cymo_clear : World → Loop → Outcome (World × Loop)
  cymo_clear w loop = free_event loop.saved_event w >>= λ w'. ok (
    w',
    record loop {
      saved_event = 0;
      clock_queue = λ c. reminder_queue_clear timers (loop.clock_queue c);
      pipe = λ i. event_pipe_clear pipes (loop.pipe i);
      is_simulation_stop = pos 0;
    },
  )

  -- The thread of `cymo_main` is created; `mode` is not used.
  unfoldable pub cymo_start : CymoMode → Loop → Loop
  cymo_start mode loop = record loop { quit = pos 0 }

  -- The guarded part of `cymo_stop`: the thread is told to end and joined. `joined` is what it does
  -- up to its end, where `uv_thread_join` returns.
  unfoldable pub join_thread :
      (World → Loop → Outcome (World × Loop)) → World → Loop → Outcome (World × Loop)
  join_thread joined w loop = elim loop.status [
    | CymoStatus.stopped ↦ ok (w, loop)
    | _ ↦ joined w (record loop { quit = pos 1; status = CymoStatus.stopping })
  ]

  -- The part of `cymo_stop` behind the thread.
  unfoldable pub stop_rest : Allocation → World → Loop → Outcome (World × Loop)
  stop_rest m w loop = cymo_clear w (record loop { status = CymoStatus.stopped }) >>= λ c.
      report m EventType.loop_stopped c.0 >>= λ w'. ok (w', c.1)

  unfoldable pub cymo_stop :
      (World → Loop → Outcome (World × Loop)) → Allocation → World → Loop → Outcome (World × Loop)
  cymo_stop joined m w loop = join_thread joined w loop >>= λ r. stop_rest m r.0 r.1

  unfoldable pub cymo_pause : Allocation → World → Loop → Outcome (World × Loop)
  cymo_pause m w loop = elim loop.status [
    | CymoStatus.paused ↦ ok (w, loop)
    | _ ↦ report m EventType.loop_pause w >>= λ w'.
        ok (w', record loop { status = CymoStatus.paused })
  ]

  unfoldable pub cymo_step : Allocation → EventType → World → Loop → Outcome (World × Loop)
  cymo_step m type w loop = report m EventType.loop_step w >>= λ w'.
      ok (w', record loop { stepping = pos 1; step_event_type = type })

  unfoldable pub cymo_resume : Allocation → World → Loop → Outcome (World × Loop)
  cymo_resume m w loop = elim loop.status [
    | CymoStatus.running ↦ ok (w, loop)
    | _ ↦ report m EventType.loop_resume w >>= λ w'.
        ok (w', record loop { status = CymoStatus.running })
  ]

  -- `self` is the address of the loop, `same_thread` whether the caller runs on its thread, and the
  -- flag of the result whether `cymo_wakeup` is called.
  unfoldable pub cymo_add_queue :
      Addr → Bool → Bool → World → Loop → Addr → Outcome (ℤ × World × Loop × Bool)
  cymo_add_queue self same_thread allocated w loop q =
      if same_thread
      then (load w.store.queues q >>= λ queue.
          let owned : World = record w {
            store = record (w.store) {
              queues = update w.store.queues q (some (record queue { loop = self }));
            };
          } in
          let i = index_of queue.type in
          event_pipe_add pipes owned.store allocated (loop.pipe i) q >>= λ r.
          ok (r.0, owned, record loop { pipe = at_pipe loop.pipe i r.1 }, false))
      else (let (err, ring) = spsc_queue_push loop.pending q in
          let woken : Bool = elim err [ pos n ↦ n == 0 | negsuc n ↦ false ] in
          ok (err, w, record loop { pending = ring }, woken))

  -- `block` and `raw` are what `malloc` returns for the reminder.
  unfoldable pub cymo_add_reminder :
      Option Addr
      → Reminder
      → Bool
      → World
      → Loop
      → ClockType
      → (time_at cb data_ : ℕ) → Outcome (ℤ × World × Loop)
  cymo_add_reminder block raw allocated w loop clock_type time_at cb data_ = elim block [
    | none ↦ ok (negsuc 0, w, loop)
    | some p ↦
        let timer : Reminder = record raw {
          callback = cb;
          user_data = data_;
          type = code_of EventType.reminder;
          timestamp = time_at;
        } in
        let reminders : Reminders = update w.reminders p (some timer) in
        reminder_queue_push timers reminders allocated (loop.clock_queue clock_type) p >>= λ r.
        let queued : Loop = record loop {
          clock_queue = at_clock loop.clock_queue clock_type r.2;
        } in
        let failed : Bool = elim r.0 [ pos n ↦ not (n == 0) | negsuc n ↦ true ] in
        if failed
        then ok (negsuc 1, record w { reminders = update reminders p none }, queued)
        else ok (pos 0, record w { reminders = reminders }, queued)
  ]

  -- `pause_cb` is the address of the callback that calls `cymo_pause`, `self` that of the loop.
  unfoldable pub cymo_timed_pause :
      Option Addr
      → Reminder
      → Bool
      → (pause_cb self : Addr) → World
      → Loop
      → ℕ
      → Outcome (World × Loop)
  cymo_timed_pause block raw allocated pause_cb self w loop timeout =
      cymo_add_reminder block raw allocated w loop ClockType.local_clock timeout pause_cb self
      >>= λ r. ok (r.1, r.2)
