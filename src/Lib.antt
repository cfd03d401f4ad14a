-- ===== src/Lib.antt =====
-- The C library cymo: an event loop over queues of market data, with a clock of its own that
-- can run in real time or simulated. This library of theorems models its core. Names are those
-- of the source, in small letters with underscores; the files of the program are named from the
-- root of the repository.
--
-- - Common (Common/Tests, Lists, Words, Int): Boolean tests, lists, words of 8 to 64 bits and
--   integers over the native numbers. A number of a width has its wrap-around written out.
-- - Tree: what the code relies on of the red-black trees of src/adt_tree.h, as a record of
--   operations and laws: a search from the root, an insertion where the search ends, any
--   balancing that keeps the order of the nodes. Tree/Place has what such a search tree does
--   with sorted keys, Tree/Plain a tree that is never balanced, Tree/Flat one that is a list.
-- - Memory: addresses, heaps, and undefined behaviour and failed assertions as the result
--   `fault`.
-- - Datetime/Calendar: days and dates, src/cymo_datetime.c (rdn_to_ymd, ymd_to_rdn,
--   datetime_from_ymd, datetime_to_ymd). March, RoundTrip and Days compare them with a calendar
--   that counts day by day.
-- - Datetime/Clock: times of day, src/cymo_datetime.c (datetime_from_hmsu, datetime_decode,
--   datetime_to_tm, datetime_from_timeval, datetime_now) with the constants of include/cymo.h.
--   What `gettimeofday` stores is an argument. Clock/Order compares times with their fields.
-- - Datetime/Iso: text, src/cymo_datetime.c (datetime_from_iso8601, datetime_format). Memory
--   from `str` on is a list of bytes, and a read behind it is the result `overread`.
--   Iso/RoundTrip is about reading what is written, Iso/Bounds about lengths, and Iso/Accept,
--   by Iso/Ensures, Moment and Shift, about every text that is accepted.
-- - Datetime/Zone and Datetime/Windows: get_timezone_offset, for Linux and for Windows, and the
--   gettimeofday of Windows, src/cymo_datetime.c. What the system stores is an argument.
-- - Spsc: the ring of pointers between one producer and one consumer, src/spsc_queue.c.
--   Spsc/Refine has the operations one at a time, Spsc/Threads their atomic accesses in any
--   order, with the order of the entries (Threads/Fifo) the end of a push (Threads/Progress)
--   and of a pop (Threads/Pops), and what the size, full and empty tests are worth while the
--   other thread moves (Threads/Alone, Threads/Queries).
-- - Event: events with a reference count, src/cymo_event.c. The heap is a function from
--   addresses, and what `malloc` returns is an argument.
-- - Queue: queues of events, src/cymo_queue.c, over Spsc and Event. That a push calls
--   `cymo_wakeup` is a flag of its result. Queue/Contract is what the queue promises, and
--   Contract/Refine compares any calls with it. Queue/Wakeup has a push while the consumer
--   pops, access by access as in Spsc/Threads, and when it wakes the loop.
-- - Reminder: reminders in the order of their times, src/reminder_queue.c, over a section
--   parameter of Tree's interface. Reminder/Order, Push, Pop, Remove, Due and Kept have its
--   theorems; Reminder/Agenda is what the queue promises, and Agenda/Refine compares any calls
--   with it.
-- - Pipe: queues in the order of their first events, src/event_pipe.c, over the same interface.
--   A store holds the queues and the events. Pipe/Order, Add and Read have its theorems.
-- - Loop: the loop, src/cymo_loop.c, over both trees. Loop/Settings has its clocks and flags,
--   Loop/Dequeue models realtime_dequeue and simulator_dequeue in rounds, each part of a round
--   as a function, Loop/Run dequeue and cymo_main, and Loop/Sleep cymo_sleep, cymo_wakeup and
--   timewait by the calls they make. Loop/Control is about its status, Loop/Clocks the two
--   clocks, Loop/Timers cymo_add_reminder, Loop/Queues cymo_add_queue, Loop/Thread the thread
--   of the loop and its end (Thread/Waiting a thread that waits, Thread/Restart a stop directly
--   behind a start), and Loop/Life the moves of this thread, of the one that controls it and of
--   those that feed its queues, in any order, as a relation on states, where a round of the
--   thread is one move, with Life/Joining about cymo_stop while it waits, Life/Unsaved about
--   the saved event and Life/Validity about the queues of reminders. Of the rounds,
--   Dequeue/Quiet, Exchange and Ticks have the order of reminders and ticks, Stop the end of a
--   simulation, Waits a loop with nothing to return, Starves the events of the data pipe and
--   Due the reminders of the local clock in the simulator mode, Data the data pipe in the
--   real-time mode, Kept what no round changes; Run/Pending is about the queues that are handed
--   over, Run/Kept and Run/Validity about what a round of the thread leaves. What the loop's
--   thread does until it is joined, and what the other threads do between two rounds, are
--   arguments.
-- - Version: the version as a number and as text, src/cymo_version.c with
--   include/cymo_version.h.
--
-- The parts meet so: a queue holds a ring of addresses of events; pushing wakes the loop that
-- the queue belongs to, and clearing it releases the events. Times are counted in microseconds
-- since 0001-01-01 in a `uint64_t`.
--
-- Fuel: the loop of `cm_queue_clear` has as many rounds as the ring has records, and a ring
-- holds fewer entries than that, so it never runs out. The `while` loops of src/cymo_loop.c
-- wait for other threads and have no bound: the fuel of Loop/Dequeue and Loop/Run counts their
-- rounds. All other loops are structural.
--
-- Not modelled: the code of src/adt_tree.h, src/adt_queue.h and src/adt_heap.h, which are
-- copies of other libraries; cm_timezone_update, which only calls the system; the enumerations
-- of include/cymo.h that no code uses; the branch for Windows of cymo_sleep, which is one call.
-- What libuv does with its mutex, its condition and its threads is not modelled, only the order
-- of the calls. In Spsc/Threads memory is sequentially consistent.
pub mod Common
pub mod Datetime
pub mod Spsc
pub mod Memory
pub mod Tree
pub mod Reminder
pub mod Event
pub mod Queue
pub mod Pipe
pub mod Loop
pub mod Version
