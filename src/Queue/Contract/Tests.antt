-- ===== src/Queue/Contract/Tests.antt =====
-- src/cymo_queue.c: concrete calls.
use libcymo.Common.{◌≡◌, arith, true, false, none, some, List, [], ◌∷◌}
use libcymo.Common.Int.{pos, negsuc}
use libcymo.Memory.{ok}
use libcymo.Spsc.Slots.{IsValid, contents}
use libcymo.Spsc.Refine.{push, pop, peek}
use libcymo.Queue.{QueueType, CmQueue}
use libcymo.Queue.Contract.{Call, Answer, play_all, act_all}
use libcymo.Queue.Contract.Refine.{IsKept, queue_refines}

abbrev empty_queue : CmQueue
empty_queue = record {
  type = QueueType.data_queue;
  name = 0;
  loop = 4096;
  spsc = record { capacity = 3; records = 7 ∷ 7 ∷ 7 ∷ []; read_pos = 2; write_pos = 2 };
}

empty_queue-IsValid : IsValid empty_queue.spsc
empty_queue-IsValid = omega arith

-- The third push finds the queue full, and the last pop finds it empty.
abbrev calls : List Call
calls =
    Call.push_event 64
    ∷ Call.push_event 128
    ∷ Call.push_event 192
    ∷ Call.ask_full
    ∷ Call.peek_event
    ∷ Call.pop_event
    ∷ Call.ask_size
    ∷ Call.pop_event
    ∷ Call.ask_empty
    ∷ Call.pop_event
    ∷ []

abbrev answers : List Answer
answers =
    Answer.pushed (pos 0) true
    ∷ Answer.pushed (pos 0) false
    ∷ Answer.pushed (negsuc 0) false
    ∷ Answer.tested true
    ∷ Answer.peeked 64
    ∷ Answer.popped (pos 0) (some 64)
    ∷ Answer.counted 1
    ∷ Answer.popped (pos 0) (some 128)
    ∷ Answer.tested true
    ∷ Answer.popped (negsuc 0) none
    ∷ []

queue_refines_example :
    (q' : CmQueue) × (act_all calls empty_queue ≡ ok (answers, q'))
    × (contents q'.spsc ≡ [])
    × IsKept empty_queue q'
unfolding play_all push pop peek
queue_refines_example =
    queue_refines calls empty_queue empty_queue-IsValid (omega arith)
      (omega arith, (omega arith, (omega arith, (tt, (tt, (tt, (tt, (tt, (tt, (tt, tt))))))))))
