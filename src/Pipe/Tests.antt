-- ===== src/Pipe/Tests.antt =====
-- src/event_pipe.c at concrete pipes.
use libcymo.Common.{◌≡◌, ◌⊎◌, refl, arith, none, some, List, [], ◌∷◌, ◌==◌, if◌then◌else◌}
use libcymo.Memory.{Addr, ok, fault}
use libcymo.Spsc.{spsc_queue_peek}
use libcymo.Spsc.Slots.{IsValid, contents}
use libcymo.Event.{EventType, Event}
use libcymo.Queue.{QueueType, CmQueue, cm_queue_peek}
use libcymo.Tree.{leaf, node, elems, OrderedTree}
use libcymo.Tree.Plain.{plain}
use libcymo.Pipe.{PipeNode, Store, queue_time, EventPipe, event_pipe_read}
use libcymo.Pipe.Order.{newest}
use libcymo.Pipe.Read.{read_cases}

-- The queue at 256 holds the event at 64, the queue at 512 is empty.
abbrev busy : CmQueue
busy = record {
  type = QueueType.data_queue;
  name = 0;
  loop = 4096;
  spsc = record { capacity = 3; records = 64 ∷ 0 ∷ 0 ∷ []; read_pos = 0; write_pos = 1 };
}

abbrev quiet : CmQueue
quiet = record busy {
  spsc = record { capacity = 3; records = 64 ∷ 0 ∷ 0 ∷ []; read_pos = 1; write_pos = 1 };
}

abbrev tick : Event
tick = record {
  timestamp = 50;
  type = EventType.trade;
  ref = 1;
  exchange_timestamp = 12;
  provider = 13;
  instrument = 14;
  price = 15;
  size = 16;
}

abbrev store : Store
store = record {
  queues = λ a. if a == 256 then some busy else if a == 512 then some quiet else none;
  events = λ a. if a == 64 then some tick else none;
}

abbrev queues : OrderedTree PipeNode
queues = plain PipeNode

abbrev one_queue : EventPipe queues
unfolding plain
one_queue = record { nodes = node leaf (newest 256 1) leaf; queue_counter = 2 }

busy-IsValid : IsValid busy.spsc
busy-IsValid = omega arith

quiet_time : queue_time store 512 ≡ ok 315_537_897_599_999_999
unfolding queue_time cm_queue_peek spsc_queue_peek
quiet_time = refl

read_cases_example :
    ((contents busy.spsc ≡ []) × (event_pipe_read queues store 0 one_queue ≡ fault))
    ⊎ ((x : Addr) × (xs : List Addr) × (s' : Store) × (queue' : CmQueue) × (contents busy.spsc
          ≡ x ∷ xs)
        × (event_pipe_read queues store 0 one_queue ≡ ok (0, s', one_queue))
        × (s'.queues 256 ≡ some queue')
        × (contents queue'.spsc ≡ xs)
        × (s'.events ≡ store.events))
unfolding plain one_queue elems
read_cases_example =
    read_cases queues store 0 one_queue (newest 256 1) [] busy refl refl busy-IsValid refl
