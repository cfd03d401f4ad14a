-- ===== src/Queue.antt =====
-- src/cymo_queue.c and src/cymo_queue.h: a queue of events over the ring of src/spsc_queue.c. The
-- caller's pointer `q` is never NULL; a function that changes `*q` returns the new queue.
pub mod Clear
pub mod Push
pub mod Wakeup
pub mod Contract
mod Tests
use libcymo.Common.{
  ℕ, zero, suc, Bool, true, false, not, ◌&&◌, Option, none, some, List, leb, ◌==◌, if◌then◌else◌,
}
use libcymo.Common.Int.{ℤ, pos, negsuc}
use libcymo.Memory.{Addr, Outcome, ok, fault, out_of_fuel, ◌>>=◌, ◌>>◌, assert}
use libcymo.Spsc.{
  Spsc, spsc_queue_init, spsc_queue_push, spsc_queue_pop, spsc_queue_peek, spsc_queue_is_empty,
  spsc_queue_is_full, spsc_queue_size, spsc_queue_capacity,
}
use libcymo.Event.{Events, event_unref}

pub data QueueType : Type 0 where
  data_queue execution_queue service_queue historical_queue : QueueType

-- The value of the enumerator.
abbrev pub index_of : QueueType → ℕ
index_of data_queue = 0
index_of execution_queue = 1
index_of service_queue = 2
index_of historical_queue = 3

pub record CmQueue : Type 0 where
  pub type : QueueType
  pub name : Addr
  pub loop : Addr
  pub spsc : Spsc

-- `raw` is what the memory of the queue holds before; `name` is not set.
unfoldable pub cm_queue_init : Option (List ℕ) → CmQueue → QueueType → ℕ → Outcome (ℤ × CmQueue)
cm_queue_init storage raw type size =
    assert (leb 2 size)
    >> (spsc_queue_init storage size >>= λ r. elim r.1 [
      | none ↦ ok (negsuc 0, raw)
      | some ring ↦ ok (pos 0, record raw { type = type; loop = 0; spsc = ring })
    ])

-- `block` is what `malloc` returns for the queue, and `none` as the result is NULL.
unfoldable pub cm_queue_new :
    Option CmQueue → Option (List ℕ) → QueueType → ℕ → Outcome (Option CmQueue)
cm_queue_new block storage type size = assert (leb 2 size) >> elim block [
  | none ↦ ok none
  | some raw ↦ cm_queue_init storage raw type size >>= λ r.
      ok (elim r.0 [ pos n ↦ (if n == 0 then some r.1 else none) | negsuc n ↦ none ])
]

-- The loop of `cm_queue_clear`, on fuel.
unfoldable pub clear_loop : ℕ → Spsc → Events → Outcome (Spsc × Events)
clear_loop zero ring h = out_of_fuel
clear_loop (suc fuel) ring h = elim (spsc_queue_pop ring).1 [
  | none ↦ ok (ring, h)
  | some e ↦
      assert (not (e == 0))
      >> (event_unref e h >>= λ r. clear_loop fuel (spsc_queue_pop ring).2 r.1)
]

-- A ring holds fewer entries than its capacity, so that many rounds are enough.
unfoldable pub cm_queue_clear : CmQueue → Events → Outcome (CmQueue × Events)
cm_queue_clear q h = clear_loop q.spsc.capacity q.spsc h >>= λ r. ok (record q { spsc = r.0 }, r.1)

-- The ring's storage is freed after the events are released; the result is 0.
unfoldable pub cm_queue_destory : CmQueue → Events → Outcome (ℤ × Events)
cm_queue_destory q h = cm_queue_clear q h >>= λ r. ok (pos 0, r.1)

-- The queue itself is freed too.
unfoldable pub cm_queue_free : CmQueue → Events → Outcome Events
cm_queue_free q h = cm_queue_destory q h >>= λ r. ok r.1

-- Whether a push that found the queue empty or not, with the result `err`, calls `cymo_wakeup`.
unfoldable pub wakes : Bool → ℤ → Addr → Bool
wakes is_empty err loop =
    is_empty && elim err [ pos n ↦ n == 0 | negsuc n ↦ false ] && not (loop == 0)

-- The flag says whether `cymo_wakeup` is called on the queue's loop.
unfoldable pub cm_queue_push : CmQueue → Addr → Outcome (ℤ × CmQueue × Bool)
cm_queue_push q e =
    assert (not (e == 0))
    >> (let is_empty = spsc_queue_is_empty q.spsc in
        let (err, ring) = spsc_queue_push q.spsc e in
        ok (err, record q { spsc = ring }, wakes is_empty err q.loop))

unfoldable pub cm_queue_pop : CmQueue → ℤ × Option Addr × CmQueue
cm_queue_pop q =
    let (rc, item, ring) = spsc_queue_pop q.spsc in (rc, item, record q { spsc = ring })

unfoldable pub cm_queue_peek : CmQueue → Addr
cm_queue_peek q = spsc_queue_peek q.spsc

unfoldable pub cm_queue_is_empty : CmQueue → Bool
cm_queue_is_empty q = spsc_queue_is_empty q.spsc

unfoldable pub cm_queue_is_full : CmQueue → Bool
cm_queue_is_full q = spsc_queue_is_full q.spsc

unfoldable pub cm_queue_size : CmQueue → ℕ
cm_queue_size q = spsc_queue_size q.spsc

unfoldable pub cm_queue_capacity : CmQueue → ℕ
cm_queue_capacity q = spsc_queue_capacity q.spsc

unfoldable pub cm_queue_get_type : CmQueue → QueueType
cm_queue_get_type q = q.type

unfoldable pub cm_queue_get_name : CmQueue → Addr
cm_queue_get_name q = q.name
