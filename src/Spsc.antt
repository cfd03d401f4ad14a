-- ===== src/Spsc.antt =====
-- src/spsc_queue.c and src/spsc_queue.h: the ring of pointers between one producer and one
-- consumer. A `void *` is its address, 0 for NULL; a function that changes `*q` returns the new
-- ring, and an `int` result is an integer. The functions here run one at a time; `Threads` has their
-- interleavings.
pub mod Slots
pub mod Refine
pub mod Threads
mod Tests
use libcymo.Common.{
  ℕ, ◌+◌, ◌-◌, ◌%◌, ◌^◌, Bool, Option, none, some, List, [], get_or, set, u32, ltb, ◌==◌,
  if◌then◌else◌, leb,
}
use libcymo.Common.Int.{ℤ, pos, negsuc}
use libcymo.Memory.{Outcome, ok, fault, out_of_fuel, ◌>>=◌, ◌>>◌, assert}

pub record Spsc : Type 0 where
  pub capacity : ℕ
  pub records : List ℕ
  pub read_pos : ℕ
  pub write_pos : ℕ

-- The index after `i`, as each function computes it.
unfoldable pub next_record : ℕ → ℕ → ℕ
next_record capacity i = let n = u32 (i + 1) in if n == capacity then 0 else n

-- `storage` is what `malloc` returns, with whatever it holds.
unfoldable pub spsc_queue_init : Option (List ℕ) → ℕ → Outcome (ℤ × Option Spsc)
spsc_queue_init storage size = assert (leb 2 size) >> elim storage [
  | none ↦ ok (negsuc 0, none)
  | some records ↦
      ok (pos 0, some (record { capacity = size; records = records; read_pos = 0; write_pos = 0 }))
]

-- The records are freed: none is left.
unfoldable pub spsc_queue_destroy : Spsc → Spsc
spsc_queue_destroy q = record q { records = [] }

unfoldable pub spsc_queue_push : Spsc → ℕ → ℤ × Spsc
spsc_queue_push q e =
    let n = next_record q.capacity q.write_pos in
    if n == q.read_pos
    then (negsuc 0, q)
    else (pos 0, record q { records = set q.records q.write_pos e; write_pos = n })

-- The option is what is stored through `item`.
unfoldable pub spsc_queue_pop : Spsc → ℤ × Option ℕ × Spsc
spsc_queue_pop q = if q.read_pos == q.write_pos then (negsuc 0, none, q) else (
  pos 0,
  some (get_or q.records q.read_pos 0),
  record q { read_pos = next_record q.capacity q.read_pos },
)

unfoldable pub spsc_queue_peek : Spsc → ℕ
spsc_queue_peek q = if q.read_pos == q.write_pos then 0 else get_or q.records q.read_pos 0

unfoldable pub spsc_queue_is_empty : Spsc → Bool
spsc_queue_is_empty q = q.read_pos == q.write_pos

unfoldable pub spsc_queue_is_full : Spsc → Bool
spsc_queue_is_full q = next_record q.capacity q.write_pos == q.read_pos

-- The difference is kept in an `int`: from 2 ^ 31 on it is negative, and the capacity is added.
unfoldable pub spsc_queue_size : Spsc → ℕ
spsc_queue_size q =
    let ret = u32 (q.write_pos + 2 ^ 32 - q.read_pos) in
    if ltb ret (2 ^ 31) then ret else u32 (ret + q.capacity)

unfoldable pub spsc_queue_capacity : Spsc → ℕ
spsc_queue_capacity q = q.capacity
