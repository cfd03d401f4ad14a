-- ===== src/Reminder.antt =====
-- src/reminder_queue.c and src/reminder_queue.h: reminders in the order of their times. The caller's
-- pointer `q` is never NULL. The nodes of the tree are values; the identifier, which no two share,
-- stands for the node's address.
pub mod Order
pub mod Push
pub mod Pop
pub mod Remove
pub mod Due
pub mod Kept
pub mod Agenda
mod Tests
use libcymo.Common.{
  ℕ, ◌+◌, ◌-◌, ◌^◌, Bool, true, false, not, ◌&&◌, Option, none, some, List, [], ◌∷◌, compare,
  Ordering, ltb, ◌==◌, if◌then◌else◌, u32, u64,
}
use libcymo.Common.Int.{ℤ, pos, negsuc}
use libcymo.Memory.{Addr, Heap, update, Outcome, ok, fault, out_of_fuel, ◌>>=◌, ◌>>◌, load, assert}
use libcymo.Tree.{Shape, leaf, node, elems, OrderedTree, remove_each}

-- `reminder_t`; a callback is its address.
pub record Reminder : Type 0 where
  pub timestamp : ℕ
  pub type : ℕ
  pub ref : ℕ
  pub callback : Addr
  pub user_data : Addr

abbrev pub Reminders : Type 0
Reminders = Heap Reminder

pub record TimerNode : Type 0 where
  pub reminder : Addr
  pub timer_id : ℕ

-- The same time, callback and data.
abbrev pub same_content : Reminder → Reminder → Bool
same_content a b =
    (a.timestamp == b.timestamp) && (a.callback == b.callback) && (a.user_data == b.user_data)

-- The comparison behind the reads of both reminders.
unfoldable pub compare_content : Reminder → Reminder → ℕ → ℕ → Ordering
compare_content a b lhs_id rhs_id =
    if same_content a b
    then Ordering.eq
    else if ltb a.timestamp b.timestamp
    then Ordering.lt
    else if ltb b.timestamp a.timestamp
    then Ordering.gt
    else compare lhs_id rhs_id

-- The results -1, 0 and 1 are `lt`, `eq` and `gt`.
unfoldable pub timer_node_compare : Reminders → TimerNode → TimerNode → Outcome Ordering
timer_node_compare h lhs rhs =
    if (lhs.reminder == rhs.reminder) && not (lhs.reminder == 0)
    then ok Ordering.eq
    else if (lhs.timer_id == rhs.timer_id) && not (lhs.timer_id == 0)
    then ok Ordering.eq
    else load h lhs.reminder >>= λ a.
        load h rhs.reminder >>= λ b. ok (compare_content a b lhs.timer_id rhs.timer_id)

-- A `uint64_t` returned as an `int` of 32 bits.
unfoldable pub to_int : ℕ → ℤ
to_int n = let w = u32 n in if ltb w (2 ^ 31) then pos w else negsuc (2 ^ 32 - 1 - w)

-- The test that finds the node again in the tree.
abbrev pub same_node : TimerNode → TimerNode → Bool
same_node n m = n.timer_id == m.timer_id

module _ (tree : OrderedTree TimerNode) where
  open tree use {Tree, shape, empty, find, insert, remove, min}

  pub record ReminderQueue : Type 0 where
    pub nodes : Tree
    pub timer_counter : ℕ

  -- The result is 0.
  unfoldable pub reminder_queue_init : ℤ × ReminderQueue
  reminder_queue_init = (pos 0, record { nodes = empty; timer_counter = 1 })

  -- `allocated` says whether `malloc` gives a block.
  unfoldable pub reminder_queue_new : Bool → Option ReminderQueue
  reminder_queue_new allocated = if allocated then some reminder_queue_init.1 else none

  -- The option is what is stored through `timer_id`.
  unfoldable pub reminder_queue_push :
      Reminders → Bool → ReminderQueue → Addr → Outcome (ℤ × Option ℕ × ReminderQueue)
  reminder_queue_push h allocated q e =
      let id = q.timer_counter in
      let new : TimerNode = record { reminder = e; timer_id = id } in
      let counted : ReminderQueue = record q { timer_counter = u64 (id + 1) } in
      assert (not (e == 0))
      >> (if not allocated
          then ok (negsuc 0, none, q)
          else (insert (timer_node_compare h new) new q.nodes >>= λ r. elim r.1 [
            | some found ↦ assert (found.reminder == e) >> ok (negsuc 1, none, counted)
            | none ↦ ok (to_int id, some id, record counted { nodes = r.0 })
          ]))

  -- The result and the reminder stored through `ritem`.
  unfoldable pub reminder_queue_pop : ReminderQueue → ℤ × Addr × ReminderQueue
  reminder_queue_pop q = elim (min q.nodes) [
    | some n ↦ (pos 0, n.reminder, record q { nodes = remove (same_node n) q.nodes })
    | none ↦ (negsuc 0, 0, q)
  ]

  unfoldable pub reminder_queue_peek : ReminderQueue → Addr
  reminder_queue_peek q = elim (min q.nodes) [ some n ↦ n.reminder | none ↦ 0 ]

  unfoldable pub reminder_queue_is_empty : ReminderQueue → Bool
  reminder_queue_is_empty q = elim (shape q.nodes) [ leaf ↦ true | node _ _ _ ↦ false ]

  unfoldable pub reminder_queue_clear : ReminderQueue → ReminderQueue
  reminder_queue_clear q = record q {
    nodes = remove_each tree same_node (elems (shape q.nodes)) q.nodes;
  }

  -- The result is 0.
  unfoldable pub reminder_queue_destory : ReminderQueue → ℤ × ReminderQueue
  reminder_queue_destory q = (pos 0, reminder_queue_clear q)

  -- The queue itself is freed behind the destruction; `heap` holds the queues.
  unfoldable pub reminder_queue_free : Heap ReminderQueue → Addr → Outcome (Heap ReminderQueue)
  reminder_queue_free heap q =
      assert (not (q == 0))
      >> (load heap q >>= λ queue.
          ok (update (update heap q (some (reminder_queue_destory queue).1)) q none))

  -- The node on the stack has the identifier that the stack holds.
  unfoldable pub timer_find : Reminders → ℕ → ReminderQueue → Addr → Outcome (Option TimerNode)
  timer_find h garbage q e =
      find (timer_node_compare h (record { reminder = e; timer_id = garbage })) q.nodes

  -- The end of both removals, from what `RB_FIND` returns.
  unfoldable pub remove_found : ReminderQueue → Option TimerNode → ℤ × ReminderQueue
  remove_found q found = elim found [
    | none ↦ (negsuc 0, q)
    | some n ↦ (pos 0, record q { nodes = remove (same_node n) q.nodes })
  ]

  -- `local` is the address of the reminder on the stack.
  unfoldable pub reminder_queue_remove :
      Reminders → Addr → ReminderQueue → (timeout callback data_ : ℕ) → Outcome (ℤ × ReminderQueue)
  reminder_queue_remove h local q timeout callback data_ =
      let r : Reminder = record {
        timestamp = timeout;
        type = 0;
        ref = 0;
        callback = callback;
        user_data = data_;
      } in
      let fnode : TimerNode = record { reminder = local; timer_id = 0 } in
      find (timer_node_compare (update h local (some r)) fnode) q.nodes >>= λ n.
      ok (remove_found q n)

  unfoldable pub reminder_queue_remove_by_id :
      Reminders → ReminderQueue → ℕ → Outcome (ℤ × ReminderQueue)
  reminder_queue_remove_by_id h q timer_id =
      let fnode : TimerNode = record { reminder = 0; timer_id = timer_id } in
      find (timer_node_compare h fnode) q.nodes >>= λ n. ok (remove_found q n)
