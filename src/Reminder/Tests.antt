-- ===== src/Reminder/Tests.antt =====
-- src/reminder_queue.c at concrete queues.
use libcymo.Common.{ℕ, zero, suc, ◌≡◌, ◌≢◌, ◌⊎◌, refl, arith, none, some}
use libcymo.Common.Int.{pos}
use libcymo.Memory.{Addr, ok, fault}
use libcymo.Tree.{Shape, leaf, node, elems, drop_first, OrderedTree}
use libcymo.Tree.Plain.{plain}
use libcymo.Reminder.{
  Reminder, Reminders, TimerNode, same_node, ReminderQueue, reminder_queue_remove_by_id,
}
use libcymo.Reminder.Remove.{remove_by_id_cases}

-- A reminder at each address but NULL, with a time of 50 and its address as the data.
abbrev reminder_at : Addr → Reminder
reminder_at a = record { timestamp = 50; type = 5; ref = 1; callback = 4096; user_data = a }

abbrev reminders : Reminders
reminders zero = none
reminders (suc a) = some (reminder_at (suc a))

abbrev timer : ℕ → ℕ → TimerNode
timer a id = record { reminder = a; timer_id = id }

abbrev timers : OrderedTree TimerNode
timers = plain TimerNode

-- The reminders at 64 and 128, in this order.
abbrev pair_tree : Shape TimerNode
pair_tree = node leaf (timer 64 1) (node leaf (timer 128 2) leaf)

abbrev pair : ReminderQueue timers
unfolding plain
pair = record { nodes = pair_tree; timer_counter = 3 }

remove_by_id_cases_example :
    (((timer 128 2).timer_id ≢ 1) × (reminder_queue_remove_by_id timers reminders pair 2 ≡ fault))
    ⊎ (((timer 128 2).timer_id ≡ 1)
        × ((q' : ReminderQueue timers) × (reminder_queue_remove_by_id timers reminders pair 2
              ≡ ok (pos 0, q'))
            × (elems (timers.shape q'.nodes)
                ≡ drop_first (same_node (timer 64 1)) (elems (timers.shape pair.nodes)))))
unfolding plain pair
remove_by_id_cases_example =
    remove_by_id_cases timers reminders pair leaf (node leaf (timer 128 2) leaf) (timer 64 1) 2 refl
      refl (omega arith) (omega arith)
