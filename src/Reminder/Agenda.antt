-- ===== src/Reminder/Agenda.antt =====
-- src/reminder_queue.c and src/reminder_queue.h: what the queue promises, as a list of reminders in the
-- order of their times, and calls of its operations one after the other.
pub mod Refine
mod Tests
use libcymo.Common.{ℕ, ◌+◌, ◌≡◌, ◌≢◌, Bool, true, false, none, some, List, [], ◌∷◌}
use libcymo.Common.Int.{ℤ, pos, negsuc}
use libcymo.Memory.{Addr, Outcome, ok, fault, out_of_fuel, ◌>>=◌}
use libcymo.Tree.{OrderedTree, elems}
use libcymo.Tree.Place.{All, place}
use libcymo.Reminder.{
  Reminder, Reminders, TimerNode, same_content, to_int, ReminderQueue, reminder_queue_push,
  reminder_queue_pop, reminder_queue_peek, reminder_queue_is_empty, reminder_queue_clear,
}
use libcymo.Reminder.Pop.{reminders_of, time_at}

-- The reminders that wait, and the next identifier. Nodes and the shape of the tree are forgotten.
pub record Agenda : Type 0 where
  pub entries : List Addr
  pub counter : ℕ

pub data Call : Type 0 where
  push : (e : Addr) → Call
  pop peek is_empty clear : Call

pub data Answer : Type 0 where
  pushed : (rc : ℤ) → Answer
  popped : (rc : ℤ) (e : Addr) → Answer
  peeked : (e : Addr) → Answer
  tested : (b : Bool) → Answer
  cleared : Answer

abbrev pub first_entry : List Addr → Addr
first_entry [] = 0
first_entry (a ∷ l) = a

abbrev pub is_bare : List Addr → Bool
is_bare [] = true
is_bare (a ∷ l) = false

-- What a call answers and leaves.
abbrev pub play_pop : List Addr → ℕ → Answer × Agenda
play_pop [] c = (Answer.popped (negsuc 0) 0, record { entries = []; counter = c })
play_pop (a ∷ l) c = (Answer.popped (pos 0) a, record { entries = l; counter = c })

abbrev pub play : Reminders → Call → Agenda → Answer × Agenda
play h (Call.push e) s = (
  Answer.pushed (to_int s.counter),
  record { entries = place (time_at h) e s.entries; counter = s.counter + 1 },
)
play h Call.pop s = play_pop s.entries s.counter
play h Call.peek s = (Answer.peeked (first_entry s.entries), s)
play h Call.is_empty s = (Answer.tested (is_bare s.entries), s)
play h Call.clear s = (Answer.cleared, record s { entries = [] })

unfoldable pub play_all : Reminders → List Call → Agenda → List Answer × Agenda
play_all h [] s = ([], s)
play_all h (c ∷ cs) s = let r = play h c s in let rest = play_all h cs r.1 in (r.0 ∷ rest.0, rest.1)

-- A push is of a reminder unlike those that wait: another one, which differs in time, callback or data.
abbrev pub IsUnlike : Reminders → Addr → Reminder → Addr → Type 0
IsUnlike h e r a = (a ≢ e) × ((s : Reminder) → h a ≡ some s → same_content r s ≡ false)

abbrev pub IsFit : Reminders → Call → Agenda → Type 0
IsFit h (Call.push e) s = (r : Reminder) × (h e ≡ some r) × (e ≢ 0) × All (IsUnlike h e r) s.entries
IsFit h _ s = Unit

unfoldable pub AllFit : Reminders → List Call → Agenda → Type 0
AllFit h [] s = Unit
AllFit h (c ∷ cs) s = IsFit h c s × AllFit h cs (play h c s).1

module _ (T : OrderedTree TimerNode) where
  abbrev pub agenda_of : ReminderQueue T → Agenda
  agenda_of q = record {
    entries = reminders_of (elems (T.shape q.nodes));
    counter = q.timer_counter;
  }

  -- The same call of the code, where `malloc` succeeds.
  unfoldable pub act : Reminders → Call → ReminderQueue T → Outcome (Answer × ReminderQueue T)
  act h (Call.push e) q = reminder_queue_push T h true q e >>= λ r. ok (Answer.pushed r.0, r.2)
  act h Call.pop q = let (rc, e, q') = reminder_queue_pop T q in ok (Answer.popped rc e, q')
  act h Call.peek q = ok (Answer.peeked (reminder_queue_peek T q), q)
  act h Call.is_empty q = ok (Answer.tested (reminder_queue_is_empty T q), q)
  act h Call.clear q = ok (Answer.cleared, reminder_queue_clear T q)

  unfoldable pub act_all :
      Reminders → List Call → ReminderQueue T → Outcome (List Answer × ReminderQueue T)
  act_all h [] q = ok ([], q)
  act_all h (c ∷ cs) q = act h c q >>= λ r. act_all h cs r.1 >>= λ rest. ok (r.0 ∷ rest.0, rest.1)
