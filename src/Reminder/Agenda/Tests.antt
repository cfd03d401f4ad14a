-- ===== src/Reminder/Agenda/Tests.antt =====
-- src/reminder_queue.c: concrete calls, with two kinds of trees.
use libcymo.Common.{zero, suc, ◌≡◌, refl, arith, false, none, some, List, [], ◌∷◌}
use libcymo.Common.Int.{pos, negsuc}
use libcymo.Memory.{Addr, ok}
use libcymo.Tree.{elems}
use libcymo.Tree.Place.{place}
use libcymo.Tree.Plain.{plain}
use libcymo.Reminder.{Reminder, Reminders, TimerNode, to_int, ReminderQueue, reminder_queue_init}
use libcymo.Reminder.Order.{IsValid}
use libcymo.Reminder.Agenda.{Agenda, Call, Answer, play_all, AllFit, agenda_of, act_all}
use libcymo.Reminder.Agenda.Refine.{agenda_refines}

-- A reminder at each address but NULL, with the address as its time.
abbrev reminder_at : Addr → Reminder
reminder_at a = record { timestamp = a; type = 5; ref = 1; callback = 4096; user_data = 0 }

abbrev reminders : Reminders
reminders zero = none
reminders (suc a) = some (reminder_at (suc a))

abbrev calls : List Call
calls =
    Call.push 9
    ∷ Call.push 4
    ∷ Call.peek
    ∷ Call.pop
    ∷ Call.push 4
    ∷ Call.is_empty
    ∷ Call.pop
    ∷ Call.pop
    ∷ Call.pop
    ∷ Call.clear
    ∷ []

abbrev answers : List Answer
answers =
    Answer.pushed (pos 1)
    ∷ Answer.pushed (pos 2)
    ∷ Answer.peeked 4
    ∷ Answer.popped (pos 0) 4
    ∷ Answer.pushed (pos 3)
    ∷ Answer.tested false
    ∷ Answer.popped (pos 0) 4
    ∷ Answer.popped (pos 0) 9
    ∷ Answer.popped (negsuc 0) 0
    ∷ Answer.cleared
    ∷ []

abbrev nothing : Agenda
nothing = record { entries = []; counter = 1 }

calls-AllFit : AllFit reminders calls nothing
unfolding AllFit place
calls-AllFit = (
  (reminder_at 9, refl, omega arith, tt),
  (
    (reminder_at 4, refl, omega arith, ((omega arith, λ s e. ground arith), tt)),
    (
      tt,
      (
        tt,
        (
          (reminder_at 4, refl, omega arith, ((omega arith, λ s e. ground arith), tt)),
          (tt, (tt, (tt, (tt, (tt, tt))))),
        ),
      ),
    ),
  ),
)

calls_run : (play_all reminders calls nothing).0 ≡ answers
unfolding play_all to_int place
calls_run = refl

abbrev fresh : ReminderQueue (plain TimerNode)
unfolding plain reminder_queue_init
fresh = (reminder_queue_init (plain TimerNode)).1

fresh-IsValid : IsValid (plain TimerNode) reminders fresh
unfolding plain reminder_queue_init elems
fresh-IsValid = record { sorted = tt; known = tt; counted = omega arith }

agenda_refines_example :
    (q : ReminderQueue (plain TimerNode)) × (act_all (plain TimerNode) reminders calls fresh
      ≡ ok (answers, q))
    × (agenda_of (plain TimerNode) q ≡ (play_all reminders calls nothing).1)
    × IsValid (plain TimerNode) reminders q
unfolding plain reminder_queue_init play_all elems to_int place
agenda_refines_example =
    agenda_refines reminders (plain TimerNode) calls fresh fresh-IsValid (omega arith) calls-AllFit
