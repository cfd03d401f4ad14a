-- ===== src/Reminder/Agenda/Refine.antt =====
-- src/reminder_queue.c: any calls answer as the agenda does, whatever the trees do to stay balanced.
use libcymo.Common.{
  ℕ, ◌+◌, ◌^◌, ◌<◌, ◌≡◌, refl, sym, ap, ◌∙◌, subst, suc, arith, Bool-cases, inl, inr, List, [], ◌∷◌,
  length, leb,
}
use libcymo.Memory.{Addr, ok}
use libcymo.Tree.{OrderedTree, elems}
use libcymo.Tree.Place.{All, place}
use libcymo.Reminder.{Reminder, Reminders, TimerNode, ReminderQueue}
use libcymo.Reminder.Order.{time_of, IsValid}
use libcymo.Reminder.Push.{IsFresh, new_node, push_new}
use libcymo.Reminder.Pop.{
  reminders_of, time_at, pop-none, pop-some, peek-none, peek-some, is_empty-some, is_empty-none,
  clear-empty,
}
use libcymo.Reminder.Kept.{pop-IsValid, clear-IsValid}
use libcymo.Reminder.Agenda.{
  Agenda, Call, play_pop, play, play_all, IsUnlike, IsFit, AllFit, agenda_of, act, act_all,
}

module _ (h : Reminders) where
  All-IsFresh :
      (e : Addr) (r : Reminder) (l : List TimerNode)
      → All (IsUnlike h e r) (reminders_of l)
      → All (IsFresh h e r) l
  All-IsFresh e r [] a = tt
  All-IsFresh e r (n ∷ l) a = (a.0, All-IsFresh e r l a.1)

  reminders_of-place :
      (n : TimerNode) (l : List TimerNode)
      → reminders_of (place (time_of h) n l) ≡ place (time_at h) n.reminder (reminders_of l)
  unfolding place
  reminders_of-place n [] = refl
  reminders_of-place n (m ∷ l) = elim (Bool-cases (leb (time_of h m) (time_of h n))) [
    | inl le ↦ rw le (ap (λ k. m.reminder ∷ k) (reminders_of-place n l))
    | inr gt ↦ rw gt refl
  ]

  module _ (T : OrderedTree TimerNode) where
    -- A call answers as `play` does, and leaves a valid queue of what `play` leaves.
    abbrev pub Refines : Call → ReminderQueue T → Type 0
    Refines c q =
        (q' : ReminderQueue T) × (act T h c q ≡ ok ((play h c (agenda_of T q)).0, q'))
        × (agenda_of T q' ≡ (play h c (agenda_of T q)).1)
        × IsValid T h q'

    pop-Refines :
        (q : ReminderQueue T) (l : List TimerNode)
        → elems (T.shape q.nodes) ≡ l
        → IsValid T h q
        → Refines Call.pop q
    unfolding act
    pop-Refines q [] e v = (q, rw (pop-none T q e, e) refl, rw e refl, v)
    pop-Refines q (n ∷ l) e v =
        let (q', pop, rest, same) = pop-some T q n l e in
        (q', rw (pop, e) refl, rw (rest, same, e) refl, rw pop at (pop-IsValid T h q v))

    peek-Refines :
        (q : ReminderQueue T) (l : List TimerNode)
        → elems (T.shape q.nodes) ≡ l
        → IsValid T h q
        → Refines Call.peek q
    unfolding act
    peek-Refines q [] e v = (q, rw (peek-none T q e, e) refl, refl, v)
    peek-Refines q (n ∷ l) e v = (q, rw (peek-some T q n l e, e) refl, refl, v)

    is_empty-Refines :
        (q : ReminderQueue T) (l : List TimerNode)
        → elems (T.shape q.nodes) ≡ l
        → IsValid T h q
        → Refines Call.is_empty q
    unfolding act
    is_empty-Refines q [] e v = (q, rw (is_empty-none T q e, e) refl, refl, v)
    is_empty-Refines q (n ∷ l) e v = (q, rw (is_empty-some T q n l e, e) refl, refl, v)

    push-Refines :
        (q : ReminderQueue T) (e : Addr)
        → IsValid T h q
        → q.timer_counter + 1 < 2 ^ 64
        → IsFit h (Call.push e) (agenda_of T q)
        → Refines (Call.push e) q
    unfolding act
    push-Refines q e v room (r, at, present, unlike) =
        let (t, pushed, there, valid) =
          push_new T h q v e r at present room (All-IsFresh e r _ unlike) in
        (
          record { nodes = t; timer_counter = q.timer_counter + 1 },
          rw pushed refl,
          rw (there, reminders_of-place (new_node T q e) (elems (T.shape q.nodes))) refl,
          valid,
        )

    call-Refines :
        (c : Call) (q : ReminderQueue T)
        → IsValid T h q
        → q.timer_counter + 1 < 2 ^ 64
        → IsFit h c (agenda_of T q)
        → Refines c q
    unfolding act
    call-Refines (Call.push e) q v room fit = push-Refines q e v room fit
    call-Refines Call.pop q v room fit = pop-Refines q (elems (T.shape q.nodes)) refl v
    call-Refines Call.peek q v room fit = peek-Refines q (elems (T.shape q.nodes)) refl v
    call-Refines Call.is_empty q v room fit = is_empty-Refines q (elems (T.shape q.nodes)) refl v
    call-Refines Call.clear q v room fit =
        let (bare, _, _, same) = clear-empty T q in
        (_, refl, rw (bare, same) refl, clear-IsValid T h q v)

    counter_bound :
        (c : Call) (s : Agenda) (n : ℕ)
        → s.counter + suc n < 2 ^ 64
        → (play h c s).1.counter + n < 2 ^ 64
    counter_bound (Call.push e) s n room = omega arith
    counter_bound Call.pop s n room = go s.entries
      where
        go : (l : List Addr) → (play_pop l s.counter).1.counter + n < 2 ^ 64
        go [] = omega arith
        go (a ∷ l) = omega arith
    counter_bound Call.peek s n room = omega arith
    counter_bound Call.is_empty s n room = omega arith
    counter_bound Call.clear s n room = omega arith

    -- Any calls of the queue's operations, on a valid queue whose identifiers do not run out, of which
    -- each push is of a reminder unlike those that wait then: all of them return, they answer as the
    -- agenda does, and they leave a valid queue of what the agenda has.
    pub agenda_refines :
        (cs : List Call) (q : ReminderQueue T)
        → IsValid T h q
        → q.timer_counter + length cs < 2 ^ 64
        → AllFit h cs (agenda_of T q)
        → (q' : ReminderQueue T) × (act_all T h cs q ≡ ok ((play_all h cs (agenda_of T q)).0, q'))
          × (agenda_of T q' ≡ (play_all h cs (agenda_of T q)).1)
          × IsValid T h q'
    unfolding act_all play_all AllFit
    agenda_refines [] q v room fit = (q, refl, refl, v)
    agenda_refines (c ∷ cs) q v room fit =
        let s = agenda_of T q in
        let (q1, called, left, valid) = call-Refines c q v (omega arith) fit.0 in
        let room1 : q1.timer_counter + length cs < 2 ^ 64 =
          subst (λ (x : Agenda). x.counter + length cs < 2 ^ 64) (sym left)
            (counter_bound c s (length cs) room) in
        let fit1 : AllFit h cs (agenda_of T q1) = subst (AllFit h cs) (sym left) fit.1 in
        let (q2, rest, end, last) = agenda_refines cs q1 valid room1 fit1 in
        (
          q2,
          rw called
              (rw rest (ap (λ (x : Agenda). ok ((play h c s).0 ∷ (play_all h cs x).0, q2)) left)),
          end ∙ ap (λ (x : Agenda). (play_all h cs x).1) left,
          last,
        )
