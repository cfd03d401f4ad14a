-- ===== src/Reminder/Kept.antt =====
-- src/reminder_queue.c: what is taken out of a queue leaves the others in their order.
use libcymo.Common.{
  ℕ, ◌≡◌, refl, sym, subst, Bool, none, some, Option, List, [], ◌∷◌, Bool-cases, inl, inr,
}
use libcymo.Tree.{OrderedTree, drop_first}
use libcymo.Tree.Place.{All, IsSorted}
use libcymo.Reminder.{
  Reminders, TimerNode, same_node, ReminderQueue, remove_found, reminder_queue_pop,
  reminder_queue_clear,
}
use libcymo.Reminder.Order.{time_of, IsKnown, IsValid}
use libcymo.Reminder.Pop.{clear-empty}

drop_first-All :
    {A : Type 0} (P : A → Type 0) (p : A → Bool) (l : List A) → All P l → All P (drop_first p l)
unfolding drop_first
drop_first-All P p [] a = tt
drop_first-All P p (x ∷ l) a = elim (Bool-cases (p x)) [
  | inl hit ↦ rw hit (a.1)
  | inr miss ↦ rw miss (a.0, drop_first-All P p l a.1)
]

drop_first-IsSorted :
    {A : Type 0} (key : A → ℕ) (p : A → Bool) (l : List A)
    → IsSorted key l
    → IsSorted key (drop_first p l)
unfolding drop_first
drop_first-IsSorted key p [] s = tt
drop_first-IsSorted key p (x ∷ l) s = elim (Bool-cases (p x)) [
  | inl hit ↦ rw hit (s.1)
  | inr miss ↦ rw miss (drop_first-All _ p l s.0, drop_first-IsSorted key p l s.1)
]

module _ (T : OrderedTree TimerNode) (h : Reminders) (q : ReminderQueue T) (v : IsValid T h q) where
  without-IsValid :
      (n : TimerNode) → IsValid T h (record q { nodes = T.remove (same_node n) q.nodes })
  without-IsValid n =
      let left = T.remove_lem (same_node n) q.nodes in
      record {
        sorted =
            subst (IsSorted (time_of h)) (sym left)
              (drop_first-IsSorted (time_of h) (same_node n) _ v.sorted);
        known =
            subst (All (IsKnown h q.timer_counter)) (sym left)
              (drop_first-All _ (same_node n) _ v.known);
        counted = v.counted;
      }

  -- Every operation that takes reminders out keeps the order and the identifiers of the queue.
  pub pop-IsValid : IsValid T h (reminder_queue_pop T q).2
  unfolding reminder_queue_pop
  pop-IsValid = go (T.min q.nodes) refl
    where
      go : (o : Option TimerNode) → T.min q.nodes ≡ o → IsValid T h (reminder_queue_pop T q).2
      go none e = rw (e, reminder_queue_pop) v
      go (some n) e = rw (e, reminder_queue_pop) (without-IsValid n)

  pub clear-IsValid : IsValid T h (reminder_queue_clear T q)
  unfolding reminder_queue_clear
  clear-IsValid =
      let (empty, _, _, _) = clear-empty T q in
      record {
        sorted = subst (IsSorted (time_of h)) (sym empty) tt;
        known = subst (All (IsKnown h q.timer_counter)) (sym empty) tt;
        counted = v.counted;
      }

  pub remove_found-IsValid : (found : Option TimerNode) → IsValid T h (remove_found T q found).1
  unfolding remove_found
  remove_found-IsValid none = v
  remove_found-IsValid (some n) = without-IsValid n
