-- ===== src/Reminder/Push.antt =====
-- src/reminder_queue.c: what `reminder_queue_push` does to the order of the reminders.
use libcymo.Common.{
  ◌+◌, ◌^◌, ◌<◌, ◌≡◌, ◌≢◌, sym, subst, arith, true, false, none, some, Ordering, inl, inr,
}
use libcymo.Common.Int.{pos}
use libcymo.Memory.{Addr, ok}
use libcymo.Tree.{OrderedTree, elems, descend}
use libcymo.Tree.Place.{All, All-map, All-both, IsSorted, place, All-place, IsSorted-place, Places}
use libcymo.Tree.Insert.{unfound, insert-place}
use libcymo.Reminder.{
  Reminder, Reminders, TimerNode, same_content, timer_node_compare, to_int, ReminderQueue,
  reminder_queue_push,
}
use libcymo.Reminder.Order.{time_of, IsKnown, IsValid, compare-Places, compare-same_content}

-- The queue after a push that finds no equal node, with its tree, and after one that does.
abbrev pub grown : (T : OrderedTree TimerNode) → ReminderQueue T → T.Tree → ReminderQueue T
grown T q t = record { nodes = t; timer_counter = q.timer_counter + 1 }

abbrev pub new_node : (T : OrderedTree TimerNode) → ReminderQueue T → Addr → TimerNode
new_node T q e = record { reminder = e; timer_id = q.timer_counter }

-- No node has the reminder `e`, or one with the same time, callback and data as `r`.
abbrev pub IsFresh : Reminders → Addr → Reminder → TimerNode → Type 0
IsFresh h e r y =
    (y.reminder ≢ e) × ((s : Reminder) → h y.reminder ≡ some s → same_content r s ≡ false)

module _ (T : OrderedTree TimerNode) (h : Reminders) (q : ReminderQueue T) (v : IsValid T h q) where
  later : All (IsKnown h (q.timer_counter + 1)) (elems (T.shape q.nodes))
  later =
      All-map (elems (T.shape q.nodes)) (λ y (r, at, n, lo, hi). (r, at, n, lo, omega arith))
        v.known

  module _ (e : Addr) (r : Reminder) (at : h e ≡ some r) (present : e ≢ 0) where
    placed :
        All
          (λ y. Places (time_of h) (new_node T q e) (timer_node_compare h (new_node T q e) y) y)
          (elems (T.shape q.nodes))
    placed =
        All-map (elems (T.shape q.nodes))
          (λ y k. compare-Places h q.timer_counter e r y at v.counted k) v.known

    grown-IsValid :
        (t : T.Tree)
        → elems (T.shape t) ≡ place (time_of h) (new_node T q e) (elems (T.shape q.nodes))
        → IsValid T h (grown T q t)
    grown-IsValid t same = record {
      sorted =
          subst (IsSorted (time_of h)) (sym same)
            (IsSorted-place (time_of h) (new_node T q e) _ v.sorted);
      known = subst (All (IsKnown h (q.timer_counter + 1))) (sym same) (
          All-place (time_of h) (IsKnown h (q.timer_counter + 1)) (new_node T q e) _
            (r, at, present, v.counted, omega arith) later);
      counted = omega arith;
    }

    -- Where the search finds nothing.
    inserts :
        descend (timer_node_compare h (new_node T q e)) (T.shape q.nodes) ≡ ok none
        → q.timer_counter + 1 < 2 ^ 64
        → (t : T.Tree) × (reminder_queue_push T h true q e
            ≡ ok (to_int q.timer_counter, some q.timer_counter, grown T q t))
          × (elems (T.shape t) ≡ place (time_of h) (new_node T q e) (elems (T.shape q.nodes)))
          × IsValid T h (grown T q t)
    unfolding reminder_queue_push
    inserts nothing room =
        let (t, inserted, at_place) =
          insert-place T (time_of h) (timer_node_compare h (new_node T q e)) (new_node T q e)
            q.nodes placed v.sorted nothing in
        (t, rw inserted (ground (arith, present)), at_place, grown-IsValid t at_place)

    unlike :
        (y : TimerNode)
        → IsKnown h q.timer_counter y
        → IsFresh h e r y
        → timer_node_compare h (new_node T q e) y ≢ ok Ordering.eq
    unlike y k (other, differs) same =
        elim (compare-same_content h q.timer_counter e r y at k same) [
          | inl one ↦ other one
          | inr alike ↦ absurd (ground (arith, alike, differs k.0 k.1))
        ]

    -- A reminder unlike those in the queue is put behind those of its time or earlier ones.
    pub push_new :
        q.timer_counter + 1 < 2 ^ 64
        → All (IsFresh h e r) (elems (T.shape q.nodes))
        → (t : T.Tree) × (reminder_queue_push T h true q e
            ≡ ok (to_int q.timer_counter, some q.timer_counter, grown T q t))
          × (elems (T.shape t) ≡ place (time_of h) (new_node T q e) (elems (T.shape q.nodes)))
          × IsValid T h (grown T q t)
    push_new room fresh =
        let differ =
          All-map (elems (T.shape q.nodes)) (λ y k. unlike y k.0 k.1)
            (All-both (IsKnown h q.timer_counter) (IsFresh h e r) _ v.known fresh) in
        let nothing =
          unfound T (time_of h) (timer_node_compare h (new_node T q e)) (new_node T q e) q.nodes
            placed differ in
        inserts nothing room

    -- The result is the identifier of the new node, which is not 0, as long as that is below 2 ^ 31.
    pub push_fresh :
        q.timer_counter < 2 ^ 31
        → All (IsFresh h e r) (elems (T.shape q.nodes))
        → (t : T.Tree) × (reminder_queue_push T h true q e
            ≡ ok (pos q.timer_counter, some q.timer_counter, grown T q t))
          × (pos q.timer_counter ≢ pos 0)
          × (elems (T.shape t) ≡ place (time_of h) (new_node T q e) (elems (T.shape q.nodes)))
          × IsValid T h (grown T q t)
    unfolding to_int
    push_fresh room fresh =
        let (t, pushed, there, valid) = push_new (omega arith) fresh in
        let small : to_int q.timer_counter ≡ pos q.timer_counter = ground arith in
        (t, rw small at pushed, ground (arith, v.counted), there, valid)
