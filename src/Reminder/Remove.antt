-- ===== src/Reminder/Remove.antt =====
-- src/reminder_queue.c: what `reminder_queue_remove` and `reminder_queue_remove_by_id` find.
use libcymo.Common.{
  ℕ, ◌≤◌, ◌≡◌, ◌≢◌, ◌⊎◌, refl, sym, ap, ◌∙◌, arith, false, none, some, ◌==◌, Ordering, Bool-cases,
  inl, inr,
}
use libcymo.Common.Int.{pos, negsuc}
use libcymo.Memory.{Addr, update, update_self, update_ne, ok, fault}
use libcymo.Tree.{Shape, node, OrderedTree, elems, descend, drop_first}
use libcymo.Tree.Place.{All, All-map, Answers, descend-cases}
use libcymo.Reminder.{
  Reminder, Reminders, TimerNode, same_content, same_node, compare_content, timer_node_compare,
  ReminderQueue, remove_found, reminder_queue_remove, reminder_queue_remove_by_id,
}

compare_content-ne :
    (a b : Reminder) (j : ℕ)
    → same_content a b ≡ false
    → 1 ≤ j
    → compare_content a b 0 j ≢ Ordering.eq
unfolding compare_content
compare_content-ne a b j other k e = ground (arith, other)

compare_content-lt :
    (a b : Reminder) (j : ℕ)
    → same_content a b ≡ false
    → a.timestamp ≡ b.timestamp
    → 1 ≤ j
    → compare_content a b 0 j ≡ Ordering.lt
unfolding compare_content
compare_content-lt a b j other same k = rw other (ground arith)

ok_inj : {a b : Ordering} → ok a ≡ ok b → a ≡ b
ok_inj e = cc

-- What `reminder_queue_remove` looks for, and its node on the stack.
abbrev wanted : (timeout callback data_ : ℕ) → Reminder
wanted timeout callback data_ = record {
  timestamp = timeout;
  type = 0;
  ref = 0;
  callback = callback;
  user_data = data_;
}

abbrev stack_node : Addr → TimerNode
stack_node local = record { reminder = local; timer_id = 0 }

-- A node whose reminder is not the wanted one.
abbrev pub IsOther : Reminders → Addr → Reminder → TimerNode → Type 0
IsOther h local a z =
    (s : Reminder) × (h z.reminder ≡ some s)
    × (z.reminder ≢ local)
    × (1 ≤ z.timer_id)
    × (same_content a s ≡ false)

compare_wanted :
    (h : Reminders) (local : Addr) (a : Reminder) (z : TimerNode) (o : IsOther h local a z)
    → timer_node_compare (update h local (some a)) (stack_node local) z
      ≡ ok (compare_content a o.0 0 z.timer_id)
unfolding timer_node_compare
compare_wanted h local a z (s, at, other, k, differs) =
    let here = update_self h local (some a) in
    let there = update_ne h local z.reminder (some a) other ∙ at in ground (arith, here, there)

answers :
    (h : Reminders) (local : Addr) (a : Reminder) (z : TimerNode)
    → IsOther h local a z
    → Answers (timer_node_compare (update h local (some a)) (stack_node local) z)
      × (timer_node_compare (update h local (some a)) (stack_node local) z ≢ ok Ordering.eq)
answers h local a z (s, at, other, k, differs) =
    rw (compare_wanted h local a z (s, at, other, k, differs))
      (tt, λ e. compare_content-ne a s z.timer_id differs k (ok_inj e))

module _ (T : OrderedTree TimerNode) (h : Reminders) (q : ReminderQueue T) where
  -- Of a queue with a node `y` at the root of its tree, `reminder_queue_remove_by_id` reads through
  -- NULL for every identifier but that of `y`, which it removes.
  pub remove_by_id_cases :
      (l r : Shape TimerNode) (y : TimerNode) (id : ℕ)
      → h 0 ≡ none
      → T.shape q.nodes ≡ node l y r
      → y.reminder ≢ 0
      → 1 ≤ id
      → ((id ≢ y.timer_id) × (reminder_queue_remove_by_id T h q id ≡ fault))
        ⊎ ((id ≡ y.timer_id)
            × ((q' : ReminderQueue T) × (reminder_queue_remove_by_id T h q id ≡ ok (pos 0, q'))
                × (elems (T.shape q'.nodes) ≡ drop_first (same_node y) (elems (T.shape q.nodes)))))
  unfolding reminder_queue_remove_by_id remove_found timer_node_compare descend
  remove_by_id_cases l r y id null root real k =
      let fnode : TimerNode = record { reminder = 0; timer_id = id } in
      let found = T.find_lem (timer_node_compare h fnode) q.nodes in
      elim (Bool-cases (id == y.timer_id)) [
        | inl one ↦ inr (
          ground arith,
          (
            record q { nodes = T.remove (same_node y) q.nodes },
            rw (found, root) (ground (arith, one)),
            T.remove_lem (same_node y) q.nodes,
          ),
        )
        | inr two ↦ inl (ground arith, rw (found, root) (ground (arith, two, null)))
      ]

  -- `reminder_queue_remove` searches with identifier 0. Where the root of the tree has the wanted
  -- time, but another callback or other data, it goes left: it returns -1, whatever the right half
  -- holds.
  pub remove_misses :
      (l r : Shape TimerNode) (y : TimerNode) (local timeout callback data_ : ℕ)
      → T.shape q.nodes ≡ node l y r
      → (o : IsOther h local (wanted timeout callback data_) y) → o.0.timestamp ≡ timeout
      → All (IsOther h local (wanted timeout callback data_)) (elems l)
      → reminder_queue_remove T h local q timeout callback data_ ≡ ok (negsuc 0, q)
  unfolding reminder_queue_remove remove_found descend
  remove_misses l r y local timeout callback data_ root o same others =
      let a = wanted timeout callback data_ in
      let f = timer_node_compare (update h local (some a)) (stack_node local) in
      let (s, at, ne, k, differs) = o in
      let left : f y ≡ ok Ordering.lt =
        compare_wanted h local a y o
        ∙ ap ok (compare_content-lt a s y.timer_id differs (sym same) k) in
      let nothing : descend f l ≡ ok none =
        elim (descend-cases (λ z. f z ≢ ok Ordering.eq) f l
          (All-map (elems l) (λ z k. answers h local a z k) others)) [
            | inl e ↦ e
            | inr (z, _, e, ne) ↦ absurd (ne e)
          ] in
      rw (T.find_lem f q.nodes, root) (rw (left, descend) (rw nothing refl))
