-- ===== src/Reminder/Order.antt =====
-- src/reminder_queue.c: `timer_node_compare` against the order of the times.
use libcymo.Common.{
  ℕ, ◌≤◌, ◌<◌, ◌≡◌, ◌≢◌, ◌⊎◌, refl, arith, true, none, some, ◌==◌, ltb, Ordering, Bool-cases, inl,
  inr,
}
use libcymo.Memory.{ok}
use libcymo.Tree.{OrderedTree, elems}
use libcymo.Tree.Place.{All, IsSorted, Places}
use libcymo.Reminder.{
  Reminder, Reminders, TimerNode, same_content, compare_content, timer_node_compare, ReminderQueue,
}

-- The time of a node's reminder.
abbrev pub time_of : Reminders → TimerNode → ℕ
time_of h n = elim (h n.reminder) [ none ↦ 0 | some r ↦ r.timestamp ]

-- A node with a reminder and an identifier below `c`.
abbrev pub IsKnown : Reminders → ℕ → TimerNode → Type 0
IsKnown h c n =
    (r : Reminder) × (h n.reminder ≡ some r)
    × (n.reminder ≢ 0)
    × (1 ≤ n.timer_id)
    × (n.timer_id < c)

-- The nodes are in the order of their times, with their reminders and earlier identifiers.
pub record IsValid (T : OrderedTree TimerNode) (h : Reminders) (q : ReminderQueue T) : Type 0 where
  pub sorted : IsSorted (time_of h) (elems (T.shape q.nodes))
  pub known : All (IsKnown h q.timer_counter) (elems (T.shape q.nodes))
  pub counted : 1 ≤ q.timer_counter

compare_content-cases :
    (a b : Reminder) (i j : ℕ)
    → j < i
    → (compare_content a b i j ≡ Ordering.eq)
      ⊎ ((compare_content a b i j ≡ Ordering.lt) × (a.timestamp < b.timestamp))
      ⊎ ((compare_content a b i j ≡ Ordering.gt) × (b.timestamp ≤ a.timestamp))
unfolding compare_content
compare_content-cases a b i j k = elim (Bool-cases (same_content a b)) [
  | inl same ↦ inl (rw same refl)
  | inr other ↦ elim (Bool-cases (ltb a.timestamp b.timestamp)) [
    | inl before ↦ inr (inl (rw (other, before) (refl, ground arith)))
    | inr not_before ↦ inr (inr (ground (arith, other)))
  ]
]

timer_node_compare-cases :
    (h : Reminders) (x y : TimerNode) (a b : Reminder)
    → h x.reminder ≡ some a
    → h y.reminder ≡ some b
    → (timer_node_compare h x y ≡ ok Ordering.eq)
      ⊎ (timer_node_compare h x y ≡ ok (compare_content a b x.timer_id y.timer_id))
unfolding timer_node_compare
timer_node_compare-cases h x y a b e f = ground (arith, e, f)

-- A node with a newer identifier stands behind the nodes of the same time.
pub compare-Places :
    (h : Reminders) (c e : ℕ) (r : Reminder) (y : TimerNode)
    → h e ≡ some r
    → 1 ≤ c
    → IsKnown h c y
    → let x : TimerNode = record { reminder = e; timer_id = c } in
      Places (time_of h) x (timer_node_compare h x y) y
compare-Places h c e r y at k (s, at_y, _, lo, hi) =
    let x : TimerNode = record { reminder = e; timer_id = c } in
    let tx : time_of h x ≡ r.timestamp = ground (arith, at) in
    let ty : time_of h y ≡ s.timestamp = ground (arith, at_y) in
    elim (timer_node_compare-cases h x y r s at at_y) [
      | inl same ↦ rw same tt
      | inr content ↦ elim (compare_content-cases r s c y.timer_id hi) [
        | inl same ↦ rw (content, same) tt
        | inr (inl (before, le)) ↦ rw (content, before) (omega (arith, tx, ty, le))
        | inr (inr (behind, le)) ↦ rw (content, behind) (omega (arith, tx, ty, le))
      ]
    ]

-- Two nodes with different identifiers compare equal only if they have one reminder, or two with the
-- same time, callback and data.
pub compare-same_content :
    (h : Reminders) (c e : ℕ) (r : Reminder) (y : TimerNode)
    → h e ≡ some r
    → (k : IsKnown h c y)
    → let x : TimerNode = record { reminder = e; timer_id = c } in
      timer_node_compare h x y ≡ ok Ordering.eq → (y.reminder ≡ e) ⊎ (same_content r k.0 ≡ true)
unfolding timer_node_compare compare_content
compare-same_content h c e r y at (s, at_y, real, lo, hi) same =
    elim (Bool-cases (e == y.reminder)) [
      | inl one ↦ inl (ground arith)
      | inr two ↦ elim (Bool-cases (same_content r s)) [
        | inl alike ↦ inr alike
        | inr differ ↦ absurd (ground (arith, at, at_y, two, differ, same))
      ]
    ]
