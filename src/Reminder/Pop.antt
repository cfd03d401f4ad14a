-- ===== src/Reminder/Pop.antt =====
-- src/reminder_queue.c: `reminder_queue_pop` takes the earliest reminder, `reminder_queue_clear` all.
use libcymo.Common.{
  ℕ, zero, suc, ◌≤◌, ◌≡◌, refl, ap, ◌∙◌, sym, subst, arith, true, false, none, some, List, [], ◌∷◌,
  length,
}
use libcymo.Common.Int.{pos, negsuc}
use libcymo.Memory.{Addr}
use libcymo.Tree.{Shape, leaf, node, OrderedTree, elems, first, drop_first, remove_each}
use libcymo.Tree.Place.{All, IsSorted}
use libcymo.Tree.Remove.{elems-leaf, drop_first_self, elems-remove_each}
use libcymo.Reminder.{
  Reminders, TimerNode, same_node, ReminderQueue, reminder_queue_pop, reminder_queue_peek,
  reminder_queue_is_empty, reminder_queue_clear,
}
use libcymo.Reminder.Order.{time_of, IsValid}

-- `n` pops: the reminders that they store, and the queue behind them.
unfoldable pub drain :
    (T : OrderedTree TimerNode) → ℕ → ReminderQueue T → List Addr × ReminderQueue T
drain T zero q = ([], q)
drain T (suc n) q =
    let (rc, e, q') = reminder_queue_pop T q in let rest = drain T n q' in (e ∷ rest.0, rest.1)

abbrev pub reminders_of : List TimerNode → List Addr
reminders_of [] = []
reminders_of (n ∷ l) = n.reminder ∷ reminders_of l

-- The time of the reminder at an address.
abbrev pub time_at : Reminders → Addr → ℕ
time_at h a = time_of h (record { reminder = a; timer_id = 0 })

same_node_self : (n : TimerNode) → same_node n n ≡ true
same_node_self n = ground arith

module _ (T : OrderedTree TimerNode) where
  pub pop-none :
      (q : ReminderQueue T)
      → elems (T.shape q.nodes) ≡ []
      → reminder_queue_pop T q ≡ (negsuc 0, 0, q)
  unfolding reminder_queue_pop first
  pop-none q e =
      let least : T.min q.nodes ≡ none = T.min_lem q.nodes ∙ ap first e in
      rw (least, reminder_queue_pop) refl

  -- The queue without the node `n`.
  abbrev without : ReminderQueue T → TimerNode → ReminderQueue T
  without q n = record q { nodes = T.remove (same_node n) q.nodes }

  pop_least :
      (q : ReminderQueue T) (n : TimerNode)
      → T.min q.nodes ≡ some n
      → reminder_queue_pop T q ≡ (pos 0, n.reminder, without q n)
  unfolding reminder_queue_pop
  pop_least q n e = rw (e, reminder_queue_pop) refl

  pub pop-some :
      (q : ReminderQueue T) (n : TimerNode) (l : List TimerNode)
      → elems (T.shape q.nodes) ≡ n ∷ l
      → (q' : ReminderQueue T) × (reminder_queue_pop T q ≡ (pos 0, n.reminder, q'))
        × (elems (T.shape q'.nodes) ≡ l)
        × (q'.timer_counter ≡ q.timer_counter)
  unfolding reminder_queue_pop first
  pop-some q n l e = (
    without q n,
    pop_least q n (T.min_lem q.nodes ∙ ap first e),
    T.remove_lem (same_node n) q.nodes
        ∙ ap (drop_first (same_node n)) e
        ∙ drop_first_self (same_node n) n l (same_node_self n),
    refl,
  )

  -- What a queue that holds `n` first answers.
  pub peek-some :
      (q : ReminderQueue T) (n : TimerNode) (l : List TimerNode)
      → elems (T.shape q.nodes) ≡ n ∷ l
      → reminder_queue_peek T q ≡ n.reminder
  unfolding reminder_queue_peek first
  peek-some q n l e =
      let least : T.min q.nodes ≡ some n = T.min_lem q.nodes ∙ ap first e in
      rw (least, reminder_queue_peek) refl

  pub peek-none : (q : ReminderQueue T) → elems (T.shape q.nodes) ≡ [] → reminder_queue_peek T q ≡ 0
  unfolding reminder_queue_peek first
  peek-none q e =
      let least : T.min q.nodes ≡ none = T.min_lem q.nodes ∙ ap first e in
      rw (least, reminder_queue_peek) refl

  pub is_empty-some :
      (q : ReminderQueue T) (n : TimerNode) (l : List TimerNode)
      → elems (T.shape q.nodes) ≡ n ∷ l
      → reminder_queue_is_empty T q ≡ false
  unfolding reminder_queue_is_empty elems
  is_empty-some q n l e = go (T.shape q.nodes) refl
    where
      go : (t : Shape TimerNode) → T.shape q.nodes ≡ t → reminder_queue_is_empty T q ≡ false
      go leaf at = absurd (cc (e, ap elems at))
      go (node a y b) at = rw (at, reminder_queue_is_empty) refl

  pub is_empty-none :
      (q : ReminderQueue T) → elems (T.shape q.nodes) ≡ [] → reminder_queue_is_empty T q ≡ true
  unfolding reminder_queue_is_empty
  is_empty-none q e =
      let bare : T.shape q.nodes ≡ leaf = elems-leaf (T.shape q.nodes) e in
      rw (bare, reminder_queue_is_empty) refl

  elems-drain :
      (l : List TimerNode) (q : ReminderQueue T)
      → elems (T.shape q.nodes) ≡ l
      → ((drain T (length l) q).0 ≡ reminders_of l)
        × (elems (T.shape (drain T (length l) q).1.nodes) ≡ [])
  unfolding drain
  elems-drain [] q e = (refl, e)
  elems-drain (n ∷ l) q e =
      let (q', pop, rest, _) = pop-some q n l e in
      let (a, b) = elems-drain l q' rest in
      let step : drain T (suc (length l)) q
          ≡ (n.reminder ∷ (drain T (length l) q').0, (drain T (length l) q').1) =
        ap {B = List Addr × ReminderQueue T}
          (λ p. (p.1 ∷ (drain T (length l) p.2).0, (drain T (length l) p.2).1)) pop in
      (
        ap (λ p. p.0) step ∙ ap (λ k. n.reminder ∷ k) a,
        ap (λ p. elems (T.shape p.1.nodes)) step ∙ b,
      )

  IsSorted-reminders_of :
      (h : Reminders) (l : List TimerNode)
      → IsSorted (time_of h) l
      → IsSorted (time_at h) (reminders_of l)
  IsSorted-reminders_of h [] s = tt
  IsSorted-reminders_of h (n ∷ l) s = (go l s.0, IsSorted-reminders_of h l s.1)
    where
      go :
          (l' : List TimerNode)
          → All (λ m. time_of h n ≤ time_of h m) l'
          → All (λ a. time_at h n.reminder ≤ time_at h a) (reminders_of l')
      go [] a = tt
      go (m ∷ l') a = (a.0, go l' a.1)

  -- As many pops as there are nodes give each reminder once, in the order of the nodes and so of the
  -- times, and leave a queue whose next pop fails.
  pub drain-IsSorted :
      (h : Reminders) (q : ReminderQueue T)
      → IsValid T h q
      → let n = length (elems (T.shape q.nodes)) in
        let (out, q') = drain T n q in
        (out ≡ reminders_of (elems (T.shape q.nodes)))
        × IsSorted (time_at h) out
        × (reminder_queue_pop T q' ≡ (negsuc 0, 0, q'))
  drain-IsSorted h q v =
      let (a, b) = elems-drain (elems (T.shape q.nodes)) q refl in
      (a, subst (IsSorted (time_at h)) (sym a) (IsSorted-reminders_of h _ v.sorted), pop-none _ b)

  -- `reminder_queue_clear` empties every queue, and keeps its counter.
  pub clear-empty :
      (q : ReminderQueue T)
      → let q' = reminder_queue_clear T q in
        (elems (T.shape q'.nodes) ≡ [])
        × (reminder_queue_is_empty T q' ≡ true)
        × (reminder_queue_peek T q' ≡ 0)
        × (q'.timer_counter ≡ q.timer_counter)
  unfolding reminder_queue_clear reminder_queue_is_empty reminder_queue_peek first
  clear-empty q =
      let e = elems-remove_each T same_node same_node_self _ q.nodes refl in
      let t = remove_each T same_node (elems (T.shape q.nodes)) q.nodes in
      let bare : T.shape t ≡ leaf = elems-leaf (T.shape t) e in
      let least : T.min t ≡ none = T.min_lem t ∙ ap first e in
      (e, rw (bare, reminder_queue_is_empty) refl, rw (least, reminder_queue_peek) refl, refl)
