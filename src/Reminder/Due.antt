-- ===== src/Reminder/Due.antt =====
-- src/reminder_queue.c: the reminders of an ordered queue that are due, and those that are not.
use libcymo.Common.{
  ℕ, ◌≤◌, ◌≡◌, refl, ap, arith, Bool, true, false, not, List, [], ◌∷◌, leb, if◌then◌else◌,
}
use libcymo.Tree.Place.{All}
use libcymo.Reminder.{Reminders, TimerNode}
use libcymo.Reminder.Order.{time_of}

-- The items that pass the test.
unfoldable pub select : {A : Type 0} → (A → Bool) → List A → List A
select p [] = []
select p (x ∷ l) = let rest = select p l in if p x then x ∷ rest else rest

-- A reminder with a time up to `t`.
abbrev pub is_due : Reminders → ℕ → TimerNode → Bool
is_due h t n = leb (time_of h n) t

pub select-due :
    (h : Reminders) (t : ℕ) (n : TimerNode) (l : List TimerNode)
    → is_due h t n ≡ true
    → (select (is_due h t) (n ∷ l) ≡ n ∷ select (is_due h t) l)
      × (select (λ x. not (is_due h t x)) (n ∷ l) ≡ select (λ x. not (is_due h t x)) l)
unfolding select
select-due h t n l d = rw d (refl, refl)

-- Behind a reminder that is not due there is none that is.
pub select-later :
    (h : Reminders) (t k : ℕ) (l : List TimerNode)
    → leb k t ≡ false
    → All (λ x. k ≤ time_of h x) l
    → (select (is_due h t) l ≡ []) × (select (λ x. not (is_due h t x)) l ≡ l)
unfolding select
select-later h t k [] d a = (refl, refl)
select-later h t k (x ∷ l) d (ge, a) =
    let (none_due, all_later) = select-later h t k l d a in
    let later : is_due h t x ≡ false = ground arith in
    rw later (none_due, ap (λ r. x ∷ r) all_later)
