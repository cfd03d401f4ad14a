-- ===== src/Queue/Contract.antt =====
-- src/cymo_queue.c and src/cymo_queue.h: what a queue of events promises, as a list of at most
-- `capacity - 1` addresses, and calls of its operations one after the other.
pub mod Refine
mod Tests
use libcymo.Common.{ℕ, ◌+◌, ◌≢◌, Bool, true, false, not, ◌&&◌, Option, List, [], ◌∷◌, length, ◌==◌}
use libcymo.Common.Int.{ℤ}
use libcymo.Memory.{Addr, Outcome, ok, ◌>>=◌}
use libcymo.Spsc.Refine.{push, pop, peek}
use libcymo.Queue.{
  CmQueue, cm_queue_push, cm_queue_pop, cm_queue_peek, cm_queue_is_empty, cm_queue_is_full,
  cm_queue_size, cm_queue_capacity,
}
use libcymo.Queue.Push.{succeeded}

pub data Call : Type 0 where
  push_event : (e : Addr) → Call
  pop_event peek_event ask_empty ask_full ask_size ask_capacity : Call

-- A push says whether it wakes the loop.
pub data Answer : Type 0 where
  pushed : (rc : ℤ) (woken : Bool) → Answer
  popped : (rc : ℤ) (item : Option Addr) → Answer
  peeked : (e : Addr) → Answer
  tested : (b : Bool) → Answer
  counted : (n : ℕ) → Answer

-- What a call answers, and what it leaves of the waiting events `l`.
module _ (capacity loop : ℕ) where
  abbrev pub play : Call → List Addr → Answer × List Addr
  play (Call.push_event e) l =
      let (rc, l') = push capacity l e in
      (Answer.pushed rc ((length l == 0) && succeeded rc && not (loop == 0)), l')
  play Call.pop_event l = let (rc, item, l') = pop l in (Answer.popped rc item, l')
  play Call.peek_event l = (Answer.peeked (peek l), l)
  play Call.ask_empty l = (Answer.tested (length l == 0), l)
  play Call.ask_full l = (Answer.tested (length l + 1 == capacity), l)
  play Call.ask_size l = (Answer.counted (length l), l)
  play Call.ask_capacity l = (Answer.counted capacity, l)

  unfoldable pub play_all : List Call → List Addr → List Answer × List Addr
  play_all [] l = ([], l)
  play_all (c ∷ cs) l = let r = play c l in let rest = play_all cs r.1 in (r.0 ∷ rest.0, rest.1)

-- No push is of NULL.
abbrev pub IsFit : Call → Type 0
IsFit (Call.push_event e) = e ≢ 0
IsFit _ = Unit

abbrev pub AllFit : List Call → Type 0
AllFit [] = Unit
AllFit (c ∷ cs) = IsFit c × AllFit cs

-- The same calls of the code.
unfoldable pub act : Call → CmQueue → Outcome (Answer × CmQueue)
act (Call.push_event e) q = cm_queue_push q e >>= λ r. ok (Answer.pushed r.0 r.2, r.1)
act Call.pop_event q = let (rc, item, q') = cm_queue_pop q in ok (Answer.popped rc item, q')
act Call.peek_event q = ok (Answer.peeked (cm_queue_peek q), q)
act Call.ask_empty q = ok (Answer.tested (cm_queue_is_empty q), q)
act Call.ask_full q = ok (Answer.tested (cm_queue_is_full q), q)
act Call.ask_size q = ok (Answer.counted (cm_queue_size q), q)
act Call.ask_capacity q = ok (Answer.counted (cm_queue_capacity q), q)

unfoldable pub act_all : List Call → CmQueue → Outcome (List Answer × CmQueue)
act_all [] q = ok ([], q)
act_all (c ∷ cs) q = act c q >>= λ r. act_all cs r.1 >>= λ rest. ok (r.0 ∷ rest.0, rest.1)
