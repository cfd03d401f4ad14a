-- ===== src/Loop/Sleep.antt =====
-- src/cymo_loop.c: `cymo_sleep` as it is compiled for Linux, and the waiting and waking of the loop, by
-- the calls they make.
use libcymo.Common.{
  ℕ, ◌+◌, ◌*◌, ◌/◌, ◌%◌, ◌^◌, ◌<◌, ◌≡◌, arith, List, [], ◌∷◌, ◌++◌, ◌==◌, if◌then◌else◌, Bool-cases,
  inl, inr,
}
use libcymo.Common.Int.{ℤ, pos, negsuc, to_i32, to_i32-pos}
use libcymo.Datetime.Clock.{min_date_time}

-- The calls of the system: `sleep` takes seconds, `usleep` microseconds.
pub data Call : Type 0 where
  sleep usleep : ℕ → Call

-- A call for a number above 0.
abbrev pub when_positive : ℤ → (ℕ → Call) → List Call
when_positive (pos n) call = if n == 0 then [] else call n ∷ []
when_positive (negsuc n) call = []

-- Both numbers are kept in an `int` of 32 bits.
unfoldable pub cymo_sleep : ℕ → List Call
cymo_sleep ms =
    let sec = to_i32 (ms / 1000) in
    let usec = to_i32 (ms % 1000 * 1000) in
    when_positive sec Call.sleep ++ when_positive usec Call.usleep

-- The microseconds that calls take.
unfoldable pub slept : List Call → ℕ
slept [] = 0
slept (Call.sleep n ∷ l) = n * 1_000_000 + slept l
slept (Call.usleep n ∷ l) = n + slept l

slept_parts :
    (s us : ℕ)
    → slept (when_positive (pos s) Call.sleep ++ when_positive (pos us) Call.usleep)
      ≡ s * 1_000_000 + us
unfolding slept
slept_parts s us = elim (Bool-cases (s == 0)) [
  | inl z ↦ elim (Bool-cases (us == 0)) [
    | inl zz ↦ rw (z, zz) (ground arith)
    | inr more ↦ rw (z, more) (ground arith)
  ]
  | inr some_s ↦ elim (Bool-cases (us == 0)) [
    | inl zz ↦ rw (some_s, zz) (ground arith)
    | inr more ↦ rw (some_s, more) (ground arith)
  ]
]

-- `cymo_sleep` sleeps as many milliseconds as it is told, below 2 ^ 31 seconds.
pub slept-cymo_sleep : (ms : ℕ) → ms < 2 ^ 31 * 1000 → slept (cymo_sleep ms) ≡ ms * 1000
unfolding cymo_sleep
slept-cymo_sleep ms h =
    rw
      (
        to_i32-pos (ms / 1000) (omega arith),
        to_i32-pos (ms % 1000 * 1000) (omega arith),
        slept_parts (ms / 1000) (ms % 1000 * 1000),
      )
      (omega arith)

-- The calls of libuv on the mutex and the condition of the loop.
pub data UvCall : Type 0 where
  lock unlock signal : UvCall
  timedwait : ℕ → UvCall

unfoldable pub cymo_wakeup : List UvCall
cymo_wakeup = UvCall.lock ∷ UvCall.signal ∷ UvCall.unlock ∷ []

unfoldable pub timewait : ℕ → List UvCall
timewait timeout = UvCall.lock ∷ UvCall.timedwait timeout ∷ UvCall.unlock ∷ []

-- The result has the type `int64_t`.
unfoldable pub get_next_timeout : ℤ
get_next_timeout = pos min_date_time
