-- ===== src/Loop/Clocks.antt =====
-- src/cymo_loop.c: the two clocks of the loop.
use libcymo.Common.{
  ℕ, ◌≡◌, refl, ap, ◌∙◌, List, [], ◌∷◌, ltb, if◌then◌else◌, ◌⊎◌, inl, inr, Bool-cases,
}
use libcymo.Tree.{OrderedTree}
use libcymo.Reminder.{TimerNode}
use libcymo.Pipe.{PipeNode}
use libcymo.Loop.{ClockType, CymoMode, at_clock, Loop}
use libcymo.Loop.Settings.{
  advance, cymo_get_datetime, cymo_set_datetime, cymo_set_exchange_datetime,
}

-- A call that sets a clock, and calls in a row.
pub data Setting : Type 0 where
  local_to exchange_to : ℕ → Setting

mode_cases : (m : CymoMode) → (m ≡ CymoMode.simulator) ⊎ (m ≡ CymoMode.realtime)
mode_cases CymoMode.simulator = inl refl
mode_cases CymoMode.realtime = inr refl

-- The later of two times.
unfoldable pub later : ℕ → ℕ → ℕ
later a b = if ltb b a then a else b

-- The latest of the times that are set for a clock and of `t`.
unfoldable pub latest : ClockType → List Setting → ℕ → ℕ
latest c [] t = t
latest ClockType.local_clock (Setting.local_to a ∷ l) t = latest ClockType.local_clock l (later t a)
latest ClockType.local_clock (Setting.exchange_to a ∷ l) t = latest ClockType.local_clock l t
latest ClockType.exchange_clock (Setting.local_to a ∷ l) t = latest ClockType.exchange_clock l t
latest ClockType.exchange_clock (Setting.exchange_to a ∷ l) t =
    latest ClockType.exchange_clock l (later t a)

module _ (timers : OrderedTree TimerNode) (pipes : OrderedTree PipeNode) where
  unfoldable pub set_one : Setting → Loop timers pipes → Loop timers pipes
  set_one (Setting.local_to t) loop = cymo_set_datetime timers pipes t loop
  set_one (Setting.exchange_to t) loop = cymo_set_exchange_datetime timers pipes t loop

  unfoldable pub set_all : List Setting → Loop timers pipes → Loop timers pipes
  set_all [] loop = loop
  set_all (s ∷ l) loop = set_all l (set_one s loop)

  set_local :
      (t : ℕ) (loop : Loop timers pipes)
      → loop.mode ≡ CymoMode.simulator
      → set_one (Setting.local_to t) loop ≡ advance timers pipes ClockType.local_clock t loop
  unfolding set_one cymo_set_datetime
  set_local t loop m = rw m refl

  set_exchange :
      (t : ℕ) (loop : Loop timers pipes)
      → set_one (Setting.exchange_to t) loop ≡ advance timers pipes ClockType.exchange_clock t loop
  unfolding set_one cymo_set_exchange_datetime
  set_exchange t loop = refl

  advance-at_clock :
      (c : ClockType) (t : ℕ) (loop : Loop timers pipes)
      → ((advance timers pipes c t loop).mode ≡ loop.mode)
        × ((d : ClockType)
            → (advance timers pipes c t loop).clock_datetime d
              ≡ at_clock loop.clock_datetime c (later (loop.clock_datetime c) t) d)
  unfolding advance later
  advance-at_clock c t loop = elim (Bool-cases (ltb t (loop.clock_datetime c))) [
    | inl early ↦ rw early (refl, same c)
    | inr on_time ↦ rw on_time (refl, λ d. refl)
  ]
    where
      same :
          (c d : ClockType)
          → loop.clock_datetime d ≡ at_clock loop.clock_datetime c (loop.clock_datetime c) d
      same ClockType.local_clock ClockType.local_clock = refl
      same ClockType.local_clock ClockType.exchange_clock = refl
      same ClockType.exchange_clock ClockType.local_clock = refl
      same ClockType.exchange_clock ClockType.exchange_clock = refl

  -- In the simulator's mode, after any calls that set the clocks, each clock shows the latest time
  -- that it was set to, or its first one if that is later: neither ever goes back.
  pub clocks_latest :
      (l : List Setting) (loop : Loop timers pipes) (c : ClockType)
      → loop.mode ≡ CymoMode.simulator
      → (set_all l loop).clock_datetime c ≡ latest c l (loop.clock_datetime c)
  unfolding set_all latest
  clocks_latest [] loop c m = refl
  clocks_latest (Setting.local_to t ∷ l) loop ClockType.local_clock m =
      let (mode, clock) = advance-at_clock ClockType.local_clock t loop in
      rw (set_local t loop m, set_all)
        (clocks_latest l _ ClockType.local_clock (mode ∙ m)
          ∙ ap (latest ClockType.local_clock l) (clock ClockType.local_clock))
  clocks_latest (Setting.local_to t ∷ l) loop ClockType.exchange_clock m =
      let (mode, clock) = advance-at_clock ClockType.local_clock t loop in
      rw (set_local t loop m, set_all)
        (clocks_latest l _ ClockType.exchange_clock (mode ∙ m)
          ∙ ap (latest ClockType.exchange_clock l) (clock ClockType.exchange_clock))
  clocks_latest (Setting.exchange_to t ∷ l) loop ClockType.local_clock m =
      let (mode, clock) = advance-at_clock ClockType.exchange_clock t loop in
      rw (set_exchange t loop, set_all)
        (clocks_latest l _ ClockType.local_clock (mode ∙ m)
          ∙ ap (latest ClockType.local_clock l) (clock ClockType.local_clock))
  clocks_latest (Setting.exchange_to t ∷ l) loop ClockType.exchange_clock m =
      let (mode, clock) = advance-at_clock ClockType.exchange_clock t loop in
      rw (set_exchange t loop, set_all)
        (clocks_latest l _ ClockType.exchange_clock (mode ∙ m)
          ∙ ap (latest ClockType.exchange_clock l) (clock ClockType.exchange_clock))

  -- `cymo_set_datetime` never changes what `cymo_get_datetime` returns, in either mode.
  pub set_datetime_unseen :
      (now t : ℕ) (loop : Loop timers pipes)
      → cymo_get_datetime timers pipes now (cymo_set_datetime timers pipes t loop)
        ≡ cymo_get_datetime timers pipes now loop
  unfolding cymo_get_datetime cymo_set_datetime advance
  set_datetime_unseen now t loop = elim (mode_cases loop.mode) [
    | inl sim ↦ elim (Bool-cases (ltb t (loop.clock_datetime ClockType.local_clock))) [
      | inl early ↦ rw (sim, early) refl
      | inr on_time ↦ rw (sim, on_time) refl
    ]
    | inr real ↦ rw real refl
  ]
