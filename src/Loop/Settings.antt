-- ===== src/Loop/Settings.antt =====
-- src/cymo_loop.c: the clocks and the flags of the loop, read and set.
use libcymo.Common.{ℕ, ltb, if◌then◌else◌}
use libcymo.Common.Int.{ℤ}
use libcymo.Tree.{OrderedTree}
use libcymo.Reminder.{TimerNode}
use libcymo.Pipe.{PipeNode}
use libcymo.Loop.{ClockType, CymoMode, at_clock, Loop}

module _ (timers : OrderedTree TimerNode) (pipes : OrderedTree PipeNode) where
  unfoldable pub cymo_get_clear_reminders : Loop timers pipes → ℤ
  cymo_get_clear_reminders loop = loop.clear_reminders

  unfoldable pub cymo_set_clear_reminders : ℤ → Loop timers pipes → Loop timers pipes
  cymo_set_clear_reminders flag loop = record loop { clear_reminders = flag }

  unfoldable pub cymo_get_show_warnings : Loop timers pipes → ℤ
  cymo_get_show_warnings loop = loop.show_warnings

  unfoldable pub cymo_set_show_warnings : ℤ → Loop timers pipes → Loop timers pipes
  cymo_set_show_warnings flag loop = record loop { show_warnings = flag }

  -- `now` is what `datetime_now` returns.
  unfoldable pub cymo_get_datetime : ℕ → Loop timers pipes → ℕ
  cymo_get_datetime now loop = elim loop.mode [
    | CymoMode.realtime ↦ loop.clock_datetime ClockType.local_clock
    | CymoMode.simulator ↦ now
  ]

  -- A clock set to a time that is not before its own.
  unfoldable pub advance : ClockType → ℕ → Loop timers pipes → Loop timers pipes
  advance c time loop =
      if ltb time (loop.clock_datetime c)
      then loop
      else record loop { clock_datetime = at_clock loop.clock_datetime c time }

  unfoldable pub cymo_set_datetime : ℕ → Loop timers pipes → Loop timers pipes
  cymo_set_datetime time loop = elim loop.mode [
    | CymoMode.realtime ↦ loop
    | CymoMode.simulator ↦ advance ClockType.local_clock time loop
  ]

  unfoldable pub cymo_get_exchange_datetime : Loop timers pipes → ℕ
  cymo_get_exchange_datetime loop = loop.clock_datetime ClockType.exchange_clock

  unfoldable pub cymo_set_exchange_datetime : ℕ → Loop timers pipes → Loop timers pipes
  cymo_set_exchange_datetime time loop = advance ClockType.exchange_clock time loop
