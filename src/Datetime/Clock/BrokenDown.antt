-- ===== src/Datetime/Clock/BrokenDown.antt =====
-- src/cymo_datetime.c: `datetime_to_tm`, `datetime_from_timeval` and `datetime_now`.
use libcymo.Common.{
  ℕ, zero, suc, ◌+◌, ◌-◌, ◌*◌, ◌/◌, ◌%◌, ◌^◌, ◌≤◌, ◌<◌, ◌≡◌, ◌≢◌, refl, arith, u64, u32, none, some,
  false, ltb, lt→ltb, le→ltb, subst,
}
use libcymo.Common.Int.{pos, negsuc, sub_ℕ}
use libcymo.Datetime.Calendar.{ticks_per_second, ticks_per_day, rdn_to_ymd, datetime_from_ymd}
use libcymo.Datetime.Calendar.RoundTrip.{
  IsDate, month_start, day_number, last_rdn, day_number-le, ymd_to_rdn-eq, rdn_to_ymd-ymd_to_rdn,
}
use libcymo.Datetime.Clock.{
  epoch_date_time, datetime_from_hmsu, datetime_from_timeval, Tm, datetime_to_tm,
}
use libcymo.Datetime.Clock.Decode.{IsTime, day_ticks, from-eq, end_ticks}

-- The answer of `datetime_to_tm` for day `n`.
abbrev tm_of : ℕ → ℕ → ℕ → ℕ → Tm
tm_of n h mi s = record {
  tm_mday = (rdn_to_ymd n).day;
  tm_yday = sub_ℕ (rdn_to_ymd n).yday 1;
  tm_mon = sub_ℕ (rdn_to_ymd n).month 1;
  tm_year = sub_ℕ (rdn_to_ymd n).year 1900;
  tm_wday = n % 7;
  tm_sec = s;
  tm_min = mi;
  tm_hour = h;
}

-- Exactly the times before 1970 are refused.
pub datetime_to_tm-none : (dt : ℕ) → dt < epoch_date_time → datetime_to_tm dt ≡ none
unfolding datetime_to_tm
datetime_to_tm-none dt h = rw (lt→ltb dt (u64 (dt + 2 ^ 64 - epoch_date_time)) (omega arith))

datetime_to_tm-some :
    (n h mi s us : ℕ)
    → n ≤ last_rdn
    → IsTime h mi s us
    → epoch_date_time ≤ n * ticks_per_day + day_ticks h mi s us
    → datetime_to_tm (n * ticks_per_day + day_ticks h mi s us) ≡ some (tm_of n h mi s)
unfolding datetime_to_tm
datetime_to_tm-some n h mi s us k t e = rw (a, b, ep) (ground arith)
  where
    dt : ℕ
    dt = n * ticks_per_day + day_ticks h mi s us

    a : u32 (dt / ticks_per_day) ≡ n
    a = omega arith

    b : u32 (dt % ticks_per_day / ticks_per_second) ≡ h * 3600 + mi * 60 + s
    b = omega arith

    ep : ltb dt (u64 (dt + 2 ^ 64 - epoch_date_time)) ≡ false
    ep = le→ltb dt _ (omega arith)

-- From 1970 on each field of a date and a time is found, the year from 1900, the month and the day
-- of the year from 0, and the weekday as the day number modulo 7.
pub datetime_to_tm-from :
    (y m d h mi s us : ℕ)
    → IsDate y m d
    → IsTime h mi s us
    → 1970 ≤ y
    → datetime_to_tm (u64 (datetime_from_ymd y m d + datetime_from_hmsu h mi s us))
      ≡ some (record {
        tm_mday = d;
        tm_yday = pos (month_start y m + d - 1);
        tm_mon = pos (m - 1);
        tm_year = sub_ℕ y 1900;
        tm_wday = day_number y m d % 7;
        tm_sec = s;
        tm_min = mi;
        tm_hour = h;
      })
datetime_to_tm-from y m d h mi s us v t k =
    let back : rdn_to_ymd (day_number y m d)
        ≡ record { year = y; month = m; day = d; yday = month_start y m + d } =
      rw (ymd_to_rdn-eq v) at (rdn_to_ymd-ymd_to_rdn v) in
    rw
      (
        from-eq y m d h mi s us v t,
        datetime_to_tm-some _ h mi s us (day_number-le y m d v) t (omega arith),
        back,
      )
      (ground arith)

-- The day of the week of day `n`, from 0 for Sunday: 0001-01-01 is a Monday.
pub day_of_week : ℕ → ℕ
day_of_week zero = 1
day_of_week (suc n) = (day_of_week n + 1) % 7

day_of_week-eq : (n : ℕ) → day_of_week n ≡ (n + 1) % 7
unfolding day_of_week
day_of_week-eq zero = refl
day_of_week-eq (suc n) = omega (arith, day_of_week-eq n)

-- `tm_wday` is never the day of the week from 0 for Sunday: it is one day behind.
pub tm_wday-ne-day_of_week :
    (dt : ℕ)
    → epoch_date_time ≤ dt
    → dt < end_ticks
    → (tm : Tm) × (datetime_to_tm dt ≡ some tm)
      × ((tm.tm_wday + 1) % 7 ≡ day_of_week (dt / ticks_per_day))
      × (tm.tm_wday ≢ day_of_week (dt / ticks_per_day))
tm_wday-ne-day_of_week dt e k = (
  tm_of n (p / 3_600_000_000) (p / 60_000_000 % 60) (p / 1_000_000 % 60),
  subst
      (λ x.
        datetime_to_tm x
        ≡ some (tm_of n (p / 3_600_000_000) (p / 60_000_000 % 60) (p / 1_000_000 % 60)))
      whole
      (datetime_to_tm-some n (p / 3_600_000_000) (p / 60_000_000 % 60) (p / 1_000_000 % 60)
        (p % 1_000_000) (omega arith) (omega arith) (omega arith)),
  omega (arith, day_of_week-eq n),
  omega (arith, day_of_week-eq n),
)
  where
    n : ℕ
    n = dt / ticks_per_day

    p : ℕ
    p = dt % ticks_per_day

    whole :
        n * ticks_per_day
          + day_ticks (p / 3_600_000_000) (p / 60_000_000 % 60) (p / 1_000_000 % 60) (p % 1_000_000)
        ≡ dt
    whole = omega arith

-- A time of `struct timeval` from the epoch on is moved to the ticks since 0001-01-01.
pub from_timeval-pos :
    (s us : ℕ)
    → epoch_date_time + s * ticks_per_second + us < 2 ^ 64
    → datetime_from_timeval (pos s) (pos us) ≡ epoch_date_time + s * ticks_per_second + us
unfolding datetime_from_timeval
from_timeval-pos s us h = omega arith

-- A time of `struct timeval` before the epoch, with a negative `tv_sec`, is moved to the ticks since
-- 0001-01-01, though the arithmetic on `uint64_t` wraps around on the way.
pub from_timeval-negsuc :
    (n us : ℕ)
    → us < ticks_per_second
    → (n + 1) * ticks_per_second ≤ epoch_date_time
    → datetime_from_timeval (negsuc n) (pos us) + (n + 1) * ticks_per_second ≡ epoch_date_time + us
unfolding datetime_from_timeval
from_timeval-negsuc n us h k = omega arith
