-- ===== src/Datetime/Windows.antt =====
-- src/cymo_datetime.c: `gettimeofday`, `_gettimezone` and `get_timezone_offset`, as they are written for
-- Windows, where a `long` has 32 bits. What GetSystemTimeAsFileTime and GetTimeZoneInformation store
-- and return is an argument.
use libcymo.Common.{
  ℕ, ◌+◌, ◌-◌, ◌*◌, ◌/◌, ◌%◌, ◌^◌, ◌≤◌, ◌<◌, ◌≡◌, refl, ap, ◌∙◌, arith, ltb, Bool-cases, inl, inr,
  if◌then◌else◌, u64,
}
use libcymo.Common.Int.{
  ℤ, pos, negsuc, ◌+ℤ◌, ◌-ℤ◌, eq_of_parts, int_laws, to_i32, to_i32-pos, to_i32-negsuc,
}
use libcymo.Datetime.Calendar.{
  ymd_to_rdn, month_to_rdn, yd_to_rdn, leap_year, datetime_from_ymd, ticks_per_second,
}
use libcymo.Datetime.Clock.{datetime_now}
use libcymo.Datetime.Zone

-- FILETIME; both fields have 32 bits.
pub record FileTime : Type 0 where
  pub low : ℕ
  pub high : ℕ

-- The intervals of 100 ns since 1601; the two fields do not overlap, so that `|` is `+`.
abbrev pub intervals_of : FileTime → ℕ
intervals_of ft = ft.high * 2 ^ 32 + ft.low

-- The intervals of 100 ns from 1601 to 1970.
abbrev pub epoch_intervals : ℕ
epoch_intervals = 116_444_736_000_000_000

-- The fields `tv_sec` and `tv_usec`.
unfoldable pub gettimeofday : FileTime → ℤ × ℤ
gettimeofday ft =
    let intervals = u64 (intervals_of ft + 2 ^ 64 - epoch_intervals) in
    (to_i32 (intervals / 10_000_000), to_i32 (intervals % 10_000_000 / 10))

pub data ZoneId : Type 0 where
  unknown standard daylight invalid : ZoneId

-- TIME_ZONE_INFORMATION, in minutes west of UTC.
pub record ZoneInformation : Type 0 where
  pub bias : ℤ
  pub standard_bias : ℤ
  pub daylight_bias : ℤ

unfoldable pub gettimezone : ZoneId → ZoneInformation → ℤ
gettimezone ZoneId.unknown tz = pos 0 -ℤ tz.bias
gettimezone ZoneId.standard tz = pos 0 -ℤ (tz.bias +ℤ tz.standard_bias)
gettimezone ZoneId.daylight tz = pos 0 -ℤ (tz.bias +ℤ tz.daylight_bias)
gettimezone ZoneId.invalid tz = pos 0

abbrev pub times_60 : ℤ → ℤ
times_60 (pos n) = pos (n * 60)
times_60 (negsuc n) = negsuc (n * 60 + 59)

unfoldable pub get_timezone_offset : ZoneId → ZoneInformation → ℤ
get_timezone_offset id tz = times_60 (gettimezone id tz)

start_1601 : datetime_from_ymd 1601 1 1 ≡ 50_491_123_200_000_000
unfolding datetime_from_ymd ymd_to_rdn month_to_rdn yd_to_rdn leap_year
start_1601 = refl

-- The seconds as a `long`, and then the microseconds.
now-early :
    (s us : ℕ)
    → s < 2 ^ 31
    → us < ticks_per_second
    → datetime_now (to_i32 s) (to_i32 us) ≡ 62_135_596_800_000_000 + s * ticks_per_second + us
unfolding datetime_now
now-early s us h k = rw (to_i32-pos s h, to_i32-pos us (omega arith)) (omega arith)

now-late :
    (s us : ℕ)
    → 2 ^ 31 ≤ s
    → s < 2 ^ 32
    → us < ticks_per_second
    → datetime_now (to_i32 s) (to_i32 us) + 2 ^ 32 * ticks_per_second
      ≡ 62_135_596_800_000_000 + s * ticks_per_second + us
unfolding datetime_now
now-late s us h h' k = rw (to_i32-negsuc s h h', to_i32-pos us (omega arith)) (omega arith)

module _ (ft : FileTime) (low : ft.low < 2 ^ 32) (high : ft.high < 2 ^ 32)
    (from_epoch : epoch_intervals ≤ intervals_of ft) where
  -- On Windows `datetime_now` counts the microseconds of the file time from 1601-01-01 on, from 1970
  -- until the seconds no longer fit in a `long` of 32 bits, in January 2038; from then on, and for as
  -- long again, it is 2 ^ 32 seconds behind.
  pub now-gettimeofday :
      intervals_of ft < epoch_intervals + 2 ^ 32 * 10_000_000
      → let tv = gettimeofday ft in
        datetime_now tv.0 tv.1
          + (if ltb (intervals_of ft) (epoch_intervals + 2 ^ 31 * 10_000_000)
              then 0
              else 2 ^ 32 * ticks_per_second)
        ≡ datetime_from_ymd 1601 1 1 + intervals_of ft / 10
  unfolding gettimeofday
  now-gettimeofday bound =
      let n : ℕ = intervals_of ft in
      let i : ℕ = u64 (n + 2 ^ 64 - epoch_intervals) in
      let moved : i ≡ n - epoch_intervals = omega arith in
      let us_in : i % 10_000_000 / 10 < ticks_per_second = omega arith in
      elim (Bool-cases (ltb n (epoch_intervals + 2 ^ 31 * 10_000_000))) [
        | inl early ↦
            rw
              (
                early,
                start_1601,
                now-early (i / 10_000_000) (i % 10_000_000 / 10) (ground (arith, early, moved))
                    us_in,
              )
              (omega (arith, moved))
        | inr late ↦
            rw (late, start_1601)
              (now-late (i / 10_000_000) (i % 10_000_000 / 10) (ground (arith, late, moved))
                  (omega (arith, moved)) us_in
                ∙ omega (arith, moved))
      ]

negated_twice : (m : ℤ) → pos 0 -ℤ (pos 0 -ℤ m) ≡ m
negated_twice m = eq_of_parts _ _ (omega int_laws)

-- The offset of a zone that is `m` minutes east of UTC: minutes on Linux, as the header says, but
-- seconds on Windows.
pub get_timezone_offset-units :
    (m : ℤ) (standard_bias daylight_bias : ℤ)
    → (Zone.get_timezone_offset (times_60 m) ≡ m)
      × (get_timezone_offset ZoneId.unknown (record {
        bias = pos 0 -ℤ m;
        standard_bias = standard_bias;
        daylight_bias = daylight_bias;
      })
          ≡ times_60 m)
unfolding Zone.get_timezone_offset get_timezone_offset gettimezone ◌-ℤ◌
get_timezone_offset-units (pos n) s d = (ap pos (omega arith), ap times_60 (negated_twice (pos n)))
get_timezone_offset-units (negsuc n) s d = (ground arith, ap times_60 (negated_twice (negsuc n)))
