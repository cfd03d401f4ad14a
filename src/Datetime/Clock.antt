-- ===== src/Datetime/Clock.antt =====
-- src/cymo_datetime.c, the time of day, `struct tm` and `struct timeval`; the constants are those of
-- include/cymo.h.
pub mod Decode
pub mod BrokenDown
pub mod Order
use libcymo.Common.{
  ℕ, ◌+◌, ◌-◌, ◌*◌, ◌/◌, ◌%◌, ◌^◌, Option, none, some, u16, u32, u64, ltb, if◌then◌else◌,
}
use libcymo.Common.Int.{ℤ, pos, negsuc, sub_ℕ}
use libcymo.Datetime.Calendar.{ticks_per_second, ticks_per_day, Ymd, rdn_to_ymd}

abbrev pub epoch_date_time : ℕ
epoch_date_time = 62_135_596_800_000_000

abbrev pub min_date_time : ℕ
min_date_time = 0

abbrev pub max_date_time : ℕ
max_date_time = 315_537_897_599_999_999

unfoldable pub datetime_from_hmsu : ℕ → ℕ → ℕ → ℕ → ℕ
datetime_from_hmsu hour minute second usec =
    let total_seconds = u64 (hour * 3600 + minute * 60 + second) in
    u64 (total_seconds * ticks_per_second + usec)

-- What `datetime_decode` writes through its seven pointers.
pub record Fields : Type 0 where
  pub year : ℕ
  pub month : ℕ
  pub day : ℕ
  pub hour : ℕ
  pub minute : ℕ
  pub second : ℕ
  pub usec : ℕ

unfoldable pub datetime_decode : ℕ → Fields
datetime_decode dt =
    let t = rdn_to_ymd (u32 (dt / ticks_per_day)) in
    let perday = dt % ticks_per_day in
    let sod = u32 (perday / ticks_per_second) in
    record {
      year = t.year;
      month = t.month;
      day = t.day;
      hour = u16 (sod / 60 / 60);
      minute = u16 (sod / 60 % 60);
      second = u16 (sod % 60);
      usec = u32 (perday % ticks_per_second);
    }

-- A signed 64-bit number converted to `uint64_t`.
abbrev pub to_u64 : ℤ → ℕ
to_u64 (pos n) = u64 n
to_u64 (negsuc n) = 2 ^ 64 - 1 - u64 n

-- The fields `tv_sec` and `tv_usec` are signed.
unfoldable pub datetime_from_timeval : ℤ → ℤ → ℕ
datetime_from_timeval tv_sec tv_usec =
    let epoch_ticks = u64 (u64 (to_u64 tv_sec * ticks_per_second) + to_u64 tv_usec) in
    u64 (epoch_ticks + epoch_date_time)

-- The arguments are what `gettimeofday` stores.
unfoldable pub datetime_now : ℤ → ℤ → ℕ
datetime_now tv_sec tv_usec =
    u64 (u64 (u64 (to_u64 tv_sec * ticks_per_second) + to_u64 tv_usec) + epoch_date_time)

-- The fields of `struct tm` that are set, all of type `int`.
pub record Tm : Type 0 where
  pub tm_mday : ℕ
  pub tm_yday : ℤ
  pub tm_mon : ℤ
  pub tm_year : ℤ
  pub tm_wday : ℕ
  pub tm_sec : ℕ
  pub tm_min : ℕ
  pub tm_hour : ℕ

-- `none` is the return value 1, for a time before 1970: then `dt - EPOCH_DATE_TIME` wraps.
unfoldable pub datetime_to_tm : ℕ → Option Tm
datetime_to_tm dt =
    let rdn = u32 (dt / ticks_per_day) in
    let sod = u32 (dt % ticks_per_day / ticks_per_second) in
    let t = rdn_to_ymd rdn in
    if ltb dt (u64 (dt + 2 ^ 64 - epoch_date_time))
    then none
    else some (record {
      tm_mday = t.day;
      tm_yday = sub_ℕ t.yday 1;
      tm_mon = sub_ℕ t.month 1;
      tm_year = sub_ℕ t.year 1900;
      tm_wday = rdn % 7;
      tm_sec = sod % 60;
      tm_min = sod / 60 % 60;
      tm_hour = sod / 60 / 60;
    })
