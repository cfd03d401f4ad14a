-- ===== src/Datetime/Clock/Decode.antt =====
-- src/cymo_datetime.c: `datetime_decode` against `datetime_from_ymd` and `datetime_from_hmsu`.
use libcymo.Common.{ℕ, ◌+◌, ◌*◌, ◌/◌, ◌%◌, ◌^◌, ◌≤◌, ◌<◌, ◌≡◌, sym, subst, arith, u64}
use libcymo.Datetime.Calendar.{ticks_per_second, ticks_per_day, rdn_to_ymd, datetime_from_ymd}
use libcymo.Datetime.Calendar.RoundTrip.{
  IsDate, month_start, day_number, ymd_to_rdn-eq, last_rdn, day_number-le, rdn_to_ymd-ymd_to_rdn,
}
use libcymo.Datetime.Calendar.Days.{date_of-IsDay, rdn_to_ymd-date_of, IsDay}
use libcymo.Datetime.Clock.{datetime_from_hmsu, Fields, datetime_decode}

-- A time of day.
pub record IsTime (h mi s us : ℕ) : Type 0 where
  pub hour_in : h < 24
  pub minute_in : mi < 60
  pub second_in : s < 60
  pub usec_in : us < ticks_per_second

-- The ticks of a time of day, below a day.
abbrev pub day_ticks : ℕ → ℕ → ℕ → ℕ → ℕ
day_ticks h mi s us = (h * 3600 + mi * 60 + s) * 1_000_000 + us

pub from_hmsu-eq :
    (h mi s us : ℕ) → IsTime h mi s us → datetime_from_hmsu h mi s us ≡ day_ticks h mi s us
unfolding datetime_from_hmsu
from_hmsu-eq h mi s us v = omega arith

pub from_ymd-eq :
    (y m d : ℕ) → IsDate y m d → datetime_from_ymd y m d ≡ day_number y m d * ticks_per_day
unfolding datetime_from_ymd
from_ymd-eq y m d v = rw (ymd_to_rdn-eq v) (omega (arith, day_number-le y m d v))

-- The ticks of day `n` and a time of day, taken apart again.
ticks_parts :
    (n h mi s us : ℕ)
    → n ≤ last_rdn
    → IsTime h mi s us
    → let dt = n * ticks_per_day + day_ticks h mi s us in
      (dt < 2 ^ 64)
      × (dt / ticks_per_day ≡ n)
      × (dt % ticks_per_day / ticks_per_second ≡ h * 3600 + mi * 60 + s)
      × (dt % ticks_per_day % ticks_per_second ≡ us)
ticks_parts n h mi s us k t = omega arith

-- `datetime_decode` of the ticks of day `n`: the date of the day, and the time.
decode_lem :
    (n h mi s us : ℕ)
    → n ≤ last_rdn
    → IsTime h mi s us
    → let t = rdn_to_ymd n in
      datetime_decode (n * ticks_per_day + day_ticks h mi s us) ≡ record {
        year = t.year;
        month = t.month;
        day = t.day;
        hour = h;
        minute = mi;
        second = s;
        usec = us;
      }
unfolding datetime_decode
decode_lem n h mi s us k t =
    let (small, a, b, c) = ticks_parts n h mi s us k t in
    let word : n % 2 ^ 32 ≡ n = omega arith in rw (a, b, c, word) (ground arith)

-- The two conversions of a date and of a time add up to the ticks since 0001-01-01.
pub from-eq :
    (y m d h mi s us : ℕ)
    → IsDate y m d
    → IsTime h mi s us
    → u64 (datetime_from_ymd y m d + datetime_from_hmsu h mi s us)
      ≡ day_number y m d * ticks_per_day + day_ticks h mi s us
from-eq y m d h mi s us v t =
    rw (from_ymd-eq y m d v, from_hmsu-eq h mi s us t)
      (omega (arith, (ticks_parts (day_number y m d) h mi s us (day_number-le y m d v) t).0))

-- The fields of a valid date and time come back from decoding their sum.
pub decode-from :
    (y m d h mi s us : ℕ)
    → IsDate y m d
    → IsTime h mi s us
    → datetime_decode (u64 (datetime_from_ymd y m d + datetime_from_hmsu h mi s us))
      ≡ record { year = y; month = m; day = d; hour = h; minute = mi; second = s; usec = us }
decode-from y m d h mi s us v t =
    let back : rdn_to_ymd (day_number y m d)
        ≡ record { year = y; month = m; day = d; yday = month_start y m + d } =
      rw (ymd_to_rdn-eq v) at (rdn_to_ymd-ymd_to_rdn v) in
    rw (from-eq y m d h mi s us v t, decode_lem _ h mi s us (day_number-le y m d v) t, back)

-- The end of the year 65535.
abbrev pub end_ticks : ℕ
end_ticks = (last_rdn + 1) * ticks_per_day

unfoldable pub encode_fields : Fields → ℕ
encode_fields f =
    u64
      (datetime_from_ymd f.year f.month f.day + datetime_from_hmsu f.hour f.minute f.second f.usec)

-- The date of day `n`, as a valid date.
pub rdn_to_ymd-IsDate :
    (n : ℕ)
    → n ≤ last_rdn
    → let t = rdn_to_ymd n in IsDate t.year t.month t.day × (day_number t.year t.month t.day ≡ n)
rdn_to_ymd-IsDate n k = subst (IsDay n) (sym (rdn_to_ymd-date_of n k).0) (date_of-IsDay n k)

encode_lem :
    (n h mi s us : ℕ)
    → n ≤ last_rdn
    → IsTime h mi s us
    → let dt = n * ticks_per_day + day_ticks h mi s us in encode_fields (datetime_decode dt) ≡ dt
unfolding encode_fields
encode_lem n h mi s us k t =
    let (v, r) = rdn_to_ymd-IsDate n k in
    rw (decode_lem n h mi s us k t, from-eq _ _ _ h mi s us v t) (omega (arith, r))

-- The time of day of `dt`, taken apart.
module _ (dt : ℕ) where
  abbrev rest_of_day : ℕ
  rest_of_day = dt % ticks_per_day

  whole :
      dt / ticks_per_day * ticks_per_day
        + day_ticks
            (rest_of_day / 3_600_000_000)
            (rest_of_day / 60_000_000 % 60)
            (rest_of_day / 1_000_000 % 60)
            (rest_of_day % 1_000_000)
      ≡ dt
  whole = omega arith

  rest_of_day-IsTime :
      IsTime
        (rest_of_day / 3_600_000_000)
        (rest_of_day / 60_000_000 % 60)
        (rest_of_day / 1_000_000 % 60)
        (rest_of_day % 1_000_000)
  rest_of_day-IsTime = omega arith

-- Encoding what `datetime_decode` finds gives the time back, up to the end of the year 65535.
pub encode-decode : (dt : ℕ) → dt < end_ticks → encode_fields (datetime_decode dt) ≡ dt
encode-decode dt k =
    subst (λ x. encode_fields (datetime_decode x) ≡ x) (whole dt)
      (encode_lem (dt / ticks_per_day) _ _ _ _ (omega arith) (rest_of_day-IsTime dt))

-- A date with a time of day.
abbrev pub IsMoment : Fields → Type 0
IsMoment f = IsDate f.year f.month f.day × IsTime f.hour f.minute f.second f.usec

-- What `datetime_decode` finds is a date of the calendar and a time of a day, up to the end of the
-- year 65535.
pub decode-IsMoment : (dt : ℕ) → dt < end_ticks → IsMoment (datetime_decode dt)
decode-IsMoment dt k =
    let t = rest_of_day-IsTime dt in
    let n_in : dt / ticks_per_day ≤ last_rdn = omega arith in
    subst (λ x. IsMoment (datetime_decode x)) (whole dt)
      (rw (decode_lem (dt / ticks_per_day) _ _ _ _ n_in t)
        ((rdn_to_ymd-IsDate (dt / ticks_per_day) n_in).0, t))
