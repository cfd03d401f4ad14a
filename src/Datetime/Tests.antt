-- ===== src/Datetime/Tests.antt =====
-- src/cymo_datetime.c: dates and times at concrete values.
use libcymo.Common.{◌<◌, ◌↔◌, ◌+◌, ◌*◌, ◌-◌, ◌%◌, ◌≡◌, arith, u64, none, some}
use libcymo.Common.Int.{pos, sub_ℕ}
use libcymo.Datetime.Calendar.{
  leap_year, month_days, ticks_per_second, rdn_to_ymd, ymd_to_rdn, datetime_from_ymd,
}
use libcymo.Datetime.Calendar.RoundTrip.{IsDate, month_start, day_number}
use libcymo.Datetime.Calendar.Days.{date, date_of, rdn_to_ymd-date_of}
use libcymo.Datetime.Clock.{
  epoch_date_time, datetime_from_hmsu, datetime_decode, datetime_from_timeval, datetime_to_tm,
}
use libcymo.Datetime.Clock.Decode.{IsTime, encode_fields, encode-decode, IsMoment, decode-IsMoment}
use libcymo.Datetime.Clock.Order.{IsBefore, listed, decode-IsBefore}
use libcymo.Datetime.Clock.BrokenDown.{datetime_to_tm-none, datetime_to_tm-from, from_timeval-pos}

-- The last day of February of a leap year, and a time on it.
leap_day : IsDate 2024 2 29
leap_day = unfold month_days leap_year in omega arith

noon : IsTime 12 34 56 789
noon = omega arith

rdn_to_ymd-date_of_example :
    (date (rdn_to_ymd 738_944).year (rdn_to_ymd 738_944).month (rdn_to_ymd 738_944).day
      ≡ date_of 738_944)
    × (ymd_to_rdn (rdn_to_ymd 738_944).year (rdn_to_ymd 738_944).month (rdn_to_ymd 738_944).day
        ≡ 738_944)
rdn_to_ymd-date_of_example = rdn_to_ymd-date_of 738_944 (omega arith)

encode-decode_example :
    encode_fields (datetime_decode 63_524_044_800_000_789) ≡ 63_524_044_800_000_789
encode-decode_example = encode-decode 63_524_044_800_000_789 (omega arith)

datetime_to_tm-none_example : datetime_to_tm 7 ≡ none
datetime_to_tm-none_example = datetime_to_tm-none 7 (omega arith)

datetime_to_tm-from_example :
    datetime_to_tm (u64 (datetime_from_ymd 2024 2 29 + datetime_from_hmsu 12 34 56 789))
    ≡ some (record {
      tm_mday = 29;
      tm_yday = pos (month_start 2024 2 + 29 - 1);
      tm_mon = pos (2 - 1);
      tm_year = sub_ℕ 2024 1900;
      tm_wday = day_number 2024 2 29 % 7;
      tm_sec = 56;
      tm_min = 34;
      tm_hour = 12;
    })
datetime_to_tm-from_example = datetime_to_tm-from 2024 2 29 12 34 56 789 leap_day noon (omega arith)

from_timeval-pos_example :
    datetime_from_timeval (pos 1_700_000_000) (pos 5)
    ≡ epoch_date_time + 1_700_000_000 * ticks_per_second + 5
from_timeval-pos_example = from_timeval-pos 1_700_000_000 5 (omega arith)

decode-IsMoment_example : IsMoment (datetime_decode 63_845_000_000_000_123)
decode-IsMoment_example = decode-IsMoment 63_845_000_000_000_123 (omega arith)

decode-IsBefore_example :
    (63_845_000_000_000_123 < 63_845_000_000_000_124)
    ↔ IsBefore
        (listed (datetime_decode 63_845_000_000_000_123))
        (listed (datetime_decode 63_845_000_000_000_124))
decode-IsBefore_example =
    decode-IsBefore 63_845_000_000_000_123 63_845_000_000_000_124 (omega arith) (omega arith)
