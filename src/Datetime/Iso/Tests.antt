-- ===== src/Datetime/Iso/Tests.antt =====
-- Runs of `datetime_format` and `datetime_from_iso8601`.
use libcymo.Common.{
  ◌%◌, ◌↔◌, ◌+◌, ◌-◌, ◌<◌, ◌≢◌, ◌↔◌, arith, length, ℕ, List, [], ◌∷◌, ◌++◌, ◌≡◌, refl,
}
use libcymo.Common.Int.{pos}
use libcymo.Datetime.Calendar.{
  ticks_per_second, leap_year, month_days, finish_ymd, shifted_day, march_year, march_day,
  rdn_to_ymd, yd_to_rdn, month_to_rdn, ymd_to_rdn, datetime_from_ymd,
}
use libcymo.Datetime.Clock.{datetime_from_hmsu}
use libcymo.Datetime.Iso.RoundTrip.{read_back, iso8601-format, iso8601-format_iff}
use libcymo.Datetime.Iso.Bounds.{precision_at, format_overruns}
use libcymo.Datetime.Iso.{
  ok, digit, parse_2d, parse_4d, parse_head, scan_digits, parse_digits, parse_fraction, parse_zone,
  head_ticks, datetime_from_iso8601, date_bytes, digits, fraction_bytes, offset_bytes, zone_bytes,
  dlen, timestamp_format_internal, precision_of, datetime_format,
}

iso : Unit {0}
unfolding leap_year month_days finish_ymd shifted_day march_year march_day rdn_to_ymd yd_to_rdn
    month_to_rdn ymd_to_rdn datetime_from_ymd datetime_from_hmsu digit parse_2d parse_4d parse_head
    scan_digits parse_digits parse_fraction parse_zone head_ticks datetime_from_iso8601 date_bytes
    digits fraction_bytes offset_bytes zone_bytes dlen timestamp_format_internal precision_of
    datetime_format
iso = tt

abbrev stamp : List ℕ
stamp =
    b'2' ∷ b'0' ∷ b'1' ∷ b'3' ∷ b'-' ∷ b'1' ∷ b'2' ∷ b'-' ∷ b'3' ∷ b'1' ∷ b'T' ∷ b'0' ∷ b'0' ∷ b':'
    ∷ b'0' ∷ b'0' ∷ b':' ∷ b'0' ∷ b'0' ∷ []

format_run : datetime_format 100 63_524_044_800_000_000 (pos 0) ≡ (stamp ++ b'Z' ∷ 0 ∷ [], 20)
unfolding iso
format_run = refl

iso8601-format_example :
    let written = (datetime_format 100 63_524_044_800_123_456 (pos 60)).0 in
    datetime_from_iso8601 written (length written - 1)
    ≡ ok (read_back 63_524_044_800_123_456 (pos 60))
iso8601-format_example =
    iso8601-format 100 63_524_044_800_123_456 (pos 60) (omega arith) (omega arith)
      (unfold dlen precision_of in omega arith)

format_overruns_example :
    (22 < length (datetime_format 22 63_524_044_800_000_000 (pos 60)).0)
    ↔ ((pos 60 ≢ pos 0) × (22 < dlen (precision_at 63_524_044_800_000_000) + 6))
format_overruns_example =
    format_overruns 22 63_524_044_800_000_000 (pos 60) (unfold dlen precision_of in omega arith)

iso8601-format_iff_example :
    let written = (datetime_format 100 63_524_044_800_123_456 (pos 60)).0 in
    (datetime_from_iso8601 written (length written - 1) ≡ ok 63_524_044_800_123_456)
    ↔ ((63_524_044_800_123_456 % ticks_per_second ≡ 0) × (pos 60 ≡ pos 0))
iso8601-format_iff_example =
    iso8601-format_iff 100 63_524_044_800_123_456 (pos 60) (omega arith) (omega arith)
      (unfold dlen precision_of in omega arith)
