-- ===== src/Datetime/Iso/Accept.antt =====
-- src/cymo_datetime.c: what text `datetime_from_iso8601` accepts, and what times it makes of it.
use libcymo.Common.{ℕ, ◌+◌, ◌-◌, ◌*◌, ◌^◌, ◌≤◌, ◌<◌, ◌≡◌, ◌⊎◌, u64}
use libcymo.Datetime.Calendar.{ticks_per_second}
use libcymo.Datetime.Clock.{Fields}
use libcymo.Datetime.Clock.Decode.{encode_fields, IsMoment}

-- The times of a calendar date with a time of day, less an offset of `m` minutes or more by it.
abbrev pub IsMomentLess : ℕ → Type 0
IsMomentLess dt =
    (f : Fields) × (m : ℕ) × IsMoment f
    × (f.year ≤ 9999)
    × (m < 1440)
    × ((dt ≡ u64 (encode_fields f + 2 ^ 64 - m * 60 * ticks_per_second))
        ⊎ (dt ≡ u64 (encode_fields f + m * 60 * ticks_per_second)))
