-- ===== src/Datetime/Calendar.antt =====
-- src/cymo_datetime.c, the conversions between a date and its day number (rdn: 0 is 0001-01-01).
-- A `uint16_t` or `uint32_t` is a number below its modulus, and each wrap is written out.
pub mod March
pub mod RoundTrip
pub mod Days
use libcymo.Common.{
  ℕ, ◌+◌, ◌-◌, ◌*◌, ◌/◌, ◌%◌, ◌^◌, Bool, not, ◌&&◌, ◌||◌, List, [], ◌∷◌, get_or, u16, u32, u64, ltb,
  ◌==◌, if◌then◌else◌,
}

abbrev pub ticks_per_second : ℕ
ticks_per_second = 1_000_000

abbrev pub ticks_per_day : ℕ
ticks_per_day = 86_400_000_000

abbrev pub days_preceding_month : Bool → List ℕ
days_preceding_month leap =
    if leap
    then 0 ∷ 0 ∷ 31 ∷ 60 ∷ 91 ∷ 121 ∷ 152 ∷ 182 ∷ 213 ∷ 244 ∷ 274 ∷ 305 ∷ 335 ∷ []
    else 0 ∷ 0 ∷ 31 ∷ 59 ∷ 90 ∷ 120 ∷ 151 ∷ 181 ∷ 212 ∷ 243 ∷ 273 ∷ 304 ∷ 334 ∷ []

abbrev pub day_offset : List ℕ
day_offset = 0 ∷ 306 ∷ 337 ∷ 0 ∷ 31 ∷ 61 ∷ 92 ∷ 122 ∷ 153 ∷ 184 ∷ 214 ∷ 245 ∷ 275 ∷ []

-- `y & 3` is `y % 4`.
unfoldable pub leap_year : ℕ → Bool
leap_year y = (y % 4 == 0) && (not (y % 100 == 0) || (y % 400 == 0))

abbrev pub days : Bool → List ℕ
days leap =
    if leap
    then 0 ∷ 31 ∷ 29 ∷ 31 ∷ 30 ∷ 31 ∷ 30 ∷ 31 ∷ 31 ∷ 30 ∷ 31 ∷ 30 ∷ 31 ∷ []
    else 0 ∷ 31 ∷ 28 ∷ 31 ∷ 30 ∷ 31 ∷ 30 ∷ 31 ∷ 31 ∷ 30 ∷ 31 ∷ 30 ∷ 31 ∷ []

-- The table is read at `m` from 1 to 12 only.
unfoldable pub month_days : ℕ → ℕ → ℕ
month_days y m = get_or (days ((m == 2) && leap_year y)) m 0

-- What `rdn_to_ymd` writes through its four pointers.
pub record Ymd : Type 0 where
  pub year : ℕ
  pub month : ℕ
  pub day : ℕ
  pub yday : ℕ

-- The end of `rdn_to_ymd`, from the year `y`, the month `m` (up to 14) and the day `d` counted from
-- March 1st.
unfoldable pub finish_ymd : ℕ → ℕ → ℕ → Ymd
finish_ymd y m d =
    if ltb 12 m
    then record {
      year = u16 (y + 1);
      month = m - 12;
      day = u16 (d + 2 ^ 16 - get_or day_offset (m - 12) 0);
      yday = u16 (d + 2 ^ 16 - 306);
    }
    else record {
      year = y;
      month = m;
      day = u16 (d + 2 ^ 16 - get_or day_offset m 0);
      yday = u16 (d + 59 + (if leap_year y then 1 else 0));
    }

unfoldable pub shifted_day : ℕ → ℕ
shifted_day rdn = u32 (u32 (rdn + 1) + 306)

-- `H`, 100 times the days since March 1st of year 0, less 25.
abbrev pub hundredths : ℕ → ℕ
hundredths z = u32 (100 * z + 2 ^ 32 - 25)

-- `B`, the centuries that are no leap years.
abbrev pub skipped : ℕ → ℕ
skipped h = let a = h / 3_652_425 in a - a / 4

unfoldable pub march_year : ℕ → ℕ
march_year z = let h = hundredths z in u16 (u32 (100 * skipped h + h) / 36_525)

unfoldable pub march_day : ℕ → ℕ
march_day z = u16 (skipped (hundredths z) + z + 2 ^ 32 - 1461 * march_year z / 4)

-- The four parts of the formula are `shifted_day`, `hundredths`, `skipped` and the last two above;
-- `>> 2` and `>> 14` are divisions.
unfoldable pub rdn_to_ymd : ℕ → Ymd
rdn_to_ymd rdn =
    let z = shifted_day rdn in
    let d = march_day z in finish_ymd (march_year z) (u16 ((535 * d + 48_950) / 2 ^ 14)) d

unfoldable pub yd_to_rdn : ℕ → ℕ → ℕ
yd_to_rdn y d = let p = u16 (y + 2 ^ 16 - 1) in u32 (365 * p + p / 4 - p / 100 + p / 400 + d)

-- The call at the end of `ymd_to_rdn`, at a month from 1 to 12; the day is passed as a `uint16_t`.
unfoldable pub month_to_rdn : ℕ → ℕ → ℕ → ℕ
month_to_rdn y m d =
    yd_to_rdn y (u16 (get_or (days_preceding_month (leap_year y)) m 0 + d + 2 ^ 16 - 1))

-- A month out of range carries into the year.
unfoldable pub ymd_to_rdn : ℕ → ℕ → ℕ → ℕ
ymd_to_rdn y m d =
    if ltb m 1 || ltb 12 m
    then (let y' = u16 (y + m / 12) in
        let m' = m % 12 in
        if ltb m' 1 then month_to_rdn (u16 (y' + 2 ^ 16 - 1)) 12 d else month_to_rdn y' m' d)
    else month_to_rdn y m d

unfoldable pub datetime_from_ymd : ℕ → ℕ → ℕ → ℕ
datetime_from_ymd year month day = u64 (ymd_to_rdn year month day * ticks_per_day)

unfoldable pub datetime_to_ymd : ℕ → Ymd
datetime_to_ymd time = rdn_to_ymd (u32 (time / ticks_per_day))
