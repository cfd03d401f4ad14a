-- ===== src/Datetime/Calendar/March.antt =====
-- src/cymo_datetime.c: the year and the day in it, counted from March 1st, that `rdn_to_ymd` finds.
use libcymo.Common.{ℕ, ◌+◌, ◌-◌, ◌*◌, ◌/◌, ◌%◌, ◌^◌, ◌≤◌, ◌<◌, ◌≡◌, arith, if◌then◌else◌}
use libcymo.Datetime.Calendar.{leap_year, hundredths, skipped, march_year, march_day}

-- The days of the years 1 to `y`.
abbrev pub days_through : ℕ → ℕ
days_through y = 365 * y + y / 4 - y / 100 + y / 400

abbrev pub leap_days : ℕ → ℕ
leap_days y = if leap_year y then 1 else 0

pub days_through-suc : (y : ℕ) → days_through (y + 1) ≡ days_through y + 365 + leap_days (y + 1)
unfolding leap_year
days_through-suc y = ground arith

-- `z` is day `d` of the year that begins on March 1st of `y`.
pub record IsMarch (z y d : ℕ) : Type 0 where
  pub small : y < 2 ^ 16
  pub first : 1 ≤ d
  pub last : d ≤ 365 + leap_days (y + 1)
  pub count : z ≡ days_through y + d

-- The date in centuries, as the algorithm divides it: year 100 * c + 4 * t + u, century 4 * q + s.
-- Day 366 (`l` is 1) stands only before the end of February of a leap year.
record IsSplit (z y d c q s t u l : ℕ) : Type 0 where
  century : c ≡ 4 * q + s
  year : y ≡ 100 * c + 4 * t + u
  count : z ≡ 36_524 * c + 365 * (4 * t + u) + t + q + d
  small : y < 2 ^ 16
  bounds : (s < 4) × (t < 25) × (u < 4) × (1 ≤ d) × (d ≤ 365 + l)
  leap : (3 * l ≤ u) × (3 * l + 3 * (t - 23) ≤ s + 3)

split :
    {z y d : ℕ}
    → IsMarch z y d
    → IsSplit z y d (y / 100) (y / 400) (y / 100 % 4) (y % 100 / 4) (y % 4) (leap_days (y + 1))
unfolding leap_year
split {z} {y} {d} h = record {
  century = omega arith;
  year = omega arith;
  count = omega arith;
  small = omega arith;
  bounds = ground arith;
  leap = ground arith;
}

module _ {z y d c q s t u l : ℕ} (h : IsSplit z y d c q s t u l) where
  hundredths_lem : hundredths z ≡ 100 * z - 25
  hundredths_lem = omega arith

  century_lem : hundredths z / 3_652_425 ≡ c
  century_lem = rw hundredths_lem (omega arith)

  skipped_lem : skipped (hundredths z) ≡ c - q
  skipped_lem = omega (arith, century_lem)

  march_year_lem : march_year z ≡ y
  unfolding march_year
  march_year_lem = rw (skipped_lem, hundredths_lem) (omega arith)

  march_day_lem : march_day z ≡ d
  unfolding march_day
  march_day_lem = rw (march_year_lem, skipped_lem) (omega arith)

-- `rdn_to_ymd` finds the year and the day that begin on March 1st.
pub march_of : {z y d : ℕ} → IsMarch z y d → (march_year z ≡ y) × (march_day z ≡ d)
march_of h = (march_year_lem (split h), march_day_lem (split h))
