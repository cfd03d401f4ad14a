-- ===== src/Datetime/Calendar/RoundTrip.antt =====
-- src/cymo_datetime.c: `ymd_to_rdn` and `rdn_to_ymd` on the dates of the years 1 to 65535.
use libcymo.Common.{
  ℕ, zero, suc, ◌+◌, ◌-◌, ◌*◌, ◌/◌, ◌^◌, ◌≤◌, ◌<◌, ◌≡◌, arith, if◌then◌else◌, u16, get_or, ltb,
}
use libcymo.Datetime.Calendar.{
  days_preceding_month, day_offset, leap_year, month_days, finish_ymd, shifted_day, rdn_to_ymd,
  yd_to_rdn, month_to_rdn, ymd_to_rdn,
}
use libcymo.Datetime.Calendar.March.{days_through, leap_days, days_through-suc, IsMarch, march_of}

-- A date of the proleptic Gregorian calendar whose year fits `uint16_t`.
pub record IsDate (y m d : ℕ) : Type 0 where
  pub year_in : (1 ≤ y) × (y < 2 ^ 16)
  pub month_in : (1 ≤ m) × (m ≤ 12)
  pub day_in : (1 ≤ d) × (d ≤ month_days y m)

-- The days of the year before month `m`.
abbrev pub month_start : ℕ → ℕ → ℕ
month_start y m = get_or (days_preceding_month (leap_year y)) m 0

-- What holds of each month from 1 to 12 holds of `m`.
pub month_ind {ℓ} :
    (P : ℕ → Type ℓ)
    → P 1
    → P 2
    → P 3
    → P 4
    → P 5
    → P 6
    → P 7
    → P 8
    → P 9
    → P 10
    → P 11
    → P 12
    → (m : ℕ) → 1 ≤ m
    → m ≤ 12
    → P m
month_ind P a b c d e f g h i j k l zero p q = absurd (omega arith)
month_ind P a b c d e f g h i j k l (suc zero) p q = a
month_ind P a b c d e f g h i j k l (suc (suc zero)) p q = b
month_ind P a b c d e f g h i j k l (suc (suc (suc zero))) p q = c
month_ind P a b c d e f g h i j k l (suc (suc (suc (suc zero)))) p q = d
month_ind P a b c d e f g h i j k l (suc (suc (suc (suc (suc zero))))) p q = e
month_ind P a b c d e f g h i j k l (suc (suc (suc (suc (suc (suc zero)))))) p q = f
month_ind P a b c d e f g h i j k l (suc (suc (suc (suc (suc (suc (suc zero))))))) p q = g
month_ind P a b c d e f g h i j k l (suc (suc (suc (suc (suc (suc (suc (suc zero)))))))) p q = h
month_ind P a b c d e f g h i j k l (suc (suc (suc (suc (suc (suc (suc (suc (suc zero))))))))) p q =
    i
month_ind P a b c d e f g h i j k l (suc (suc (suc (suc (suc (suc (suc (suc (suc (suc zero))))))))))
      p q =
    j
month_ind P a b c d e f g h i j k l
      (suc (suc (suc (suc (suc (suc (suc (suc (suc (suc (suc zero))))))))))) p q =
    k
month_ind P a b c d e f g h i j k l
      (suc (suc (suc (suc (suc (suc (suc (suc (suc (suc (suc (suc zero)))))))))))) p q =
    l
month_ind P a b c d e f g h i j k l
      (suc (suc (suc (suc (suc (suc (suc (suc (suc (suc (suc (suc (suc n))))))))))))) p q =
    absurd (omega arith)

-- The table of `month_days` gives the steps of the table `days_preceding_month`.
pub month_start-suc :
    (y m : ℕ) → 1 ≤ m → m ≤ 11 → month_start y (m + 1) ≡ month_start y m + month_days y m
unfolding month_days
month_start-suc y m p q =
    month_ind (λ m. m ≤ 11 → month_start y (m + 1) ≡ month_start y m + month_days y m)
      (λ q. ground arith) (λ q. ground arith) (λ q. ground arith) (λ q. ground arith)
      (λ q. ground arith) (λ q. ground arith) (λ q. ground arith) (λ q. ground arith)
      (λ q. ground arith) (λ q. ground arith) (λ q. ground arith) (λ q. absurd (omega arith)) m p
      (omega arith) q

-- A day number of the calendar: the days before year `y`, before month `m` and before day `d`.
abbrev pub day_number : ℕ → ℕ → ℕ → ℕ
day_number y m d = days_through (y - 1) + month_start y m + d - 1

-- The same day counted from March 1st.
abbrev march_y : ℕ → ℕ → ℕ
march_y y m = if ltb m 3 then y - 1 else y

abbrev march_d : ℕ → ℕ → ℕ
march_d m d = get_or day_offset m 0 + d

-- What the tables and the month formula say of day `d` of month `m`.
record MonthFacts (y d m : ℕ) : Type 0 where
  fits : month_start y m + d ≤ 365 + leap_days y
  shift :
      days_through (y - 1) + month_start y m + 306
      ≡ days_through (march_y y m) + get_or day_offset m 0
  last : march_d m d ≤ 365 + leap_days (march_y y m + 1)
  finish :
      finish_ymd (march_y y m) (u16 ((535 * march_d m d + 48_950) / 2 ^ 14)) (march_d m d)
      ≡ record { year = y; month = m; day = d; yday = month_start y m + d }

month_facts : (y m d : ℕ) → IsDate y m d → MonthFacts y d m
unfolding month_days finish_ymd
month_facts y m d v =
    month_ind (λ m. d ≤ month_days y m → MonthFacts y d m) (λ h. ground (arith, leap))
      (λ h. ground (arith, leap)) (λ h. ground (arith, leap)) (λ h. ground (arith, leap))
      (λ h. ground (arith, leap)) (λ h. ground (arith, leap)) (λ h. ground (arith, leap))
      (λ h. ground (arith, leap)) (λ h. ground (arith, leap)) (λ h. ground (arith, leap))
      (λ h. ground (arith, leap)) (λ h. ground (arith, leap)) m v.month_in.0 v.month_in.1 v.day_in.1
  where
    leap : days_through (y - 1 + 1) ≡ days_through (y - 1) + 365 + leap_days (y - 1 + 1)
    leap = days_through-suc (y - 1)

-- A date lies within its year.
pub month_end : (y m d : ℕ) → IsDate y m d → month_start y m + d ≤ 365 + leap_days y
month_end y m d v = (month_facts y m d v).fits

-- The day number of 65535-12-31, the last date that a `uint16_t` year can name.
abbrev pub last_rdn : ℕ
last_rdn = days_through 65_535 - 1

pub day_number-le : (y m d : ℕ) → IsDate y m d → day_number y m d ≤ last_rdn
day_number-le y m d v =
    let e : y - 1 + 1 ≡ y = omega arith in
    omega (arith, month_end y m d v, rw e at (days_through-suc (y - 1)))

module _ {y m d : ℕ} (v : IsDate y m d) where
  -- `ymd_to_rdn` counts the days before the date.
  pub ymd_to_rdn-eq : ymd_to_rdn y m d ≡ day_number y m d
  unfolding ymd_to_rdn month_to_rdn yd_to_rdn
  ymd_to_rdn-eq = ground (arith, (month_facts y m d v).fits)

  day_number-IsMarch : IsMarch (shifted_day (day_number y m d)) (march_y y m) (march_d m d)
  unfolding shifted_day
  day_number-IsMarch = ground (arith, month_facts y m d v)

  -- `rdn_to_ymd` finds the date that `ymd_to_rdn` was given, and its day of the year (from 1).
  pub rdn_to_ymd-ymd_to_rdn :
      rdn_to_ymd (ymd_to_rdn y m d)
      ≡ record { year = y; month = m; day = d; yday = month_start y m + d }
  unfolding rdn_to_ymd
  rdn_to_ymd-ymd_to_rdn =
      let (e, f) = march_of day_number-IsMarch in
      rw (ymd_to_rdn-eq, e, f) (month_facts y m d v).finish
