-- ===== src/Datetime/Calendar/Days.antt =====
-- src/cymo_datetime.c: the day numbers against the calendar counted day by day from 0001-01-01.
use libcymo.Common.{
  ℕ, zero, suc, ◌+◌, ◌-◌, ◌≤◌, ◌<◌, ◌≡◌, refl, sym, ap, ◌∙◌, arith, if◌then◌else◌, ltb, ltb→lt,
  subst, Bool-cases, inl, inr,
}
use libcymo.Datetime.Calendar.{leap_year, month_days, rdn_to_ymd, ymd_to_rdn}
use libcymo.Datetime.Calendar.March.{days_through, leap_days, days_through-suc}
use libcymo.Datetime.Calendar.RoundTrip.{
  IsDate, month_ind, month_start, month_start-suc, day_number, last_rdn, ymd_to_rdn-eq,
  rdn_to_ymd-ymd_to_rdn,
}

pub record CivilDate : Type 0 where
  pub year : ℕ
  pub month : ℕ
  pub day : ℕ

abbrev pub date : (yr mon dom : ℕ) → CivilDate
date yr mon dom = record { year = yr; month = mon; day = dom }

-- The day after, by the lengths of the months.
unfoldable pub tomorrow : CivilDate → CivilDate
tomorrow t =
    if ltb t.day (month_days t.year t.month)
    then record t { day = t.day + 1 }
    else if ltb t.month 12
    then date t.year (t.month + 1) 1
    else date (t.year + 1) 1 1

-- The date `n` days after 0001-01-01.
pub date_of : ℕ → CivilDate
date_of zero = date 1 1 1
date_of (suc n) = tomorrow (date_of n)

abbrev pub IsDay : ℕ → CivilDate → Type 0
IsDay n t = IsDate t.year t.month t.day × (day_number t.year t.month t.day ≡ n)

pub month_days_pos : (y m : ℕ) → 1 ≤ m → m ≤ 12 → 1 ≤ month_days y m
unfolding month_days
month_days_pos y m p q =
    month_ind (λ m. 1 ≤ month_days y m) (ground arith) (ground arith) (ground arith) (ground arith)
      (ground arith) (ground arith) (ground arith) (ground arith) (ground arith) (ground arith)
      (ground arith) (ground arith) m p q

pub month_days-le : (y m : ℕ) → 1 ≤ m → m ≤ 12 → month_days y m ≤ 31
unfolding month_days
month_days-le y m p q =
    month_ind (λ m. month_days y m ≤ 31) (ground arith) (ground arith) (ground arith) (ground arith)
      (ground arith) (ground arith) (ground arith) (ground arith) (ground arith) (ground arith)
      (ground arith) (ground arith) m p q

-- December ends the year.
december : (y : ℕ) → month_start y 12 + month_days y 12 ≡ 365 + leap_days y
unfolding month_days
december y = ground arith

january : (y : ℕ) → month_start y 1 ≡ 0
january y = ground arith

-- One lemma for each branch of `tomorrow`.
module _ (y m d : ℕ) (v : IsDate y m d) where
  next-IsDay : d < month_days y m → IsDay (day_number y m d + 1) (date y m (d + 1))
  next-IsDay h = omega arith

  next_month : month_days y m ≤ d → m < 12 → IsDay (day_number y m d + 1) (date y (m + 1) 1)
  next_month h k = omega (
    arith,
    month_start-suc y m v.month_in.0 (omega arith),
    month_days_pos y (m + 1) (omega arith) (omega arith),
  )

day_number-end :
    (y d : ℕ) → IsDate y 12 d → month_days y 12 ≤ d → day_number y 12 d + 1 ≡ days_through y
day_number-end y d v h =
    let e : y - 1 + 1 ≡ y = omega arith in
    omega (arith, december y, rw e at (days_through-suc (y - 1)))

abbrev EndsYear : ℕ → ℕ → ℕ → Type 0
EndsYear y d m =
    IsDate y m d
    → month_days y m ≤ d
    → day_number y m d < last_rdn
    → IsDay (day_number y m d + 1) (date (y + 1) 1 1)

next_year : (y d : ℕ) → EndsYear y d 12
next_year y d v h l =
    let e : y + 1 - 1 ≡ y = omega arith in
    let small : y < 65_535 = omega (arith, day_number-end y d v h) in
    (
      record {
        year_in = omega arith;
        month_in = omega arith;
        day_in = (omega arith, month_days_pos (y + 1) 1 (omega arith) (omega arith));
      },
      rw (e, january (y + 1)) (omega (arith, day_number-end y d v h)),
    )

tomorrow-IsDay :
    (y m d : ℕ)
    → IsDate y m d
    → day_number y m d < last_rdn
    → IsDay (day_number y m d + 1) (tomorrow (date y m d))
unfolding tomorrow
tomorrow-IsDay y m d v l = elim (Bool-cases (ltb d (month_days y m))) [
  | inl more ↦ rw more (next-IsDay y m d v (ltb→lt _ _ more))
  | inr last ↦ elim (Bool-cases (ltb m 12)) [
    | inl mid ↦ rw (last, mid) (next_month y m d v (ground arith) (ltb→lt _ _ mid))
    | inr dec ↦
        let e : 12 ≡ m = ground (arith, v) in
        rw (last, dec) (subst (EndsYear y d) e (next_year y d) v (ground arith) l)
  ]
]

-- Counting day by day from 0001-01-01 gives valid dates with the day numbers of the calendar.
pub date_of-IsDay : (n : ℕ) → n ≤ last_rdn → IsDay n (date_of n)
unfolding date_of
date_of-IsDay zero h = unfold month_days leap_year in omega arith
date_of-IsDay (suc n) h =
    let (v, e) = date_of-IsDay n (omega arith) in
    let (v', e') = tomorrow-IsDay _ _ _ v (omega arith) in (v', omega arith)

-- `rdn_to_ymd` gives the date that is `n` days after 0001-01-01, and `ymd_to_rdn` undoes it.
pub rdn_to_ymd-date_of :
    (n : ℕ)
    → n ≤ last_rdn
    → (date (rdn_to_ymd n).year (rdn_to_ymd n).month (rdn_to_ymd n).day ≡ date_of n)
      × (ymd_to_rdn (rdn_to_ymd n).year (rdn_to_ymd n).month (rdn_to_ymd n).day ≡ n)
rdn_to_ymd-date_of n h =
    let (v, e) = date_of-IsDay n h in
    let there = ymd_to_rdn-eq v ∙ e in
    let back = sym (ap rdn_to_ymd there) ∙ rdn_to_ymd-ymd_to_rdn v in rw back (refl, there)
