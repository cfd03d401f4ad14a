-- ===== src/Datetime/Clock/Order.antt =====
-- src/cymo_datetime.c: the numbers of two times are in the order of their fields.
use libcymo.Common.{
  ℕ, zero, suc, ◌+◌, ◌-◌, ◌*◌, ◌≤◌, ◌<◌, ◌≡◌, ◌⊎◌, ◌↔◌, refl, sym, ◌∙◌, arith, List, [], ◌∷◌,
  length, inl, inr,
}
use libcymo.Datetime.Calendar.{ticks_per_day}
use libcymo.Datetime.Calendar.March.{days_through, days_through-suc}
use libcymo.Datetime.Calendar.RoundTrip.{
  IsDate, month_start, month_start-suc, month_end, day_number,
}
use libcymo.Datetime.Clock.{Fields, datetime_decode}
use libcymo.Datetime.Clock.Decode.{
  day_ticks, from-eq, end_ticks, encode_fields, encode-decode, IsMoment, decode-IsMoment,
}

days_through-le : (y k : ℕ) → days_through y ≤ days_through (y + k)
days_through-le y zero = omega arith
days_through-le y (suc k) =
    let step = days_through-suc (y + k) in
    let same : y + suc k ≡ y + k + 1 = omega arith in
    rw same (omega (arith, step, days_through-le y k))

month_start-le : (y m k : ℕ) → 1 ≤ m → m + k ≤ 12 → month_start y m ≤ month_start y (m + k)
month_start-le y m zero lo hi = rw (plus_zero m) (omega arith)
  where
    plus_zero : (n : ℕ) → n + 0 ≡ n
    plus_zero n = omega arith
month_start-le y m (suc k) lo hi =
    let step = month_start-suc y (m + k) (omega arith) (omega arith) in
    let same : m + suc k ≡ m + k + 1 = omega arith in
    rw same (omega (arith, step, month_start-le y m k lo (omega arith)))

-- A later month of the same year, and a later year.
day_number-month :
    (y m d m' d' : ℕ)
    → IsDate y m d
    → IsDate y m' d'
    → m < m'
    → day_number y m d < day_number y m' d'
day_number-month y m d m' d' v v' lt =
    let step = month_start-suc y m (v.month_in.0) (omega (arith, v'.month_in)) in
    let far : m + 1 + (m' - m - 1) ≡ m' = omega arith in
    let up = month_start-le y (m + 1) (m' - m - 1) (omega arith) (omega (arith, v'.month_in)) in
    omega (arith, rw far at up, step, v.day_in, v'.day_in)

day_number-year :
    (y m d y' m' d' : ℕ)
    → IsDate y m d
    → IsDate y' m' d'
    → y < y'
    → day_number y m d < day_number y' m' d'
day_number-year y m d y' m' d' v v' lt =
    let one : y - 1 + 1 ≡ y = omega (arith, v.year_in) in
    let far : y + (y' - 1 - y) ≡ y' - 1 = omega arith in
    omega (
      arith,
      rw one at (days_through-suc (y - 1)),
      month_end y m d v,
      rw far at (days_through-le y (y' - 1 - y)),
      v.day_in,
      v'.day_in,
    )

-- The order of two lists of numbers by their first difference.
abbrev pub IsBefore : List ℕ → List ℕ → Type 0
IsBefore (a ∷ l) (b ∷ r) = (a < b) ⊎ ((a ≡ b) × IsBefore l r)
IsBefore _ _ = ⊥

IsBefore-total : (l r : List ℕ) → length l ≡ length r → IsBefore l r ⊎ ((l ≡ r) ⊎ IsBefore r l)
IsBefore-total [] [] e = inr (inl refl)
IsBefore-total [] (b ∷ r) e = absurd (omega arith)
IsBefore-total (a ∷ l) [] e = absurd (omega arith)
IsBefore-total (a ∷ l) (b ∷ r) e = elim (three_ways a b) [
  | inl lt ↦ inl (inl lt)
  | inr (inr gt) ↦ inr (inr (inl gt))
  | inr (inl same) ↦ elim (IsBefore-total l r (omega arith)) [
    | inl before ↦ inl (inr (same, before))
    | inr (inl alike) ↦ inr (inl (cc (same, alike)))
    | inr (inr behind) ↦ inr (inr (inr (sym same, behind)))
  ]
]
  where
    three_ways : (a b : ℕ) → (a < b) ⊎ ((a ≡ b) ⊎ (b < a))
    three_ways a b = ground arith

-- The fields from the year down to the microseconds.
abbrev pub listed : Fields → List ℕ
listed f = f.year ∷ f.month ∷ f.day ∷ f.hour ∷ f.minute ∷ f.second ∷ f.usec ∷ []

abbrev ticks_of : Fields → ℕ
ticks_of f =
    day_number f.year f.month f.day * ticks_per_day + day_ticks f.hour f.minute f.second f.usec

-- A later day, and a later time of the same day.
ticks_of-day :
    (f g : Fields)
    → IsMoment f
    → IsMoment g
    → day_number f.year f.month f.day < day_number g.year g.month g.day
    → ticks_of f < ticks_of g
ticks_of-day f g (v, t) (v', t') lt = omega arith

ticks_of-IsBefore :
    (f g : Fields)
    → IsMoment f
    → IsMoment g
    → IsBefore (listed f) (listed g)
    → ticks_of f < ticks_of g
ticks_of-IsBefore f g (v, t) (v', t') (inl lt) =
    ticks_of-day f g (v, t) (v', t') (day_number-year _ _ _ _ _ _ v v' lt)
ticks_of-IsBefore f g (v, t) (v', t') (inr (y, inl lt)) =
    let w : IsDate g.year f.month f.day = rw y at v in
    let less = day_number-month g.year f.month f.day g.month g.day w v' lt in
    ticks_of-day f g (v, t) (v', t') (rw y less)
ticks_of-IsBefore f g (v, t) (v', t') (inr (y, inr (m, inl lt))) =
    ticks_of-day f g (v, t) (v', t') (rw (y, m) (omega (arith, v.day_in, v'.day_in)))
ticks_of-IsBefore f g (v, t) (v', t') (inr (y, inr (m, inr (d, time)))) = rw (y, m, d) (within time)
  where
    within :
        IsBefore
          (f.hour ∷ f.minute ∷ f.second ∷ f.usec ∷ [])
          (g.hour ∷ g.minute ∷ g.second ∷ g.usec ∷ [])
        → day_number g.year g.month g.day * ticks_per_day
            + day_ticks f.hour f.minute f.second f.usec
          < ticks_of g
    within (inl lt) = omega (arith, t, t')
    within (inr (h, inl lt)) = omega (arith, t, t')
    within (inr (h, inr (mi, inl lt))) = omega (arith, t, t')
    within (inr (h, inr (mi, inr (s, inl lt)))) = omega (arith, t, t')
    within (inr (h, inr (mi, inr (s, inr (us, none_left))))) = absurd none_left

decoded : (dt : ℕ) → dt < end_ticks → ticks_of (datetime_decode dt) ≡ dt
unfolding encode_fields
decoded dt k =
    let (v, t) = decode-IsMoment dt k in sym (from-eq _ _ _ _ _ _ _ v t) ∙ encode-decode dt k

-- Up to the end of the year 65535, one time is earlier than another exactly if its year is, or of the
-- same year its month, and so on down to the microseconds.
pub decode-IsBefore :
    (dt dt' : ℕ)
    → dt < end_ticks
    → dt' < end_ticks
    → (dt < dt') ↔ IsBefore (listed (datetime_decode dt)) (listed (datetime_decode dt'))
decode-IsBefore dt dt' k k' =
    let f = datetime_decode dt in
    let g = datetime_decode dt' in
    let m = decode-IsMoment dt k in
    let m' = decode-IsMoment dt' k' in
    let e = decoded dt k in
    let e' = decoded dt' k' in
    (
      λ lt. elim (IsBefore-total (listed f) (listed g) refl) [
        | inl before ↦ before
        | inr (inl same) ↦
            let alike : ticks_of f ≡ ticks_of g = cc same in absurd (omega (arith, alike, e, e'))
        | inr (inr behind) ↦
            let more = ticks_of-IsBefore g f m' m behind in absurd (omega (arith, more, e, e'))
      ],
      λ before. let less = ticks_of-IsBefore f g m m' before in omega (arith, less, e, e'),
    )
