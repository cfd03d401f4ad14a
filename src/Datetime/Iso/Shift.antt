-- ===== src/Datetime/Iso/Shift.antt =====
-- src/cymo_datetime.c: the fraction and the offset that `datetime_from_iso8601` reads are in their bounds.
use libcymo.Common.{
  ℕ, zero, suc, ◌+◌, ◌-◌, ◌*◌, ◌^◌, ◌≤◌, ◌<◌, ◌≡◌, ◌⊎◌, refl, subst, arith, not, true, List, get_or,
  u8, u32, inl, inr, leb, ltb, ◌==◌, ◌||◌, ◌&&◌, Bool-cases, if◌then◌else◌,
}
use native.Mathlib.Nat.{mul_assoc, mul-le-mul_right, le-mul_of_pos_right, le_trans, add-mul}
use libcymo.Common.Int.{ℤ, pos, sub_ℕ}
use libcymo.Datetime.Calendar.{ticks_per_second}
use libcymo.Datetime.Iso.{
  ok, ◌>>=◌, check, byte, parse_2d, expect, pow10, scan_digits, Tail, parse_digits, parse_fraction,
  parse_zone, ◌>>◌,
}
use libcymo.Datetime.Iso.Ensures.{ok-inj, Ensures, >>=-Ensures, check-Ensures}

abbrev pow10_at : ℕ → ℕ
pow10_at k = get_or pow10 k 0

pow10_at-suc : (k : ℕ) → k < 9 → (pow10_at (suc k) ≡ 10 * pow10_at k) × (0 < pow10_at k)
pow10_at-suc zero h = (refl, omega arith)
pow10_at-suc (suc zero) h = (refl, omega arith)
pow10_at-suc (suc (suc zero)) h = (refl, omega arith)
pow10_at-suc (suc (suc (suc zero))) h = (refl, omega arith)
pow10_at-suc (suc (suc (suc (suc zero)))) h = (refl, omega arith)
pow10_at-suc (suc (suc (suc (suc (suc zero))))) h = (refl, omega arith)
pow10_at-suc (suc (suc (suc (suc (suc (suc zero)))))) h = (refl, omega arith)
pow10_at-suc (suc (suc (suc (suc (suc (suc (suc zero))))))) h = (refl, omega arith)
pow10_at-suc (suc (suc (suc (suc (suc (suc (suc (suc zero)))))))) h = (refl, omega arith)
pow10_at-suc (suc (suc (suc (suc (suc (suc (suc (suc (suc n))))))))) h = absurd (omega arith)

-- A digit more leaves the number below its bound.
scaled :
    (n d p : ℕ)
    → d ≤ 9
    → 0 < p
    → (n + 1) * (10 * p) ≤ 10 ^ 9
    → ((n * 10 + d + 1) * p ≤ 10 ^ 9) × (n * 10 + d + 1 ≤ 10 ^ 9)
scaled n d p small some_p h =
    let step : n * 10 + d + 1 ≤ (n + 1) * 10 = omega arith in
    let up : (n * 10 + d + 1) * p ≤ (n + 1) * 10 * p = mul-le-mul_right p step in
    let top : (n + 1) * 10 * p ≤ 10 ^ 9 = rw (mul_assoc (n + 1) 10 p) h in
    let bound = le_trans up top in
    (bound, le_trans (le-mul_of_pos_right (n * 10 + d + 1) some_p) bound)

-- As long as there are at most nine digits, the number and the places that are left fit.
abbrev FitsDigits : ℕ × ℕ → Type 0
FitsDigits r = r.1 ≤ 29 → (r.0 + 1) * pow10_at (29 - r.1) ≤ 10 ^ 9

next-FitsDigits :
    (n cur d : ℕ) → 20 ≤ cur → d ≤ 9 → FitsDigits (n, cur) → FitsDigits (u32 (n * 10 + d), cur + 1)
next-FitsDigits n cur d lo small fits hi =
    let k = 29 - (cur + 1) in
    let place : 29 - cur ≡ suc k = omega arith in
    let (ten, some_p) = pow10_at-suc k (omega arith) in
    let before : (n + 1) * (10 * pow10_at k) ≤ 10 ^ 9 = rw (place, ten) at (fits (omega arith)) in
    let (bound, word) = scaled n d (pow10_at k) small some_p before in
    let same : u32 (n * 10 + d) ≡ n * 10 + d = omega (arith, word) in rw same bound

scan_digits-FitsDigits :
    (s : List ℕ) (left cur n : ℕ)
    → 20 ≤ cur
    → FitsDigits (n, cur)
    → Ensures FitsDigits (scan_digits s left cur n)
unfolding scan_digits
scan_digits-FitsDigits s zero cur n lo fits = λ r e. subst FitsDigits (ok-inj _ r e) fits
scan_digits-FitsDigits s (suc left) cur n lo fits = >>=-Ensures (byte s cur) _ (λ c _.
    elim (Bool-cases (ltb 9 (u8 (c + 2 ^ 8 - b'0')))) [
      | inl stops ↦ λ r e. subst FitsDigits (ok-inj _ r (rw stops at e)) fits
      | inr more ↦ λ r e.
          scan_digits-FitsDigits s left (cur + 1) _ (omega arith)
            (next-FitsDigits n cur (u8 (c + 2 ^ 8 - b'0')) lo (ground (arith, more)) fits) r
            (rw more at e)
    ])

-- An offset of less than a day, east or west.
abbrev pub IsShift : ℤ × ℕ → Type 0
IsShift z =
    (m : ℕ) × (m < 1440)
    × ((z.0 ≡ pos (m * 60 * ticks_per_second)) ⊎ (z.0 ≡ sub_ℕ 0 (m * 60 * ticks_per_second)))

-- The part of a second that is read.
abbrev pub IsFraction : Tail → Type 0
IsFraction t = t.nsec < 10 ^ 9

module _ (s : List ℕ) (len : ℕ) where
  digits-IsFraction :
      (n cur ch : ℕ)
      → FitsDigits (n, cur)
      → (leb 1 (cur - 20) && leb (cur - 20) 9) ≡ true
      → u32 (n * pow10_at (9 - (cur - 20))) < 10 ^ 9
  digits-IsFraction n cur ch fits number =
      let some_digits : 21 ≤ cur = ground (arith, number) in
      let few : cur ≤ 29 = ground (arith, number) in
      let place : 29 - cur ≡ 9 - (cur - 20) = omega arith in
      let (_, some_p) = pow10_at-suc (9 - (cur - 20)) (omega arith) in
      let bound : (n + 1) * pow10_at (9 - (cur - 20)) ≤ 10 ^ 9 = rw place at (fits few) in
      let less : n * pow10_at (9 - (cur - 20)) + 1 * pow10_at (9 - (cur - 20)) ≤ 10 ^ 9 =
        rw (add-mul n 1 (pow10_at (9 - (cur - 20)))) at bound in
      omega (arith, less, some_p)

  parse_digits-IsFraction : Ensures IsFraction (parse_digits s len)
  unfolding parse_digits
  parse_digits-IsFraction = >>=-Ensures (scan_digits s (len - 20) 20 0) _ (λ r scanned.
      let fits =
        scan_digits-FitsDigits s (len - 20) 20 0 (omega arith) (λ _. omega arith) r scanned in
      check-Ensures (leb 1 (r.1 - 20) && leb (r.1 - 20) 9) _ (λ number.
        check-Ensures (not (r.1 == len)) _ (λ _. >>=-Ensures (byte s r.1) _ (λ ch _ t e.
          let read : Tail = record {
            nsec = u32 (r.0 * pow10_at (9 - (r.1 - 20)));
            cur = r.1 + 1;
            ch = ch;
          } in
          subst IsFraction (ok-inj read t e) (digits-IsFraction r.0 r.1 ch fits number)))))

  pub parse_fraction-IsFraction : Ensures IsFraction (parse_fraction s len)
  unfolding parse_fraction
  parse_fraction-IsFraction = >>=-Ensures (byte s 19) _ (λ ch _. elim (Bool-cases (ch == b'.')) [
    | inl dot ↦ λ t e. parse_digits-IsFraction t (rw dot at e)
    | inr other ↦ λ t e. subst IsFraction (ok-inj _ t (rw other at e)) (omega arith)
  ])

  offset-IsShift :
      (t : Tail)
      → Ensures IsShift (do
        check (leb len (t.cur + 5))
        check ((t.ch == b'+') || (t.ch == b'-'))
        expect s (t.cur + 2) b':'
        zone_hour ← parse_2d s t.cur
        check (leb zone_hour 23)
        zone_min ← parse_2d s (t.cur + 3)
        check (leb zone_min 59)
        let ticks = (zone_hour * 60 + zone_min) * 60 * ticks_per_second
        ok (if t.ch == b'-' then sub_ℕ 0 ticks else pos ticks, t.cur + 5))
  offset-IsShift t = check-Ensures (leb len (t.cur + 5)) _ (λ _.
      check-Ensures ((t.ch == b'+') || (t.ch == b'-')) _ (λ _.
        >>=-Ensures (expect s (t.cur + 2) b':') _ (λ _ _. >>=-Ensures (parse_2d s t.cur) _ (λ zh _.
          check-Ensures (leb zh 23) _ (λ hours. >>=-Ensures (parse_2d s (t.cur + 3)) _ (λ zm _.
            check-Ensures (leb zm 59) _ (λ minutes z e.
              let ticks = (zh * 60 + zm) * 60 * ticks_per_second in
              let read : ℤ × ℕ = (if t.ch == b'-' then sub_ℕ 0 ticks else pos ticks, t.cur + 5) in
              subst IsShift (ok-inj read z e) (
                zh * 60 + zm,
                ground (arith, hours, minutes),
                elim (Bool-cases (t.ch == b'-')) [
                  | inl west ↦ inr (rw west refl)
                  | inr east ↦ inl (rw east refl)
                ],
              ))))))))

  pub parse_zone-IsShift : (t : Tail) → Ensures IsShift (parse_zone s len t)
  unfolding parse_zone
  parse_zone-IsShift t = elim (Bool-cases ((t.ch == b'Z') || (t.ch == b'z'))) [
    | inl utc ↦ λ z e. subst IsShift (ok-inj _ z (rw utc at e)) (0, omega arith, inl refl)
    | inr zone ↦ λ z e. offset-IsShift t z (rw zone at e)
  ]
