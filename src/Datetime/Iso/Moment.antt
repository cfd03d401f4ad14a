-- ===== src/Datetime/Iso/Moment.antt =====
-- src/cymo_datetime.c: the date and the time of day that `datetime_from_iso8601` reads are valid.
use libcymo.Common.{ℕ, ◌≤◌, ◌<◌, ◌≡◌, subst, arith, true, List, leb, ◌||◌, ◌&&◌}
use libcymo.Datetime.Calendar.{month_days, ticks_per_second}
use libcymo.Datetime.Calendar.RoundTrip.{month_ind}
use libcymo.Datetime.Clock.{Fields}
use libcymo.Datetime.Clock.Decode.{IsMoment}
use libcymo.Datetime.Iso.{Parse, ok, byte, parse_2d, parse_4d, expect, Head, parse_head}
use libcymo.Datetime.Iso.Ensures.{ok-inj, Ensures, >>=-Ensures, check-Ensures, parse_4d-le}

-- Each month has at least 28 days.
month_days-28 : (y m : ℕ) → 1 ≤ m → m ≤ 12 → 28 ≤ month_days y m
unfolding month_days
month_days-28 y m p q =
    month_ind (λ m. 28 ≤ month_days y m) (ground arith) (ground arith) (ground arith) (ground arith)
      (ground arith) (ground arith) (ground arith) (ground arith) (ground arith) (ground arith)
      (ground arith) (ground arith) m p q

-- The fields of a head, with the microseconds.
abbrev pub fields_of : Head → ℕ → Fields
fields_of h us = record {
  year = h.year;
  month = h.month;
  day = h.day;
  hour = h.hour;
  minute = h.min;
  second = h.sec;
  usec = us;
}

-- The tests of the numbers.
tested-IsMoment :
    (h : Head) (us : ℕ)
    → h.year ≤ 9999
    → leb 1 h.year ≡ true
    → (leb 1 h.month && leb h.month 12) ≡ true
    → (leb 1 h.day && leb h.day 31) ≡ true
    → leb h.hour 23 ≡ true
    → leb h.min 59 ≡ true
    → leb h.sec 59 ≡ true
    → (leb h.day 28 || leb h.day (month_days h.year h.month)) ≡ true
    → us < ticks_per_second
    → IsMoment (fields_of h us)
tested-IsMoment h us small y mo d ho mi se last u =
    let month_in : (1 ≤ h.month) × (h.month ≤ 12) = ground (arith, mo) in
    let day_in : (1 ≤ h.day) × (h.day ≤ month_days h.year h.month) =
      ground (arith, d, last, month_days-28 h.year h.month month_in.0 month_in.1) in
    (
      record { year_in = ground (arith, y, small); month_in = month_in; day_in = day_in },
      record {
        hour_in = ground (arith, ho);
        minute_in = ground (arith, mi);
        second_in = ground (arith, se);
        usec_in = u;
      },
    )

module _ (s : List ℕ) (us : ℕ) (u : us < ticks_per_second) where
  abbrev pub IsRead : Head → Type 0
  IsRead h = IsMoment (fields_of h us) × (h.year ≤ 9999)

  -- What the last line returns.
  finish :
      (year month day hour min sec : ℕ) (h : Head)
      → parse_4d s 0 ≡ ok year
      → Parse.ok
          (record { year = year; month = month; day = day; hour = hour; min = min; sec = sec })
        ≡ ok h
      → leb 1 year ≡ true
      → (leb 1 month && leb month 12) ≡ true
      → (leb 1 day && leb day 31) ≡ true
      → leb hour 23 ≡ true
      → leb min 59 ≡ true
      → leb sec 59 ≡ true
      → (leb day 28 || leb day (month_days year month)) ≡ true
      → IsRead h
  finish year month day hour min sec h four e y mo d ho mi se last =
      let read : Head = record {
        year = year;
        month = month;
        day = day;
        hour = hour;
        min = min;
        sec = sec;
      } in
      let small = parse_4d-le s 0 year four in
      subst IsRead (ok-inj read h e) (tested-IsMoment read us small y mo d ho mi se last u, small)

  pub parse_head-IsRead : Ensures IsRead (parse_head s)
  unfolding parse_head
  parse_head-IsRead = >>=-Ensures (expect s 4 b'-') _ (λ u _.
      >>=-Ensures (expect s 7 b'-') _ (λ u _. >>=-Ensures (expect s 13 b':') _ (λ u _.
        >>=-Ensures (expect s 16 b':') _ (λ u _. >>=-Ensures (byte s 10) _ (λ ch _.
          check-Ensures _ _ (λ _. >>=-Ensures (parse_4d s 0) _ (λ year four. check-Ensures _ _ (λ y.
            >>=-Ensures (parse_2d s 5) _ (λ month _. check-Ensures _ _ (λ mo.
              >>=-Ensures (parse_2d s 8) _ (λ day _. check-Ensures _ _ (λ d.
                >>=-Ensures (parse_2d s 11) _ (λ hour _. check-Ensures _ _ (λ ho.
                  >>=-Ensures (parse_2d s 14) _ (λ min _. check-Ensures _ _ (λ mi.
                    >>=-Ensures (parse_2d s 17) _ (λ sec _. check-Ensures _ _ (λ se.
                      check-Ensures _ _ (λ last. λ h e.
                        finish year month day hour min sec h four e y mo d ho mi se
                          last)))))))))))))))))))
