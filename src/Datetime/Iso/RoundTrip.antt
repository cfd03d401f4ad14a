-- ===== src/Datetime/Iso/RoundTrip.antt =====
-- src/cymo_datetime.c: `datetime_from_iso8601` on what `datetime_format` writes.
use libcymo.Common.{
  ℕ, zero, suc, ◌↔◌, ◌+◌, ◌-◌, ◌*◌, ◌/◌, ◌%◌, ◌^◌, ◌≤◌, ◌<◌, ◌≡◌, refl, sym, ap, ◌∙◌, arith, false,
  List, [], ◌∷◌, length, u32, u64, leb, ◌==◌, ◌⊎◌, inl, inr, Bool-cases,
}
use libcymo.Common.Int.{ℤ, pos, negsuc}
use libcymo.Datetime.Calendar.{Ymd, ticks_per_second, ticks_per_day, rdn_to_ymd}
use libcymo.Datetime.Calendar.RoundTrip.{day_number}
use libcymo.Datetime.Clock.{max_date_time, to_u64}
use libcymo.Datetime.Clock.Decode.{from-eq, rdn_to_ymd-IsDate, day_ticks}
use libcymo.Datetime.Iso.{
  ok, Tail, parse_fraction, parse_zone, head_ticks, datetime_from_iso8601, date_bytes, digits,
  fraction_bytes, offset_bytes, zone_bytes, dlen, timestamp_format_internal, precision_of,
  datetime_format,
}
use libcymo.Datetime.Iso.Read.{parse_head-date_bytes}
use libcymo.Datetime.Iso.ReadTail.{
  tail, offset_ticks, parse_fraction-none, parse_fraction-six, parse_fraction-nine, parse_zone_lem,
}

-- An offset of less than a day, in minutes.
abbrev pub IsOffset : ℤ → Type 0
IsOffset (pos n) = n < 1440
IsOffset (negsuc n) = suc n < 1440

-- The bytes that are written with precision `p`.
abbrev text : ℕ → Ymd → ℕ → ℕ → ℤ → List ℕ
text p t v us o = date_bytes t v (fraction_bytes p us (zone_bytes o (0 ∷ [])))

-- What is read back behind the second.
record Reads (s : List ℕ) (us : ℕ) (o : ℤ) : Type 0 where
  found : Tail
  frac : parse_fraction s (length s - 1) ≡ ok found
  zone : parse_zone s (length s - 1) found ≡ ok (offset_ticks o, length s - 1)
  micro : found.nsec / 1000 ≡ us / 1000
  long : 20 ≤ length s - 1

Reads-none : (t : Ymd) (v us : ℕ) (o : ℤ) → us ≡ 0 → IsOffset o → Reads (text 0 t v us o) us o
unfolding date_bytes fraction_bytes zone_bytes offset_bytes digits
Reads-none t v us (pos zero) h k = record {
  found = tail 0 20 b'Z';
  frac = parse_fraction-none t v us b'Z' _ 20 (inl refl);
  zone = unfold parse_zone in refl;
  micro = omega arith;
  long = omega arith;
}
Reads-none t v us (pos (suc n)) h k = record {
  found = tail 0 20 b'+';
  frac = parse_fraction-none t v us b'+' _ 25 (inr (inl refl));
  zone =
      parse_zone_lem (text 0 t v us (pos (suc n))) 0 20 (suc n) b'+' (omega arith) (inl refl) refl
        refl refl refl refl;
  micro = omega arith;
  long = omega arith;
}
Reads-none t v us (negsuc n) h k = record {
  found = tail 0 20 b'-';
  frac = parse_fraction-none t v us b'-' _ 25 (inr (inr refl));
  zone =
      parse_zone_lem (text 0 t v us (negsuc n)) 0 20 (suc n) b'-' (omega arith) (inr refl) refl refl
        refl refl refl;
  micro = omega arith;
  long = omega arith;
}

Reads-six :
    (t : Ymd) (v us : ℕ) (o : ℤ) → us < 1_000_000 → IsOffset o → Reads (text 6 t v us o) us o
unfolding date_bytes fraction_bytes zone_bytes offset_bytes digits
Reads-six t v us (pos zero) h k = record {
  found = tail (us / 1000 * 1000) 27 b'Z';
  frac = parse_fraction-six t v us b'Z' _ 27 (inl refl) h (omega arith);
  zone = unfold parse_zone in refl;
  micro = omega arith;
  long = omega arith;
}
Reads-six t v us (pos (suc n)) h k = record {
  found = tail (us / 1000 * 1000) 27 b'+';
  frac = parse_fraction-six t v us b'+' _ 32 (inr (inl refl)) h (omega arith);
  zone =
      parse_zone_lem (text 6 t v us (pos (suc n))) (us / 1000 * 1000) 27 (suc n) b'+' (omega arith)
        (inl refl) refl refl refl refl refl;
  micro = omega arith;
  long = omega arith;
}
Reads-six t v us (negsuc n) h k = record {
  found = tail (us / 1000 * 1000) 27 b'-';
  frac = parse_fraction-six t v us b'-' _ 32 (inr (inr refl)) h (omega arith);
  zone =
      parse_zone_lem (text 6 t v us (negsuc n)) (us / 1000 * 1000) 27 (suc n) b'-' (omega arith)
        (inr refl) refl refl refl refl refl;
  micro = omega arith;
  long = omega arith;
}

Reads-nine :
    (t : Ymd) (v us : ℕ) (o : ℤ) → us < 1_000_000 → IsOffset o → Reads (text 9 t v us o) us o
unfolding date_bytes fraction_bytes zone_bytes offset_bytes digits
Reads-nine t v us (pos zero) h k = record {
  found = tail us 30 b'Z';
  frac = parse_fraction-nine t v us b'Z' _ 30 (inl refl) h (omega arith);
  zone = unfold parse_zone in refl;
  micro = omega arith;
  long = omega arith;
}
Reads-nine t v us (pos (suc n)) h k = record {
  found = tail us 30 b'+';
  frac = parse_fraction-nine t v us b'+' _ 35 (inr (inl refl)) h (omega arith);
  zone =
      parse_zone_lem (text 9 t v us (pos (suc n))) us 30 (suc n) b'+' (omega arith) (inl refl) refl
        refl refl refl refl;
  micro = omega arith;
  long = omega arith;
}
Reads-nine t v us (negsuc n) h k = record {
  found = tail us 30 b'-';
  frac = parse_fraction-nine t v us b'-' _ 35 (inr (inr refl)) h (omega arith);
  zone =
      parse_zone_lem (text 9 t v us (negsuc n)) us 30 (suc n) b'-' (omega arith) (inr refl) refl
        refl refl refl refl;
  micro = omega arith;
  long = omega arith;
}

abbrev text_of : ℕ → ℤ → List ℕ
text_of dt o =
    let us = dt % ticks_per_day % ticks_per_second in
    text (precision_of us) (rdn_to_ymd (dt / ticks_per_day)) (dt % ticks_per_day / ticks_per_second)
      us o

Reads-text :
    (dt : ℕ) (o : ℤ) → IsOffset o → Reads (text_of dt o) (dt % ticks_per_day % ticks_per_second) o
unfolding precision_of
Reads-text dt o k =
    let us = dt % ticks_per_day % ticks_per_second in
    let t = rdn_to_ymd (dt / ticks_per_day) in
    let v = dt % ticks_per_day / ticks_per_second in
    let small : us < 1_000_000 = omega arith in
    let three : (us ≡ 0) ⊎ ((us % 1_000_000 == 0) ≡ false) = ground arith in
    elim (Bool-cases (us == 0)) [
      | inl z ↦ rw z (Reads-none t v us o (ground arith) k)
      | inr nz ↦
          let q : (us % 1_000_000 == 0) ≡ false = ground arith in
          elim (Bool-cases (us % 1_000 == 0)) [
            | inl m ↦ rw (nz, q, m) (Reads-six t v us o small k)
            | inr nm ↦ rw (nz, q, nm) (Reads-nine t v us o small k)
          ]
    ]

-- A text is written whole if `dst` is longer than the length that is computed.
datetime_format-eq :
    (len dt : ℕ) (o : ℤ)
    → dt ≤ max_date_time
    → dlen (precision_of (dt % ticks_per_day % ticks_per_second)) < len
    → datetime_format len dt o
      ≡ (text_of dt o, dlen (precision_of (dt % ticks_per_day % ticks_per_second)))
unfolding datetime_format timestamp_format_internal
datetime_format-eq len dt o h k =
    let us = dt % ticks_per_day % ticks_per_second in
    let a : u32 us ≡ us = omega arith in
    let b : u32 (dt / ticks_per_day) ≡ dt / ticks_per_day = omega arith in
    let c : u32 (dt % ticks_per_day / ticks_per_second % ticks_per_second)
        ≡ dt % ticks_per_day / ticks_per_second =
      omega arith in
    let d : leb len (dlen (precision_of us)) ≡ false = ground arith in rw (a, b, c, d)

-- A day number up to that of 9999-12-31 has a year of four digits.
year-le : (n : ℕ) → n ≤ 3_652_058 → (rdn_to_ymd n).year ≤ 9999
year-le n h = let (v, e) = rdn_to_ymd-IsDate n (omega arith) in omega (arith, v.year_in, e)

-- The time that is read back, in UTC and to the thousandth part of the microseconds.
abbrev pub read_back : ℕ → ℤ → ℕ
read_back dt o =
    let us = dt % ticks_per_second in u64 (dt - us + us / 1000 + 2 ^ 64 - to_u64 (offset_ticks o))

head_ticks-eq :
    (dt nsec : ℕ) (o : ℤ)
    → dt ≤ max_date_time
    → nsec / 1000 ≡ dt % ticks_per_second / 1000
    → let t = rdn_to_ymd (dt / ticks_per_day) in
      let v = dt % ticks_per_day / ticks_per_second in
      head_ticks
        (record {
          year = t.year;
          month = t.month;
          day = t.day;
          hour = v / 3600;
          min = v / 60 % 60;
          sec = v % 60;
        })
        nsec
        (offset_ticks o)
      ≡ read_back dt o
unfolding head_ticks
head_ticks-eq dt nsec o h e =
    let v = dt % ticks_per_day / ticks_per_second in
    let (d, n) = rdn_to_ymd-IsDate (dt / ticks_per_day) (omega arith) in
    let sum : day_number (rdn_to_ymd (dt / ticks_per_day)).year
              (rdn_to_ymd (dt / ticks_per_day)).month (rdn_to_ymd (dt / ticks_per_day)).day
            * ticks_per_day
          + day_ticks (v / 3600) (v / 60 % 60) (v % 60) (nsec / 1000)
        ≡ dt - dt % ticks_per_second + dt % ticks_per_second / 1000 =
      omega (arith, n, e) in
    rw (from-eq _ _ _ (v / 3600) (v / 60 % 60) (v % 60) (nsec / 1000) d (omega arith), sum)

-- Reading what `datetime_format` writes, of a time up to the year 9999 and with any offset of less
-- than a day, gives the time with its microseconds divided by 1000 and the offset taken off.
pub iso8601-format :
    (len dt : ℕ) (o : ℤ)
    → dt ≤ max_date_time
    → IsOffset o
    → dlen (precision_of (dt % ticks_per_day % ticks_per_second)) < len
    → let written = (datetime_format len dt o).0 in
      datetime_from_iso8601 written (length written - 1) ≡ ok (read_back dt o)
unfolding datetime_from_iso8601
iso8601-format len dt o h k l =
    let r = Reads-text dt o k in
    let us : dt % ticks_per_day % ticks_per_second ≡ dt % ticks_per_second = omega arith in
    let (d, n) = rdn_to_ymd-IsDate (dt / ticks_per_day) (omega arith) in
    rw
      (
        datetime_format-eq len dt o h l,
        parse_head-date_bytes (rdn_to_ymd (dt / ticks_per_day))
            (dt % ticks_per_day / ticks_per_second) _ d (year-le _ (omega arith)) (omega arith),
        r.frac,
        r.zone,
        head_ticks-eq dt r.found.nsec o h (r.micro ∙ ap (λ x. x / 1000) us),
      )
      (ground (arith, r.long))

ok_inj : {a b : ℕ} → ok a ≡ ok b → a ≡ b
ok_inj h = cc

read_back-eq_iff :
    (dt : ℕ) (o : ℤ)
    → dt ≤ max_date_time
    → IsOffset o
    → (read_back dt o ≡ dt) ↔ ((dt % ticks_per_second ≡ 0) × (o ≡ pos 0))
read_back-eq_iff dt (pos zero) h k = (λ e. (omega arith, refl), λ e. omega arith)
read_back-eq_iff dt (pos (suc n)) h k = (λ e. absurd (omega arith), λ e. cc)
read_back-eq_iff dt (negsuc n) h k = (λ e. absurd (ground arith), λ e. cc)

-- The text of a time up to the year 9999 is read back as that time exactly if the time is a whole
-- second and the offset is 0.
pub iso8601-format_iff :
    (len dt : ℕ) (o : ℤ)
    → dt ≤ max_date_time
    → IsOffset o
    → dlen (precision_of (dt % ticks_per_day % ticks_per_second)) < len
    → let written = (datetime_format len dt o).0 in
      (datetime_from_iso8601 written (length written - 1) ≡ ok dt)
      ↔ ((dt % ticks_per_second ≡ 0) × (o ≡ pos 0))
iso8601-format_iff len dt o h k l =
    let e = iso8601-format len dt o h k l in
    let f = read_back-eq_iff dt o h k in (λ r. f.0 (ok_inj (sym e ∙ r)), λ q. e ∙ ap ok (f.1 q))
