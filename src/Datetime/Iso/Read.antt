-- ===== src/Datetime/Iso/Read.antt =====
-- src/cymo_datetime.c: what `datetime_from_iso8601` reads from the bytes that `datetime_format`
-- writes, stage by stage.
use libcymo.Common.{
  ℕ, ◌+◌, ◌-◌, ◌*◌, ◌/◌, ◌%◌, ◌^◌, ◌≤◌, ◌<◌, ◌≡◌, refl, ap, arith, true, some, List, get_elem?, u8,
  leb,
}
use libcymo.Datetime.Calendar.{Ymd, month_days}
use libcymo.Datetime.Calendar.RoundTrip.{IsDate}
use libcymo.Datetime.Calendar.Days.{month_days-le}
use libcymo.Datetime.Iso.{ok, digit, parse_2d, parse_4d, parse_head, dec, date_bytes}

module _ (s : List ℕ) where
  digit_lem : (i a : ℕ) → get_elem? s i ≡ some (b'0' + a) → a ≤ 9 → digit s i ≡ ok a
  unfolding digit
  digit_lem i a e h =
      let v : u8 (b'0' + a + 2 ^ 8 - b'0') ≡ a = omega arith in
      let t : leb a 9 ≡ true = ground arith in ground arith

  pub parse_2d_lem :
      (i a b n : ℕ)
      → get_elem? s i ≡ some (b'0' + a)
      → get_elem? s (i + 1) ≡ some (b'0' + b)
      → a ≤ 9
      → b ≤ 9
      → a * 10 + b ≡ n
      → parse_2d s i ≡ ok n
  unfolding parse_2d
  parse_2d_lem i a b n e f h k q = rw (digit_lem i a e h, digit_lem (i + 1) b f k) (ap ok q)

  pub parse_4d_lem :
      (i y : ℕ)
      → y ≤ 9999
      → get_elem? s i ≡ some (dec (y / 10 / 10 / 10))
      → get_elem? s (i + 1) ≡ some (dec (y / 10 / 10))
      → get_elem? s (i + 2) ≡ some (dec (y / 10))
      → get_elem? s (i + 3) ≡ some (dec y)
      → parse_4d s i ≡ ok y
  unfolding parse_4d
  parse_4d_lem i y h a b c d =
      rw
        (
          digit_lem i (y / 10 / 10 / 10 % 10) a (omega arith),
          digit_lem (i + 1) (y / 10 / 10 % 10) b (omega arith),
          digit_lem (i + 2) (y / 10 % 10) c (omega arith),
          digit_lem (i + 3) (y % 10) d (omega arith),
        )
        (ap ok (omega arith))

-- The date and the second of the day are read back from `date_bytes`.
pub parse_head-date_bytes :
    (t : Ymd) (v : ℕ) (rest : List ℕ)
    → IsDate t.year t.month t.day
    → t.year ≤ 9999
    → v < 86_400
    → parse_head (date_bytes t v rest)
      ≡ ok (record {
        year = t.year;
        month = t.month;
        day = t.day;
        hour = v / 3600;
        min = v / 60 % 60;
        sec = v % 60;
      })
unfolding parse_head date_bytes
parse_head-date_bytes t v rest d y h =
    let s = date_bytes t v rest in
    let days_in : month_days t.year t.month ≤ 31 =
      month_days-le t.year t.month d.month_in.0 d.month_in.1 in
    rw
      (
        parse_4d_lem s 0 t.year y refl refl refl refl,
        parse_2d_lem s 5 (t.month / 10 % 10) (t.month % 10) t.month refl refl (omega arith)
            (omega arith) (omega arith),
        parse_2d_lem s 8 (t.day / 10 % 10) (t.day % 10) t.day refl refl (omega arith) (omega arith)
            (omega arith),
        parse_2d_lem s 11 (v / 10 / 6 / 10 / 6 / 10 % 10) (v / 10 / 6 / 10 / 6 % 10) (v / 3600) refl
            refl (omega arith) (omega arith) (omega arith),
        parse_2d_lem s 14 (v / 10 / 6 / 10 % 6) (v / 10 / 6 % 10) (v / 60 % 60) refl refl
            (omega arith) (omega arith) (omega arith),
        parse_2d_lem s 17 (v / 10 % 6) (v % 10) (v % 60) refl refl (omega arith) (omega arith)
            (omega arith),
      )
      (ground arith)
