-- ===== src/Datetime/Iso.antt =====
-- src/cymo_datetime.c, ISO 8601 text: `datetime_from_iso8601` and `datetime_format`. A text is the
-- list of the bytes that can be read or are written, from its first byte on.
pub mod Read
pub mod ReadTail
pub mod RoundTrip
pub mod Bounds
pub mod Ensures
pub mod Moment
pub mod Shift
pub mod Accept
mod Tests
use libcymo.Common.{
  ℕ, zero, suc, ◌+◌, ◌-◌, ◌*◌, ◌/◌, ◌%◌, ◌^◌, Bool, true, false, not, ◌&&◌, ◌||◌, Option, none,
  some, List, [], ◌∷◌, ◌++◌, get_or, get_elem?, length, u8, u16, u32, u64, ltb, leb, ◌==◌,
  if◌then◌else◌,
}
use libcymo.Common.Int.{ℤ, pos, negsuc, sub_ℕ}
use libcymo.Datetime.Calendar.{
  ticks_per_second, ticks_per_day, Ymd, rdn_to_ymd, month_days, datetime_from_ymd,
}
use libcymo.Datetime.Clock.{to_u64, datetime_from_hmsu}

-- `invalid` is the return value 1; `overread` is a read past the bytes that there are.
pub data Parse {ℓ} (A : Type ℓ) : Type ℓ where
  ok : A → Parse A
  invalid overread : Parse A

infixl 5 ◌>>=◌ ◌>>◌
abbrev pub ◌>>=◌ {ℓ κ} : {A : Type ℓ} {B : Type κ} → Parse A → (A → Parse B) → Parse B
ok a >>= f = f a
invalid >>= f = invalid
overread >>= f = overread

abbrev pub ◌>>◌ {ℓ} : {B : Type ℓ} → Parse (Unit {0}) → Parse B → Parse B
m >> k = m >>= λ _. k

-- `if (!b) return 1;`
abbrev pub check : Bool → Parse (Unit {0})
check true = ok tt
check false = invalid

abbrev pub pow10 : List ℕ
pow10 =
    1 ∷ 10 ∷ 100 ∷ 1_000 ∷ 10_000 ∷ 100_000 ∷ 1_000_000 ∷ 10_000_000 ∷ 100_000_000 ∷ 1_000_000_000
    ∷ []

module _ (s : List ℕ) where
  -- `p[i]`
  abbrev pub byte : ℕ → Parse ℕ
  byte i = elim (get_elem? s i) [ none ↦ overread | some c ↦ ok c ]

  -- `(d = p[i] - '0') > 9` refuses; `d` is an `unsigned char`.
  unfoldable pub digit : ℕ → Parse ℕ
  digit i = do c ← byte i; let d = u8 (c + 2 ^ 8 - b'0'); check (leb d 9); ok d

  unfoldable pub parse_2d : ℕ → Parse ℕ
  parse_2d i = do d0 ← digit i; d1 ← digit (i + 1); ok (d0 * 10 + d1)

  unfoldable pub parse_4d : ℕ → Parse ℕ
  parse_4d i = do
    d0 ← digit i
    d1 ← digit (i + 1)
    d2 ← digit (i + 2)
    d3 ← digit (i + 3)
    ok (d0 * 1000 + d1 * 100 + d2 * 10 + d3)

  -- `p[i] == c`, or return 1.
  abbrev pub expect : ℕ → ℕ → Parse (Unit {0})
  expect i c = byte i >>= λ b. check (b == c)

-- The date and the time of day, to the second.
pub record Head : Type 0 where
  pub year : ℕ
  pub month : ℕ
  pub day : ℕ
  pub hour : ℕ
  pub min : ℕ
  pub sec : ℕ

-- The tests and reads of the first 19 bytes.
unfoldable pub parse_head : List ℕ → Parse Head
parse_head s = do
  expect s 4 b'-'
  expect s 7 b'-'
  expect s 13 b':'
  expect s 16 b':'
  ch ← byte s 10
  check ((ch == b'T') || (ch == b' ') || (ch == b't'))
  year ← parse_4d s 0
  check (leb 1 year)
  month ← parse_2d s 5
  check (leb 1 month && leb month 12)
  day ← parse_2d s 8
  check (leb 1 day && leb day 31)
  hour ← parse_2d s 11
  check (leb hour 23)
  min ← parse_2d s 14
  check (leb min 59)
  sec ← parse_2d s 17
  check (leb sec 59)
  check (leb day 28 || leb day (month_days year month))
  ok (record { year = year; month = month; day = day; hour = hour; min = min; sec = sec })

-- The loop over the digits of a fraction, with `end - cur` rounds left; the results are `nsec` and
-- `cur`.
pub scan_digits : List ℕ → ℕ → ℕ → ℕ → Parse (ℕ × ℕ)
scan_digits s zero cur nsec = ok (nsec, cur)
scan_digits s (suc left) cur nsec = byte s cur >>= λ c.
    let d = u8 (c + 2 ^ 8 - b'0') in
    let rest = scan_digits s left (cur + 1) (u32 (nsec * 10 + d)) in
    if ltb 9 d then ok (nsec, cur) else rest

-- The state between the stages: nanoseconds, the position and the byte before it.
pub record Tail : Type 0 where
  pub nsec : ℕ
  pub cur : ℕ
  pub ch : ℕ

-- The fraction behind a `.`, in nanoseconds.
unfoldable pub parse_digits : List ℕ → ℕ → Parse Tail
parse_digits s len = do
  (nsec, cur) ← scan_digits s (len - 20) 20 0
  let ndigits = cur - 20
  check (leb 1 ndigits && leb ndigits 9)
  check (not (cur == len))
  ch ← byte s cur
  ok (record { nsec = u32 (nsec * get_or pow10 (9 - ndigits) 0); cur = cur + 1; ch = ch })

unfoldable pub parse_fraction : List ℕ → ℕ → Parse Tail
parse_fraction s len = do
  ch ← byte s 19
  if ch == b'.' then parse_digits s len else ok (record { nsec = 0; cur = 20; ch = ch })

-- The offset in ticks, and the position behind it.
unfoldable pub parse_zone : List ℕ → ℕ → Tail → Parse (ℤ × ℕ)
parse_zone s len t = if (t.ch == b'Z') || (t.ch == b'z') then ok (pos 0, t.cur) else (do
  check (leb len (t.cur + 5))
  check ((t.ch == b'+') || (t.ch == b'-'))
  expect s (t.cur + 2) b':'
  zone_hour ← parse_2d s t.cur
  check (leb zone_hour 23)
  zone_min ← parse_2d s (t.cur + 3)
  check (leb zone_min 59)
  let ticks = (zone_hour * 60 + zone_min) * 60 * ticks_per_second
  ok (if t.ch == b'-' then sub_ℕ 0 ticks else pos ticks, t.cur + 5))

-- `*dt -= offset` on the sum of the date and the time.
unfoldable pub head_ticks : Head → ℕ → ℤ → ℕ
head_ticks h nsec offset =
    let dt = u64 (
      datetime_from_ymd h.year h.month h.day
      + datetime_from_hmsu h.hour h.min h.sec (nsec / 1000)) in
    u64 (dt + 2 ^ 64 - to_u64 offset)

-- `s` is the readable memory from `str` on, of which `len` bytes are the text.
unfoldable pub datetime_from_iso8601 : List ℕ → ℕ → Parse ℕ
datetime_from_iso8601 s len = do
  check (leb 20 len)
  h ← parse_head s
  t ← parse_fraction s len
  (offset, cur) ← parse_zone s len t
  check (cur == len)
  ok (head_ticks h t.nsec offset)

-- `'0' + v % 10` and `'0' + v % 6`.
abbrev pub dec : ℕ → ℕ
dec v = b'0' + v % 10

abbrev pub six : ℕ → ℕ
six v = b'0' + v % 6

-- `YYYY-MM-DDThh:mm:ss`, from the date and the second of the day.
unfoldable pub date_bytes : Ymd → ℕ → List ℕ → List ℕ
date_bytes t v rest =
    dec (t.year / 10 / 10 / 10)
    ∷ dec (t.year / 10 / 10)
    ∷ dec (t.year / 10)
    ∷ dec t.year
    ∷ b'-'
    ∷ dec (t.month / 10)
    ∷ dec t.month
    ∷ b'-'
    ∷ dec (t.day / 10)
    ∷ dec t.day
    ∷ b'T'
    ∷ dec (v / 10 / 6 / 10 / 6 / 10)
    ∷ dec (v / 10 / 6 / 10 / 6)
    ∷ b':'
    ∷ six (v / 10 / 6 / 10)
    ∷ dec (v / 10 / 6)
    ∷ b':'
    ∷ six (v / 10)
    ∷ dec v
    ∷ rest

-- The `n` lowest decimal digits of `v`, as the cases of the `switch` write them from the last one on.
unfoldable pub digits : ℕ → ℕ → List ℕ → List ℕ
digits zero v rest = rest
digits (suc n) v rest = digits n (v / 10) (dec v ∷ rest)

unfoldable pub fraction_bytes : ℕ → ℕ → List ℕ → List ℕ
fraction_bytes precision nsec rest =
    if precision == 0
    then rest
    else b'.' ∷ digits precision (nsec / get_or pow10 (9 - precision) 0) rest

-- The sign and `v`, the minutes of the offset.
unfoldable pub offset_bytes : ℕ → ℕ → List ℕ → List ℕ
offset_bytes sign v rest =
    sign ∷ dec (v / 10 / 6 / 10) ∷ dec (v / 10 / 6) ∷ b':' ∷ six (v / 10) ∷ dec v ∷ rest

unfoldable pub zone_bytes : ℤ → List ℕ → List ℕ
zone_bytes (pos zero) rest = b'Z' ∷ rest
zone_bytes (pos (suc n)) rest = offset_bytes b'+' (suc n) rest
zone_bytes (negsuc n) rest = offset_bytes b'-' (suc n) rest

-- The length that `timestamp_format_internal` computes and returns.
unfoldable pub dlen : ℕ → ℕ
dlen precision = if precision == 0 then 20 else 20 + (1 + precision)

-- The bytes that are written to `dst`, the final 0 included, and the result. Nothing is written
-- where `len` is at most the computed length.
unfoldable pub timestamp_format_internal : ℕ → ℕ → ℤ → ℕ → List ℕ × ℕ
timestamp_format_internal len dt zone_offset precision =
    let sec = dt % ticks_per_day / ticks_per_second in
    let rdn = u32 (dt / ticks_per_day) in
    let nsec = u32 (dt % ticks_per_day % ticks_per_second) in
    let written =
      date_bytes (rdn_to_ymd rdn) (u32 (sec % ticks_per_second))
        (fraction_bytes precision nsec (zone_bytes zone_offset (0 ∷ []))) in
    if leb len (dlen precision) then ([], 0) else (written, dlen precision)

-- The precision that `datetime_format` picks for the microseconds `f`.
unfoldable pub precision_of : ℕ → ℕ
precision_of f =
    if f == 0 then 0 else if f % 1_000_000 == 0 then 3 else if f % 1_000 == 0 then 6 else 9

-- `offset`, a `long`, is within the range that the source gives, -1439 to 1439, so that it is the
-- same as an `int32_t`.
unfoldable pub datetime_format : ℕ → ℕ → ℤ → List ℕ × ℕ
datetime_format len dt offset =
    timestamp_format_internal len dt offset
      (precision_of (u32 (dt % ticks_per_day % ticks_per_second)))
