-- ===== src/Datetime/Iso/Bounds.antt =====
-- src/cymo_datetime.c: how many bytes `datetime_format` writes, and where `datetime_from_iso8601`
-- reads past the end of its text.
use libcymo.Common.{
  ℕ, zero, suc, ◌+◌, ◌-◌, ◌/◌, ◌%◌, ◌≤◌, ◌<◌, ◌≡◌, ◌≢◌, ◌↔◌, refl, arith, false, some, List, [],
  ◌∷◌, get_elem?, get_elem?-none, get_or, length, u32, leb, if◌then◌else◌, ◌⊎◌, inl, inr,
  Bool-cases,
}
use libcymo.Common.Int.{ℤ, pos, negsuc}
use libcymo.Datetime.Calendar.{ticks_per_second, ticks_per_day}
use libcymo.Datetime.Iso.{
  pow10, ok, overread, Head, parse_head, parse_fraction, parse_zone, datetime_from_iso8601,
  date_bytes, digits, fraction_bytes, offset_bytes, zone_bytes, dlen, timestamp_format_internal,
  precision_of, datetime_format,
}

length-digits : (n v : ℕ) (rest : List ℕ) → length (digits n v rest) ≡ n + length rest
unfolding digits
length-digits zero v rest = omega arith
length-digits (suc n) v rest = omega (arith, length-digits n (v / 10) ((b'0' + v % 10) ∷ rest))

-- The bytes of a zone: one for UTC, six for an offset.
abbrev pub zone_length : ℤ → ℕ
zone_length (pos zero) = 1
zone_length o = 6

length-zone_bytes :
    (o : ℤ) (rest : List ℕ) → length (zone_bytes o rest) ≡ zone_length o + length rest
unfolding zone_bytes offset_bytes
length-zone_bytes (pos zero) rest = omega arith
length-zone_bytes (pos (suc n)) rest = omega arith
length-zone_bytes (negsuc n) rest = omega arith

length-fraction_bytes :
    (p us : ℕ) (rest : List ℕ) → length (fraction_bytes p us rest) + 20 ≡ dlen p + length rest
unfolding fraction_bytes dlen
length-fraction_bytes p us rest = ground (arith, length-digits p (us / get_or pow10 (9 - p) 0) rest)

-- What is written takes the computed length, five bytes more for an offset, and the final 0.
pub length-datetime_format :
    (len dt : ℕ) (o : ℤ)
    → let p = precision_of (u32 (dt % ticks_per_day % ticks_per_second)) in
      length (datetime_format len dt o).0 ≡ (if leb len (dlen p) then 0 else dlen p + zone_length o)
unfolding datetime_format timestamp_format_internal date_bytes
length-datetime_format len dt o =
    let us = u32 (dt % ticks_per_day % ticks_per_second) in
    let p = precision_of us in
    elim (Bool-cases (leb len (dlen p))) [
      | inl short ↦ rw short
      | inr fits ↦ rw fits (
          omega (
            arith,
            length-fraction_bytes p us (zone_bytes o (0 ∷ [])),
            length-zone_bytes o (0 ∷ []),
          ))
    ]

zone_length-cases :
    (o : ℤ) → ((o ≡ pos 0) × (zone_length o ≡ 1)) ⊎ ((o ≢ pos 0) × (zone_length o ≡ 6))
zone_length-cases (pos zero) = inl (refl, refl)
zone_length-cases (pos (suc n)) = inr (λ e. cc, refl)
zone_length-cases (negsuc n) = inr (λ e. cc, refl)

-- The precision for a time.
abbrev pub precision_at : ℕ → ℕ
precision_at dt = precision_of (u32 (dt % ticks_per_day % ticks_per_second))

-- Of a `dst` of `len` bytes that is longer than the computed length, the bytes written run past the
-- end exactly if there is an offset and `len` is less than the computed length and 6.
pub format_overruns :
    (len dt : ℕ) (o : ℤ)
    → dlen (precision_at dt) < len
    → (len < length (datetime_format len dt o).0)
      ↔ ((o ≢ pos 0) × (len < dlen (precision_at dt) + 6))
format_overruns len dt o h =
    let fits : leb len (dlen (precision_at dt)) ≡ false = ground arith in
    let e = rw fits at (length-datetime_format len dt o) in
    elim (zone_length-cases o) [
      | inl (z, one) ↦ (λ l. absurd (omega (arith, e, one)), λ q. absurd (q.0 z))
      | inr (nz, six) ↦ (λ l. (nz, omega (arith, e, six)), λ q. omega (arith, e, six))
    ]

-- A text that ends soon behind the sign of its offset is read past its end: with a valid date and
-- time, `+` or `-` at index 19 and at most 22 readable bytes, the byte at index 22 is read.
pub iso8601_overread :
    (s : List ℕ) (len c : ℕ) (h : Head)
    → parse_head s ≡ ok h
    → get_elem? s 19 ≡ some c
    → (c ≡ b'+') ⊎ (c ≡ b'-')
    → 20 ≤ len
    → len ≤ length s
    → length s ≤ 22
    → datetime_from_iso8601 s len ≡ overread
unfolding datetime_from_iso8601 parse_fraction parse_zone
iso8601_overread s len c h e f z a b k = rw e (ground (arith, get_elem?-none s 22 k))
