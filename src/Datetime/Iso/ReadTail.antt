-- ===== src/Datetime/Iso/ReadTail.antt =====
-- src/cymo_datetime.c: the fraction and the zone that `datetime_from_iso8601` reads.
use libcymo.Common.{
  ℕ, zero, suc, ◌+◌, ◌-◌, ◌*◌, ◌/◌, ◌%◌, ◌^◌, ◌≤◌, ◌<◌, ◌≡◌, refl, ◌∙◌, arith, some, List, [], ◌∷◌,
  get_elem?, length, u8, u32, ◌==◌, if◌then◌else◌, ◌⊎◌,
}
use libcymo.Common.Int.{ℤ, pos, negsuc, sub_ℕ}
use libcymo.Datetime.Calendar.{Ymd, ticks_per_second}
use libcymo.Datetime.Iso.{
  ok, Tail, scan_digits, parse_digits, parse_fraction, parse_zone, dec, six, date_bytes, digits,
  fraction_bytes,
}
use libcymo.Datetime.Iso.Read.{parse_2d_lem}

-- The decimal digits `ds` stand in `s` from position `i` on.
abbrev At : List ℕ → ℕ → List ℕ → Type 0
At s i [] = Unit
At s i (d ∷ ds) = (get_elem? s i ≡ some (b'0' + d)) × (d ≤ 9) × At s (i + 1) ds

abbrev value : ℕ → List ℕ → ℕ
value acc [] = acc
value acc (d ∷ ds) = value (u32 (acc * 10 + d)) ds

module _ (s : List ℕ) where
  scan_step :
      (left i d acc : ℕ)
      → get_elem? s i ≡ some (b'0' + d)
      → d ≤ 9
      → scan_digits s (suc left) i acc ≡ scan_digits s left (i + 1) (u32 (acc * 10 + d))
  unfolding scan_digits
  scan_step left i d acc e h =
      let v : u8 (b'0' + d + 2 ^ 8 - b'0') ≡ d = omega arith in ground arith

  scan_stop :
      (left i c acc : ℕ)
      → get_elem? s i ≡ some c
      → 10 ≤ u8 (c + 2 ^ 8 - b'0')
      → scan_digits s (suc left) i acc ≡ ok (acc, i)
  unfolding scan_digits
  scan_stop left i c acc e h = ground arith

  -- The loop over digits that a byte follows which is no digit.
  scan_lem :
      (ds : List ℕ) (left i j c acc : ℕ)
      → At s i ds
      → get_elem? s j ≡ some c
      → 10 ≤ u8 (c + 2 ^ 8 - b'0')
      → length ds < left
      → i + length ds ≡ j
      → scan_digits s left i acc ≡ ok (value acc ds, j)
  scan_lem ds zero i j c acc a e h k q = absurd (omega arith)
  scan_lem [] (suc left) i j c acc a e h k q =
      let r : i ≡ j = omega arith in rw r (scan_stop left j c acc e h)
  scan_lem (d ∷ ds) (suc left) i j c acc a e h k q =
      scan_step left i d acc a.0 a.1
      ∙ scan_lem ds left (i + 1) j c (u32 (acc * 10 + d)) a.2 e h (omega arith) (omega arith)

-- A byte that ends the digits and begins a zone.
abbrev pub IsZoneStart : ℕ → Type 0
IsZoneStart c = (c ≡ b'Z') ⊎ ((c ≡ b'+') ⊎ (c ≡ b'-'))

abbrev pub tail : ℕ → ℕ → ℕ → Tail
tail n i c = record { nsec = n; cur = i; ch = c }

ends_digits : (c : ℕ) → IsZoneStart c → 10 ≤ u8 (c + 2 ^ 8 - b'0')
ends_digits c z = omega arith

abbrev six_digits : ℕ → List ℕ
six_digits w =
    w / 10 / 10 / 10 / 10 / 10 % 10
    ∷ w / 10 / 10 / 10 / 10 % 10
    ∷ w / 10 / 10 / 10 % 10
    ∷ w / 10 / 10 % 10
    ∷ w / 10 % 10
    ∷ w % 10
    ∷ []

abbrev nine_digits : ℕ → List ℕ
nine_digits w =
    w / 10 / 10 / 10 / 10 / 10 / 10 / 10 / 10 % 10
    ∷ w / 10 / 10 / 10 / 10 / 10 / 10 / 10 % 10
    ∷ w / 10 / 10 / 10 / 10 / 10 / 10 % 10
    ∷ six_digits w

value_six : (w : ℕ) → w < 1_000_000 → value 0 (six_digits w) ≡ w
value_six w h = omega arith

value_nine : (w : ℕ) → w < 1_000_000 → value 0 (nine_digits w) ≡ w
value_nine w h = omega arith

module _ (t : Ymd) (v f c : ℕ) (rest : List ℕ) (len : ℕ) (z : IsZoneStart c) where
  pub parse_fraction-none :
      parse_fraction (date_bytes t v (fraction_bytes 0 f (c ∷ rest))) len ≡ ok (tail 0 20 c)
  unfolding parse_fraction date_bytes fraction_bytes
  parse_fraction-none = ground arith

  pub parse_fraction-six :
      f < 1_000_000
      → 27 ≤ len
      → parse_fraction (date_bytes t v (fraction_bytes 6 f (c ∷ rest))) len
        ≡ ok (tail (f / 1000 * 1000) 27 c)
  unfolding parse_fraction date_bytes fraction_bytes parse_digits digits
  parse_fraction-six h k =
      let w = f / 1000 in
      let s = date_bytes t v (fraction_bytes 6 f (c ∷ rest)) in
      rw
        (
          scan_lem s (six_digits w) (len - 20) 20 26 c 0
              (
                refl,
                omega arith,
                (
                  refl,
                  omega arith,
                  (
                    refl,
                    omega arith,
                    (refl, omega arith, (refl, omega arith, (refl, omega arith, tt))),
                  ),
                ),
              )
              refl (ends_digits c z) (omega arith) refl,
          value_six w (omega arith),
        )
        (ground arith)

  pub parse_fraction-nine :
      f < 1_000_000
      → 30 ≤ len
      → parse_fraction (date_bytes t v (fraction_bytes 9 f (c ∷ rest))) len ≡ ok (tail f 30 c)
  unfolding parse_fraction date_bytes fraction_bytes parse_digits digits
  parse_fraction-nine h k =
      let w = f / 1 in
      let e : w ≡ f = omega arith in
      let s = date_bytes t v (fraction_bytes 9 f (c ∷ rest)) in
      rw
        (
          scan_lem s (nine_digits w) (len - 20) 20 29 c 0
              (
                refl,
                omega arith,
                (
                  refl,
                  omega arith,
                  (
                    refl,
                    omega arith,
                    (
                      refl,
                      omega arith,
                      (
                        refl,
                        omega arith,
                        (
                          refl,
                          omega arith,
                          (refl, omega arith, (refl, omega arith, (refl, omega arith, tt))),
                        ),
                      ),
                    ),
                  ),
                ),
              )
              refl (ends_digits c z) (omega arith) refl,
          value_nine w (omega arith),
        )
        (ground arith)

-- The ticks of an offset in minutes.
abbrev pub offset_ticks : ℤ → ℤ
offset_ticks (pos n) = pos (n * 60 * ticks_per_second)
offset_ticks (negsuc n) = sub_ℕ 0 (suc n * 60 * ticks_per_second)

module _ (s : List ℕ) (n i v c : ℕ) where
  -- Five bytes of hours and minutes, as `offset_bytes` writes them behind the sign.
  pub parse_zone_lem :
      v < 1440
      → (c ≡ b'+') ⊎ (c ≡ b'-')
      → get_elem? s i ≡ some (dec (v / 10 / 6 / 10))
      → get_elem? s (i + 1) ≡ some (dec (v / 10 / 6))
      → get_elem? s (i + 2) ≡ some b':'
      → get_elem? s (i + 3) ≡ some (six (v / 10))
      → get_elem? s (i + 4) ≡ some (dec v)
      → parse_zone s (i + 5) (tail n i c)
        ≡ ok (
          if c == b'-'
              then sub_ℕ 0 (v * 60 * ticks_per_second)
              else pos (v * 60 * ticks_per_second),
          i + 5,
        )
  unfolding parse_zone
  parse_zone_lem h z a b d e f =
      let e4 : i + 3 + 1 ≡ i + 4 = omega arith in
      let minutes : v / 60 * 60 + v % 60 ≡ v = omega arith in
      rw
        (
          parse_2d_lem s i (v / 10 / 6 / 10 % 10) (v / 10 / 6 % 10) (v / 60) a b (omega arith)
              (omega arith) (omega arith),
          parse_2d_lem s (i + 3) (v / 10 % 6) (v % 10) (v % 60) e (rw e4 f) (omega arith)
              (omega arith) (omega arith),
        )
        (ground (arith, minutes))
