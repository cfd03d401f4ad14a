-- ===== src/Datetime/Iso/Ensures.antt =====
-- src/cymo_datetime.c: the parts of `datetime_from_iso8601`, taken apart by what they return.
use libcymo.Common.{ℕ, ◌+◌, ◌-◌, ◌*◌, ◌^◌, ◌≤◌, ◌≡◌, refl, arith, Bool, true, false, List, u8, leb}
use libcymo.Datetime.Iso.{
  Parse, ok, invalid, overread, ◌>>=◌, check, byte, digit, parse_2d, parse_4d,
}

-- What is parsed has passed each part of its parser.
pub >>=-ok {ℓ κ} :
    {A : Type ℓ} {B : Type κ} (m : Parse A) (f : A → Parse B) (b : B)
    → (m >>= f) ≡ ok b
    → (a : A) × (m ≡ ok a) × (f a ≡ ok b)
>>=-ok (ok a) f b e = (a, refl, e)
>>=-ok invalid f b e = cc
>>=-ok overread f b e = cc

pub ok-inj {ℓ} : {A : Type ℓ} (a b : A) → Parse.ok a ≡ Parse.ok b → a ≡ b
ok-inj a b e = cc e

pub check-ok : (b : Bool) (u : Unit {0}) → check b ≡ ok u → b ≡ true
check-ok true u e = refl
check-ok false u e = cc

-- What holds of each result of a parser, by its parts.
abbrev pub Ensures {ℓ κ} : {A : Type ℓ} → (A → Type κ) → Parse A → Type (ℓ ⊔ κ)
Ensures P m = (b : _) → m ≡ ok b → P b

pub >>=-Ensures {ℓ κ μ} :
    {A : Type ℓ} {B : Type κ} {P : B → Type μ} (m : Parse A) (f : A → Parse B)
    → ((a : A) → m ≡ ok a → Ensures P (f a))
    → Ensures P (m >>= f)
>>=-Ensures m f k b e = let (a, parsed, rest) = >>=-ok m f b e in k a parsed b rest

pub check-Ensures {ℓ μ} :
    {B : Type ℓ} {P : B → Type μ} (c : Bool) (k : Parse B)
    → (c ≡ true → Ensures P k)
    → Ensures P (check c >>= λ u. k)
check-Ensures true k h b e = h refl b e
check-Ensures false k h b e = cc

module _ (s : List ℕ) where
  pub digit-le : (i d : ℕ) → digit s i ≡ ok d → d ≤ 9
  unfolding digit
  digit-le i d e =
      let (c, _, e1) = >>=-ok (byte s i) _ d e in
      let (u, passed, end) = >>=-ok (check (leb (u8 (c + 2 ^ 8 - b'0')) 9)) _ d e1 in
      let small = check-ok _ u passed in
      let same : u8 (c + 2 ^ 8 - b'0') ≡ d = cc end in ground (arith, small, same)

  pub parse_2d-le : (i n : ℕ) → parse_2d s i ≡ ok n → n ≤ 99
  unfolding parse_2d
  parse_2d-le i n e =
      let (d0, first, e1) = >>=-ok (digit s i) _ n e in
      let (d1, second, end) = >>=-ok (digit s (i + 1)) _ n e1 in
      let same : d0 * 10 + d1 ≡ n = cc end in
      omega (arith, same, digit-le i d0 first, digit-le (i + 1) d1 second)

  pub parse_4d-le : (i n : ℕ) → parse_4d s i ≡ ok n → n ≤ 9999
  unfolding parse_4d
  parse_4d-le i n e =
      let (d0, a, e1) = >>=-ok (digit s i) _ n e in
      let (d1, b, e2) = >>=-ok (digit s (i + 1)) _ n e1 in
      let (d2, c, e3) = >>=-ok (digit s (i + 2)) _ n e2 in
      let (d3, d, end) = >>=-ok (digit s (i + 3)) _ n e3 in
      let same : d0 * 1000 + d1 * 100 + d2 * 10 + d3 ≡ n = cc end in
      omega (
        arith,
        same,
        digit-le i d0 a,
        digit-le (i + 1) d1 b,
        digit-le (i + 2) d2 c,
        digit-le (i + 3) d3 d,
      )
