-- ===== src/Memory.antt =====
-- Memory as the C code sees it: addresses, heaps of one type of object each, and undefined
-- behaviour as a result.
use libcymo.Common.{
  ℕ, Option, none, some, Bool, true, false, ◌≡◌, refl, ◌==◌, if◌then◌else◌, ◌≢◌, arith,
}

-- An address; 0 is NULL.
abbrev pub Addr : Type 0
Addr = ℕ

abbrev pub Heap : Type 0 → Type 0
Heap A = Addr → Option A

-- `some` stores an object at the address, `none` frees it.
unfoldable pub update : {A : Type 0} → Heap A → Addr → Option A → Heap A
update h p v a = if a == p then v else h a

pub update_self : {A : Type 0} (h : Heap A) (p : Addr) (v : Option A) → update h p v p ≡ v
unfolding update
update_self h p v = ground arith

pub update_ne : {A : Type 0} (h : Heap A) (p a : Addr) (v : Option A) → a ≢ p → update h p v a ≡ h a
unfolding update
update_ne h p a v n = ground arith

-- `fault` stands for undefined behaviour, such as an access through a pointer to no object or past
-- its block, and for an assertion that fails; `out_of_fuel` says that a loop of the model has used
-- up its rounds.
pub data Outcome {ℓ} (A : Type ℓ) : Type ℓ where
  ok : A → Outcome A
  fault out_of_fuel : Outcome A

infixl 5 ◌>>=◌ ◌>>◌
abbrev pub ◌>>=◌ {ℓ κ} : {A : Type ℓ} {B : Type κ} → Outcome A → (A → Outcome B) → Outcome B
ok a >>= f = f a
fault >>= f = fault
out_of_fuel >>= f = out_of_fuel

abbrev pub ◌>>◌ {ℓ} : {B : Type ℓ} → Outcome (Unit {0}) → Outcome B → Outcome B
m >> k = m >>= λ _. k

-- A read through a pointer.
abbrev pub load : {A : Type 0} → Heap A → Addr → Outcome A
load h p = elim (h p) [ none ↦ fault | some a ↦ ok a ]

pub load-some : {A : Type 0} (h : Heap A) (p : Addr) (a : A) → h p ≡ some a → load h p ≡ ok a
load-some h p a e = rw (e, load) refl

abbrev pub assert : Bool → Outcome (Unit {0})
assert true = ok tt
assert false = fault

pub >>=-assoc {ℓ κ μ} :
    {A : Type ℓ} {B : Type κ} {C : Type μ} (m : Outcome A) (f : A → Outcome B) (g : B → Outcome C)
    → ((m >>= f) >>= g) ≡ (m >>= λ a. f a >>= g)
>>=-assoc (ok a) f g = refl
>>=-assoc fault f g = refl
>>=-assoc out_of_fuel f g = refl

-- What returns has run its first part.
pub >>=-ok {ℓ κ} :
    {A : Type ℓ} {B : Type κ} (m : Outcome A) (f : A → Outcome B) (b : B)
    → (m >>= f) ≡ ok b
    → (a : A) × (m ≡ ok a) × (f a ≡ ok b)
>>=-ok (ok a) f b e = (a, refl, e)
>>=-ok fault f b e = cc
>>=-ok out_of_fuel f b e = cc
