-- ===== src/Tree/Place.antt =====
-- Where a search tree puts a new node: behind the nodes with a key up to its own.
use libcymo.Common.{
  ℕ, ◌≤◌, ◌<◌, ◌≡◌, refl, ap, arith, Option, none, some, List, [], ◌∷◌, ◌++◌, Ordering, leb,
  if◌then◌else◌, Bool-cases, inl, inr, ◌⊎◌,
}
use libcymo.Memory.{Outcome, ok, fault, out_of_fuel, ◌>>=◌}
use libcymo.Tree.{Shape, leaf, node, elems, descend, branch, graft}

abbrev pub All {ℓ κ} : {A : Type ℓ} → (A → Type κ) → List A → Type κ
All P [] = Unit
All P (x ∷ l) = P x × All P l

pub All-map {ℓ κ μ} :
    {A : Type ℓ} {P : A → Type κ} {Q : A → Type μ} (l : List A)
    → ((a : A) → P a → Q a)
    → All P l
    → All Q l
All-map [] f h = tt
All-map (x ∷ l) f h = (f x h.0, All-map l f h.1)

pub All-both {ℓ κ μ} :
    {A : Type ℓ} (P : A → Type κ) (Q : A → Type μ) (l : List A)
    → All P l
    → All Q l
    → All (λ a. P a × Q a) l
All-both P Q [] h k = tt
All-both P Q (x ∷ l) h k = ((h.0, k.0), All-both P Q l h.1 k.1)

pub All-split {ℓ κ} :
    {A : Type ℓ} (P : A → Type κ) (l r : List A) → All P (l ++ r) → All P l × All P r
All-split P [] r h = (tt, h)
All-split P (x ∷ l) r h = let k = All-split P l r h.1 in ((h.0, k.0), k.1)

-- A comparison that does not fail.
abbrev pub Answers : Outcome Ordering → Type 0
Answers (ok s) = Unit
Answers fault = ⊥
Answers out_of_fuel = ⊥

Answers-cases :
    (o : Outcome Ordering)
    → Answers o
    → (o ≡ ok Ordering.lt) ⊎ (o ≡ ok Ordering.eq) ⊎ (o ≡ ok Ordering.gt)
Answers-cases (ok Ordering.lt) a = inl refl
Answers-cases (ok Ordering.eq) a = inr (inl refl)
Answers-cases (ok Ordering.gt) a = inr (inr refl)
Answers-cases fault a = absurd a
Answers-cases out_of_fuel a = absurd a

-- A search without failures finds nothing, or a node that compares equal.
pub descend-cases {ℓ κ} :
    {A : Type ℓ} (P : A → Type κ) (f : A → Outcome Ordering) (t : Shape A)
    → All (λ y. Answers (f y) × P y) (elems t)
    → (descend f t ≡ ok none)
      ⊎ ((y : A) × (descend f t ≡ ok (some y)) × (f y ≡ ok Ordering.eq) × P y)
unfolding elems descend
descend-cases P f leaf a = inl refl
descend-cases P f (node l y r) a =
    let (al, ay) = All-split (λ z. Answers (f z) × P z) (elems l) (y ∷ elems r) a in
    elim (Answers-cases (f y) ay.0.0) [
      | inl lt ↦ rw lt (descend-cases P f l al)
      | inr (inl eq) ↦ inr (y, rw eq refl, eq, ay.0.1)
      | inr (inr gt) ↦ rw gt (descend-cases P f r ay.1)
    ]

module _ {ℓ} {A : Type ℓ} (key : A → ℕ) where
  -- The keys never go down.
  abbrev pub IsSorted : List A → Type 0
  IsSorted [] = Unit
  IsSorted (x ∷ l) = All (λ y. key x ≤ key y) l × IsSorted l

  unfoldable pub place : A → List A → List A
  place x [] = x ∷ []
  place x (y ∷ l) = let rest = place x l in if leb (key y) (key x) then y ∷ rest else x ∷ y ∷ l

  pub IsSorted-split :
      (l : List A) (y : A) (r : List A)
      → IsSorted (l ++ y ∷ r)
      → IsSorted l × All (λ x. key x ≤ key y) l × IsSorted r
  IsSorted-split [] y r h = (tt, tt, h.1)
  IsSorted-split (x ∷ l) y r h =
      let k = IsSorted-split l y r h.1 in
      let s = All-split (λ z. key x ≤ key z) l (y ∷ r) h.0 in ((s.0, k.0), (s.1.0, k.1), k.2)

  place-before :
      (x : A) (l : List A) (y : A) (r : List A)
      → key x < key y
      → place x (l ++ y ∷ r) ≡ place x l ++ y ∷ r
  unfolding place
  place-before x [] y r h = ground arith
  place-before x (z ∷ l) y r h = rw (place-before x l y r h) (ground arith)

  place-behind :
      (x : A) (l : List A) (y : A) (r : List A)
      → All (λ z. key z ≤ key x) l
      → key y ≤ key x
      → place x (l ++ y ∷ r) ≡ l ++ y ∷ place x r
  unfolding place
  place-behind x [] y r a h = ground arith
  place-behind x (z ∷ l) y r a h = rw (place-behind x l y r a.1 h) (ground (arith, a.0))

  pub All-place {κ} : (P : A → Type κ) (x : A) (l : List A) → P x → All P l → All P (place x l)
  unfolding place
  All-place P x [] p a = (p, tt)
  All-place P x (y ∷ l) p a = elim (Bool-cases (leb (key y) (key x))) [
    | inl le ↦ rw le (a.0, All-place P x l p a.1)
    | inr gt ↦ rw gt (p, a)
  ]

  pub IsSorted-place : (x : A) (l : List A) → IsSorted l → IsSorted (place x l)
  unfolding place
  IsSorted-place x [] s = (tt, tt)
  IsSorted-place x (y ∷ l) s = elim (Bool-cases (leb (key y) (key x))) [
    | inl le ↦ rw le (All-place (λ z. key y ≤ key z) x l (ground arith) s.0, IsSorted-place x l s.1)
    | inr gt ↦ rw gt ((ground arith, All-map l (λ z k. ground arith) s.0), s)
  ]

  -- What a comparison with `x` says of a node.
  abbrev pub Places : A → Outcome Ordering → A → Type 0
  Places x (ok Ordering.lt) y = key x < key y
  Places x (ok Ordering.eq) y = Unit
  Places x (ok Ordering.gt) y = key y ≤ key x
  Places x fault y = ⊥
  Places x out_of_fuel y = ⊥

  -- One step of the search, from what holds below the node.
  graft-node :
      (x y : A) (o : Outcome Ordering) (l r l' r' : Shape A) (dl dr : Outcome (Option A))
      → IsSorted (elems l ++ y ∷ elems r)
      → Places x o y
      → (dl ≡ ok none → elems l' ≡ place x (elems l))
      → (dr ≡ ok none → elems r' ≡ place x (elems r))
      → (o >>= λ s. elim s [ Ordering.lt ↦ dl | Ordering.eq ↦ ok (some y) | Ordering.gt ↦ dr ])
        ≡ ok none
      → elems (branch o (node l' y r) (node l y r) (node l y r')) ≡ place x (elems l ++ y ∷ elems r)
  unfolding elems
  graft-node x y (ok Ordering.lt) l r l' r' dl dr s p fl fr d =
      rw (place-before x (elems l) y (elems r) p) (ap (λ k. k ++ y ∷ elems r) (fl d))
  graft-node x y (ok Ordering.eq) l r l' r' dl dr s p fl fr d = cc
  graft-node x y (ok Ordering.gt) l r l' r' dl dr s p fl fr d =
      let le = All-map (elems l) (λ z k. omega arith) (IsSorted-split (elems l) y (elems r) s).1 in
      rw (place-behind x (elems l) y (elems r) le p) (ap (λ k. elems l ++ y ∷ k) (fr d))
  graft-node x y fault l r l' r' dl dr s p fl fr d = absurd p
  graft-node x y out_of_fuel l r l' r' dl dr s p fl fr d = absurd p

  -- A search that finds nothing ends where `place` puts the node.
  pub elems-graft :
      (f : A → Outcome Ordering) (x : A) (t : Shape A)
      → IsSorted (elems t)
      → All (λ y. Places x (f y) y) (elems t)
      → descend f t ≡ ok none
      → elems (graft f x t) ≡ place x (elems t)
  unfolding elems descend graft place
  elems-graft f x leaf s a d = refl
  elems-graft f x (node l y r) s a d =
      let (sl, _, sr) = IsSorted-split (elems l) y (elems r) s in
      let (al, ay) = All-split (λ z. Places x (f z) z) (elems l) (y ∷ elems r) a in
      graft-node x y (f y) l r (graft f x l) (graft f x r) (descend f l) (descend f r) s ay.0
        (elems-graft f x l sl al) (elems-graft f x r sr ay.1) d
