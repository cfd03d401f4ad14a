-- ===== src/Tree.antt =====
-- What the code relies on of the red-black trees of src/adt_tree.h: a tree is a binary search tree
-- of nodes, and the macros search it from the root.
pub mod Place
pub mod Insert
pub mod Plain
pub mod Flat
pub mod Remove
use libcymo.Common.{
  ℕ, ◌≡◌, Bool, true, false, Option, none, some, List, [], ◌∷◌, ◌++◌, Ordering, if◌then◌else◌,
}
use libcymo.Memory.{Outcome, ok, fault, out_of_fuel, ◌>>=◌}

pub data Shape {ℓ} (A : Type ℓ) : Type ℓ where
  leaf : Shape A
  node : Shape A → A → Shape A → Shape A

-- The nodes in order.
unfoldable pub elems {ℓ} : {A : Type ℓ} → Shape A → List A
elems leaf = []
elems (node l y r) = elems l ++ y ∷ elems r

-- `RB_FIND`: `f` compares what is sought with a node, and may fail.
unfoldable pub descend {ℓ} : {A : Type ℓ} → (A → Outcome Ordering) → Shape A → Outcome (Option A)
descend f leaf = ok none
descend f (node l y r) = f y >>= λ s. elim s [
  | Ordering.lt ↦ descend f l
  | Ordering.eq ↦ ok (some y)
  | Ordering.gt ↦ descend f r
]

abbrev pub branch {ℓ} : {A : Type ℓ} → Outcome Ordering → A → A → A → A
branch (ok Ordering.lt) a b c = a
branch (ok Ordering.gt) a b c = c
branch _ a b c = b

-- The tree with `x` in place of the leaf where the search ends.
unfoldable pub graft {ℓ} : {A : Type ℓ} → (A → Outcome Ordering) → A → Shape A → Shape A
graft f x leaf = node leaf x leaf
graft f x (node l y r) = branch (f y) (node (graft f x l) y r) (node l y r) (node l y (graft f x r))

unfoldable pub first {ℓ} : {A : Type ℓ} → List A → Option A
first [] = none
first (x ∷ l) = some x

-- A list without the first item that passes the test.
unfoldable pub drop_first {ℓ} : {A : Type ℓ} → (A → Bool) → List A → List A
drop_first p [] = []
drop_first p (x ∷ l) = let rest = drop_first p l in if p x then l else x ∷ rest

-- The macros as operations on the tree of a head. The node to remove is the one that passes the
-- test. Balancing may give any tree with the same nodes in the same order.
pub record OrderedTree (A : Type 0) : Type 1 where
  pub Tree : Type 0
  pub shape : Tree → Shape A
  pub empty : Tree
  pub find : (A → Outcome Ordering) → Tree → Outcome (Option A)
  pub insert : (A → Outcome Ordering) → A → Tree → Outcome (Tree × Option A)
  pub remove : (A → Bool) → Tree → Tree
  pub min : Tree → Option A
  pub empty_lem : shape empty ≡ leaf
  pub find_lem : (f : A → Outcome Ordering) (t : Tree) → find f t ≡ descend f (shape t)
  pub insert-found :
      (f : A → Outcome Ordering) (x y : A) (t : Tree)
      → descend f (shape t) ≡ ok (some y)
      → insert f x t ≡ ok (t, some y)
  pub insert-new :
      (f : A → Outcome Ordering) (x : A) (t : Tree)
      → descend f (shape t) ≡ ok none
      → (t' : Tree) × (insert f x t ≡ ok (t', none))
        × (elems (shape t') ≡ elems (graft f x (shape t)))
  pub insert-fault :
      (f : A → Outcome Ordering) (x : A) (t : Tree)
      → descend f (shape t) ≡ fault
      → insert f x t ≡ fault
  pub remove_lem :
      (p : A → Bool) (t : Tree) → elems (shape (remove p t)) ≡ drop_first p (elems (shape t))
  pub min_lem : (t : Tree) → min t ≡ first (elems (shape t))

-- The loop of `RB_FOREACH_SAFE` that removes each of the nodes that are left; `same n` is the test
-- that finds the node `n`.
unfoldable pub remove_each :
    {A : Type 0} (T : OrderedTree A) → (A → A → Bool) → List A → T.Tree → T.Tree
remove_each T same [] t = t
remove_each T same (n ∷ l) t = remove_each T same l (T.remove (same n) t)
