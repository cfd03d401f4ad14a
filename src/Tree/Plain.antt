-- ===== src/Tree/Plain.antt =====
-- Trees that are never balanced, as one implementation of the interface.
use libcymo.Common.{◌≡◌, refl, ap, Option, none, some, List, [], ◌∷◌, Ordering}
use libcymo.Memory.{Outcome, ok, ◌>>=◌}
use libcymo.Tree.{Shape, leaf, node, elems, descend, graft, first, drop_first, OrderedTree}

unfoldable pub spine : {A : Type 0} → List A → Shape A
spine [] = leaf
spine (x ∷ l) = node leaf x (spine l)

pub elems-spine : {A : Type 0} (l : List A) → elems (spine l) ≡ l
unfolding spine elems
elems-spine [] = refl
elems-spine (x ∷ l) = ap (λ k. x ∷ k) (elems-spine l)

unfoldable pub plain_insert :
    {A : Type 0} → (A → Outcome Ordering) → A → Shape A → Outcome (Shape A × Option A)
plain_insert f x t =
    descend f t >>= λ found. elim found [ none ↦ ok (graft f x t, none) | some y ↦ ok (t, some y) ]

unfoldable pub plain : (A : Type 0) → OrderedTree A
unfolding plain_insert
plain A = record {
  Tree = Shape A;
  shape = λ t. t;
  empty = leaf;
  find = descend;
  insert = plain_insert;
  remove = λ p t. spine (drop_first p (elems t));
  min = λ t. first (elems t);
  empty_lem = refl;
  find_lem = λ f t. refl;
  insert-found = λ f x y t e. rw e;
  insert-new = λ f x t e. (graft f x t, rw e, refl);
  insert-fault = λ f x t e. rw e;
  remove_lem = λ p t. elems-spine (drop_first p (elems t));
  min_lem = λ t. refl;
}
