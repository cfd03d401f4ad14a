-- ===== src/Tree/Remove.antt =====
-- Taking nodes out of a tree.
use libcymo.Common.{◌≡◌, ◌≢◌, refl, ap, ◌∙◌, Bool, true, List, [], ◌∷◌, ◌++◌}
use libcymo.Tree.{Shape, leaf, node, elems, drop_first, OrderedTree, remove_each}

no_nil : {A : Type 0} (l : List A) (y : A) (r : List A) → l ++ y ∷ r ≢ []
no_nil [] y r e = absurd cc
no_nil (x ∷ l) y r e = absurd cc

pub elems-leaf : {A : Type 0} (t : Shape A) → elems t ≡ [] → t ≡ leaf
unfolding elems
elems-leaf leaf e = refl
elems-leaf (node l y r) e = absurd (no_nil (elems l) y (elems r) e)

pub drop_first_self :
    {A : Type 0} (p : A → Bool) (n : A) (l : List A) → p n ≡ true → drop_first p (n ∷ l) ≡ l
unfolding drop_first
drop_first_self p n l e = rw e refl

pub elems-remove_each :
    {A : Type 0} (T : OrderedTree A) (same : A → A → Bool)
    → ((n : A) → same n n ≡ true)
    → (l : List A) (t : T.Tree) → elems (T.shape t) ≡ l
    → elems (T.shape (remove_each T same l t)) ≡ []
unfolding remove_each
elems-remove_each T same self [] t e = e
elems-remove_each T same self (n ∷ l) t e =
    elems-remove_each T same self l (T.remove (same n) t)
      (T.remove_lem (same n) t ∙ ap (drop_first (same n)) e ∙ drop_first_self (same n) n l (self n))
