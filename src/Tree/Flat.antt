-- ===== src/Tree/Flat.antt =====
-- Trees whose nodes hang to the right of each other, as another implementation of the interface.
use libcymo.Common.{refl, sym, ap, ◌∙◌, Option, none, some, List, [], Ordering}
use libcymo.Memory.{Outcome, ok, ◌>>=◌}
use libcymo.Tree.{elems, descend, graft, first, drop_first, OrderedTree}
use libcymo.Tree.Plain.{spine, elems-spine}

unfoldable pub flat_insert :
    {A : Type 0} → (A → Outcome Ordering) → A → List A → Outcome (List A × Option A)
flat_insert f x l = descend f (spine l) >>= λ found. elim found [
  | none ↦ ok (elems (graft f x (spine l)), none)
  | some y ↦ ok (l, some y)
]

unfoldable pub flat : (A : Type 0) → OrderedTree A
unfolding flat_insert spine
flat A = record {
  Tree = List A;
  shape = spine;
  empty = [];
  find = λ f l. descend f (spine l);
  insert = flat_insert;
  remove = drop_first;
  min = first;
  empty_lem = refl;
  find_lem = λ f l. refl;
  insert-found = λ f x y l e. rw e;
  insert-new = λ f x l e. (elems (graft f x (spine l)), rw e, elems-spine _);
  insert-fault = λ f x l e. rw e;
  remove_lem = λ p l. elems-spine (drop_first p l) ∙ ap (drop_first p) (sym (elems-spine l));
  min_lem = λ l. ap first (sym (elems-spine l));
}
