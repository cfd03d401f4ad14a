-- ===== src/Tree/Insert.antt =====
-- Putting a node with a key into a tree whose keys never go down.
use libcymo.Common.{ℕ, ◌≡◌, ◌≢◌, ◌⊎◌, ◌∙◌, inl, inr, none, some, Ordering}
use libcymo.Memory.{Outcome, ok, fault, out_of_fuel}
use libcymo.Tree.{elems, descend, OrderedTree}
use libcymo.Tree.Place.{
  All, All-map, All-both, IsSorted, place, Places, Answers, descend-cases, elems-graft,
}

module _ {A : Type 0} (T : OrderedTree A) (key : A → ℕ) (f : A → Outcome Ordering) (x : A) where
  Places-Answers : (y : A) (o : Outcome Ordering) → Places key x o y → Answers o
  Places-Answers y (ok s) p = tt
  Places-Answers y fault p = p
  Places-Answers y out_of_fuel p = p

  module _ (t : T.Tree) (placed : All (λ y. Places key x (f y) y) (elems (T.shape t))) where
    -- The search finds nothing, or a node that compares equal.
    pub search_cases {κ} :
        (P : A → Type κ)
        → All P (elems (T.shape t))
        → (descend f (T.shape t) ≡ ok none)
          ⊎ ((y : A) × (descend f (T.shape t) ≡ ok (some y)) × (f y ≡ ok Ordering.eq) × P y)
    search_cases P all = descend-cases P f (T.shape t) (
        All-both (λ y. Answers (f y)) P _
          (All-map (elems (T.shape t)) (λ y k. Places-Answers y (f y) k) placed) all)

    pub unfound :
        All (λ y. f y ≢ ok Ordering.eq) (elems (T.shape t)) → descend f (T.shape t) ≡ ok none
    unfound differ = elim (search_cases (λ y. f y ≢ ok Ordering.eq) differ) [
      | inl e ↦ e
      | inr (y, _, same, ne) ↦ absurd (ne same)
    ]

    -- Where it finds nothing, the insertion puts the node at its place.
    pub insert-place :
        IsSorted key (elems (T.shape t))
        → descend f (T.shape t) ≡ ok none
        → (t' : T.Tree) × (T.insert f x t ≡ ok (t', none))
          × (elems (T.shape t') ≡ place key x (elems (T.shape t)))
    insert-place sorted nothing =
        let (t', inserted, same) = T.insert-new f x t nothing in
        (t', inserted, same ∙ elems-graft key f x (T.shape t) sorted placed nothing)
