-- ===== src/Spsc/Refine.antt =====
-- src/spsc_queue.c against a first-in first-out queue of at most `capacity - 1` pointers.
use libcymo.Common.{
  ℕ, suc, ◌+◌, ◌-◌, ◌^◌, ◌≤◌, ◌<◌, ◌≡◌, refl, sym, ap, ap₂, ◌∙◌, arith, false, Option, none, some,
  List, [], ◌∷◌, ◌++◌, length, length-set, get_or, set, get_or-set_self, ltb, ◌==◌, if◌then◌else◌,
  Bool-cases, inl, inr,
}
use libcymo.Common.Int.{ℤ, pos, negsuc}
use libcymo.Memory.{ok}
use libcymo.Spsc.{
  Spsc, next_record, spsc_queue_init, spsc_queue_push, spsc_queue_pop, spsc_queue_peek,
  spsc_queue_is_empty, spsc_queue_is_full, spsc_queue_size,
}
use libcymo.Spsc.Slots.{
  IsValid, next_record-eq, entries, length-entries, entries-suc, entries-set, count, contents,
}

-- The queue that the ring promises.
unfoldable pub push : ℕ → List ℕ → ℕ → ℤ × List ℕ
push capacity l e = if length l + 1 == capacity then (negsuc 0, l) else (pos 0, l ++ e ∷ [])

unfoldable pub pop : List ℕ → ℤ × Option ℕ × List ℕ
pop [] = (negsuc 0, none, [])
pop (e ∷ l) = (pos 0, some e, l)

unfoldable pub peek : List ℕ → ℕ
peek [] = 0
peek (e ∷ l) = e

-- A ring of at least two records that `malloc` gives is valid and empty.
pub init-IsValid :
    (storage : List ℕ) (size : ℕ)
    → 2 ≤ size
    → size < 2 ^ 32
    → length storage ≡ size
    → (q : Spsc) × (spsc_queue_init (some storage) size ≡ ok (pos 0, some q))
      × IsValid q
      × (q.capacity ≡ size)
      × (contents q ≡ [])
unfolding spsc_queue_init
init-IsValid storage size h k e = (
  record { capacity = size; records = storage; read_pos = 0; write_pos = 0 },
  ground arith,
  omega arith,
  refl,
  refl,
)

-- The ring after a whole push of `e` and after a whole pop, and with the write position moved on.
unfoldable pub written : Spsc → ℕ → Spsc
written q e = record q {
  records = set q.records q.write_pos e;
  write_pos = next_record q.capacity q.write_pos;
}

unfoldable pub taken : Spsc → Spsc
taken q = record q { read_pos = next_record q.capacity q.read_pos }

unfoldable pub advanced : Spsc → Spsc
advanced q = record q { write_pos = next_record q.capacity q.write_pos }

module _ (q : Spsc) (v : IsValid q) where
  open q use {capacity, records, read_pos, write_pos}

  pub count_bound : count q < capacity
  count_bound = ground arith

  pub length-contents : length (contents q) ≡ count q
  length-contents = length-entries records capacity read_pos (count q)

  -- The write position is `count q` records on from the read position.
  write_at : write_pos ≡ (
      if ltb (read_pos + count q) capacity
      then read_pos + count q
      else read_pos + count q - capacity)
  write_at = ground arith

  pub full_test : (next_record capacity write_pos == read_pos) ≡ (count q + 1 == capacity)
  full_test = ground (arith, next_record-eq capacity write_pos v.word v.write_in)

  pub empty_test : (read_pos == write_pos) ≡ (count q == 0)
  empty_test = ground arith

  pub contents-written :
      (e : ℕ)
      → count q + 1 < capacity
      → (contents (written q e) ≡ contents q ++ e ∷ []) × IsValid (written q e)
  unfolding written
  contents-written e h = (
    rw longer grown,
    ground (
      arith,
      next_record-eq capacity write_pos v.word v.write_in,
      length-set records write_pos e,
    ),
  )
    where
      longer : count (written q e) ≡ suc (count q)
      longer = ground (arith, next_record-eq capacity write_pos v.word v.write_in)

      grown :
          entries (set records write_pos e) capacity read_pos (suc (count q)) ≡ contents q ++ e ∷ []
      grown =
          entries-suc (set records write_pos e) capacity read_pos (count q) write_pos v.read_in
            count_bound write_at
          ∙ ap₂ (λ l x. l ++ x ∷ [])
              (entries-set records capacity read_pos (count q) write_pos e v.read_in count_bound
                write_at)
              (get_or-set_self records write_pos e 0 (omega arith))

  pub contents-taken :
      0 < count q
      → (contents q ≡ get_or records read_pos 0 ∷ contents (taken q)) × IsValid (taken q)
  unfolding taken
  contents-taken h =
      (rw shorter split, ground (arith, next_record-eq capacity read_pos v.word v.read_in))
    where
      shorter : count q ≡ suc (count (taken q))
      shorter = ground (arith, next_record-eq capacity read_pos v.word v.read_in)

      split :
          entries records capacity read_pos (suc (count (taken q)))
          ≡ get_or records read_pos 0 ∷ contents (taken q)
      split =
          ap (λ i. get_or records read_pos 0 ∷ entries records capacity i (count (taken q)))
            (sym (next_record-eq capacity read_pos v.word v.read_in))

  pub contents-advanced :
      count q + 1 < capacity
      → (contents (advanced q) ≡ contents q ++ get_or records write_pos 0 ∷ [])
        × IsValid (advanced q)
        × (count (advanced q) ≡ suc (count q))
  unfolding advanced
  contents-advanced h = (
    rw longer
        (entries-suc records capacity read_pos (count q) write_pos v.read_in count_bound write_at),
    ground (arith, next_record-eq capacity write_pos v.word v.write_in),
    longer,
  )
    where
      longer : count (advanced q) ≡ suc (count q)
      longer = ground (arith, next_record-eq capacity write_pos v.word v.write_in)

  -- A write to the record at the write position leaves the entries.
  pub contents-set :
      (e : ℕ) → contents (record q { records = set records write_pos e }) ≡ contents q
  contents-set e =
      entries-set records capacity read_pos (count q) write_pos e v.read_in count_bound write_at

  pub count-taken : 0 < count q → count q ≡ suc (count (taken q))
  unfolding taken
  count-taken h = ground (arith, next_record-eq capacity read_pos v.word v.read_in)

  -- What a pop does, by the number of entries.
  pub contents-empty : count q ≡ 0 → contents q ≡ []
  contents-empty e = ap (entries records capacity read_pos) e

  pub pop-empty : count q ≡ 0 → spsc_queue_pop q ≡ (negsuc 0, none, q)
  unfolding spsc_queue_pop
  pop-empty z = ground (arith, empty_test)

  pub pop-some : 0 < count q → spsc_queue_pop q ≡ (pos 0, some (get_or records read_pos 0), taken q)
  unfolding spsc_queue_pop taken
  pop-some h = let nz : (count q == 0) ≡ false = ground arith in rw (empty_test, nz)

  first_lem : spsc_queue_peek q ≡ peek (contents q)
  unfolding spsc_queue_peek peek
  first_lem = elim (Bool-cases (count q == 0)) [
    | inl z ↦ rw (empty_test, z, contents-empty (ground arith))
    | inr nz ↦ rw (empty_test, nz, (contents-taken (ground arith)).0)
  ]

  -- `spsc_queue_push` answers as the queue does, and keeps the ring valid.
  pub push_refines :
      (e : ℕ)
      → let (rc, q') = spsc_queue_push q e in
        ((rc, contents q') ≡ push capacity (contents q) e) × IsValid q' × (q'.capacity ≡ capacity)
  unfolding spsc_queue_push push written
  push_refines e = elim (Bool-cases (count q + 1 == capacity)) [
    | inl f ↦ rw (full_test, f, length-contents, f) (refl, v, refl)
    | inr nf ↦
        let (grows, valid) = contents-written e (ground (arith, count_bound)) in
        rw (full_test, nf, length-contents, nf) (ap (λ l. (pos 0, l)) grows, valid, refl)
  ]

  -- `spsc_queue_pop` takes the oldest entry, or fails on an empty ring, and keeps the ring valid.
  pub pop_refines :
      let (rc, out, q') = spsc_queue_pop q in
      ((rc, out, contents q') ≡ pop (contents q)) × IsValid q' × (q'.capacity ≡ capacity)
  unfolding spsc_queue_pop pop taken
  pop_refines = elim (Bool-cases (count q == 0)) [
    | inl z ↦ rw (empty_test, z, contents-empty (ground arith)) (refl, v, refl)
    | inr nz ↦
        let (first, valid) = contents-taken (ground arith) in
        rw (empty_test, nz, first) (refl, valid, refl)
  ]

  -- The first entry, and whether the ring is empty or full, are answered from the contents.
  pub queries :
      (spsc_queue_peek q ≡ peek (contents q))
      × (spsc_queue_is_empty q ≡ (length (contents q) == 0))
      × (spsc_queue_is_full q ≡ (length (contents q) + 1 == capacity))
  unfolding spsc_queue_is_empty spsc_queue_is_full
  queries = (first_lem, rw length-contents empty_test, rw length-contents full_test)

  -- The size is the number of entries, if the capacity is at most 2 ^ 31.
  pub size_lem : capacity ≤ 2 ^ 31 → spsc_queue_size q ≡ length (contents q)
  unfolding spsc_queue_size
  size_lem h = ground (arith, length-contents)
