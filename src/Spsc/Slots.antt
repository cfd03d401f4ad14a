-- ===== src/Spsc/Slots.antt =====
-- src/spsc_queue.c: the entries between the read and the write position of a ring.
use libcymo.Common.{
  ℕ, zero, suc, ◌+◌, ◌-◌, ◌^◌, ◌≤◌, ◌<◌, ◌≡◌, refl, ap, ap₂, arith, List, [], ◌∷◌, ◌++◌, length,
  get_or, set, get_or-set_ne, leb, ltb, if◌then◌else◌,
}
use libcymo.Spsc.{Spsc, next_record}

pub record IsValid (q : Spsc) : Type 0 where
  pub two : 2 ≤ q.capacity
  pub word : q.capacity < 2 ^ 32
  pub storage : length q.records ≡ q.capacity
  pub read_in : q.read_pos < q.capacity
  pub write_in : q.write_pos < q.capacity

-- Inside the ring the next index is one on, or 0 at the end.
pub next_record-eq :
    (c i : ℕ) → c < 2 ^ 32 → i < c → next_record c i ≡ (if ltb (i + 1) c then i + 1 else 0)
unfolding next_record
next_record-eq c i h k = ground arith

module _ (rs : List ℕ) (c : ℕ) where
  -- The `n` entries from index `i` on, round the end of the ring.
  abbrev pub entries : ℕ → ℕ → List ℕ
  entries i zero = []
  entries i (suc n) = get_or rs i 0 ∷ entries (if ltb (i + 1) c then i + 1 else 0) n

  pub length-entries : (i n : ℕ) → length (entries i n) ≡ n
  length-entries i zero = refl
  length-entries i (suc n) = ap suc (length-entries (if ltb (i + 1) c then i + 1 else 0) n)

  -- One entry more at the far end.
  pub entries-suc :
      (i n j : ℕ)
      → i < c
      → n < c
      → j ≡ (if ltb (i + n) c then i + n else i + n - c)
      → entries i (suc n) ≡ entries i n ++ get_or rs j 0 ∷ []
  entries-suc i zero j h k e = ap (λ x. get_or rs x 0 ∷ []) (ground arith)
  entries-suc i (suc n) j h k e =
      ap (λ l. get_or rs i 0 ∷ l)
        (entries-suc (if ltb (i + 1) c then i + 1 else 0) n j (ground arith) (omega arith)
          (ground arith))

-- A write to an index outside leaves the entries.
pub entries-set :
    (rs : List ℕ) (c i n j v : ℕ)
    → i < c
    → n < c
    → j ≡ (if ltb (i + n) c then i + n else i + n - c)
    → entries (set rs j v) c i n ≡ entries rs c i n
entries-set rs c i zero j v h k e = refl
entries-set rs c i (suc n) j v h k e = ap₂ ◌∷◌ (get_or-set_ne rs v 0 (ground arith)) (
    entries-set rs c (if ltb (i + 1) c then i + 1 else 0) n j v (ground arith) (omega arith)
      (ground arith))

-- How many entries lie between the positions.
abbrev pub count : Spsc → ℕ
count q =
    if leb q.read_pos q.write_pos
    then q.write_pos - q.read_pos
    else q.write_pos + q.capacity - q.read_pos

-- The queue that a ring stands for, oldest entry first.
abbrev pub contents : Spsc → List ℕ
contents q = entries q.records q.capacity q.read_pos (count q)
