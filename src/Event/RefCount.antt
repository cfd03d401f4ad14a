-- ===== src/Event/RefCount.antt =====
-- src/cymo_event.c: the reference count decides when an event is freed.
use libcymo.Common.{
  ℕ, ◌+◌, ◌-◌, ◌^◌, ◌≤◌, ◌<◌, ◌≡◌, ◌≢◌, refl, ◌∙◌, arith, List, [], ◌∷◌, none, some, u16,
}
use libcymo.Memory.{Addr, update, update_self, update_ne, load-some, Outcome, ok, ◌>>=◌}
use libcymo.Event.{Event, Events, event_ref, event_unref, cm_event_free}

-- The calls that share an event: `event_ref` takes a reference, `event_unref` gives one back.
pub data Use : Type 0 where
  take give : Use

-- The calls in the order in which they take effect, whatever threads make them: each is one atomic
-- access, and the free behind the last.
unfoldable pub uses : List Use → Addr → Events → Outcome Events
uses [] p h = ok h
uses (Use.take ∷ us) p h = event_ref p h >>= λ r. uses us p r.1
uses (Use.give ∷ us) p h = event_unref p h >>= λ r. uses us p r.1

-- The references that are left of `n`.
abbrev pub left_of : ℕ → List Use → ℕ
left_of n [] = n
left_of n (Use.take ∷ us) = left_of (n + 1) us
left_of n (Use.give ∷ us) = left_of (n - 1) us

-- From `n` references on there is always one left, and fewer than 2 ^ 16.
abbrev pub IsHeld : ℕ → List Use → Type 0
IsHeld n [] = Unit
IsHeld n (Use.take ∷ us) = (n + 1 < 2 ^ 16) × IsHeld (n + 1) us
IsHeld n (Use.give ∷ us) = (2 ≤ n) × IsHeld (n - 1) us

-- The event at `p` has the count `r`.
abbrev pub HasRef : Events → Addr → ℕ → Type 0
HasRef h p r = (e : Event) × (h p ≡ some e) × (e.ref ≡ r)

-- The events at the other addresses are as before.
abbrev pub IsSame : Addr → Events → Events → Type 0
IsSame p h h' = (q : Addr) → q ≢ p → h' q ≡ h q

event_unref-last :
    (p : Addr) (h : Events)
    → HasRef h p 1
    → (h' : Events) × (event_unref p h ≡ ok (1, h')) × (h' p ≡ none) × IsSame p h h'
unfolding event_unref cm_event_free
event_unref-last p h (e, at, count) =
    let e' : Event = record e { ref = u16 (e.ref + 2 ^ 16 - 1) } in
    let h' = update h p (some e') in
    (
      update h' p none,
      ground (arith, update_self h p (some e')),
      update_self h' p none,
      λ q ne. update_ne h' p q none ne ∙ update_ne h p q (some e') ne,
    )

-- The count has 16 bits. Two more references to an event that has 2 ^ 16 - 1 make its count 1, and the
-- next release frees the event, while 2 ^ 16 references to it are left.
pub count_wraps :
    (p : Addr) (h : Events)
    → HasRef h p (2 ^ 16 - 1)
    → (h' : Events) × (uses (Use.take ∷ Use.take ∷ Use.give ∷ []) p h ≡ ok h')
      × (h' p ≡ none)
      × (left_of (2 ^ 16 - 1) (Use.take ∷ Use.take ∷ Use.give ∷ []) ≡ 2 ^ 16)
unfolding uses event_ref
count_wraps p h (e, at, count) =
    let e1 : Event = record e { ref = u16 (e.ref + 1) } in
    let h1 = update h p (some e1) in
    let at1 = update_self h p (some e1) in
    let e2 : Event = record e1 { ref = u16 (e1.ref + 1) } in
    let h2 = update h1 p (some e2) in
    let at2 = update_self h1 p (some e2) in
    let (h', last, gone, _) = event_unref-last p h2 (e2, at2, omega arith) in
    (h', rw (load-some h p e at, load-some h1 p e1 at1, last) refl, gone, omega arith)
