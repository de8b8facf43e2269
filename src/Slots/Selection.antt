-- ===== src/Slots/Selection.antt =====
-- Which document `select` of crates/core/src/slots.rs picks.
use stulp.Prelude.{
  ℕ, ◌≤◌, ◌<◌, ◌≡◌, ◌≢◌, ◌⊎◌, inl, inr, refl, Bool, true, false, ◌||◌, Option, none, some, List, [],
  arith, ◌↔◌, ltb, ◌==◌, Bool-cases,
}
use stulp.Prelude.Results.{ok, err, conflict}
use stulp.Bytes.{bytes_eq, bytes_eq_sound, bytes_eq_refl}
use stulp.Slots.Codec.{Slot, Record, decoded, select, choose, is_some}

-- `slot` holds the record `r`, and no slot that decodes is newer. A legacy document is taken only
-- where neither slot decodes, with generation zero; without one the document is empty.
abbrev pub IsNewest : Option (List ℕ) → Option (List ℕ) → Option (List ℕ) → Slot → Record → Type 0
IsNewest left right old Slot.a r =
    (decoded left ≡ some r) × ((s : Record) → decoded right ≡ some s → s.generation ≤ r.generation)
IsNewest left right old Slot.b r =
    (decoded right ≡ some r) × ((s : Record) → decoded left ≡ some s → s.generation < r.generation)
IsNewest left right old Slot.legacy r =
    (decoded left ≡ none)
    × (decoded right ≡ none)
    × (r.generation ≡ 0)
    × ((old ≡ some r.payload) ⊎ ((left ≡ none) × (right ≡ none) × (old ≡ none) × (r.payload ≡ [])))

choose-legacy :
    (l r : Option Record) (old : Option (List ℕ)) (present : Bool) (picked : Record)
    → choose l r old present ≡ ok (Slot.legacy, picked)
    → (l ≡ none)
      × (r ≡ none)
      × (picked.generation ≡ 0)
      × ((old ≡ some picked.payload) ⊎ ((present ≡ false) × (old ≡ none) × (picked.payload ≡ [])))
unfolding select
choose-legacy (some l) (some r) old present picked h = ground arith
choose-legacy (some l) none old present picked h = ground arith
choose-legacy none (some r) old present picked h = ground arith
choose-legacy none none (some p) present picked h = (refl, refl, ground arith, inl (ground arith))
choose-legacy none none none true picked h = ground arith
choose-legacy none none none false picked h =
    (refl, refl, ground arith, inr (refl, refl, ground arith))

absent :
    (left right : Option (List ℕ))
    → (is_some left || is_some right) ≡ false
    → (left ≡ none) × (right ≡ none)
absent left right h = ground arith

choose-conflict :
    (l r : Option Record) (old : Option (List ℕ)) (present : Bool)
    → choose l r old present ≡ err (conflict "document slots have conflicting generations")
    → (x : Record) × (y : Record) × (l ≡ some x)
      × (r ≡ some y)
      × (x.generation ≡ y.generation)
      × (x.payload ≢ y.payload)
unfolding select
choose-conflict (some l) (some r) old present h =
    (l, r, refl, refl, ground arith, λ e. ground (arith, bytes_eq_refl l.payload))
choose-conflict (some l) none old present h = ground arith
choose-conflict none (some r) old present h = ground arith
choose-conflict none none (some p) present h = ground arith
choose-conflict none none none true h = ground arith
choose-conflict none none none false h = ground arith

-- Whatever `select` answers, it is the newest complete generation.
pub select-IsNewest :
    (left right old : Option (List ℕ)) (slot : Slot) (r : Record)
    → select left right old ≡ ok (slot, r)
    → IsNewest left right old slot r
unfolding select
select-IsNewest left right old Slot.a r h = (ground arith, λ s e. ground arith)
select-IsNewest left right old Slot.b r h = (ground arith, λ s e. ground arith)
select-IsNewest left right old Slot.legacy r h =
    let (el, er, g, source) =
      choose-legacy (decoded left) (decoded right) old (is_some left || is_some right) r h in
    (
      el,
      er,
      g,
      elim source [
        | inl e ↦ inl e
        | inr (e, eo, ep) ↦
            let (none_left, none_right) = absent left right e in inr (none_left, none_right, eo, ep)
      ],
    )

-- `select` reports a conflict exactly when both slots decode to one generation with two payloads.
pub select-conflict :
    (left right old : Option (List ℕ))
    → (select left right old ≡ err (conflict "document slots have conflicting generations")) ↔ (
        (l : Record) × (r : Record) × (decoded left ≡ some l)
        × (decoded right ≡ some r)
        × (l.generation ≡ r.generation)
        × (l.payload ≢ r.payload))
unfolding select
select-conflict left right old = (
  choose-conflict (decoded left) (decoded right) old (is_some left || is_some right),
  λ p. ground (arith, bytes_eq_sound p.0.payload p.1.payload),
)

-- What is chosen of two records.
choose_both :
    (l r : Record) (old : Option (List ℕ)) (present : Bool)
    → ((slot : Slot) × (x : Record) × (choose (some l) (some r) old present ≡ ok (slot, x)))
      ⊎ (choose (some l) (some r) old present
          ≡ err (conflict "document slots have conflicting generations"))
unfolding select
choose_both l r old present = elim (Bool-cases (l.generation == r.generation)) [
  | inl same ↦ elim (Bool-cases (bytes_eq l.payload r.payload)) [
    | inl twin ↦ inl (Slot.a, l, rw (same, choose, twin) refl)
    | inr other ↦ inr (rw (same, choose, other) refl)
  ]
  | inr apart ↦ elim (Bool-cases (ltb r.generation l.generation)) [
    | inl left ↦ inl (Slot.a, l, rw (apart, choose, left) refl)
    | inr right ↦ inl (Slot.b, r, rw (apart, choose, right) refl)
  ]
]

choose_answers :
    (l r : Option Record) (old : Option (List ℕ)) (present : Bool)
    → (l ≢ none) ⊎ ((r ≢ none) ⊎ (old ≢ none))
    → ((slot : Slot) × (x : Record) × (choose l r old present ≡ ok (slot, x)))
      ⊎ (choose l r old present ≡ err (conflict "document slots have conflicting generations"))
unfolding select
choose_answers (some l) (some r) old present h = choose_both l r old present
choose_answers (some l) none old present h = inl (Slot.a, l, refl)
choose_answers none (some r) old present h = inl (Slot.b, r, refl)
choose_answers none none (some p) present h =
    inl (Slot.legacy, record { generation = 0; payload = p }, refl)
choose_answers none none none present (inl h) = absurd (h refl)
choose_answers none none none present (inr (inl h)) = absurd (h refl)
choose_answers none none none present (inr (inr h)) = absurd (h refl)

-- Where a slot decodes, or there is a legacy document, `select` answers with a record, or reports
-- the conflict.
pub select_answers :
    (left right old : Option (List ℕ))
    → (decoded left ≢ none) ⊎ ((decoded right ≢ none) ⊎ (old ≢ none))
    → ((slot : Slot) × (r : Record) × (select left right old ≡ ok (slot, r)))
      ⊎ (select left right old ≡ err (conflict "document slots have conflicting generations"))
unfolding select
select_answers left right old h =
    choose_answers (decoded left) (decoded right) old (is_some left || is_some right) h
