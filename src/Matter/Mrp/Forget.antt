-- ===== src/Matter/Mrp/Forget.antt =====
-- Removing a session, plugins/matter/src/mrp.rs: `remove`.
use stulp.Prelude.{
  ℕ, ◌-◌, ◌≡◌, ◌≢◌, ◌⊎◌, refl, sym, Bool, true, false, not, ◌&&◌, List, [], ◌∷◌, ◌++◌, retain,
  length, ltb, ◌==◌, inl, inr, arith, Bool-cases, append-nil, append_assoc,
}
use stulp.Prelude.Results.{ok}
use stulp.Matter.Mrp.{
  Node, Exchange, Event, failed, max_events, belongs, failures, remove, handle_of,
}

-- The second list is the first one without the elements that are gone, in the same order.
pub data Kept {A : Type 0} (Gone : A → Type 0) : List A → List A → Type 0 where
  nothing : Kept Gone [] []
  dropped : {x : A} {xs ys : List A} → Gone x → Kept Gone xs ys → Kept Gone (x ∷ xs) ys
  kept : {x : A} {xs ys : List A} → ¬ Gone x → Kept Gone xs ys → Kept Gone (x ∷ xs) (x ∷ ys)

retain-Kept :
    {A : Type 0} (Gone : A → Type 0) (stays : A → Bool)
    → ((x : A) → stays x ≡ true → ¬ Gone x)
    → ((x : A) → stays x ≡ false → Gone x)
    → (xs : List A) → Kept Gone xs (retain stays xs)
retain-Kept Gone stays here away [] = nothing
retain-Kept Gone stays here away (x ∷ xs) = elim (Bool-cases (stays x)) [
  | inl stay ↦ rw stay (kept (here x stay) (retain-Kept Gone stays here away xs))
  | inr go ↦ rw go (dropped (away x go) (retain-Kept Gone stays here away xs))
]

-- The elements with another key stay.
key-Kept :
    {A : Type 0} (key : A → ℕ) (local : ℕ) (xs : List A)
    → Kept (λ x. key x ≡ local) xs (retain (λ x. not (key x == local)) xs)
key-Kept key local xs =
    retain-Kept (λ x. key x ≡ local) (λ x. not (key x == local))
      (λ x stay e. absurd (ground (arith, stay, e))) (λ x go. ground (arith, go)) xs

-- An event is about an exchange of the session.
pub Concerns : List Exchange → ℕ → Event → Type 0
Concerns [] local event = ⊥
Concerns (e ∷ es) local event =
    ((e.handle ≡ handle_of event) × (e.session ≡ local)) ⊎ Concerns es local event

belongs-Concerns :
    (es : List Exchange) (local : ℕ) (event : Event)
    → belongs es local event ≡ true
    → Concerns es local event
unfolding Concerns
belongs-Concerns [] local event h = cc h
belongs-Concerns (e ∷ es) local event h =
    elim (Bool-cases (e.handle == handle_of event && e.session == local)) [
      | inl own ↦ inl (ground (arith, own), ground (arith, own))
      | inr other ↦ inr (belongs-Concerns es local event (rw other at h))
    ]

Concerns-belongs :
    (es : List Exchange) (local : ℕ) (event : Event)
    → Concerns es local event
    → belongs es local event ≡ true
unfolding Concerns
Concerns-belongs [] local event h = absurd h
Concerns-belongs (e ∷ es) local event (inl (same, own)) = ground (arith, same, own)
Concerns-belongs (e ∷ es) local event (inr later) =
    ground (arith, Concerns-belongs es local event later)

-- The reports of the exchanges of a session: the last exchange is reported first.
pub data Reports (local : ℕ) : List Exchange → List Event → Type 0 where
  over : Reports local [] []
  lost :
      {e : Exchange} {es : List Exchange} {told : List Event}
      → e.session ≡ local
      → Reports local es told
      → Reports local (e ∷ es) (told ++ failed e.handle ∷ [])
  other :
      {e : Exchange} {es : List Exchange} {told : List Event}
      → e.session ≢ local
      → Reports local es told
      → Reports local (e ∷ es) told

failures-Reports :
    (es : List Exchange) (local : ℕ) (events : List Event)
    → (told : List Event) × (failures es local events ≡ events ++ told) × Reports local es told
failures-Reports [] local events = ([], sym (append-nil events), over)
failures-Reports (e ∷ es) local events =
    let (told, same, reports) = failures-Reports es local events in
    elim (Bool-cases (e.session == local)) [
      | inl own ↦ (
        told ++ failed e.handle ∷ [],
        rw (own, same) (append_assoc events told (failed e.handle ∷ [])),
        lost (ground (arith, own)) reports,
      )
      | inr away ↦ (told, rw away same, other (λ h. absurd (ground (arith, away, h))) reports)
    ]

-- A removal either succeeds: then the sessions, exchanges and outgoing datagrams of that id are
-- gone and all others are kept in their order; of the events, those of the lost exchanges are gone
-- and all others are kept in their order, followed by a failure of each lost exchange, the last one
-- first. Or it fails, and changes nothing.
pub remove_lem :
    (n : Node) (local : ℕ)
    → (((remove n local).0 ≡ ok tt)
        × Kept (λ s. s.config.local ≡ local) n.sessions (remove n local).1.sessions
        × Kept (λ e. e.session ≡ local) n.exchanges (remove n local).1.exchanges
        × Kept (λ p. p.session ≡ local) n.out (remove n local).1.out
        × ((before : List Event) × (told : List Event) × ((remove n local).1.events
              ≡ before ++ told)
            × Kept (Concerns n.exchanges local) n.events before
            × Reports local n.exchanges told))
      ⊎ (((remove n local).0 ≢ ok tt) × ((remove n local).1 ≡ n))
unfolding remove
remove_lem n local =
    let retained = retain (λ event. not (belongs n.exchanges local event)) n.events in
    let count = length (retain (λ e. e.session == local) n.exchanges) in
    let events =
      retain-Kept (Concerns n.exchanges local) (λ event. not (belongs n.exchanges local event))
        (λ event stay h. absurd (ground (arith, stay, Concerns-belongs n.exchanges local event h)))
        (λ event go. belongs-Concerns n.exchanges local event (ground (arith, go))) n.events in
    let (told, same, reports) = failures-Reports n.exchanges local retained in
    elim (Bool-cases (ltb (max_events - length retained) count)) [
      | inl crowded ↦ rw (crowded, remove) (inr ((λ e. absurd (cc e)), refl))
      | inr room ↦
          rw (room, remove)
            (inl (
              refl,
              key-Kept (λ s. s.config.local) local n.sessions,
              key-Kept (λ e. e.session) local n.exchanges,
              key-Kept (λ p. p.session) local n.out,
              (retained, told, same, events, reports),
            ))
    ]
