-- ===== src/Protocol/Session/Ownership.antt =====
-- Requests in flight and their owners (crates/protocol/src/session.rs).
use stulp.Prelude.{
  ℕ, ◌+◌, ◌≤◌, ◌<◌, ◌≡◌, refl, sym, ap, ◌∙◌, Bool, Bool-cases, inl, inr, true, Option, none, some,
  List, [], ◌∷◌, arith, leb, ◌==◌, if◌then◌else◌, length, Option-cases, ==_iff, leb→le,
}
use mathlib.Core.Path.{subst}
use stulp.Prelude.Results.{ok}
use stulp.Protocol.Session.{
  Pending, Session, new, max_pending, place, take_first, begin, complete, expire, owner_of,
  id_and_owner,
}

-- The request with an id, if it is in flight.
abbrev pub lookup : ℕ → List (Option Pending) → Option Pending
lookup id [] = none
lookup id (none ∷ slots) = lookup id slots
lookup id (some p ∷ slots) = if p.id == id then some p else lookup id slots

-- Ids are at most `top`, and no id stands twice.
abbrev pub Distinct : ℕ → List (Option Pending) → Type 0
Distinct top [] = Unit
Distinct top (none ∷ slots) = Distinct top slots
Distinct top (some p ∷ slots) = (p.id ≤ top) × (lookup p.id slots ≡ none) × Distinct top slots

pub record IsSound (s : Session) : Type 0 where
  pub size : length s.pending ≡ max_pending
  pub distinct : Distinct s.next s.pending

Distinct-lookup_above :
    (top id : ℕ) (slots : List (Option Pending))
    → Distinct top slots
    → top < id
    → lookup id slots ≡ none
Distinct-lookup_above top id [] d h = refl
Distinct-lookup_above top id (none ∷ slots) d h = Distinct-lookup_above top id slots d h
Distinct-lookup_above top id (some p ∷ slots) (le, _, d) h =
    ground (arith, Distinct-lookup_above top id slots d h)

Distinct-mono :
    (top : ℕ) (slots : List (Option Pending)) → Distinct top slots → Distinct (top + 1) slots
Distinct-mono top [] d = tt
Distinct-mono top (none ∷ slots) d = Distinct-mono top slots d
Distinct-mono top (some p ∷ slots) (le, fresh, d) = (omega arith, fresh, Distinct-mono top slots d)

place_lem :
    (p : Pending) (slots slots' : List (Option Pending))
    → place p slots ≡ some slots'
    → lookup p.id slots ≡ none
    → (length slots' ≡ length slots)
      × ((id : ℕ) → lookup id slots' ≡ (if p.id == id then some p else lookup id slots))
unfolding place
place_lem p [] slots' h fresh = cc
place_lem p (none ∷ slots) slots' h fresh = (ground arith, λ id. ground arith)
place_lem p (some q ∷ slots) slots' h fresh = elim (Option-cases (place p slots)) [
  | inl e ↦ absurd (ground arith)
  | inr (rest, e) ↦
      let (size, looks) = place_lem p slots rest e (ground arith) in
      (ground arith, λ id. ground (arith, looks id))
]

place-Distinct :
    (p : Pending) (top : ℕ) (slots slots' : List (Option Pending))
    → place p slots ≡ some slots'
    → Distinct top slots
    → top + 1 ≡ p.id
    → Distinct p.id slots'
unfolding place
place-Distinct p top [] slots' h d e = cc
place-Distinct p top (none ∷ slots) [] h d e = absurd (ground arith)
place-Distinct p top (none ∷ slots) (none ∷ slots') h d e = absurd (ground arith)
place-Distinct p top (none ∷ slots) (some q ∷ slots') h d e =
    ground (arith, Distinct-lookup_above top p.id slots d, Distinct-mono top slots d)
place-Distinct p top (some q ∷ slots) slots' h (le, fresh, d) e =
    elim (Option-cases (place p slots)) [
      | inl none_free ↦ absurd (ground arith)
      | inr (rest, er) ↦
          let above = Distinct-lookup_above top p.id slots d (omega arith) in
          let (_, looks) = place_lem p slots rest er above in
          let later = place-Distinct p top slots rest er d e in
          let built : some q ∷ rest ≡ slots' = ground arith in
          subst (Distinct p.id) built (omega arith, ground (arith, looks q.id), later)
    ]

-- The emptied places, as `lookup` sees them.
abbrev without : ℕ → List (Option Pending) → ℕ → Option Pending
without id slots j = if id == j then none else lookup j slots

pub take_first-none :
    (test : Pending → Bool) (slots : List (Option Pending))
    → (take_first test slots).0 ≡ none
    → (take_first test slots).1 ≡ slots
unfolding take_first
take_first-none test [] h = refl
take_first-none test (none ∷ slots) h = ground (arith, take_first-none test slots)
take_first-none test (some q ∷ slots) h = ground (arith, take_first-none test slots)

length-take_first :
    (test : Pending → Bool) (slots : List (Option Pending))
    → length (take_first test slots).1 ≡ length slots
unfolding take_first
length-take_first test [] = refl
length-take_first test (none ∷ slots) = ground (arith, length-take_first test slots)
length-take_first test (some q ∷ slots) = ground (arith, length-take_first test slots)

take_first-some :
    (test : Pending → Bool) (top : ℕ) (slots : List (Option Pending)) (p : Pending)
    → Distinct top slots
    → (take_first test slots).0 ≡ some p
    → (test p ≡ true)
      × (lookup p.id slots ≡ some p)
      × ((j : ℕ) → lookup j (take_first test slots).1 ≡ without p.id slots j)
unfolding take_first
take_first-some test top [] p d h = cc
take_first-some test top (none ∷ slots) p d h = take_first-some test top slots p d h
take_first-some test top (some q ∷ slots) p (le, fresh, d) h = elim (Bool-cases (test q)) [
  | inl hit ↦ (ground arith, ground arith, λ j. ground arith)
  | inr miss ↦
      let (passes, found, looks) = take_first-some test top slots p d (ground arith) in
      (passes, ground arith, λ j. ground (arith, looks j))
]

lookup-take_first_absent :
    (test : Pending → Bool) (j : ℕ) (slots : List (Option Pending))
    → lookup j slots ≡ none
    → lookup j (take_first test slots).1 ≡ none
unfolding take_first
lookup-take_first_absent test j [] h = refl
lookup-take_first_absent test j (none ∷ slots) h = lookup-take_first_absent test j slots h
lookup-take_first_absent test j (some q ∷ slots) h =
    ground (arith, lookup-take_first_absent test j slots)

take_first-Distinct :
    (test : Pending → Bool) (top : ℕ) (slots : List (Option Pending))
    → Distinct top slots
    → Distinct top (take_first test slots).1
unfolding take_first
take_first-Distinct test top [] d = tt
take_first-Distinct test top (none ∷ slots) d = take_first-Distinct test top slots d
take_first-Distinct test top (some q ∷ slots) (le, fresh, d) =
    let later = take_first-Distinct test top slots d in
    let absent = lookup-take_first_absent test q.id slots fresh in
    elim (Bool-cases (test q)) [ inl hit ↦ rw hit d | inr miss ↦ rw miss (le, absent, later) ]

take_first_id :
    (id : ℕ) (slots : List (Option Pending))
    → (take_first (λ p. p.id == id) slots).0 ≡ lookup id slots
unfolding take_first
take_first_id id [] = refl
take_first_id id (none ∷ slots) = take_first_id id slots
take_first_id id (some q ∷ slots) = ground (arith, take_first_id id slots)

-- A new session is sound and has no request in flight.
pub new-IsSound : IsSound new × ((j : ℕ) → lookup j new.pending ≡ none)
unfolding new
new-IsSound = (record { size = refl; distinct = tt }, λ j. refl)

-- A request that begins on a sound session gets the next id, which no request in flight has. From
-- then on the request with that id has its owner and its deadline, and the other requests keep
-- theirs; the session stays sound.
pub begin_lem :
    (s s' : Session) (owner now timeout id : ℕ)
    → IsSound s
    → begin s owner now timeout ≡ (ok id, s')
    → IsSound s'
      × (id ≡ s.next + 1)
      × (s'.next ≡ id)
      × (lookup id s.pending ≡ none)
      × ((j : ℕ)
          → lookup j s'.pending ≡ (
              if id == j
              then some (record { id = id; deadline = now + timeout; owner = owner })
              else lookup j s.pending))
unfolding begin
begin_lem s s' owner now timeout id sound h =
    let p : Pending = record { id = s.next + 1; deadline = now + timeout; owner = owner } in
    elim (Option-cases (place p s.pending)) [
      | inl e ↦ absurd (ground arith)
      | inr (slots, e) ↦
          let fresh =
            Distinct-lookup_above s.next (s.next + 1) s.pending sound.distinct (omega arith) in
          let (size, looks) = place_lem p s.pending slots e fresh in
          let distinct = place-Distinct p s.next s.pending slots e sound.distinct refl in
          let after : record { pending = slots; next = s.next + 1 } ≡ s' = ground arith in
          let given : s.next + 1 ≡ id = ground arith in
          rw (← given, ← after)
            (record { size = size ∙ sound.size; distinct = distinct }, refl, refl, fresh, looks)
    ]

take_id :
    (id top : ℕ) (slots : List (Option Pending)) (j : ℕ)
    → Distinct top slots
    → lookup j (take_first (λ p. p.id == id) slots).1 ≡ without id slots j
take_id id top slots j d =
    let test : Pending → Bool = λ p. p.id == id in
    elim (Option-cases (take_first test slots).0) [
      | inl e ↦
          let absent = sym (take_first_id id slots) ∙ e in
          rw (take_first-none test slots e) (ground (arith, absent))
      | inr (p, e) ↦
          let (hit, _, looks) = take_first-some test top slots p d e in
          let same : p.id ≡ id = (==_iff p.id id).0 hit in looks j ∙ rw same
    ]

-- On a sound session an answer goes to the owner of the request in flight with its id, if there
-- is one. The id is then free of an owner, so a second answer finds none; the other requests
-- stay, and the session stays sound.
pub complete_lem :
    (s : Session) (id : ℕ)
    → IsSound s
    → let (owner, s') = complete s id in
      (owner ≡ owner_of (lookup id s.pending))
      × IsSound s'
      × ((complete s' id).0 ≡ none)
      × ((j : ℕ) → lookup j s'.pending ≡ (if id == j then none else lookup j s.pending))
unfolding complete owner_of
complete_lem s id sound =
    let test : Pending → Bool = λ p. p.id == id in
    let left = (take_first test s.pending).1 in
    let looks = λ (j : ℕ). take_id id s.next s.pending j sound.distinct in
    let gone : lookup id left ≡ none = ground (arith, looks id) in
    (
      ap owner_of (take_first_id id s.pending),
      record {
        size = length-take_first test s.pending ∙ sound.size;
        distinct = take_first-Distinct test s.next s.pending sound.distinct;
      },
      ap owner_of (take_first_id id left ∙ gone),
      looks,
    )

-- On a sound session `expire` hands out only a request in flight whose deadline has passed; that
-- request is removed, the others stay, and the session stays sound.
pub expire_lem :
    (s : Session) (now id owner : ℕ)
    → IsSound s
    → (expire s now).0 ≡ some (id, owner)
    → IsSound (expire s now).1
      × ((p : Pending) × (lookup id s.pending ≡ some p) × (p.deadline ≤ now) × (p.owner ≡ owner))
      × ((j : ℕ)
          → lookup j (expire s now).1.pending ≡ (if id == j then none else lookup j s.pending))
unfolding expire
expire_lem s now id owner sound h =
    let test : Pending → Bool = λ p. leb p.deadline now in
    elim (Option-cases (take_first test s.pending).0) [
      | inl e ↦ absurd (cc (ap id_and_owner e))
      | inr (p, e) ↦
          let (due, held, looks) = take_first-some test s.next s.pending p sound.distinct e in
          let shown : id_and_owner (some p) ≡ some (id, owner) = sym (ap id_and_owner e) ∙ h in
          let same : p.id ≡ id = ground (arith, shown) in
          (
            record {
              size = length-take_first test s.pending ∙ sound.size;
              distinct = take_first-Distinct test s.next s.pending sound.distinct;
            },
            (p, rw (← same) held, leb→le p.deadline now due, ground (arith, shown)),
            rw same at looks,
          )
    ]
