-- ===== src/Protocol/Session.antt =====
-- RPC correlation, crates/protocol/src/session.rs: requests in flight with deadlines and owners.
pub mod Ownership
pub mod Disconnect
pub mod Expiry
use stulp.Prelude.{
  ℕ, zero, suc, ◌+◌, ◌^◌, Bool, true, false, Option, none, some, List, [], ◌∷◌, ltb, leb, ◌==◌,
  if◌then◌else◌, replicate,
}
use stulp.Prelude.Results.{Result, ok, err, full}

abbrev pub max_pending : ℕ
max_pending = 64

pub record Pending : Type 0 where
  pub id : ℕ
  pub deadline : ℕ
  pub owner : ℕ

-- `pending` is the array of `max_pending` places.
pub record Session : Type 0 where
  pub pending : List (Option Pending)
  pub next : ℕ

unfoldable pub new : Session
new = record { pending = replicate max_pending none; next = 0 }

-- The first free place is filled: `find(|p| p.is_none())`.
unfoldable pub place : Pending → List (Option Pending) → Option (List (Option Pending))
place p [] = none
place p (none ∷ slots) = some (some p ∷ slots)
place p (some q ∷ slots) = elim (place p slots) [
  | none ↦ none
  | some slots' ↦ some (some q ∷ slots')
]

-- The first place whose request meets the test is emptied: `find(..).and_then(Option::take)`.
unfoldable pub take_first :
    (Pending → Bool) → List (Option Pending) → Option Pending × List (Option Pending)
take_first test [] = (none, [])
take_first test (none ∷ slots) =
    let (found, slots') = take_first test slots in (found, none ∷ slots')
take_first test (some q ∷ slots) =
    let (found, slots') = take_first test slots in
    if test q then (some q, none ∷ slots) else (found, some q ∷ slots')

-- Both additions are checked; nothing changes where one of them or the table is full.
unfoldable pub begin : Session → ℕ → ℕ → ℕ → Result ℕ × Session
unfolding place
begin s owner now timeout =
    let next = s.next + 1 in
    let deadline = now + timeout in
    if leb (2 ^ 64) next
    then (err full, s)
    else if leb (2 ^ 64) deadline
    then (err full, s)
    else elim (place (record { id = next; deadline = deadline; owner = owner }) s.pending) [
      | none ↦ (err full, s)
      | some slots ↦ (ok next, record { pending = slots; next = next })
    ]

unfoldable pub owner_of : Option Pending → Option ℕ
owner_of none = none
owner_of (some p) = some p.owner

unfoldable pub complete : Session → ℕ → Option ℕ × Session
unfolding take_first owner_of
complete s id =
    let (found, slots) = take_first (λ p. p.id == id) s.pending in
    (owner_of found, record s { pending = slots })

unfoldable pub id_and_owner : Option Pending → Option (ℕ × ℕ)
id_and_owner none = none
id_and_owner (some p) = some (p.id, p.owner)

unfoldable pub expire : Session → ℕ → Option (ℕ × ℕ) × Session
unfolding take_first id_and_owner
expire s now =
    let (found, slots) = take_first (λ p. leb p.deadline now) s.pending in
    (id_and_owner found, record s { pending = slots })

unfoldable pub owners : List (Option Pending) → List ℕ
owners [] = []
owners (none ∷ slots) = owners slots
owners (some p ∷ slots) = p.owner ∷ owners slots

unfoldable pub emptied : List (Option Pending) → List (Option Pending)
emptied [] = []
emptied (p ∷ slots) = none ∷ emptied slots

-- The iterator, run to its end.
unfoldable pub disconnect : Session → List ℕ × Session
unfolding owners emptied
disconnect s = (owners s.pending, record s { pending = emptied s.pending })
