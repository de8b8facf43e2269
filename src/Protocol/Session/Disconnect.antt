-- ===== src/Protocol/Session/Disconnect.antt =====
-- A lost connection (crates/protocol/src/session.rs): `disconnect`.
use stulp.Prelude.{
  ℕ, suc, ◌≡◌, refl, ap, none, some, Option, List, [], ◌∷◌, arith, length, ◌==◌, if◌then◌else◌, ◌∙◌,
}
use stulp.Protocol.Session.{Pending, Session, owners, emptied, disconnect}
use stulp.Protocol.Session.Ownership.{lookup, Distinct, IsSound}

length-emptied : (slots : List (Option Pending)) → length (emptied slots) ≡ length slots
unfolding emptied
length-emptied [] = refl
length-emptied (p ∷ slots) = ap suc (length-emptied slots)

lookup-emptied : (j : ℕ) (slots : List (Option Pending)) → lookup j (emptied slots) ≡ none
unfolding emptied
lookup-emptied j [] = refl
lookup-emptied j (p ∷ slots) = lookup-emptied j slots

Distinct-emptied : (top : ℕ) (slots : List (Option Pending)) → Distinct top (emptied slots)
unfolding emptied
Distinct-emptied top [] = tt
Distinct-emptied top (p ∷ slots) = Distinct-emptied top slots

-- How often a number stands in a list.
abbrev pub count : ℕ → List ℕ → ℕ
count n [] = 0
count n (x ∷ xs) = if x == n then suc (count n xs) else count n xs

-- How many requests in flight an owner has, and how many there are.
abbrev pub count_owned : ℕ → List (Option Pending) → ℕ
count_owned owner [] = 0
count_owned owner (none ∷ slots) = count_owned owner slots
count_owned owner (some p ∷ slots) =
    if p.owner == owner then suc (count_owned owner slots) else count_owned owner slots

abbrev pub count_pending : List (Option Pending) → ℕ
count_pending [] = 0
count_pending (none ∷ slots) = count_pending slots
count_pending (some p ∷ slots) = suc (count_pending slots)

count-owners :
    (owner : ℕ) (slots : List (Option Pending))
    → count owner (owners slots) ≡ count_owned owner slots
unfolding owners
count-owners owner [] = refl
count-owners owner (none ∷ slots) = count-owners owner slots
count-owners owner (some p ∷ slots) = ground (arith, count-owners owner slots)

length-owners : (slots : List (Option Pending)) → length (owners slots) ≡ count_pending slots
unfolding owners
length-owners [] = refl
length-owners (none ∷ slots) = length-owners slots
length-owners (some p ∷ slots) = ap suc (length-owners slots)

-- `disconnect` on a sound session hands out each owner as many times as it has requests in flight,
-- and so many owners as there are requests. The session is sound behind it, has no request in
-- flight, and goes on with the ids where it was.
pub disconnect_lem :
    (s : Session)
    → IsSound s
    → let (gone, s') = disconnect s in
      ((owner : ℕ) → count owner gone ≡ count_owned owner s.pending)
      × (length gone ≡ count_pending s.pending)
      × (s'.next ≡ s.next)
      × IsSound s'
      × ((j : ℕ) → lookup j s'.pending ≡ none)
unfolding disconnect
disconnect_lem s sound = (
  (λ owner. count-owners owner s.pending),
  length-owners s.pending,
  refl,
  record {
    size = length-emptied s.pending ∙ sound.size;
    distinct = Distinct-emptied s.next s.pending;
  },
  (λ j. lookup-emptied j s.pending),
)
