-- ===== src/Protocol/Session/Expiry.antt =====
-- The deadlines of requests in flight (crates/protocol/src/session.rs): `expire`.
use stulp.Prelude.{
  ℕ, ◌<◌, ◌≡◌, ap, sym, ◌∙◌, Bool, Option, none, some, List, [], ◌∷◌, arith, leb, ◌==◌, Bool-cases,
  Option-cases, inl, inr,
}
use stulp.Protocol.Session.{Pending, Session, take_first, id_and_owner, expire}
use stulp.Protocol.Session.Ownership.{lookup, take_first-none}

none_due :
    (now j : ℕ) (slots : List (Option Pending)) (p : Pending)
    → (take_first (λ p. leb p.deadline now) slots).0 ≡ none
    → lookup j slots ≡ some p
    → now < p.deadline
unfolding take_first
none_due now j [] p h found = absurd (cc found)
none_due now j (none ∷ slots) p h found = none_due now j slots p h found
none_due now j (some q ∷ slots) p h found = elim (Bool-cases (leb q.deadline now)) [
  | inl due ↦ absurd (cc (rw due at h))
  | inr later ↦ elim (Bool-cases (q.id == j)) [
    | inl hit ↦
        let same : q ≡ p = ground (arith, hit, found) in rw (sym same) (ground (arith, later))
    | inr miss ↦ none_due now j slots p (rw later at h) (rw miss at found)
  ]
]

-- Where `expire` hands out nothing, every request in flight has its deadline still ahead, and the
-- session is as it was.
pub expire-eq-none :
    (s : Session) (now : ℕ)
    → (expire s now).0 ≡ none
    → ((j : ℕ) (p : Pending) → lookup j s.pending ≡ some p → now < p.deadline)
      × ((expire s now).1 ≡ s)
unfolding expire id_and_owner
expire-eq-none s now h =
    let test : Pending → Bool = λ p. leb p.deadline now in
    elim (Option-cases (take_first test s.pending).0) [
      | inr (p, e) ↦ absurd (cc (sym (ap id_and_owner e) ∙ h))
      | inl e ↦ (
        (λ j p found. none_due now j s.pending p e found),
        ap (λ (t : List (Option Pending)). record s { pending = t })
            (take_first-none test s.pending e),
      )
    ]
