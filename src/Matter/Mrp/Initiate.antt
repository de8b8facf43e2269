-- ===== src/Matter/Mrp/Initiate.antt =====
-- A new exchange of our own, plugins/matter/src/mrp.rs: `initiate`.
use stulp.Prelude.{
  ℕ, zero, suc, ◌+◌, ◌%◌, ◌^◌, ◌<◌, ◌≡◌, refl, true, false, not, ◌&&◌, some, List, [], ◌∷◌, ◌++◌,
  any, arith, ◌==◌, inl, inr, Bool-cases, Option-cases, String, same_text,
}
use stulp.Prelude.Results.{ok}
use stulp.Matter.Mrp.{
  Node, Exchange, max_exchanges, is_used, next_id, fresh, bad_ephemeral, initiate,
}
use stulp.Matter.Mrp.Sound.{IsSound, counters-IsSound}
use stulp.Matter.Mrp.Sound.Opening.{add_exchange-IsSound}

next_id-free :
    (tries : ℕ) (es : List Exchange) (address : String) (session last : ℕ) {id : ℕ}
    → (next_id tries es address session last).0 ≡ some id
    → (id < 2 ^ 16) × (is_used es address session id ≡ false)
unfolding next_id
next_id-free zero es address session last h = absurd (cc h)
next_id-free (suc tries) es address session last {id} h =
    let first = (last + 1) % 2 ^ 16 in
    elim (Bool-cases (is_used es address session first)) [
      | inl used ↦ next_id-free tries es address session first (rw used at h)
      | inr free ↦
          let same : first ≡ id = cc (rw free at h) in (omega (arith, same), rw same at free)
    ]

-- Where `initiate` answers a handle in a sound state, an exchange with that handle, the peer and
-- session asked for and an id of 16 bits stands last in the table, behind all that were there, and
-- no exchange of our own with that peer and session had this id.
pub initiate_lem :
    (n : Node) (address : String) (session protocol ephemeral retry_ms : ℕ) {h : ℕ}
    → IsSound n
    → (initiate n address session protocol ephemeral retry_ms).0 ≡ ok h
    → (id : ℕ) × (id < 2 ^ 16)
      × (is_used n.exchanges address session id ≡ false)
      × ((initiate n address session protocol ephemeral retry_ms).1.exchanges
          ≡ n.exchanges ++ fresh h address session id true protocol ephemeral retry_ms ∷ [])
unfolding initiate
initiate_lem n address session protocol ephemeral retry_ms {h} v done =
    let missing =
      not (session == 0)
      && not
          (any (λ s. s.config.local == session && same_text s.config.address address) n.sessions) in
    let (found, last) = next_id (max_exchanges + 1) n.exchanges address session n.next_exchange in
    let w = counters-IsSound n n.counter last v in
    elim (Bool-cases (session == 0 && bad_ephemeral ephemeral)) [
      | inl bad ↦ absurd (cc (rw (bad, initiate) at done))
      | inr good ↦ elim (Bool-cases missing) [
        | inl unknown ↦ absurd (cc (rw (good, initiate, unknown) at done))
        | inr known ↦ elim (Option-cases found) [
          | inl spent ↦ absurd (cc (rw (good, initiate, known, spent) at done))
          | inr (id, free) ↦
              let (small, unused) =
                next_id-free (max_exchanges + 1) n.exchanges address session n.next_exchange free in
              let there =
                (add_exchange-IsSound (record n { next_exchange = last })
                  (λ h. fresh h address session id true protocol ephemeral retry_ms) w
                  (λ h. (refl, tt))).1 in
              let placed = there h (rw (good, initiate, known, free) at done) in
              (id, small, unused, rw (good, initiate, known, free) placed)
        ]
      ]
    ]
