-- ===== src/Matter/Mrp/Budget.antt =====
-- How many sendings are left, plugins/matter/src/mrp.rs: `tick`.
use stulp.Prelude.{
  ℕ, zero, suc, ◌+◌, ◌-◌, ◌≤◌, ◌≡◌, Option, none, some, List, [], ◌∷◌, arith, leb, locate, set,
  remove_at, get_elem?, inl, inr, Bool-cases, Option-cases,
}
use stulp.Prelude.Distinct.{locate-eq-some, All-get_elem?}
use stulp.Prelude.Results.{ok, Result-cases}
use stulp.Matter.Buffer.{copy}
use stulp.Matter.Mrp.{
  Node, Exchange, Pending, Outgoing, failed, max_out, max_events, queue, base, interval, add_sat,
}
use stulp.Matter.Mrp.Tick.{is_due, give_up, resend, retry, tick}
use stulp.Matter.Mrp.Sound.{IsSound, AtMostFive}

-- The sendings that are left until a pending message is acknowledged or given up, the giving up
-- counted too.
abbrev pub remaining : Option Pending → ℕ
remaining none = 0
remaining (some p) = 5 - p.attempt

unfoldable pub budget : List Exchange → ℕ
budget [] = 0
budget (e ∷ es) = remaining e.pending + budget es

budget-set :
    (es : List Exchange) (i : ℕ) (e e' : Exchange)
    → get_elem? es i ≡ some e
    → budget (set es i e') + remaining e.pending ≡ budget es + remaining e'.pending
unfolding budget
budget-set [] i e e' h = absurd (cc h)
budget-set (x ∷ es) zero e e' h = let same : x ≡ e = cc h in rw same (omega arith)
budget-set (x ∷ es) (suc i) e e' h = omega (arith, budget-set es i e e' h)

budget-remove_at :
    (es : List Exchange) (i : ℕ) (e : Exchange)
    → get_elem? es i ≡ some e
    → budget (remove_at i es) + remaining e.pending ≡ budget es
unfolding budget
budget-remove_at [] i e h = absurd (cc h)
budget-remove_at (x ∷ es) zero e h = let same : x ≡ e = cc h in rw same (omega arith)
budget-remove_at (x ∷ es) (suc i) e h = omega (arith, budget-remove_at es i e h)

module _ (n : Node) (i : ℕ) (e : Exchange) (p : Pending) where
  give_up-budget :
      get_elem? n.exchanges i ≡ some e
      → e.pending ≡ some p
      → p.attempt ≡ 4
      → (give_up n i e).0 ≡ ok tt
      → budget (give_up n i e).1.exchanges + 1 ≡ budget n.exchanges
  unfolding give_up
  give_up-budget at waits last done =
      elim (Result-cases (queue n.events (failed e.handle) max_events)) [
        | inr (x, no_room) ↦ absurd (cc (rw (no_room, give_up) at done))
        | inl (events, room) ↦
            let less = budget-remove_at n.exchanges i e at in
            rw (room, give_up) (omega (arith, rw waits at less, last))
      ]

  resend-budget :
      (now jitter : ℕ)
      → get_elem? n.exchanges i ≡ some e
      → e.pending ≡ some p
      → p.attempt + 1 ≤ 4
      → (resend n i e p now jitter).0 ≡ ok tt
      → budget (resend n i e p now jitter).1.exchanges + 1 ≡ budget n.exchanges
  unfolding resend
  resend-budget now jitter at waits few done = elim (Result-cases (copy p.bytes)) [
    | inr (x, bad) ↦ absurd (cc (rw (bad, resend) at done))
    | inl (bytes, good) ↦
        let item : Outgoing = record { session = e.session; address = e.remote; bytes = bytes } in
        elim (Result-cases (queue n.out item max_out)) [
          | inr (x, no_room) ↦ absurd (cc (rw (good, resend, no_room) at done))
          | inl (out, room) ↦
              let next = add_sat now (interval (base n e now) (p.attempt + 1) jitter) in
              let e' : Exchange = record e {
                pending = some (record p { attempt = p.attempt + 1; next = next });
              } in
              let less = budget-set n.exchanges i e e' at in
              rw (good, resend, room) (omega (arith, rw waits at less, few))
        ]
  ]

-- In a sound state in which a message is due, a call of `tick` that succeeds uses one of the
-- sendings that are left, of at most five for every message that waits. So the calls that find a
-- message due come to an end.
pub tick-budget :
    (n : Node) (now jitter : ℕ) {i : ℕ} {e : Exchange}
    → IsSound n
    → locate (λ e. is_due now e.pending) n.exchanges ≡ some (i, e)
    → (tick n now jitter).0 ≡ ok tt
    → budget (tick n now jitter).1.exchanges + 1 ≡ budget n.exchanges
unfolding tick retry
tick-budget n now jitter {i} {e} v found done =
    let (at, hit) = locate-eq-some (λ e. is_due now e.pending) n.exchanges found in
    elim (Option-cases e.pending) [
      | inl nothing ↦ absurd (cc (rw nothing at hit))
      | inr (p, waits) ↦
          let few =
            rw waits at (All-get_elem? (λ e. AtMostFive e.pending) n.exchanges i v.sendings at) in
          let small : p.attempt ≤ 4 = few in
          elim (Bool-cases (leb 4 p.attempt)) [
            | inl spent ↦
                rw (found, tick, waits, retry, spent)
                  (give_up-budget n i e p at waits (ground (arith, spent, small))
                    (rw (found, tick, waits, retry, spent) at done))
            | inr left ↦
                rw (found, tick, waits, retry, left)
                  (resend-budget n i e p now jitter at waits (ground (arith, left))
                    (rw (found, tick, waits, retry, left) at done))
          ]
    ]
