-- ===== src/Matter/Mrp/Sound/Ticking.antt =====
-- The state after a retransmission (plugins/matter/src/mrp.rs).
use stulp.Prelude.{
  ℕ, ◌<◌, ◌≤◌, ◌≡◌, refl, Option, none, some, locate, get_elem?, leb, inl, inr, arith, Bool-cases,
  Option-cases,
}
use stulp.Prelude.Distinct.{locate-eq-some, length-remove_at, All-remove_at, Nodup-remove_at}
use stulp.Prelude.Results.{Result-cases}
use stulp.Matter.Buffer.{copy}
use stulp.Matter.Mrp.{Node, Exchange, Pending, Outgoing, failed, max_out, max_events, queue}
use stulp.Matter.Mrp.Tick.{is_due, give_up, resend, retry, tick}
use stulp.Matter.Mrp.Sound.{IsSound, AtMostFive, set_exchange-IsSound, out-IsSound, queue-le}

give_up-IsSound : (n : Node) (i : ℕ) (e : Exchange) → IsSound n → IsSound (give_up n i e).1
unfolding give_up
give_up-IsSound n i e v = elim (Result-cases (queue n.events (failed e.handle) max_events)) [
  | inr (x, no_room) ↦ rw (no_room, give_up) v
  | inl (events, room) ↦
      rw (room, give_up)
        (record {
          few_sessions = v.few_sessions;
          few_exchanges = omega (arith, length-remove_at i n.exchanges, v.few_exchanges);
          few_out = v.few_out;
          few_events = (queue-le n.events (failed e.handle) max_events room).0;
          real = v.real;
          sessions_differ = v.sessions_differ;
          handles_differ = Nodup-remove_at (λ e. e.handle) i n.exchanges v.handles_differ;
          handles_old = All-remove_at (λ e. e.handle ≤ n.next_handle) i n.exchanges v.handles_old;
          sendings = All-remove_at (λ e. AtMostFive e.pending) i n.exchanges v.sendings;
        })
]

resend-IsSound :
    (n : Node) (i : ℕ) (e : Exchange) (p : Pending) (now jitter : ℕ)
    → IsSound n
    → get_elem? n.exchanges i ≡ some e
    → p.attempt < 4
    → IsSound (resend n i e p now jitter).1
unfolding resend
resend-IsSound n i e p now jitter v h few = elim (Result-cases (copy p.bytes)) [
  | inr (x, bad) ↦ rw (bad, resend) v
  | inl (bytes, good) ↦
      let item : Outgoing = record { session = e.session; address = e.remote; bytes = bytes } in
      elim (Result-cases (queue n.out item max_out)) [
        | inr (x, no_room) ↦ rw (good, resend, no_room) v
        | inl (out, room) ↦
            rw (good, resend, room)
              (set_exchange-IsSound (record n { out = out }) i e _
                (out-IsSound n out v (queue-le n.out item max_out room).0) h refl
                (omega (arith, few)))
      ]
]

retry-IsSound :
    (n : Node) (i : ℕ) (e : Exchange) (pending : Option Pending) (now jitter : ℕ)
    → IsSound n
    → get_elem? n.exchanges i ≡ some e
    → IsSound (retry n i e pending now jitter).1
unfolding retry
retry-IsSound n i e none now jitter v h = v
retry-IsSound n i e (some p) now jitter v h = elim (Bool-cases (leb 4 p.attempt)) [
  | inl spent ↦ rw (spent, retry) (give_up-IsSound n i e v)
  | inr again ↦ rw (again, retry) (resend-IsSound n i e p now jitter v h (ground (arith, again)))
]

pub tick-IsSound : (n : Node) (now jitter : ℕ) → IsSound n → IsSound (tick n now jitter).1
unfolding tick
tick-IsSound n now jitter v = elim (Option-cases (locate (λ e. is_due now e.pending) n.exchanges)) [
  | inl calm ↦ rw (calm, tick) v
  | inr ((i, e), found) ↦
      let (at, hit) = locate-eq-some (λ e. is_due now e.pending) n.exchanges found in
      rw (found, tick) (retry-IsSound n i e e.pending now jitter v at)
]
