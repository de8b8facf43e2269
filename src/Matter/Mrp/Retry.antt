-- ===== src/Matter/Mrp/Retry.antt =====
-- What a retransmission sends, plugins/matter/src/mrp.rs: `tick`.
use stulp.Prelude.{
  ℕ, ◌+◌, ◌<◌, ◌≤◌, ◌≡◌, ◌⊎◌, refl, some, [], ◌∷◌, ◌++◌, arith, leb, locate, set, remove_at, inl,
  inr, Bool-cases,
}
use stulp.Prelude.Results.{ok, Result-cases}
use stulp.Matter.Buffer.{copy, copy-fits}
use stulp.Matter.Mrp.{
  Node, Exchange, Pending, Outgoing, failed, max_out, max_events, queue, base, interval, add_sat,
}
use stulp.Matter.Mrp.Tick.{is_due, give_up, resend, retry, tick}
use stulp.Matter.Mrp.Sound.{queue-le}

-- The datagram of a pending message, and the message after it is sent once more.
abbrev pub datagram : Exchange → Pending → Outgoing
datagram e p = record { session = e.session; address = e.remote; bytes = p.bytes }

abbrev pub sent_again : Node → Exchange → Pending → ℕ → ℕ → Pending
sent_again n e p now jitter = record p {
  attempt = p.attempt + 1;
  next = add_sat now (interval (base n e now) (p.attempt + 1) jitter);
}

module _ (n : Node) (i : ℕ) (e : Exchange) (p : Pending) where
  resend_lem :
      (now jitter : ℕ)
      → (resend n i e p now jitter).0 ≡ ok tt
      → ((resend n i e p now jitter).1.out ≡ n.out ++ datagram e p ∷ [])
        × ((resend n i e p now jitter).1.exchanges
            ≡ set n.exchanges i (record e { pending = some (sent_again n e p now jitter) }))
  unfolding resend
  resend_lem now jitter done = elim (Result-cases (copy p.bytes)) [
    | inr (x, bad) ↦ absurd (cc (rw (bad, resend) at done))
    | inl (bytes, good) ↦
        let item : Outgoing = record { session = e.session; address = e.remote; bytes = bytes } in
        elim (Result-cases (queue n.out item max_out)) [
          | inr (x, no_room) ↦ absurd (cc (rw (good, resend, no_room) at done))
          | inl (out, room) ↦
              let same = (copy-fits p.bytes bytes good).0 in
              rw (good, resend, room) (rw same at (queue-le n.out item max_out room).1, refl)
        ]
  ]

  give_up_lem :
      (give_up n i e).0 ≡ ok tt
      → ((give_up n i e).1.out ≡ n.out)
        × ((give_up n i e).1.events ≡ n.events ++ failed e.handle ∷ [])
        × ((give_up n i e).1.exchanges ≡ remove_at i n.exchanges)
  unfolding give_up
  give_up_lem done = elim (Result-cases (queue n.events (failed e.handle) max_events)) [
    | inr (x, no_room) ↦ absurd (cc (rw (no_room, give_up) at done))
    | inl (events, room) ↦
        rw (room, give_up) (refl, (queue-le n.events (failed e.handle) max_events room).1, refl)
  ]

-- Where `tick` succeeds and a message is due, the first exchange with one either sends the very
-- bytes that it sent before, to the same peer, and counts that; or it had sent them five times, and
-- is given up: reported failed, taken out of the table, and nothing is sent.
pub tick_lem :
    (n : Node) (now jitter : ℕ) {i : ℕ} {e : Exchange} {p : Pending}
    → locate (λ e. is_due now e.pending) n.exchanges ≡ some (i, e)
    → e.pending ≡ some p
    → (tick n now jitter).0 ≡ ok tt
    → ((p.attempt < 4)
        × ((tick n now jitter).1.out ≡ n.out ++ datagram e p ∷ [])
        × ((tick n now jitter).1.exchanges
            ≡ set n.exchanges i (record e { pending = some (sent_again n e p now jitter) })))
      ⊎ ((4 ≤ p.attempt)
          × ((tick n now jitter).1.out ≡ n.out)
          × ((tick n now jitter).1.events ≡ n.events ++ failed e.handle ∷ [])
          × ((tick n now jitter).1.exchanges ≡ remove_at i n.exchanges))
unfolding tick retry
tick_lem n now jitter {i} {e} {p} found waits done = elim (Bool-cases (leb 4 p.attempt)) [
  | inl spent ↦
      let (out, events, exchanges) =
        give_up_lem n i e p (rw (found, tick, waits, retry, spent) at done) in
      rw (found, tick, waits, retry, spent) (inr (ground (arith, spent), out, events, exchanges))
  | inr left ↦
      let (out, exchanges) =
        resend_lem n i e p now jitter (rw (found, tick, waits, retry, left) at done) in
      rw (found, tick, waits, retry, left) (inl (ground (arith, left), out, exchanges))
]
