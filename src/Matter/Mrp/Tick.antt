-- ===== src/Matter/Mrp/Tick.antt =====
-- Retransmission, plugins/matter/src/mrp.rs: `tick`.
use stulp.Prelude.{
  ℕ, ◌+◌, Bool, false, Option, none, some, locate, set, remove_at, leb, if◌then◌else◌,
}
use stulp.Prelude.Results.{Result, ok, err, invalid}
use stulp.Matter.Buffer.{copy}
use stulp.Matter.Mrp.{
  Node, Exchange, Pending, failed, max_out, max_events, queue, base, interval, add_sat,
}

abbrev pub is_due : ℕ → Option Pending → Bool
is_due now none = false
is_due now (some p) = leb p.next now

-- After the fifth sending the exchange is given up.
unfoldable pub give_up : Node → ℕ → Exchange → Result (Unit {0}) × Node
unfolding queue
give_up n i e = elim (queue n.events (failed e.handle) max_events) [
  | err x ↦ (err x, n)
  | ok events ↦ (ok tt, record n { events = events; exchanges = remove_at i n.exchanges })
]

unfoldable pub resend : Node → ℕ → Exchange → Pending → ℕ → ℕ → Result (Unit {0}) × Node
unfolding copy queue base interval
resend n i e p now jitter =
    let next = add_sat now (interval (base n e now) (p.attempt + 1) jitter) in
    elim (copy p.bytes) [
      | err x ↦ (err x, n)
      | ok bytes ↦
          elim (queue n.out (record { session = e.session; address = e.remote; bytes = bytes })
            max_out) [
              | err x ↦ (err x, n)
              | ok out ↦ (
                ok tt,
                record n {
                  out = out;
                  exchanges = set n.exchanges i (record e {
                    pending = some (record p { attempt = p.attempt + 1; next = next });
                  });
                },
              )
            ]
    ]

unfoldable pub retry : Node → ℕ → Exchange → Option Pending → ℕ → ℕ → Result (Unit {0}) × Node
unfolding give_up resend
retry n i e none now jitter = (err (invalid "Matter retry missing"), n)
retry n i e (some p) now jitter =
    if leb 4 p.attempt then give_up n i e else resend n i e p now jitter

unfoldable pub tick : Node → ℕ → ℕ → Result (Unit {0}) × Node
unfolding retry
tick n now jitter = elim (locate (λ e. is_due now e.pending) n.exchanges) [
  | none ↦ (ok tt, n)
  | some (i, e) ↦ retry n i e e.pending now jitter
]
