-- ===== src/Matter/Mrp/Sound/Opening.antt =====
-- The state after an exchange was opened (plugins/matter/src/mrp.rs).
use stulp.Prelude.{
  ℕ, ◌+◌, ◌^◌, ◌≤◌, ◌≡◌, ◌≢◌, refl, ap, ◌∙◌, true, not, ◌&&◌, List, [], ◌∷◌, ◌++◌, any, All, leb,
  ◌==◌, inl, inr, arith, Bool-cases, Option-cases, String, same_text,
}
use stulp.Prelude.Distinct.{Nodup-snoc, All-snoc, All-mono, map-snoc, All-map}
use stulp.Prelude.Results.{ok, err, invalid, Result-cases}
use stulp.Matter.Mrp.{
  Node, Exchange, max_exchanges, push, new_handle, placed, add_exchange, next_id, initiate,
  bad_ephemeral, fresh,
}
use stulp.Matter.Mrp.Sound.{IsSound, AtMostFive, handles, counters-IsSound}
use stulp.Matter.Mrp.Sound.Calls.{push-le}

handles_below :
    (top : ℕ) (es : List Exchange)
    → All (λ e. e.handle ≤ top) es
    → All (λ y. y ≢ top + 1) (handles es)
handles_below top es h =
    All-map (λ y. y ≢ top + 1) (λ e. e.handle) es
      (All-mono (λ e. e.handle ≤ top) (λ e. e.handle ≢ top + 1) es
        (λ e le same. omega (arith, le, same)) h)

-- The node whose next handle is taken.
abbrev handled : Node → Node
handled n = record n { next_handle = n.next_handle + 1 }

handled-IsSound : (n : Node) → IsSound n → IsSound (handled n)
handled-IsSound n v = record {
  few_sessions = v.few_sessions;
  few_exchanges = v.few_exchanges;
  few_out = v.few_out;
  few_events = v.few_events;
  real = v.real;
  sessions_differ = v.sessions_differ;
  handles_differ = v.handles_differ;
  handles_old =
      All-mono (λ e. e.handle ≤ n.next_handle) (λ e. e.handle ≤ n.next_handle + 1) n.exchanges
        (λ e le. omega (arith, le)) v.handles_old;
  sendings = v.sendings;
}

opened-IsSound :
    (n : Node) (e : Exchange) (exchanges : List Exchange)
    → IsSound n
    → e.handle ≡ n.next_handle + 1
    → AtMostFive e.pending
    → push n.exchanges e max_exchanges ≡ ok exchanges
    → IsSound (record (handled n) { exchanges = exchanges })
opened-IsSound n e exchanges v new_one few room =
    let (short, same) = push-le n.exchanges e max_exchanges room in
    let place = map-snoc (λ e. e.handle) n.exchanges e in
    let w = handled-IsSound n v in
    record {
      few_sessions = v.few_sessions;
      few_exchanges = short;
      few_out = v.few_out;
      few_events = v.few_events;
      real = v.real;
      sessions_differ = v.sessions_differ;
      handles_differ =
          rw (same, place, new_one)
            (Nodup-snoc (handles n.exchanges) (n.next_handle + 1) v.handles_differ
              (handles_below n.next_handle n.exchanges v.handles_old));
      handles_old = rw same (
          All-snoc (λ e. e.handle ≤ n.next_handle + 1) n.exchanges e w.handles_old
            (omega (arith, new_one)));
      sendings = rw same (All-snoc (λ e. AtMostFive e.pending) n.exchanges e v.sendings few);
    }

-- `add_exchange` keeps the state sound, and where it answers a handle the exchange stands last.
pub add_exchange-IsSound :
    (n : Node) (make : ℕ → Exchange)
    → IsSound n
    → ((h : ℕ) → ((make h).handle ≡ h) × AtMostFive (make h).pending)
    → IsSound (add_exchange n make).1
      × ((h : ℕ)
          → (add_exchange n make).0 ≡ ok h
          → (add_exchange n make).1.exchanges ≡ n.exchanges ++ make h ∷ [])
unfolding add_exchange new_handle placed
add_exchange-IsSound n make v shape = elim (Bool-cases (leb (2 ^ 64) (n.next_handle + 1))) [
  | inl spent ↦
      let none_left : new_handle n ≡ (err (invalid "Matter handles exhausted"), n) =
        rw (spent, new_handle) in
      rw (add_exchange, none_left) (v, (λ h e. absurd (cc e)))
  | inr left ↦
      let taken : new_handle n ≡ (ok (n.next_handle + 1), handled n) = rw (left, new_handle) in
      let e = make (n.next_handle + 1) in
      elim (Result-cases (push n.exchanges e max_exchanges)) [
        | inr (x, no_room) ↦
            rw (add_exchange, taken, placed, no_room) (handled-IsSound n v, (λ h e. absurd (cc e)))
        | inl (exchanges, room) ↦
            let (same, few) = shape (n.next_handle + 1) in
            rw (add_exchange, taken, placed, room)
              (
                opened-IsSound n e exchanges v same few room,
                (λ h g.
                    let here : n.next_handle + 1 ≡ h = cc g in
                    (push-le n.exchanges e max_exchanges room).1
                    ∙ ap (λ (t : ℕ). n.exchanges ++ make t ∷ []) here),
              )
      ]
]

pub initiate-IsSound :
    (n : Node) (address : String) (session protocol ephemeral retry_ms : ℕ)
    → IsSound n
    → IsSound (initiate n address session protocol ephemeral retry_ms).1
unfolding initiate
initiate-IsSound n address session protocol ephemeral retry_ms v =
    let missing =
      not (session == 0)
      && not
          (any (λ s. s.config.local == session && same_text s.config.address address) n.sessions) in
    let (found, last) = next_id (max_exchanges + 1) n.exchanges address session n.next_exchange in
    let w = counters-IsSound n n.counter last v in
    elim (Bool-cases (session == 0 && bad_ephemeral ephemeral)) [
      | inl bad ↦ rw (bad, initiate) v
      | inr good ↦ elim (Bool-cases missing) [
        | inl unknown ↦ rw (good, initiate, unknown) v
        | inr known ↦ elim (Option-cases found) [
          | inl spent ↦ rw (good, initiate, known, spent) w
          | inr (id, free) ↦
              rw (good, initiate, known, free)
                (add_exchange-IsSound (record n { next_exchange = last })
                  (λ h. fresh h address session id true protocol ephemeral retry_ms) w
                  (λ h. (refl, tt))).0
        ]
      ]
    ]

-- It leaves the events and the sessions alone.
pub add_exchange_keeps :
    (n : Node) (make : ℕ → Exchange)
    → ((add_exchange n make).1.events ≡ n.events) × ((add_exchange n make).1.sessions ≡ n.sessions)
unfolding add_exchange new_handle placed
add_exchange_keeps n make = elim (Bool-cases (leb (2 ^ 64) (n.next_handle + 1))) [
  | inl spent ↦
      let none_left : new_handle n ≡ (err (invalid "Matter handles exhausted"), n) =
        rw (spent, new_handle) in
      rw (add_exchange, none_left) (refl, refl)
  | inr left ↦
      let taken : new_handle n ≡ (ok (n.next_handle + 1), handled n) = rw (left, new_handle) in
      elim (Result-cases (push n.exchanges (make (n.next_handle + 1)) max_exchanges)) [
        | inr (x, no_room) ↦ rw (add_exchange, taken, placed, no_room) (refl, refl)
        | inl (exchanges, room) ↦ rw (add_exchange, taken, placed, room) (refl, refl)
      ]
]
