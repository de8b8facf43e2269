-- ===== src/Matter/Mrp.antt =====
-- The message reliability protocol, plugins/matter/src/mrp.rs: one owner of all sessions and
-- exchanges. Here its state, the timing, and the calls that open and close. Of a failed call the
-- state that it leaves is given too.
pub mod Replay
pub mod Send
pub mod Receive
pub mod Tick
pub mod Interval
pub mod Sound
pub mod Quiet
pub mod Retry
pub mod Initiate
pub mod Tests
pub mod Forget
pub mod Budget
pub mod Delivery
pub mod Messages
pub mod Duplicate
pub mod Window
pub mod Marked
pub mod Spent
pub mod Once
use stulp.Prelude.{
  ℕ, zero, suc, ◌+◌, ◌-◌, ◌*◌, ◌/◌, ◌%◌, ◌^◌, Bool, true, false, not, ◌&&◌, ◌||◌, Option, none,
  some, List, [], ◌∷◌, ◌++◌, length, any, find, locate, retain, set, ltb, leb, ◌==◌, if◌then◌else◌,
  bit_and, String, same_text, min, max,
}
use stulp.Prelude.Results.{Error, Result, ok, err, full, invalid}
use stulp.Matter.Message.{Message, is_some}
use stulp.Matter.Mrp.Replay

abbrev pub max_sessions : ℕ
max_sessions = 64

abbrev pub max_exchanges : ℕ
max_exchanges = 128

abbrev pub max_events : ℕ
max_events = 64

abbrev pub max_out : ℕ
max_out = 64

-- `message::MAX_UDP`
abbrev pub max_udp : ℕ
max_udp = 1232

pub record Timing : Type 0 where
  pub idle : ℕ
  pub active : ℕ
  pub threshold : ℕ

pub record Session : Type 0 where
  pub local : ℕ
  pub peer : ℕ
  pub local_node : ℕ
  pub peer_node : ℕ
  pub address : String
  pub outgoing : List ℕ
  pub incoming : List ℕ
  pub timing : Timing

pub record Secure : Type 0 where
  pub config : Session
  pub counter : ℕ
  pub replay : Replay.Replay
  pub last : Option ℕ

pub record Outgoing : Type 0 where
  pub session : ℕ
  pub address : String
  pub bytes : List ℕ

-- A `Handle` is its number.
pub data Event : Type 0 where
  accepted : ℕ → Event
  message : ℕ → Message → Event
  acknowledged : ℕ → ℕ → Event
  failed : ℕ → Event

pub record Pending : Type 0 where
  pub counter : ℕ
  pub bytes : List ℕ
  pub attempt : ℕ
  pub next : ℕ

pub record Exchange : Type 0 where
  pub handle : ℕ
  pub remote : String
  pub session : ℕ
  pub id : ℕ
  pub initiator : Bool
  pub protocol : ℕ
  pub ephemeral : ℕ
  pub replay : Replay.Replay
  pub ack : Option ℕ
  pub pending : Option Pending
  pub retry : ℕ

pub record Node : Type 0 where
  pub sessions : List Secure
  pub exchanges : List Exchange
  pub out : List Outgoing
  pub events : List Event
  pub counter : ℕ
  pub next_handle : ℕ
  pub next_exchange : ℕ

-- `saturating_add` and `saturating_mul` of a `u64`.
abbrev pub add_sat : ℕ → ℕ → ℕ
add_sat a b = min (2 ^ 64 - 1) (a + b)

abbrev pub mul_sat : ℕ → ℕ → ℕ
mul_sat a b = min (2 ^ 64 - 1) (a * b)

-- `last.is_some_and(|last| now.saturating_sub(last) < threshold)`
abbrev pub is_recent : Option ℕ → ℕ → ℕ → Bool
is_recent none now threshold = false
is_recent (some last) now threshold = ltb (now - last) threshold

-- `Timing::base`
unfoldable pub timing_base : Timing → Option ℕ → ℕ → ℕ
timing_base t last now =
    if ltb 0 t.active && (ltb 0 t.threshold && is_recent last now t.threshold)
    then t.active
    else if ltb 0 t.idle
    then t.idle
    else if ltb 0 t.active
    then t.active
    else 500

unfoldable pub queue {ℓ} : {A : Type ℓ} → List A → A → ℕ → Result (List A)
queue q item limit =
    if leb limit (length q)
    then err (invalid "Matter transport queue full")
    else ok (q ++ item ∷ [])

-- `json::push`
unfoldable pub push {ℓ} : {A : Type ℓ} → List A → A → ℕ → Result (List A)
push values value limit = if leb limit (length values) then err full else ok (values ++ value ∷ [])

-- `n.saturating_mul(16) / 10`, as often as an attempt asks for.
unfoldable pub backoff : ℕ → ℕ → ℕ
backoff zero n = n
backoff (suc times) n = backoff times (mul_sat n 16 / 10)

unfoldable pub interval : ℕ → ℕ → ℕ → ℕ
unfolding backoff
interval base attempt jitter =
    let n = backoff (attempt - 1) (mul_sat base 1100 / 1000) in
    max (add_sat n (mul_sat n jitter / (2 ^ 32 - 1) / 4)) 1

unfoldable pub new : ℕ → ℕ → Node
new counter_seed exchange_seed = record {
  sessions = [];
  exchanges = [];
  out = [];
  events = [];
  counter = bit_and counter_seed 0x0fff_ffff;
  next_handle = 0;
  next_exchange = exchange_seed;
}

-- `address.is_empty()`
abbrev pub is_blank : String → Bool
is_blank address = same_text address ""

unfoldable pub has_session : Node → ℕ → Bool
has_session n local = any (λ s. s.config.local == local) n.sessions

unfoldable pub register : Node → Session → ℕ → Result (Unit {0}) × Node
unfolding has_session push Replay.new
register n config counter_seed =
    if config.local == 0
      || (config.peer == 0 || (is_blank config.address || has_session n config.local))
    then (err (invalid "invalid or duplicate Matter session"), n)
    else elim (push n.sessions
        (record {
          config = config;
          counter = bit_and counter_seed 0x0fff_ffff;
          replay = Replay.new;
          last = none;
        })
        max_sessions) [
          | err e ↦ (err e, n)
          | ok sessions ↦ (ok tt, record n { sessions = sessions })
        ]

abbrev pub handle_of : Event → ℕ
handle_of (accepted h) = h
handle_of (message h m) = h
handle_of (acknowledged h c) = h
handle_of (failed h) = h

-- The `belongs` of `remove`.
abbrev pub belongs : List Exchange → ℕ → Event → Bool
belongs exchanges local event =
    any (λ e. e.handle == handle_of event && e.session == local) exchanges

-- The exchanges are taken out from the last to the first, each with an event.
abbrev pub failures : List Exchange → ℕ → List Event → List Event
failures [] local events = events
failures (e ∷ es) local events =
    let later = failures es local events in
    if e.session == local then later ++ failed e.handle ∷ [] else later

unfoldable pub remove : Node → ℕ → Result (Unit {0}) × Node
remove n local =
    let count = length (retain (λ e. e.session == local) n.exchanges) in
    let retained = retain (λ event. not (belongs n.exchanges local event)) n.events in
    if ltb (max_events - length retained) count
    then (err (invalid "Matter event queue full"), n)
    else (
      ok tt,
      record n {
        events = failures n.exchanges local retained;
        sessions = retain (λ s. not (s.config.local == local)) n.sessions;
        out = retain (λ p. not (p.session == local)) n.out;
        exchanges = retain (λ e. not (e.session == local)) n.exchanges;
      },
    )

-- `Node::handle`
unfoldable pub new_handle : Node → Result ℕ × Node
new_handle n =
    if leb (2 ^ 64) (n.next_handle + 1)
    then (err (invalid "Matter handles exhausted"), n)
    else (ok (n.next_handle + 1), record n { next_handle = n.next_handle + 1 })

-- `Node::position`, with the exchange that stands there.
unfoldable pub exchange_at : Node → ℕ → Result (ℕ × Exchange)
exchange_at n h = elim (locate (λ e. e.handle == h) n.exchanges) [
  | none ↦ err (invalid "Matter exchange closed")
  | some found ↦ ok found
]

-- Whether an exchange of `initiate` uses this id.
abbrev pub is_used : List Exchange → String → ℕ → ℕ → Bool
is_used exchanges address session id =
    any (λ e. e.initiator && (e.id == id && (same_text e.remote address && e.session == session)))
      exchanges

-- The loop of `initiate` over ids: the one found, and the last one tried.
unfoldable pub next_id : ℕ → List Exchange → String → ℕ → ℕ → Option ℕ × ℕ
next_id zero exchanges address session last = (none, last)
next_id (suc tries) exchanges address session last =
    let id = (last + 1) % 2 ^ 16 in
    let rest = next_id tries exchanges address session id in
    if is_used exchanges address session id then rest else (some id, id)

-- An exchange that has neither sent nor received.
abbrev pub fresh : ℕ → String → ℕ → ℕ → Bool → ℕ → ℕ → ℕ → Exchange
fresh handle remote session id initiator protocol ephemeral retry = record {
  handle = handle;
  remote = remote;
  session = session;
  id = id;
  initiator = initiator;
  protocol = protocol;
  ephemeral = ephemeral;
  replay = Replay.new;
  ack = none;
  pending = none;
  retry = retry;
}

-- The table takes the exchange that has the new handle.
unfoldable pub placed : Result ℕ × Node → (ℕ → Exchange) → Result ℕ × Node
unfolding push
placed (err e, n) make = (err e, n)
placed (ok h, n) make = elim (push n.exchanges (make h) max_exchanges) [
  | err e ↦ (err e, n)
  | ok exchanges ↦ (ok h, record n { exchanges = exchanges })
]

-- A new exchange, with the next handle, at the end of the table.
unfoldable pub add_exchange : Node → (ℕ → Exchange) → Result ℕ × Node
unfolding new_handle placed
add_exchange n make = placed (new_handle n) make

-- `ephemeral == 0 || ephemeral > 0xffff_ffef_ffff_ffff`
abbrev pub bad_ephemeral : ℕ → Bool
bad_ephemeral ephemeral = ephemeral == 0 || ltb 0xffff_ffef_ffff_ffff ephemeral

unfoldable pub initiate : Node → String → ℕ → ℕ → ℕ → ℕ → Result ℕ × Node
unfolding next_id add_exchange Replay.new
initiate n address session protocol ephemeral retry_ms =
    if session == 0 && bad_ephemeral ephemeral
    then (err (invalid "invalid ephemeral initiator ID"), n)
    else if not (session == 0)
        && not
            (any (λ s. s.config.local == session && same_text s.config.address address) n.sessions)
    then (err (invalid "Matter session missing for peer"), n)
    else (let (found, last) =
          next_id (max_exchanges + 1) n.exchanges address session n.next_exchange in
        let n1 = record n { next_exchange = last } in
        elim found [
          | none ↦ (err (invalid "Matter exchange IDs unavailable"), n1)
          | some id ↦
              add_exchange n1 (λ h. fresh h address session id true protocol ephemeral retry_ms)
        ])

unfoldable pub awaiting : Node → ℕ → Result Bool
unfolding exchange_at
awaiting n h = elim (exchange_at n h) [ err e ↦ err e | ok (i, e) ↦ ok (is_some e.pending) ]

-- `.map(|s| s.config.peer_node).unwrap_or(0)`
abbrev pub peer_node_of : Option Secure → ℕ
peer_node_of none = 0
peer_node_of (some s) = s.config.peer_node

unfoldable pub peer : Node → ℕ → Result (String × ℕ × ℕ × ℕ)
unfolding exchange_at
peer n h = elim (exchange_at n h) [
  | err e ↦ err e
  | ok (i, e) ↦ ok (
    e.remote,
    e.session,
    e.protocol,
    peer_node_of (find (λ s. s.config.local == e.session) n.sessions),
  )
]

unfoldable pub close : Node → ℕ → Node
close n h = record n { exchanges = retain (λ e. not (e.handle == h)) n.exchanges }

unfoldable pub outgoing : Node → Option Outgoing × Node
outgoing n = elim n.out [ [] ↦ (none, n) | p ∷ ps ↦ (some p, record n { out = ps }) ]

unfoldable pub event : Node → Option Event × Node
event n = elim n.events [ [] ↦ (none, n) | e ∷ es ↦ (some e, record n { events = es }) ]

-- `Node::base`: the time between two sendings of an exchange.
unfoldable pub base : Node → Exchange → ℕ → ℕ
unfolding timing_base
base n e now =
    if ltb 0 e.retry then e.retry else elim (find (λ s. s.config.local == e.session) n.sessions) [
      | none ↦ 500
      | some s ↦ timing_base s.config.timing s.last now
    ]
