-- ===== src/Matter/Mrp/Receive.antt =====
-- Receiving, plugins/matter/src/mrp.rs: `receive`. What can refuse a datagram before any state
-- changes is `admit`; the rest is `received`.
use stulp.Prelude.{
  ℕ, ◌-◌, Bool, true, false, not, ◌&&◌, ◌||◌, Option, none, some, List, [], ◌∷◌, ◌++◌, length,
  locate, set, ltb, leb, ◌==◌, if◌then◌else◌, String, same_text,
}
use stulp.Prelude.Results.{Result, ok, err, invalid, guard, ◌>>=◌, ◌>>◌}
use stulp.Matter.Message.{Protocol, Message, Cipher, is_some, is_other, peek, parse, open_sealed}
use stulp.Matter.Mrp.{
  Node, Secure, Exchange, Pending, Event, accepted, message, acknowledged, max_udp, max_out,
  max_events, max_exchanges, fresh, add_exchange, bad_ephemeral,
}
use stulp.Matter.Mrp.Replay.{Replay, mark}
use stulp.Matter.Mrp.Replay
use stulp.Matter.Mrp.Send.{session_from, acknowledge, late_ack}

-- A standalone acknowledgement of the secure channel.
abbrev pub is_ack : Protocol → Bool
is_ack p = p.opcode == 0x10 && p.protocol == 0

-- `a == b` and `a != b` of booleans.
abbrev pub differ : Bool → Bool → Bool
differ true b = not b
differ false b = b

abbrev pub exchange_of : Node → String → ℕ → Protocol → Option (ℕ × Exchange)
exchange_of n address local p =
    locate
      (λ e.
        same_text e.remote address
        && (e.session == local && (e.id == p.exchange && differ e.initiator p.initiator)))
      n.exchanges

-- The session's place and itself are none where there is no such session.
unfoldable pub mark_session : Node → Option (ℕ × Secure) → ℕ → ℕ → Bool × Node
unfolding mark
mark_session n none counter now = (false, n)
mark_session n (some (i, s)) counter now =
    let (duplicate, replay) = mark s.replay counter in
    (
      duplicate,
      record n { sessions = set n.sessions i (record s { replay = replay; last = some now }) },
    )

-- `p.ack` meets the sending that waits for it.
abbrev pub is_answer : Option ℕ → Option Pending → Bool
is_answer none pending = false
is_answer (some counter) none = false
is_answer (some counter) (some w) = w.counter == counter

abbrev pub answers : Option ℕ → ℕ → List Event
answers none h = []
answers (some counter) h = acknowledged h counter ∷ []

-- The events that `publish` queues before the message.
abbrev pub announced : List Event → ℕ → Bool → Bool → Option ℕ → List Event
announced events h is_new answered ack =
    (events ++ (if is_new then accepted h ∷ [] else [])) ++ (if answered then answers ack h else [])

-- What a message changes in its exchange.
unfoldable pub settle : Exchange → Message → Bool → Replay.Replay → Exchange
settle e m answered replay = record e {
  pending = if answered then none else e.pending;
  replay = replay;
  ack = if m.protocol.reliable then some m.header.counter else e.ack;
}

-- Whether an unsecured message names the initiator of its exchange.
abbrev pub names : Option ℕ → ℕ → Bool
names none ephemeral = false
names (some a) ephemeral = a == ephemeral

unfoldable pub mark_exchange : Exchange → ℕ → ℕ → Bool → Bool × Replay.Replay
unfolding mark
mark_exchange e local counter duplicate =
    if local == 0 then mark e.replay counter else (duplicate, e.replay)

-- `source.unwrap_or(0)`
abbrev pub id_of : Option ℕ → ℕ
id_of none = 0
id_of (some a) = a

module _ (cipher : List ℕ → Cipher) where
  unfoldable pub open_message : Node → ℕ → String → List ℕ → Result Message
  unfolding parse open_sealed
  open_message n local address bytes =
      if local == 0 then parse bytes else elim (session_from n local address) [
        | none ↦ err (invalid "unknown Matter secure session or address")
        | some (i, s) ↦ do
          m ← open_sealed (cipher s.config.incoming) bytes s.config.peer_node
          guard (not (is_other m.header.destination s.config.local_node))
              (invalid "Matter destination differs from session")
          ok m
      ]

  -- Everything up to the reservation of a new exchange; the session id comes with the message.
  unfoldable pub admit : Node → String → List ℕ → Result (ℕ × Message)
  unfolding peek open_message
  admit n address bytes = do
    guard (not (ltb max_udp (length bytes))) (invalid "oversized Matter datagram")
    guard (not (ltb (max_events - 3) (length n.events) || leb max_out (length n.out)))
        (invalid "Matter transport backpressure")
    (header, size) ← peek bytes
    guard (not (not (header.kind == 0) || header.control))
        (invalid "Matter group and counter-control messages unsupported")
    m ← open_message n header.session address bytes
    guard (not (is_some m.protocol.vendor)) (invalid "vendor-specific Matter protocols unsupported")
    guard
        (not (
          header.session == 0
          && not (differ (is_some m.header.source) (is_some m.header.destination))))
        (invalid "unsecured Matter message needs one ephemeral ID")
    guard
        (not (
          not (is_some (exchange_of n address header.session m.protocol))
          && (m.protocol.initiator
              && (not (is_ack m.protocol) && leb max_exchanges (length n.exchanges)))))
        (invalid "Matter exchange table full")
    ok (header.session, m)

  -- The end of `receive`: the exchange is settled and its events are queued.
  unfoldable pub publish :
      Node → ℕ → Exchange → Bool → Message → Bool × Replay.Replay → Result (Unit {0}) × Node
  unfolding settle acknowledge
  publish n i e is_new m (duplicate, replay) =
      let p = m.protocol in
      let answered = is_answer p.ack e.pending in
      let events = announced n.events e.handle is_new answered p.ack in
      let n1 = record n {
        exchanges = set n.exchanges i (settle e m answered replay);
        events = events;
      } in
      if is_ack p
      then (ok tt, n1)
      else if duplicate
      then acknowledge cipher n1 e.handle
      else (ok tt, record n1 { events = events ++ message e.handle m ∷ [] })

  unfoldable pub deliver :
      Node → ℕ → Exchange → Bool → ℕ → Message → Bool → Result (Unit {0}) × Node
  unfolding publish mark_exchange
  deliver n i e is_new local m duplicate =
      let p = m.protocol in
      if not (p.protocol == e.protocol) && not (is_ack p)
      then (err (invalid "message belongs to another Matter protocol"), n)
      else if local == 0
          && not (names (if e.initiator then m.header.destination else m.header.source) e.ephemeral)
      then (err (invalid "unsecured message addresses another initiator"), n)
      else publish n i e is_new m (mark_exchange e local m.header.counter duplicate)

  -- A new exchange stands last in the table.
  unfoldable pub deliver_new :
      Result ℕ × Node → (ℕ → Exchange) → ℕ → Message → Bool → Result (Unit {0}) × Node
  unfolding deliver
  deliver_new (err x, n) make local m duplicate = (err x, n)
  deliver_new (ok h, n) make local m duplicate =
      deliver n (length n.exchanges - 1) (make h) true local m duplicate

  -- A message that opens an exchange.
  unfoldable pub accept : Node → String → ℕ → Message → Bool → Result (Unit {0}) × Node
  unfolding add_exchange deliver_new Replay.new
  accept n address local m duplicate =
      let p = m.protocol in
      let ephemeral = id_of m.header.source in
      let make = λ (h : ℕ). fresh h address local p.exchange false p.protocol ephemeral 0 in
      if local == 0 && bad_ephemeral ephemeral
      then (err (invalid "invalid peer ephemeral ID"), n)
      else deliver_new (add_exchange n make) make local m duplicate

  unfoldable pub dispatch : Node → String → ℕ → Message → Bool → Result (Unit {0}) × Node
  unfolding deliver accept late_ack
  dispatch n address local m duplicate =
      let p = m.protocol in
      elim (exchange_of n address local p) [
        | some (i, e) ↦ deliver n i e false local m duplicate
        | none ↦
            if duplicate || (not p.initiator || is_ack p)
            then late_ack cipher n address m
            else accept n address local m duplicate
      ]

  unfoldable pub dispatch_marked : Bool × Node → String → ℕ → Message → Result (Unit {0}) × Node
  unfolding dispatch
  dispatch_marked (duplicate, n) address local m = dispatch n address local m duplicate

  unfoldable pub received : Node → String → ℕ → Message → ℕ → Result (Unit {0}) × Node
  unfolding mark_session dispatch_marked
  received n address local m now =
      dispatch_marked (mark_session n (session_from n local address) m.header.counter now) address
        local m

  unfoldable pub receive : Node → String → List ℕ → ℕ → Result (Unit {0}) × Node
  unfolding admit received
  receive n address bytes now = elim (admit n address bytes) [
    | err x ↦ (err x, n)
    | ok (local, m) ↦ received n address local m now
  ]
