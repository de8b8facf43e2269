-- ===== src/Matter/Mrp/Send.antt =====
-- Sending, plugins/matter/src/mrp.rs: `build`, `send`, `acknowledge` and `late_ack`. `cipher` gives
-- the cipher of a key.
use stulp.Prelude.{
  ℕ, ◌+◌, ◌^◌, Bool, true, false, not, ◌&&◌, ◌||◌, Option, none, some, List, [], length, locate,
  set, ltb, leb, ◌==◌, if◌then◌else◌, String, same_text,
}
use stulp.Prelude.Results.{Result, ok, err, invalid, ◌>>=◌}
use stulp.Matter.Buffer.{copy}
use stulp.Matter.Message.{Header, Protocol, Message, Cipher, is_some, encode, seal}
use stulp.Matter.Mrp.{
  Node, Secure, Exchange, Pending, max_udp, max_out, queue, exchange_at, base, interval, add_sat,
}

-- A header and an exchange header with these fields, otherwise as `default` gives them.
abbrev pub header_of : ℕ → ℕ → Option ℕ → Option ℕ → Header
header_of session counter source destination = record {
  session = session;
  kind = 0;
  control = false;
  counter = counter;
  source = source;
  destination = destination;
  group = none;
  extensions = [];
}

abbrev pub protocol_of : Bool → Bool → Option ℕ → ℕ → ℕ → ℕ → Protocol
protocol_of initiator reliable ack opcode exchange protocol = record {
  initiator = initiator;
  reliable = reliable;
  ack = ack;
  opcode = opcode;
  exchange = exchange;
  protocol = protocol;
  vendor = none;
  extensions = [];
}

abbrev pub message_of : Header → Exchange → ℕ → ℕ → Bool → List ℕ → Message
message_of header e protocol opcode reliable payload = record {
  header = header;
  protocol = protocol_of e.initiator reliable e.ack opcode e.id protocol;
  payload = payload;
}

-- The end of `build`: a frame must fit a datagram.
unfoldable pub fitting : Result (List ℕ) → ℕ → Result (List ℕ × ℕ)
fitting encoded counter = do
  frame ← encoded
  if ltb max_udp (length frame)
      then err (invalid "Matter datagram exceeds IPv6 UDP budget")
      else ok (frame, counter)

-- The session at a place has used the next counter.
abbrev pub counted : Node → ℕ → Secure → Node
counted n i s = record n { sessions = set n.sessions i (record s { counter = s.counter + 1 }) }

abbrev pub session_of : Node → ℕ → Option (ℕ × Secure)
session_of n local = locate (λ s. s.config.local == local) n.sessions

-- `self.sessions` searched for a session and an address.
abbrev pub session_from : Node → ℕ → String → Option (ℕ × Secure)
session_from n local address =
    locate (λ s. s.config.local == local && same_text s.config.address address) n.sessions

unfoldable pub build_plain : Node → Exchange → ℕ → ℕ → List ℕ → Bool → Result (List ℕ × ℕ) × Node
unfolding copy fitting encode
build_plain n e protocol opcode payload reliable =
    let counter = n.counter + 1 in
    if leb (2 ^ 32) counter
    then (err (invalid "Matter counter exhausted"), n)
    else elim (copy payload) [
      | err x ↦ (err x, n)
      | ok copied ↦
          let source = if e.initiator then some e.ephemeral else none in
          let destination = if e.initiator then none else some e.ephemeral in
          let m =
            message_of (header_of 0 counter source destination) e protocol opcode reliable copied in
          if not (e.session == 0)
          then (err (invalid "Matter session expired"), n)
          else (fitting (encode m) counter, record n { counter = counter })
    ]

module _ (cipher : List ℕ → Cipher) where
  unfoldable pub build_secure :
      Node → ℕ → Secure → Exchange → ℕ → ℕ → List ℕ → Bool → Result (List ℕ × ℕ) × Node
  unfolding copy fitting seal
  build_secure n i s e protocol opcode payload reliable =
      let counter = s.counter + 1 in
      if leb (2 ^ 32) counter
      then (err (invalid "Matter counter exhausted"), n)
      else elim (copy payload) [
        | err x ↦ (err x, n)
        | ok copied ↦
            let m =
              message_of (header_of s.config.peer counter none none) e protocol opcode reliable
                copied in
            (fitting (seal (cipher s.config.outgoing) m s.config.local_node) counter, counted n i s)
      ]

  unfoldable pub build : Node → Exchange → ℕ → ℕ → List ℕ → Bool → Result (List ℕ × ℕ) × Node
  unfolding build_plain build_secure
  build n e protocol opcode payload reliable = elim (session_of n e.session) [
    | none ↦ build_plain n e protocol opcode payload reliable
    | some (i, s) ↦ build_secure n i s e protocol opcode payload reliable
  ]

  -- The end of `send` and `acknowledge`: what is queued acknowledges what was received.
  unfoldable pub post : Node → ℕ → Exchange → Option Pending → List ℕ → Result (Unit {0}) × Node
  unfolding queue
  post n i e pending bytes =
      elim (queue n.out (record { session = e.session; address = e.remote; bytes = bytes })
        max_out) [
          | err x ↦ (err x, n)
          | ok out ↦ (
            ok tt,
            record n {
              out = out;
              exchanges = set n.exchanges i (record e { pending = pending; ack = none });
            },
          )
        ]

  -- What `send` keeps until it is acknowledged.
  unfoldable pub kept : Node → Exchange → Bool → List ℕ → ℕ → ℕ → ℕ → Result (Option Pending)
  unfolding copy base interval
  kept n e false bytes counter now jitter = ok none
  kept n e true bytes counter now jitter = do
    copied ← copy bytes
    ok (
        some (record {
          counter = counter;
          bytes = copied;
          attempt = 0;
          next = add_sat now (interval (base n e now) 0 jitter);
        }))

  unfoldable pub send_built :
      ℕ → Exchange → Bool → ℕ → ℕ → Result (List ℕ × ℕ) × Node → Result (Unit {0}) × Node
  unfolding kept post
  send_built i e reliable now jitter (err x, n) = (err x, n)
  send_built i e reliable now jitter (ok (bytes, counter), n) =
      elim (kept n e reliable bytes counter now jitter) [
        | err x ↦ (err x, n)
        | ok pending ↦ post n i e pending bytes
      ]

  unfoldable pub send : Node → ℕ → ℕ → List ℕ → Bool → ℕ → ℕ → Result (Unit {0}) × Node
  unfolding exchange_at build send_built
  send n h opcode payload reliable now jitter = elim (exchange_at n h) [
    | err x ↦ (err x, n)
    | ok (i, e) ↦
        if is_some e.pending
        then (err (invalid "Matter exchange already awaits acknowledgement"), n)
        else send_built i e reliable now jitter (build n e e.protocol opcode payload reliable)
  ]

  unfoldable pub acknowledge_built :
      ℕ → Exchange → Result (List ℕ × ℕ) × Node → Result (Unit {0}) × Node
  unfolding post
  acknowledge_built i e (err x, n) = (err x, n)
  acknowledge_built i e (ok (bytes, counter), n) = post n i e e.pending bytes

  unfoldable pub acknowledge : Node → ℕ → Result (Unit {0}) × Node
  unfolding exchange_at build acknowledge_built
  acknowledge n h = elim (exchange_at n h) [
    | err x ↦ (err x, n)
    | ok (i, e) ↦
        if is_some e.ack then acknowledge_built i e (build n e 0 0x10 [] false) else (ok tt, n)
  ]

  -- An acknowledgement without an exchange.
  abbrev pub bare_ack : Secure → Message → Message
  bare_ack s m = record {
    header = header_of s.config.peer (s.counter + 1) none none;
    protocol =
        protocol_of (not m.protocol.initiator) false (some m.header.counter) 0x10
          m.protocol.exchange 0;
    payload = [];
  }

  unfoldable pub post_bare : Node → ℕ → String → Result (List ℕ) → Result (Unit {0}) × Node
  unfolding queue
  post_bare n session address (err x) = (err x, n)
  post_bare n session address (ok bytes) =
      elim (queue n.out (record { session = session; address = address; bytes = bytes }) max_out) [
        | err x ↦ (err x, n)
        | ok out ↦ (ok tt, record n { out = out })
      ]

  unfoldable pub late_ack : Node → String → Message → Result (Unit {0}) × Node
  unfolding post_bare seal
  late_ack n address m =
      if m.header.session == 0 || not m.protocol.reliable
      then (ok tt, n)
      else elim (session_from n m.header.session address) [
        | none ↦ (err (invalid "Matter session missing"), n)
        | some (i, s) ↦
            if leb (2 ^ 32) (s.counter + 1)
            then (err (invalid "Matter counter exhausted; establish a new session"), n)
            else post_bare (counted n i s) m.header.session address
                (seal (cipher s.config.outgoing) (bare_ack s m) s.config.local_node)
      ]
