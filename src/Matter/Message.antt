-- ===== src/Matter/Message.antt =====
-- Frames of the Matter protocols, plugins/matter/src/message.rs. Integers are in the range of
-- their Rust types; the cipher is an interface, which Ccm.antt models for AES-CCM.
pub mod Fields
pub mod Front
pub mod Exchange
pub mod RoundTrip
use stulp.Prelude.{
  ℕ, zero, suc, ◌+◌, ◌%◌, ◌^◌, ◌≤◌, ◌<◌, ◌≡◌, Bool, true, false, not, ◌&&◌, ◌||◌, Option, none,
  some, List, [], ◌∷◌, ◌++◌, length, take, drop, get_elem?, ltb, leb, ◌==◌, if◌then◌else◌, bit_and,
  bit_or,
}
use stulp.Prelude.Results.{Error, Result, ok, err, invalid, ok_or, guard, ◌>>=◌, ◌>>◌}
use stulp.Bytes.{to_le, from_le, slice}
use stulp.Matter.Buffer.{append, copy, Cursor, read_le, read_extension}

pub record Header : Type 0 where
  pub session : ℕ
  pub kind : ℕ
  pub control : Bool
  pub counter : ℕ
  pub source : Option ℕ
  pub destination : Option ℕ
  pub group : Option ℕ
  pub extensions : List ℕ

pub record Protocol : Type 0 where
  pub initiator : Bool
  pub reliable : Bool
  pub ack : Option ℕ
  pub opcode : ℕ
  pub exchange : ℕ
  pub protocol : ℕ
  pub vendor : Option ℕ
  pub extensions : List ℕ

pub record Message : Type 0 where
  pub header : Header
  pub protocol : Protocol
  pub payload : List ℕ

abbrev pub is_some {ℓ} : {A : Type ℓ} → Option A → Bool
is_some none = false
is_some (some x) = true

abbrev pub is_empty {ℓ} : {A : Type ℓ} → List A → Bool
is_empty [] = true
is_empty (x ∷ xs) = false

-- `if let Some(n) = o { append(out, &n.to_le_bytes()) }` at a width in bytes
unfoldable pub append_option : List ℕ → ℕ → Option ℕ → Result (List ℕ)
unfolding append to_le
append_option out width none = ok out
append_option out width (some n) = append out (to_le width n)

-- `if test { Some(c.le(width)?) } else { None }`
unfoldable pub read_option : Cursor → Bool → ℕ → Result (Option ℕ × Cursor)
unfolding read_le
read_option c false width = ok (none, c)
read_option c true width = do (n, c') ← read_le c width; ok (some n, c')

-- `if test { c.extension()? } else { Vec::new() }`
unfoldable pub read_extensions : Cursor → Bool → Result (List ℕ × Cursor)
unfolding read_extension
read_extensions c false = ok ([], c)
read_extensions c true = read_extension c

unfoldable pub ext : List ℕ → List ℕ → Result (List ℕ)
unfolding append to_le
ext out bytes = do
  guard (leb (length bytes) 65535) (invalid "Matter extension too long")
  if is_empty bytes
      then ok out
      else do sized ← append out (to_le 2 (length bytes % 2 ^ 16)); append sized bytes

-- `o.is_some_and(|s| s != n)`
abbrev pub is_other : Option ℕ → ℕ → Bool
is_other none n = false
is_other (some s) n = not (s == n)

-- `Header::validate`
unfoldable pub valid_header : Header → Result (Unit {0})
valid_header h =
    if ltb 1 h.kind
      || is_some h.destination && is_some h.group
      || h.kind == 1 && not (is_some h.group)
    then err (invalid "invalid Matter addressing or session type")
    else ok tt

unfoldable pub message_flags : Bool → Bool → Bool → ℕ
message_flags source destination group =
    bit_or (if source then 4 else 0) (if destination then 1 else if group then 2 else 0)

unfoldable pub security_flags : ℕ → Bool → Bool → ℕ
security_flags kind control extended =
    bit_or (bit_or kind (if control then 64 else 0)) (if extended then 32 else 0)

unfoldable pub header_flags : Header → ℕ
unfolding message_flags
header_flags h = message_flags (is_some h.source) (is_some h.destination) (is_some h.group)

unfoldable pub header_security : Header → ℕ
unfolding security_flags
header_security h = security_flags h.kind h.control (not (is_empty h.extensions))

-- `Header::encode` behind its `self.validate()?`
unfoldable pub write_header : Header → Result (List ℕ)
unfolding append append_option ext to_le header_flags header_security
write_header h = do
  o1 ← append [] (header_flags h ∷ [])
  o2 ← append o1 (to_le 2 h.session)
  o3 ← append o2 (header_security h ∷ [])
  o4 ← append o3 (to_le 4 h.counter)
  o5 ← append_option o4 8 h.source
  o6 ← append_option o5 8 h.destination
  o7 ← append_option o6 2 h.group
  ext o7 h.extensions

unfoldable pub encode_header : Header → Result (List ℕ)
unfolding valid_header write_header
encode_header h = do valid_header h; write_header h

-- `Header::peek`, with the number of bytes that the header takes.
unfoldable pub peek : List ℕ → Result (Header × ℕ)
unfolding read_le read_option read_extensions valid_header
peek bytes = do
  (flags, c1) ← read_le (record { bytes = bytes; at = 0 }) 1
  guard (bit_and flags 0xf8 == 0 && not (bit_and flags 3 == 3))
      (invalid "unsupported Matter message flags")
  (session, c2) ← read_le c1 2
  (security, c3) ← read_le c2 1
  guard (bit_and security 0x9c == 0 && leb (bit_and security 3) 1)
      (invalid "unsupported Matter security flags")
  (counter, c4) ← read_le c3 4
  (source, c5) ← read_option c4 (not (bit_and flags 4 == 0)) 8
  (destination, c6) ← read_option c5 (bit_and flags 3 == 1) 8
  (group, c7) ← read_option c6 (bit_and flags 3 == 2) 2
  (extensions, c8) ← read_extensions c7 (not (bit_and security 32 == 0))
  let h : Header = record {
    session = session;
    kind = bit_and security 3;
    control = not (bit_and security 64 == 0);
    counter = counter;
    source = source;
    destination = destination;
    group = group;
    extensions = extensions;
  }
  valid_header h
  ok (h, c8.at)

unfoldable pub exchange_flags : Bool → Bool → Bool → Bool → Bool → ℕ
exchange_flags initiator acked reliable extended vendor =
    bit_or
      (bit_or
        (bit_or (bit_or (if initiator then 1 else 0) (if acked then 2 else 0))
          (if reliable then 4 else 0))
        (if extended then 8 else 0))
      (if vendor then 16 else 0)

unfoldable pub protocol_flags : Protocol → ℕ
unfolding exchange_flags
protocol_flags p =
    exchange_flags p.initiator (is_some p.ack) p.reliable (not (is_empty p.extensions))
      (is_some p.vendor)

unfoldable pub encode_protocol : Protocol → Result (List ℕ)
unfolding append append_option ext to_le protocol_flags
encode_protocol p = do
  o1 ← append [] (protocol_flags p ∷ p.opcode ∷ [])
  o2 ← append o1 (to_le 2 p.exchange)
  o3 ← append_option o2 2 p.vendor
  o4 ← append o3 (to_le 2 p.protocol)
  o5 ← append_option o4 4 p.ack
  ext o5 p.extensions

unfoldable pub parse_protocol : List ℕ → Result (Protocol × ℕ)
unfolding read_le read_option read_extensions
parse_protocol bytes = do
  (flags, c1) ← read_le (record { bytes = bytes; at = 0 }) 1
  guard (bit_and flags 0xe0 == 0) (invalid "reserved Matter exchange flag")
  (opcode, c2) ← read_le c1 1
  (exchange, c3) ← read_le c2 2
  (vendor, c4) ← read_option c3 (not (bit_and flags 16 == 0)) 2
  (protocol, c5) ← read_le c4 2
  (ack, c6) ← read_option c5 (not (bit_and flags 2 == 0)) 4
  (extensions, c7) ← read_extensions c6 (not (bit_and flags 8 == 0))
  let p : Protocol = record {
    initiator = not (bit_and flags 1 == 0);
    reliable = not (bit_and flags 4 == 0);
    ack = ack;
    opcode = opcode;
    exchange = exchange;
    protocol = protocol;
    vendor = vendor;
    extensions = extensions;
  }
  ok (p, c7.at)

unfoldable pub unsecured : Header → Result (Unit {0})
unsecured h =
    if h.session == 0 && h.kind == 0
    then ok tt
    else err (invalid "unsecured Matter message requires unicast session zero")

unfoldable pub encode : Message → Result (List ℕ)
unfolding unsecured encode_header encode_protocol append
encode m = do
  unsecured m.header
  header ← encode_header m.header
  protocol ← encode_protocol m.protocol
  out ← append header protocol
  append out m.payload

unfoldable pub parse : List ℕ → Result Message
unfolding peek parse_protocol copy unsecured
parse bytes = do
  (header, n) ← peek bytes
  (protocol, p) ← parse_protocol (drop n bytes)
  payload ← copy (drop (n + p) bytes)
  unsecured header
  ok (record { header = header; protocol = protocol; payload = payload })

-- `Header::nonce`: the security flags, the counter and the source of the session.
unfoldable pub nonce : Header → List ℕ → ℕ → Result (List ℕ)
unfolding to_le
nonce h bytes source = do
  guard (not (is_other h.source source)) (invalid "Matter source does not match secure session")
  security ← ok_or (get_elem? bytes 3) (invalid "short Matter header")
  ok (security ∷ (to_le 4 h.counter ++ to_le 8 source))

-- What `Ccm` offers to a frame: nonce, text and associated data in turn. `opens` is the promise of
-- an authenticated cipher that is used.
pub record Cipher : Type 0 where
  pub seal_text : List ℕ → List ℕ → List ℕ → Result (List ℕ)
  pub open_text : List ℕ → List ℕ → List ℕ → Result (List ℕ)
  pub opens :
      (nonce plain aad sealed : List ℕ)
      → seal_text nonce plain aad ≡ ok sealed
      → open_text nonce sealed aad ≡ ok plain

-- `seal` and `open`, at the cipher of the session's key.
unfoldable pub seal : Cipher → Message → ℕ → Result (List ℕ)
unfolding encode_header encode_protocol append nonce
seal cipher m source = do
  guard (not (m.header.session == 0)) (invalid "secured Matter message requires nonzero session")
  header ← encode_header m.header
  protocol ← encode_protocol m.protocol
  plain ← append protocol m.payload
  n ← nonce m.header header source
  sealed ← cipher.seal_text n plain header
  append header sealed

unfoldable pub open_sealed : Cipher → List ℕ → ℕ → Result Message
unfolding peek parse_protocol copy nonce
open_sealed cipher bytes source = do
  (header, n) ← peek bytes
  guard (not (header.session == 0)) (invalid "secured Matter message requires nonzero session")
  iv ← nonce header bytes source
  plain ← cipher.open_text iv (drop n bytes) (take n bytes)
  (protocol, p) ← parse_protocol plain
  payload ← copy (drop p plain)
  ok (record { header = header; protocol = protocol; payload = payload })
