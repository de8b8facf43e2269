-- ===== src/Matter/Message/Exchange.antt =====
-- What `Protocol::encode` writes and `Protocol::parse` reads back (plugins/matter/src/message.rs).
use stulp.Prelude.{
  ℕ, ◌^◌, ◌≤◌, ◌<◌, ◌≡◌, ◌∙◌, not, List, [], ◌∷◌, ◌++◌, arith, length, append_assoc,
}
use stulp.Prelude.Results.{ok, ◌>>=◌, bind-eq-ok}
use stulp.Bytes.{to_le}
use stulp.Matter.Buffer.{append, append-eq-ok, max, Cursor, advance, Ahead}
use stulp.Matter.Message.{
  Protocol, is_some, is_empty, append_option, ext, protocol_flags, encode_protocol, parse_protocol,
}
use stulp.Matter.Message.Fields.{
  option_bytes, ext_bytes, Fits, append_option-eq-ok, ext-eq-ok, after, after_ext,
  read_option-Ahead, read_extensions-Ahead, read_byte-Ahead, read_number-Ahead, exchange_flags_lem,
  after_bytes, after_ext_bytes, at-Ahead,
}

-- The range of the fields of a Rust exchange header.
unfoldable pub ProtocolFits : Protocol → Type 0
ProtocolFits p =
    (p.opcode < 2 ^ 8)
    × (p.exchange < 2 ^ 16)
    × (p.protocol < 2 ^ 16)
    × Fits 4 p.ack
    × Fits 2 p.vendor

pub protocol_bytes : Protocol → List ℕ
unfolding protocol_flags
protocol_bytes p =
    protocol_flags p
    ∷ p.opcode
    ∷ (to_le 2 p.exchange
        ++ (option_bytes 2 p.vendor
            ++ (to_le 2 p.protocol ++ (option_bytes 4 p.ack ++ ext_bytes p.extensions))))

assoc :
    (f g : ℕ) (a b c d x : List ℕ)
    → ((((([] ++ f ∷ g ∷ []) ++ a) ++ b) ++ c) ++ d) ++ x ≡ f ∷ g ∷ (a ++ (b ++ (c ++ (d ++ x))))
assoc f g a b c d x = simp append_assoc

pub encode_protocol-eq-ok :
    (p : Protocol) {out : List ℕ}
    → encode_protocol p ≡ ok out
    → (out ≡ protocol_bytes p) × (length p.extensions ≤ max)
unfolding encode_protocol protocol_bytes
encode_protocol-eq-ok p {out} h0 =
    let (o1, e1, h1) =
      bind-eq-ok (append [] (protocol_flags p ∷ p.opcode ∷ []))
        (λ o1. do
          o2 ← append o1 (to_le 2 p.exchange)
          o3 ← append_option o2 2 p.vendor
          o4 ← append o3 (to_le 2 p.protocol)
          o5 ← append_option o4 4 p.ack
          ext o5 p.extensions)
        h0 in
    let (o2, e2, h2) = bind-eq-ok (append o1 (to_le 2 p.exchange)) _ h1 in
    let (o3, e3, h3) = bind-eq-ok (append_option o2 2 p.vendor) _ h2 in
    let (o4, e4, h4) = bind-eq-ok (append o3 (to_le 2 p.protocol)) _ h3 in
    let (o5, e5, h5) = bind-eq-ok (append_option o4 4 p.ack) _ h4 in
    let (e6, fits) = ext-eq-ok o5 p.extensions out h5 in
    let chain =
      assoc (protocol_flags p) p.opcode (to_le 2 p.exchange) (option_bytes 2 p.vendor)
        (to_le 2 p.protocol) (option_bytes 4 p.ack) (ext_bytes p.extensions) in
    let w1 = append-eq-ok [] (protocol_flags p ∷ p.opcode ∷ []) o1 e1 in
    let w2 = append-eq-ok o1 (to_le 2 p.exchange) o2 e2 in
    let w3 = append_option-eq-ok o2 2 p.vendor o3 e3 in
    let w4 = append-eq-ok o3 (to_le 2 p.protocol) o4 e4 in
    let w5 = append_option-eq-ok o4 4 p.ack o5 e5 in (rw (e6, w5, w4, w3, w2, w1) chain, fits)

pub parse_protocol_bytes :
    (p : Protocol) (rest : List ℕ)
    → ProtocolFits p
    → length p.extensions ≤ max
    → parse_protocol (protocol_bytes p ++ rest) ≡ ok (p, length (protocol_bytes p))
unfolding protocol_bytes ProtocolFits protocol_flags
parse_protocol_bytes p rest (fo, fe, fp, fa, fv) short =
    let (ff, ok_f, f_vendor, f_ack, f_ext, f_initiator, f_reliable) =
      exchange_flags_lem p.initiator (is_some p.ack) p.reliable (not (is_empty p.extensions))
        (is_some p.vendor) in
    let c0 : Cursor = record { bytes = protocol_bytes p ++ rest; at = 0 } in
    let x5 = ext_bytes p.extensions ++ rest in
    let x4 = option_bytes 4 p.ack ++ x5 in
    let x3 = to_le 2 p.protocol ++ x4 in
    let x2 = option_bytes 2 p.vendor ++ x3 in
    let x1 = to_le 2 p.exchange ++ x2 in
    let start : Ahead c0 (protocol_flags p ∷ p.opcode ∷ x1) = (simp append_assoc, omega arith) in
    let (r1, a1) = read_byte-Ahead c0 (protocol_flags p) (p.opcode ∷ x1) ff start in
    let c1 = advance c0 1 in
    let (r2, a2) = read_byte-Ahead c1 p.opcode x1 fo a1 in
    let c2 = advance c1 1 in
    let (r3, a3) = read_number-Ahead c2 2 p.exchange x2 (omega arith) fe a2 in
    let c3 = advance c2 2 in
    let (r4, a4) = read_option-Ahead c3 2 p.vendor x3 (omega arith) fv a3 in
    let c4 = after c3 2 p.vendor in
    let (r5, a5) = read_number-Ahead c4 2 p.protocol x4 (omega arith) fp a4 in
    let c5 = advance c4 2 in
    let (r6, a6) = read_option-Ahead c5 4 p.ack x5 (omega arith) fa a5 in
    let c6 = after c5 4 p.ack in
    let (r7, a7) = read_extensions-Ahead c6 p.extensions rest short a6 in
    let c7 = after_ext c6 p.extensions in
    let same : c7.bytes ≡ protocol_bytes p ++ rest =
      after_ext_bytes c6 p.extensions ∙ after_bytes c5 4 p.ack ∙ after_bytes c3 2 p.vendor in
    let end = at-Ahead c7 (protocol_bytes p) rest same a7 in
    unfold parse_protocol in
    rw (r1, ok_f, r2, r3, f_vendor, r4, r5, f_ack, r6, f_ext, r7, f_initiator, f_reliable, end)
