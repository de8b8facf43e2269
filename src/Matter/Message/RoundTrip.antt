-- ===== src/Matter/Message/RoundTrip.antt =====
-- Messages that are written and read back, with and without the cipher of a session
-- (plugins/matter/src/message.rs).
use stulp.Prelude.{
  ℕ, ◌+◌, ◌≤◌, ◌≡◌, refl, sym, ap, ◌∙◌, not, List, ◌++◌, length, take, drop, ◌==◌, append_assoc,
  take-append, drop-append, drop-append_ge,
}
use stulp.Prelude.Results.{ok, invalid, guard, ◌>>=◌, bind-eq-ok, then-eq-ok}
use stulp.Matter.Buffer.{append, append-eq-ok, copy-eq-ok, max}
use stulp.Matter.Message.{
  Message, valid_header, encode_header, encode_protocol, unsecured, encode, parse, nonce, Cipher,
  seal, open_sealed,
}
use stulp.Matter.Message.Front.{
  HeaderFits, header_bytes, encode_header-eq-ok, peek-header_bytes, nonce_front,
}
use stulp.Matter.Message.Exchange.{
  ProtocolFits, protocol_bytes, encode_protocol-eq-ok, parse_protocol_bytes,
}

-- The fields are in the range of their Rust types.
unfoldable pub MessageFits : Message → Type 0
MessageFits m = HeaderFits m.header × ProtocolFits m.protocol

-- Where `Message::encode` gives bytes for a message whose fields are in range and whose payload is at
-- most 65535 bytes long, `Message::parse` reads them back as that message.
pub parse-encode :
    (m : Message) (bytes : List ℕ)
    → MessageFits m
    → length m.payload ≤ max
    → encode m ≡ ok bytes
    → parse bytes ≡ ok m
unfolding encode MessageFits
parse-encode m bytes (fh, fp) short done =
    let (plain, h0) =
      then-eq-ok (unsecured m.header)
        (do
          header ← encode_header m.header
          protocol ← encode_protocol m.protocol
          out ← append header protocol
          append out m.payload)
        done in
    let (header, e1, h1) = bind-eq-ok (encode_header m.header) _ h0 in
    let (protocol, e2, h2) = bind-eq-ok (encode_protocol m.protocol) _ h1 in
    let (out, e3, h3) = bind-eq-ok (append header protocol) _ h2 in
    let (valid, w1, s1) = encode_header-eq-ok m.header e1 in
    let (w2, s2) = encode_protocol-eq-ok m.protocol e2 in
    let hb = header_bytes m.header in
    let pb = protocol_bytes m.protocol in
    let whole : bytes ≡ hb ++ (pb ++ m.payload) =
      append-eq-ok out m.payload bytes h3
      ∙ rw (append-eq-ok header protocol out e3, w1, w2) (append_assoc hb pb m.payload) in
    let front = peek-header_bytes m.header (pb ++ m.payload) fh valid s1 in
    let exchange = parse_protocol_bytes m.protocol m.payload fp s2 in
    let behind : drop (length hb) (hb ++ (pb ++ m.payload)) ≡ pb ++ m.payload =
      drop-append hb (pb ++ m.payload) (length hb) refl in
    let last : drop (length hb + length pb) (hb ++ (pb ++ m.payload)) ≡ m.payload =
      drop-append_ge (length hb + length pb) (length pb) hb (pb ++ m.payload) refl
      ∙ drop-append pb m.payload (length pb) refl in
    unfold parse in rw (whole, front, behind, exchange, last, copy-eq-ok m.payload short, plain)

-- Reading back a header and a text that the cipher opens.
open_layout :
    (cipher : Cipher) (m : Message) (source : ℕ) (n sealed : List ℕ)
    → MessageFits m
    → length m.payload ≤ max
    → valid_header m.header ≡ ok tt
    → length m.header.extensions ≤ max
    → length m.protocol.extensions ≤ max
    → guard
        (not (m.header.session == 0))
        (invalid "secured Matter message requires nonzero session")
      ≡ ok tt
    → nonce m.header (header_bytes m.header ++ sealed) source ≡ ok n
    → cipher.open_text n sealed (header_bytes m.header)
      ≡ ok (protocol_bytes m.protocol ++ m.payload)
    → open_sealed cipher (header_bytes m.header ++ sealed) source ≡ ok m
unfolding MessageFits
open_layout cipher m source n sealed (fh, fp) short valid s1 s2 secure iv opened =
    let hb = header_bytes m.header in
    let pb = protocol_bytes m.protocol in
    let front = peek-header_bytes m.header sealed fh valid s1 in
    let exchange = parse_protocol_bytes m.protocol m.payload fp s2 in
    let body : drop (length hb) (hb ++ sealed) ≡ sealed = drop-append hb sealed (length hb) refl in
    let aad : take (length hb) (hb ++ sealed) ≡ hb = take-append hb sealed (length hb) refl in
    let last : drop (length pb) (pb ++ m.payload) ≡ m.payload =
      drop-append pb m.payload (length pb) refl in
    unfold open_sealed in
    rw (front, secure, iv, body, aad, opened, exchange, last, copy-eq-ok m.payload short)

-- Where `Message::seal` gives bytes for a message whose fields are in range and
-- whose payload is at most 65535 bytes long, with the node it comes from, `Message::open`
-- reads them back as that message, with the same cipher and node. A cipher opens what it sealed.
pub open_sealed-seal :
    (cipher : Cipher) (m : Message) (source : ℕ) (bytes : List ℕ)
    → MessageFits m
    → length m.payload ≤ max
    → seal cipher m source ≡ ok bytes
    → open_sealed cipher bytes source ≡ ok m
unfolding seal MessageFits
open_sealed-seal cipher m source bytes (fh, fp) short done =
    let (secure, h0) =
      then-eq-ok
        (guard (not (m.header.session == 0))
          (invalid "secured Matter message requires nonzero session"))
        (do
          header ← encode_header m.header
          protocol ← encode_protocol m.protocol
          plain ← append protocol m.payload
          n ← nonce m.header header source
          sealed ← cipher.seal_text n plain header
          append header sealed)
        done in
    let (header, e1, h1) = bind-eq-ok (encode_header m.header) _ h0 in
    let (protocol, e2, h2) = bind-eq-ok (encode_protocol m.protocol) _ h1 in
    let (plain, e3, h3) = bind-eq-ok (append protocol m.payload) _ h2 in
    let (n, e4, h4) = bind-eq-ok (nonce m.header header source) _ h3 in
    let (sealed, e5, h5) = bind-eq-ok (cipher.seal_text n plain header) _ h4 in
    let (valid, w1, s1) = encode_header-eq-ok m.header e1 in
    let (w2, s2) = encode_protocol-eq-ok m.protocol e2 in
    let hb = header_bytes m.header in
    let pb = protocol_bytes m.protocol in
    let whole : bytes ≡ hb ++ sealed =
      append-eq-ok header sealed bytes h5 ∙ ap (λ (b : List ℕ). b ++ sealed) w1 in
    let text : plain ≡ pb ++ m.payload =
      append-eq-ok protocol m.payload plain e3 ∙ ap (λ (b : List ℕ). b ++ m.payload) w2 in
    let iv : nonce m.header (hb ++ sealed) source ≡ ok n =
      nonce_front m.header sealed source
      ∙ ap (λ (b : List ℕ). nonce m.header b source) (sym w1)
      ∙ e4 in
    let opened : cipher.open_text n sealed hb ≡ ok (pb ++ m.payload) =
      ap (λ (b : List ℕ). cipher.open_text n sealed b) (sym w1)
      ∙ cipher.opens n plain header sealed e5
      ∙ ap (λ (b : List ℕ). ok b) text in
    rw whole (open_layout cipher m source n sealed (fh, fp) short valid s1 s2 secure iv opened)
