-- ===== src/Matter/Tests.antt =====
-- Messages, TLV elements and counters at concrete values, for the theorems on plugins/matter.
use stulp.Prelude.{ℕ, ◌^◌, ◌<◌, ◌≡◌, refl, sym, true, false, none, some, List, [], ◌∷◌, ◌++◌, arith}
use stulp.Prelude.Results.{ok}
use stulp.Bytes.{to_le}
use stulp.Matter.Buffer.{append}
use stulp.Matter.Message.{
  Protocol, Message, Cipher, encode, parse, seal, open_sealed, unsecured, encode_header,
  write_header, valid_header, header_flags, header_security, encode_protocol, protocol_flags,
  message_flags, security_flags, exchange_flags, append_option, ext, nonce,
}
use stulp.Matter.Message.RoundTrip.{MessageFits, parse-encode, open_sealed-seal}
use stulp.Matter.Tlv.{context, Value, string, is_utf8}
use stulp.Matter.Tlv.Writer.{Writer, empty, write_string, write_data, control, push, width}
use stulp.Matter.Tlv.Scan.{TagFits}
use stulp.Matter.Message.Front.{HeaderFits}
use stulp.Matter.Message.Exchange.{ProtocolFits}
use stulp.Matter.Tlv.Reader.{next}
use stulp.Matter.Tlv.Layout.{write}
use stulp.Matter.Tlv.Values.{ValueFits}
use stulp.Matter.Tlv.RoundTrip.{shortest, perform, meaning, CallFits, next-write}
use stulp.Matter.Mrp.Replay.{mark, run, mark_lem}

mark_lem_example : (mark (run (5 ∷ 70 ∷ [])) 5).0 ≡ true
mark_lem_example = mark_lem (5 ∷ 70 ∷ []) 5

-- A cipher that leaves the text as it is.
abbrev pub plain_cipher : Cipher
plain_cipher = record {
  seal_text = λ n plain aad. ok plain;
  open_text = λ n sealed aad. ok sealed;
  opens = λ n plain aad sealed h. sym h;
}

abbrev exchange : Protocol
exchange = record {
  initiator = true;
  reliable = true;
  ack = some 12;
  opcode = 5;
  exchange = 456;
  protocol = 1;
  vendor = none;
  extensions = [];
}

abbrev hello : ℕ → Message
hello session = record {
  header = record {
    session = session;
    kind = 0;
    control = false;
    counter = 345;
    source = some 9;
    destination = none;
    group = none;
    extensions = 1 ∷ 2 ∷ [];
  };
  protocol = exchange;
  payload = 1 ∷ 2 ∷ 3 ∷ [];
}

hello-MessageFits : (session : ℕ) → session < 2 ^ 16 → MessageFits (hello session)
unfolding MessageFits HeaderFits ProtocolFits
hello-MessageFits session h = ground arith

abbrev front : ℕ → List ℕ
front session =
    4 ∷ session ∷ 0 ∷ 32 ∷ 89 ∷ 1 ∷ 0 ∷ 0 ∷ 9 ∷ 0 ∷ 0 ∷ 0 ∷ 0 ∷ 0 ∷ 0 ∷ 0 ∷ 2 ∷ 0 ∷ 1 ∷ 2 ∷ []

abbrev back : List ℕ
back = 7 ∷ 5 ∷ 200 ∷ 1 ∷ 1 ∷ 0 ∷ 12 ∷ 0 ∷ 0 ∷ 0 ∷ 1 ∷ 2 ∷ 3 ∷ []

encoded : encode (hello 0) ≡ ok (front 0 ++ back)
unfolding encode unsecured encode_header write_header valid_header header_flags header_security
    encode_protocol protocol_flags message_flags security_flags exchange_flags append append_option
    ext to_le
encoded = refl

parse-encode_example : parse (front 0 ++ back) ≡ ok (hello 0)
parse-encode_example =
    parse-encode (hello 0) (front 0 ++ back) (hello-MessageFits 0 (omega arith)) (omega arith)
      encoded

sealed : seal plain_cipher (hello 17) 9 ≡ ok (front 17 ++ back)
unfolding seal encode_header write_header valid_header header_flags header_security encode_protocol
    protocol_flags message_flags security_flags exchange_flags append append_option ext to_le nonce
sealed = refl

open_sealed-seal_example : open_sealed plain_cipher (front 17 ++ back) 9 ≡ ok (hello 17)
open_sealed-seal_example =
    open_sealed-seal plain_cipher (hello 17) 9 (front 17 ++ back)
      (hello-MessageFits 17 (omega arith)) (omega arith) sealed

abbrev greeting : Value
greeting = string (104 ∷ 105 ∷ [])

abbrev greeted : Writer
greeted = record { written = 44 ∷ 1 ∷ 2 ∷ 104 ∷ 105 ∷ []; depth = 0 }

written : perform empty (context 1) (shortest greeting) ≡ ok greeted
unfolding perform write write_string write_data control push width append to_le
written = refl

next-write_example :
    next (record { input = greeted.written ++ 24 ∷ []; at = 0; depth = 0 })
    ≡ ok (
      some (record { tag = context 1; value = greeting }),
      record { input = greeted.written ++ 24 ∷ []; at = 5; depth = 0 },
    )
unfolding meaning
next-write_example =
    next-write empty greeted (context 1) (shortest greeting) (24 ∷ [])
      (unfold TagFits in omega arith) (unfold CallFits ValueFits is_utf8 in refl)
      (λ h. absurd (cc h)) (omega arith) written
