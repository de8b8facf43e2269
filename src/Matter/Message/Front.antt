-- ===== src/Matter/Message/Front.antt =====
-- What `Header::encode` writes and `Header::peek` reads back (plugins/matter/src/message.rs).
use stulp.Prelude.{
  ℕ, ◌^◌, ◌≤◌, ◌<◌, ◌≡◌, refl, ◌∙◌, false, not, ◌&&◌, List, [], ◌∷◌, ◌++◌, arith, length,
  append_assoc,
}
use stulp.Prelude.Results.{ok, ◌>>=◌, bind-eq-ok, then-eq-ok}
use stulp.Bytes.{to_le}
use stulp.Matter.Buffer.{append, append-eq-ok, max, Cursor, advance, Ahead}
use stulp.Matter.Message.{
  Header, is_some, is_empty, append_option, ext, valid_header, encode_header, write_header,
  header_flags, header_security, nonce, peek,
}
use stulp.Matter.Message.Fields.{
  option_bytes, ext_bytes, Fits, append_option-eq-ok, ext-eq-ok, after, after_ext,
  read_option-Ahead, read_extensions-Ahead, read_byte-Ahead, read_number-Ahead, message_flags_lem,
  security_flags_lem, after_bytes, after_ext_bytes, at-Ahead,
}

-- The range of the fields of a Rust header.
unfoldable pub HeaderFits : Header → Type 0
HeaderFits h =
    (h.session < 2 ^ 16)
    × (h.counter < 2 ^ 32)
    × Fits 8 h.source
    × Fits 8 h.destination
    × Fits 2 h.group

header_tail : Header → List ℕ
unfolding to_le
header_tail h =
    option_bytes 8 h.source
    ++ (option_bytes 8 h.destination ++ (option_bytes 2 h.group ++ ext_bytes h.extensions))

pub header_bytes : Header → List ℕ
unfolding header_tail header_flags header_security
header_bytes h =
    header_flags h
    ∷ (to_le 2 h.session ++ (header_security h ∷ (to_le 4 h.counter ++ header_tail h)))

assoc :
    (f : ℕ) (a : List ℕ) (g : ℕ) (b c d e x : List ℕ)
    → ((((((([] ++ f ∷ []) ++ a) ++ g ∷ []) ++ b) ++ c) ++ d) ++ e) ++ x
      ≡ f ∷ (a ++ (g ∷ (b ++ (c ++ (d ++ (e ++ x))))))
assoc f a g b c d e x = simp append_assoc

write_header-eq-ok :
    (h : Header) {out : List ℕ}
    → write_header h ≡ ok out
    → (out ≡ header_bytes h) × (length h.extensions ≤ max)
unfolding write_header header_bytes header_tail header_flags header_security
write_header-eq-ok h {out} h0 =
    let (o1, e1, h1) =
      bind-eq-ok (append [] (header_flags h ∷ []))
        (λ o1. do
          o2 ← append o1 (to_le 2 h.session)
          o3 ← append o2 (header_security h ∷ [])
          o4 ← append o3 (to_le 4 h.counter)
          o5 ← append_option o4 8 h.source
          o6 ← append_option o5 8 h.destination
          o7 ← append_option o6 2 h.group
          ext o7 h.extensions)
        h0 in
    let (o2, e2, h2) = bind-eq-ok (append o1 (to_le 2 h.session)) _ h1 in
    let (o3, e3, h3) = bind-eq-ok (append o2 (header_security h ∷ [])) _ h2 in
    let (o4, e4, h4) = bind-eq-ok (append o3 (to_le 4 h.counter)) _ h3 in
    let (o5, e5, h5) = bind-eq-ok (append_option o4 8 h.source) _ h4 in
    let (o6, e6, h6) = bind-eq-ok (append_option o5 8 h.destination) _ h5 in
    let (o7, e7, h7) = bind-eq-ok (append_option o6 2 h.group) _ h6 in
    let (e8, fits) = ext-eq-ok o7 h.extensions out h7 in
    let chain =
      assoc (header_flags h) (to_le 2 h.session) (header_security h) (to_le 4 h.counter)
        (option_bytes 8 h.source) (option_bytes 8 h.destination) (option_bytes 2 h.group)
        (ext_bytes h.extensions) in
    let w1 = append-eq-ok [] (header_flags h ∷ []) o1 e1 in
    let w2 = append-eq-ok o1 (to_le 2 h.session) o2 e2 in
    let w3 = append-eq-ok o2 (header_security h ∷ []) o3 e3 in
    let w4 = append-eq-ok o3 (to_le 4 h.counter) o4 e4 in
    let w5 = append_option-eq-ok o4 8 h.source o5 e5 in
    let w6 = append_option-eq-ok o5 8 h.destination o6 e6 in
    let w7 = append_option-eq-ok o6 2 h.group o7 e7 in
    (rw (e8, w7, w6, w5, w4, w3, w2, w1) chain, fits)

pub encode_header-eq-ok :
    (h : Header) {out : List ℕ}
    → encode_header h ≡ ok out
    → (valid_header h ≡ ok tt) × (out ≡ header_bytes h) × (length h.extensions ≤ max)
unfolding encode_header
encode_header-eq-ok h {out} done =
    let (valid, rest) = then-eq-ok (valid_header h) (write_header h) done in
    let (bytes, short) = write_header-eq-ok h rest in (valid, bytes, short)

-- A header that `validate` lets through.
ValidHeader : Header → Type 0
ValidHeader h = (h.kind ≤ 1) × (is_some h.destination && is_some h.group ≡ false)

valid_header-eq-ok : (h : Header) → valid_header h ≡ ok tt → ValidHeader h
unfolding valid_header ValidHeader
valid_header-eq-ok h valid = ground arith

pub peek-header_bytes :
    (h : Header) (rest : List ℕ)
    → HeaderFits h
    → valid_header h ≡ ok tt
    → length h.extensions ≤ max
    → peek (header_bytes h ++ rest) ≡ ok (h, length (header_bytes h))
unfolding header_bytes header_tail header_flags header_security HeaderFits ValidHeader
peek-header_bytes h rest (fs, fc, f8, fd, fg) valid short =
    let (kind, pair) = valid_header-eq-ok h valid in
    let (ff, ok_f, f_source, f_dest, f_group) =
      message_flags_lem (is_some h.source) (is_some h.destination) (is_some h.group) pair in
    let (sf, ok_s, s_kind, s_control, s_ext) =
      security_flags_lem h.kind h.control (not (is_empty h.extensions)) kind in
    let c0 : Cursor = record { bytes = header_bytes h ++ rest; at = 0 } in
    let x4 = ext_bytes h.extensions ++ rest in
    let x3 = option_bytes 2 h.group ++ x4 in
    let x2 = option_bytes 8 h.destination ++ x3 in
    let x1 = option_bytes 8 h.source ++ x2 in
    let y2 = header_security h ∷ (to_le 4 h.counter ++ x1) in
    let start : Ahead c0 (header_flags h ∷ (to_le 2 h.session ++ y2)) =
      (simp append_assoc, omega arith) in
    let (r1, a1) = read_byte-Ahead c0 (header_flags h) (to_le 2 h.session ++ y2) ff start in
    let c1 = advance c0 1 in
    let (r2, a2) = read_number-Ahead c1 2 h.session y2 (omega arith) fs a1 in
    let c2 = advance c1 2 in
    let (r3, a3) = read_byte-Ahead c2 (header_security h) (to_le 4 h.counter ++ x1) sf a2 in
    let c3 = advance c2 1 in
    let (r4, a4) = read_number-Ahead c3 4 h.counter x1 (omega arith) fc a3 in
    let c4 = advance c3 4 in
    let (r5, a5) = read_option-Ahead c4 8 h.source x2 (omega arith) f8 a4 in
    let c5 = after c4 8 h.source in
    let (r6, a6) = read_option-Ahead c5 8 h.destination x3 (omega arith) fd a5 in
    let c6 = after c5 8 h.destination in
    let (r7, a7) = read_option-Ahead c6 2 h.group x4 (omega arith) fg a6 in
    let c7 = after c6 2 h.group in
    let (r8, a8) = read_extensions-Ahead c7 h.extensions rest short a7 in
    let c8 = after_ext c7 h.extensions in
    let same : c8.bytes ≡ header_bytes h ++ rest =
      after_ext_bytes c7 h.extensions
      ∙ after_bytes c6 2 h.group
      ∙ after_bytes c5 8 h.destination
      ∙ after_bytes c4 8 h.source in
    let end = at-Ahead c8 (header_bytes h) rest same a8 in
    unfold peek in
    rw (
      r1, ok_f, r2, r3, ok_s, r4, f_source, r5, f_dest, r6, f_group, r7, s_ext, r8, s_kind,
      s_control, valid, end,
    )

-- The nonce reads no byte behind the header.
pub nonce_front :
    (h : Header) (rest : List ℕ) (source : ℕ)
    → nonce h (header_bytes h ++ rest) source ≡ nonce h (header_bytes h) source
unfolding nonce header_bytes to_le
nonce_front h rest source = refl
