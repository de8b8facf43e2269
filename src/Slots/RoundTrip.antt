-- ===== src/Slots/RoundTrip.antt =====
-- Slots that are encoded and decoded (crates/core/src/slots.rs).
use stulp.Prelude.{
  ◌≢◌, ℕ, ◌+◌, ◌^◌, ◌≤◌, ◌<◌, ◌≡◌, refl, sym, ap, ◌∙◌, Bool, true, not, Option, some, List, [],
  ◌++◌, arith, length, leb, ◌==◌, append_assoc, append-nil, length-append, All-parts,
}
use mathlib.Core.Path.{subst}
use stulp.Prelude.Results.{ok}
use stulp.Prelude.Options.{◌>>◌, guard, bind-eq-some}
use stulp.Bytes.{
  IsByte, AreBytes, to_le, from_le, slice, slice-append, bytes_eq, bytes_eq_refl, length-to_le,
  from_le-to_le, to_le-from_le, bytes_eq_sound, slice-eq-some, slice-join, slice_whole,
}
use stulp.Slots.Codec.{Record, header, max_bytes, magic, checksum, prefix_of, encode, decode}

module _ (m g l c p : List ℕ) (hm : 8 ≡ length m) (hg : 8 ≡ length g) (hl : 4 ≡ length l)
    (hc : 4 ≡ length c) where
  abbrev layout : List ℕ
  layout = m ++ (g ++ (l ++ (c ++ p)))

  at_magic : slice layout 0 8 ≡ some m
  at_magic = slice-append [] m (g ++ (l ++ (c ++ p))) 0 8 refl (omega arith)

  at_generation : slice layout 8 16 ≡ some g
  at_generation = slice-append m g (l ++ (c ++ p)) 8 16 hm (omega arith)

  at_length : slice layout 16 20 ≡ some l
  at_length =
      rw (← append_assoc m g (l ++ (c ++ p)))
        (slice-append (m ++ g) l (c ++ p) 16 20 (omega (arith, length-append m g)) (omega arith))

  at_checksum : slice layout 20 24 ≡ some c
  at_checksum =
      rw (← append_assoc g l (c ++ p), ← append_assoc m (g ++ l) (c ++ p))
        (slice-append (m ++ (g ++ l)) c p 20 24
          (omega (arith, length-append m (g ++ l), length-append g l)) (omega arith))

  abbrev before_payload : List ℕ
  before_payload = m ++ (g ++ (l ++ c))

  length-before_payload : length before_payload ≡ 24
  length-before_payload =
      omega (arith, length-append m (g ++ (l ++ c)), length-append g (l ++ c), length-append l c)

  regroup : layout ≡ before_payload ++ (p ++ [])
  regroup = simp (append-nil, append_assoc)

  length-layout : length layout ≡ 24 + length p
  length-layout =
      rw (regroup, append-nil)
        (omega (arith, length-append before_payload p, length-before_payload))

  at_payload : slice layout 24 (length layout) ≡ some p
  at_payload =
      rw (length-layout, regroup)
        (slice-append before_payload p [] 24 (24 + length p) (sym length-before_payload) refl)

  at_prefix : slice layout 0 20 ≡ some (m ++ (g ++ l))
  at_prefix =
      rw (← append_assoc g l (c ++ p), ← append_assoc m (g ++ l) (c ++ p))
        (slice-append [] (m ++ (g ++ l)) (c ++ p) 0 20 refl
          (omega (arith, length-append m (g ++ l), length-append g l)))

-- What `decode` tests on bytes that are laid out as a header and a payload.
pub decode_parts : List ℕ → List ℕ → List ℕ → List ℕ → List ℕ → Option Record
decode_parts m g l c p = do
  guard (bytes_eq m magic)
  guard (not (from_le g == 0))
  guard (from_le l == length p)
  guard (leb (from_le l) max_bytes)
  guard (checksum (m ++ (g ++ l)) p == from_le c)
  some (record { generation = from_le g; payload = p })

pub decode-layout :
    (m g l c p : List ℕ)
    → 8 ≡ length m
    → 8 ≡ length g
    → 4 ≡ length l
    → 4 ≡ length c
    → decode (m ++ (g ++ (l ++ (c ++ p)))) ≡ decode_parts m g l c p
unfolding decode decode_parts
decode-layout m g l c p hm hg hl hc = rw (
  at_magic m g l c p hm hg hl hc,
  at_generation m g l c p hm hg hl hc,
  at_length m g l c p hm hg hl hc,
  at_checksum m g l c p hm hg hl hc,
  at_payload m g l c p hm hg hl hc,
  at_prefix m g l c p hm hg hl hc,
)

-- An encoding as the layout that `decode` reads.
abbrev image : ℕ → List ℕ → List ℕ
image generation payload =
    let prefix = prefix_of generation (length payload) in
    magic
    ++ (to_le 8 generation
        ++ (to_le 4 (length payload) ++ (to_le 4 (checksum prefix payload) ++ payload)))

encode-eq-ok :
    (reserve : ℕ → Bool) (generation : ℕ) (payload bytes : List ℕ)
    → encode reserve generation payload ≡ ok bytes
    → (generation ≢ 0) × (length payload ≤ max_bytes) × (bytes ≡ image generation payload)
unfolding encode
encode-eq-ok reserve generation payload bytes h =
    let prefix = prefix_of generation (length payload) in
    let flat : prefix ++ (to_le 4 (checksum prefix payload) ++ payload) ≡ image generation payload =
      simp append_assoc in
    ground (arith, flat)

encode-image :
    (reserve : ℕ → Bool) (generation : ℕ) (payload : List ℕ)
    → generation ≢ 0
    → length payload ≤ max_bytes
    → reserve (header + length payload) ≡ true
    → encode reserve generation payload ≡ ok (image generation payload)
unfolding encode
encode-image reserve generation payload hg hl hr =
    let prefix = prefix_of generation (length payload) in
    let flat : prefix ++ (to_le 4 (checksum prefix payload) ++ payload) ≡ image generation payload =
      simp append_assoc in
    ground (arith, flat)

checksum-lt : (prefix payload : List ℕ) → checksum prefix payload < 256 ^ 4
unfolding checksum
checksum-lt prefix payload = omega arith

decode_parts-image :
    (generation : ℕ) (payload : List ℕ)
    → generation ≢ 0
    → generation < 2 ^ 64
    → length payload ≤ max_bytes
    → decode (image generation payload)
      ≡ some (record { generation = generation; payload = payload })
unfolding decode_parts
decode_parts-image generation payload hz hg hl =
    let prefix = prefix_of generation (length payload) in
    let sum = checksum prefix payload in
    decode-layout magic (to_le 8 generation) (to_le 4 (length payload)) (to_le 4 sum) payload refl
      (sym (length-to_le 8 _)) (sym (length-to_le 4 _)) (sym (length-to_le 4 _))
    ∙ ground (
      arith,
      bytes_eq_refl magic,
      from_le-to_le 8 generation (omega arith),
      from_le-to_le 4 (length payload) (omega arith),
      from_le-to_le 4 sum (checksum-lt prefix payload),
    )

-- What `encode` returns for a `u64` generation decodes to that generation and payload.
pub decode-encode :
    (reserve : ℕ → Bool) (generation : ℕ) (payload bytes : List ℕ)
    → generation < 2 ^ 64
    → encode reserve generation payload ≡ ok bytes
    → decode bytes ≡ some (record { generation = generation; payload = payload })
decode-encode reserve generation payload bytes hg h =
    let (hz, hl, e) = encode-eq-ok reserve generation payload bytes h in
    rw e (decode_parts-image generation payload hz hg hl)

pub decode_slices :
    (bytes : List ℕ) (r : Record)
    → decode bytes ≡ some r
    → (m : List ℕ) × (g : List ℕ) × (l : List ℕ) × (c : List ℕ) × (p : List ℕ) × (bytes
        ≡ m ++ (g ++ (l ++ (c ++ p))))
      × (8 ≡ length m)
      × (8 ≡ length g)
      × (4 ≡ length l)
      × (4 ≡ length c)
unfolding decode
decode_slices bytes r h =
    let (m, em, h1) = bind-eq-some (slice bytes 0 8) _ h in
    let (u, eu, h2) = bind-eq-some (guard (bytes_eq m magic)) _ h1 in
    let (g, eg, h3) = bind-eq-some (slice bytes 8 16) _ h2 in
    let (l, el, h4) = bind-eq-some (slice bytes 16 20) _ h3 in
    let (c, ec, h5) = bind-eq-some (slice bytes 20 24) _ h4 in
    let (p, ep, h6) = bind-eq-some (slice bytes 24 (length bytes)) _ h5 in
    let all = slice-join bytes 0 8 (length bytes) m (g ++ (l ++ (c ++ p))) em (
      slice-join bytes 8 16 (length bytes) g (l ++ (c ++ p)) eg (
        slice-join bytes 16 20 (length bytes) l (c ++ p) el
          (slice-join bytes 20 24 (length bytes) c p ec ep))) in
    (
      m,
      g,
      l,
      c,
      p,
      slice_whole bytes _ all,
      sym ((slice-eq-some bytes 0 8 m em).3),
      sym ((slice-eq-some bytes 8 16 g eg).3),
      sym ((slice-eq-some bytes 16 20 l el).3),
      sym ((slice-eq-some bytes 20 24 c ec).3),
    )

pub decode_parts-eq-some :
    (m g l c p : List ℕ) (r : Record)
    → decode_parts m g l c p ≡ some r
    → (m ≡ magic)
      × (from_le g ≢ 0)
      × (from_le l ≡ length p)
      × (length p ≤ max_bytes)
      × (checksum (m ++ (g ++ l)) p ≡ from_le c)
      × (record { generation = from_le g; payload = p } ≡ r)
unfolding decode_parts
decode_parts-eq-some m g l c p r h = ground (arith, bytes_eq_sound m magic)

image_parts :
    (m g l c p : List ℕ)
    → 8 ≡ length g
    → 4 ≡ length l
    → 4 ≡ length c
    → AreBytes (m ++ (g ++ (l ++ (c ++ p))))
    → m ≡ magic
    → from_le l ≡ length p
    → checksum (m ++ (g ++ l)) p ≡ from_le c
    → image (from_le g) p ≡ m ++ (g ++ (l ++ (c ++ p)))
image_parts m g l c p hg hl hc hb em el ec =
    let (_, hb1) = All-parts IsByte m (g ++ (l ++ (c ++ p))) hb in
    let (bg, hb2) = All-parts IsByte g (l ++ (c ++ p)) hb1 in
    let (bl, hb3) = All-parts IsByte l (c ++ p) hb2 in
    let (bc, _) = All-parts IsByte c p hb3 in
    let sum : checksum (magic ++ (g ++ l)) p ≡ from_le c = rw em at ec in
    rw (em, ← el, to_le-from_le g 8 hg bg, to_le-from_le l 4 hl bl, sum, to_le-from_le c 4 hc bc)

-- Only encodings decode: bytes that decode to a record are what `encode` returns for it, if the
-- allocator grants their number.
pub encode-decode :
    (reserve : ℕ → Bool) (bytes : List ℕ) (r : Record)
    → AreBytes bytes
    → decode bytes ≡ some r
    → reserve (header + length r.payload) ≡ true
    → encode reserve r.generation r.payload ≡ ok bytes
encode-decode reserve bytes r hb h hr =
    let (m, g, l, c, p, e, hm, hg, hl, hc) = decode_slices bytes r h in
    let read = decode-layout m g l c p hm hg hl hc in
    let (em, ng, el, fits, ec, er) = decode_parts-eq-some m g l c p r (cc) in
    subst
      (λ (s : Record).
        reserve (header + length s.payload) ≡ true
        → encode reserve s.generation s.payload ≡ ok bytes)
      er
      (λ granted.
        encode-image reserve (from_le g) p ng fits granted
        ∙ ap ok (image_parts m g l c p hg hl hc (subst AreBytes e hb) em el ec ∙ sym e))
      hr
