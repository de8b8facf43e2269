-- ===== src/Slots/Torn.antt =====
-- Interrupted writes of a slot (crates/core/src/slots.rs).
use stulp.Prelude.{
  ℕ, ◌^◌, ◌<◌, ◌≡◌, refl, inl, inr, sym, ◌∙◌, Bool, Option, none, some, List, ◌∷◌, ◌++◌, arith,
  length, append_assoc, length-append, Option-cases,
}
use stulp.Prelude.Results.{ok}
use stulp.Slots.Codec.{encode, decode, Record, Slot, select}
use stulp.Slots.RoundTrip.{decode_slices, decode-layout, decode_parts-eq-some, decode-encode}

-- Two payloads behind one header cannot both fit its length field.
one_length :
    (m g l c p q : List ℕ) (r s : Record)
    → 8 ≡ length m
    → 8 ≡ length g
    → 4 ≡ length l
    → 4 ≡ length c
    → decode (m ++ (g ++ (l ++ (c ++ p)))) ≡ some r
    → decode (m ++ (g ++ (l ++ (c ++ q)))) ≡ some s
    → length p ≡ length q
one_length m g l c p q r s hm hg hl hc hp hq =
    let left = decode_parts-eq-some m g l c p r (sym (decode-layout m g l c p hm hg hl hc) ∙ hp) in
    let right = decode_parts-eq-some m g l c q s (sym (decode-layout m g l c q hm hg hl hc) ∙ hq) in
    sym left.2 ∙ right.2

-- No proper prefix of an encoding decodes: a write that stops early leaves an invalid slot.
pub decode_torn :
    (reserve : ℕ → Bool) (generation : ℕ) (payload front : List ℕ) (byte : ℕ) (back : List ℕ)
    → generation < 2 ^ 64
    → encode reserve generation payload ≡ ok (front ++ byte ∷ back)
    → decode front ≡ none
decode_torn reserve generation payload front byte back hg h = elim (Option-cases (decode front)) [
  | inl e ↦ e
  | inr (r, e) ↦
      let (m, g, l, c, p, parts, hm, hg', hl, hc) = decode_slices front r e in
      let whole = decode-encode reserve generation payload _ hg h in
      let more : List ℕ = byte ∷ back in
      let regroup : front ++ more ≡ m ++ (g ++ (l ++ (c ++ (p ++ more)))) =
        rw parts (simp append_assoc) in
      let same =
        one_length m g l c p (p ++ more) r _ hm hg' hl hc (rw parts at e) (rw regroup at whole) in
      absurd (omega (arith, length-append p more))
]

-- A slot whose write stopped early does not matter: where the other slot holds an encoding, `select`
-- answers with that slot and its document, whichever of the two it is and whatever legacy document
-- there is.
pub select_torn :
    (reserve reserve' : ℕ → Bool) (generation generation' : ℕ)
    (payload payload' front whole : List ℕ) (byte : ℕ) (back : List ℕ) (old : Option (List ℕ))
    → generation < 2 ^ 64
    → generation' < 2 ^ 64
    → encode reserve generation payload ≡ ok (front ++ byte ∷ back)
    → encode reserve' generation' payload' ≡ ok whole
    → (select (some front) (some whole) old
        ≡ ok (Slot.b, record { generation = generation'; payload = payload' }))
      × (select (some whole) (some front) old
          ≡ ok (Slot.a, record { generation = generation'; payload = payload' }))
unfolding select
select_torn reserve reserve' generation generation' payload payload' front whole byte back old hg
      hg' torn held =
    let gone = decode_torn reserve generation payload front byte back hg torn in
    let there = decode-encode reserve' generation' payload' whole hg' held in
    (rw (gone, there) refl, rw (gone, there) refl)
