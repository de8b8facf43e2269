-- ===== src/Matter/Onboarding/Base38/RoundTrip.antt =====
-- Writing and reading base 38 (plugins/matter/src/onboarding.rs).
use stulp.Prelude.{
  Option, none, Bool, ℕ, zero, suc, ◌+◌, ◌-◌, ◌*◌, ◌/◌, ◌%◌, ◌^◌, ◌<◌, ◌≤◌, ◌≡◌, refl, ap, ◌∙◌,
  true, some, List, [], ◌∷◌, ◌++◌, arith, length, position, leb, ltb, ◌==◌, bit_or, append-nil,
  append_assoc, length-append, false,
}
use native.Mathlib.Nat.{pow-suc}
use stulp.Prelude.Bits.{bit_or-add_low}
use stulp.Prelude.Results.{Result, ok, ◌>>=◌}
use stulp.Bytes.{to_le, AreBytes, length-to_le}
use stulp.Matter.Buffer.{append, max}
use stulp.Matter.Onboarding.Verhoeff.{all_below, all_below-lt}
use stulp.Matter.Onboarding.Base38.{
  alphabet, symbol, symbols, encode38, value_of, decode_chunk, decode38,
}

abbrev is_at : ℕ → Option ℕ → Bool
is_at v none = false
is_at v (some i) = i == v

is_at-eq-some : (v : ℕ) (place : Option ℕ) → is_at v place ≡ true → place ≡ some v
is_at-eq-some v none h = absurd (cc h)
is_at-eq-some v (some i) h = let same : i ≡ v = ground (arith, h) in ap (λ (t : ℕ). some t) same

places : all_below 38 (λ v. is_at v (position (λ b. b == symbol v) alphabet)) ≡ true
places = refl

position-symbol : (v : ℕ) → position (λ b. b == symbol v) alphabet ≡ some (v % 38)
position-symbol v =
    let low = v % 38 in
    let same : low % 38 ≡ v % 38 = omega arith in
    let there = is_at-eq-some low (position (λ b. b == symbol low) alphabet) (
      all_below-lt 38 (λ v. is_at v (position (λ b. b == symbol v) alphabet)) places low
        (omega arith)) in
    rw same at there

value_of-symbols : (count v : ℕ) → v < 38 ^ count → value_of (symbols count v) ≡ ok v
unfolding value_of symbols
value_of-symbols zero v h =
    let none_left : 0 ≡ v = omega (arith, h) in ap (λ (t : ℕ). ok t) none_left
value_of-symbols (suc count) v h =
    let rest = value_of-symbols count (v / 38) (omega (arith, h, pow-suc 38 count)) in
    let whole : v / 38 * 38 + v % 38 ≡ v = omega arith in
    rw (rest, position-symbol v) (ap (λ (t : ℕ). ok t) whole)

decode_chunk-symbols :
    (out : List ℕ) (n count v : ℕ)
    → v < 38 ^ count
    → v < 2 ^ (n * 8)
    → length out + n ≤ max
    → decode_chunk out n (symbols count v) ≡ ok (out ++ to_le n v)
unfolding decode_chunk append
decode_chunk-symbols out n count v h fits few =
    let small : leb (2 ^ (n * 8)) v ≡ false = ground (arith, fits) in
    let room : ltb (max - length out) (length (to_le n v)) ≡ false =
      ground (arith, length-to_le n v, few) in
    rw (value_of-symbols count v h, small, room) refl

two_bytes : (a b : ℕ) → a < 256 → bit_or a (b * 2 ^ 8) ≡ b * 2 ^ 8 + a
two_bytes a b ha = bit_or-add_low 8 b a (omega (arith, ha))

three_bytes :
    (a b c : ℕ)
    → a < 256
    → b < 256
    → bit_or (bit_or a (b * 2 ^ 8)) (c * 2 ^ 16) ≡ c * 2 ^ 16 + (b * 2 ^ 8 + a)
three_bytes a b c ha hb =
    let low = two_bytes a b ha in
    bit_or-add_low 16 c (bit_or a (b * 2 ^ 8)) (omega (arith, low, ha, hb)) ∙ omega (arith, low)

pair_back : (a b : ℕ) → a < 256 → b < 256 → to_le 2 (b * 2 ^ 8 + a) ≡ a ∷ b ∷ []
unfolding to_le
pair_back a b ha hb =
    let low : (b * 2 ^ 8 + a) % 256 ≡ a = omega (arith, ha) in
    let high : (b * 2 ^ 8 + a) / 256 % 256 ≡ b = omega (arith, ha, hb) in rw (low, high) refl

triple_back :
    (a b c : ℕ)
    → a < 256
    → b < 256
    → c < 256
    → to_le 3 (c * 2 ^ 16 + (b * 2 ^ 8 + a)) ≡ a ∷ b ∷ c ∷ []
unfolding to_le
triple_back a b c ha hb hc =
    let v = c * 2 ^ 16 + (b * 2 ^ 8 + a) in
    let low : v % 256 ≡ a = omega (arith, ha) in
    let mid : v / 256 % 256 ≡ b = omega (arith, ha, hb) in
    let high : v / 256 / 256 % 256 ≡ c = omega (arith, ha, hb, hc) in rw (low, mid, high) refl

single_back : (a : ℕ) → a < 256 → to_le 1 a ≡ a ∷ []
unfolding to_le
single_back a ha = let low : a % 256 ≡ a = omega (arith, ha) in rw low refl

-- Bytes that are written in base 38 are read back behind those that were read before, as long as
-- all of them fit a buffer.
pub decode38-encode38 :
    (out bytes : List ℕ)
    → AreBytes bytes
    → length out + length bytes ≤ max
    → decode38 out (encode38 bytes) ≡ ok (out ++ bytes)
unfolding decode38 encode38 symbols
decode38-encode38 out [] h few = rw (append-nil out) refl
decode38-encode38 out (a ∷ []) (ha, h) few =
    decode_chunk-symbols out 1 2 a (omega (arith, ha)) (omega (arith, ha)) few
    ∙ ap (λ (t : List ℕ). ok (out ++ t)) (single_back a ha)
decode38-encode38 out (a ∷ b ∷ []) (ha, (hb, h)) few =
    let value = two_bytes a b ha in
    rw value (
      decode_chunk-symbols out 2 4 (b * 2 ^ 8 + a) (omega (arith, ha, hb)) (omega (arith, ha, hb))
        few
      ∙ ap (λ (t : List ℕ). ok (out ++ t)) (pair_back a b ha hb))
decode38-encode38 out (a ∷ b ∷ c ∷ rest) (ha, (hb, (hc, h))) few =
    let value = three_bytes a b c ha hb in
    let v = c * 2 ^ 16 + (b * 2 ^ 8 + a) in
    let longer = out ++ a ∷ b ∷ c ∷ [] in
    let first : decode_chunk out 3 (symbols 5 (bit_or (bit_or a (b * 2 ^ 8)) (c * 2 ^ 16)))
        ≡ ok longer =
      rw value (
        decode_chunk-symbols out 3 5 v (omega (arith, ha, hb, hc)) (omega (arith, ha, hb, hc))
          (omega (arith, few))
        ∙ ap (λ (t : List ℕ). ok (out ++ t)) (triple_back a b c ha hb hc)) in
    let size = length-append out (a ∷ b ∷ c ∷ []) in
    ap (λ (t : Result (List ℕ)). t >>= λ bytes. decode38 bytes (encode38 rest)) first
    ∙ (decode38-encode38 longer rest h (omega (arith, size, few))
        ∙ ap (λ (t : List ℕ). ok t) (append_assoc out (a ∷ b ∷ c ∷ []) rest))
