-- ===== src/Matter/Onboarding/Typing.antt =====
-- Typing errors in a manual code, plugins/matter/src/onboarding.rs: `manual_parse`.
use stulp.Prelude.{
  ℕ, ◌≤◌, ◌≡◌, ◌≢◌, refl, sym, ap, ◌∙◌, Bool, true, false, ◌&&◌, ◌||◌, some, List, [], ◌∷◌, ◌++◌,
  arith, length, set, get_elem?, All, leb, ◌==◌, inl, inr, Bool-cases, length-set, length-append,
  append_assoc, append-nil,
}
use stulp.Prelude.Distinct.{All-set}
use stulp.Prelude.Results.{Error, ok, err, invalid}
use stulp.Matter.Mrp.{push}
use stulp.Matter.Onboarding.{Payload, checksum, collect, manual_parse, is_separator, is_digit}
use stulp.Matter.Onboarding.Verhoeff.{IsDigit, checksum-set, checksum-swap, All-swap}

digit_kind : (b : ℕ) → IsDigit b → (is_separator b ≡ false) × (is_digit b ≡ true)
digit_kind b (low, high) = (ground (arith, low), ground (arith, low, high))

-- Digits are collected as they are, up to 21 of them.
pub collect-digits :
    (front bs : List ℕ)
    → All IsDigit bs
    → length (front ++ bs) ≤ 21
    → collect front bs ≡ ok (front ++ bs)
unfolding collect push
collect-digits front [] h few = rw (append-nil front) refl
collect-digits front (b ∷ bs) (hb, h) few =
    let (text, digit) = digit_kind b hb in
    let size = length-append front (b ∷ bs) in
    let room : leb 21 (length front) ≡ false = ground (arith, size, few) in
    let shift = append_assoc front (b ∷ []) bs in
    rw (text, digit, room) (collect-digits (front ++ b ∷ []) bs h (rw shift few) ∙ ap ok shift)

abbrev refusal : Error
refusal = invalid "pairing code length or check digit invalid"

-- A code of digits whose checksum is not zero.
refused :
    (code : List ℕ)
    → All IsDigit code
    → length code ≤ 21
    → checksum code 0 ≢ 0
    → manual_parse code ≡ err refusal
unfolding manual_parse
refused code h few wrong =
    let none_zero : (checksum code 0 == 0) ≡ false = ground (arith, wrong) in
    let test : ((length code == 11 || length code == 21) && checksum code 0 == 0) ≡ false =
      rw none_zero (never (length code == 11 || length code == 21)) in
    rw (collect-digits [] code h few, test) refl
  where
    never : (b : Bool) → (b && false) ≡ false
    never true = refl
    never false = refl

-- A code of digits that is accepted has a checksum of zero.
accepted :
    (code : List ℕ) (p : Payload)
    → All IsDigit code
    → length code ≤ 21
    → manual_parse code ≡ ok p
    → checksum code 0 ≡ 0
accepted code p h few done = elim (Bool-cases (checksum code 0 == 0)) [
  | inl fits ↦ ground (arith, fits)
  | inr wrong ↦
      let refusing = refused code h few (λ e. absurd (ground (arith, wrong, e))) in
      absurd (cc (refusing, done))
]

-- A code of at most 21 digits that is accepted is refused when one digit of it is replaced by
-- another digit.
pub manual_parse-set :
    (code : List ℕ) (p : Payload) (i x y : ℕ)
    → All IsDigit code
    → length code ≤ 21
    → manual_parse code ≡ ok p
    → get_elem? code i ≡ some x
    → IsDigit y
    → y ≢ x
    → manual_parse (set code i y) ≡ err (invalid "pairing code length or check digit invalid")
manual_parse-set code p i x y h few done at hy ne =
    let zero_sum = accepted code p h few done in
    refused (set code i y) (All-set IsDigit code i y h hy) (omega (arith, length-set code i y, few))
      (λ e. checksum-set code 0 i x y h at hy ne (e ∙ sym zero_sum))

-- A code of at most 21 digits that is accepted is refused when two different neighbours in it
-- change places.
pub manual_parse-swap :
    (front rest : List ℕ) (a b : ℕ) (p : Payload)
    → All IsDigit (front ++ a ∷ b ∷ rest)
    → length (front ++ a ∷ b ∷ rest) ≤ 21
    → manual_parse (front ++ a ∷ b ∷ rest) ≡ ok p
    → a ≢ b
    → manual_parse (front ++ b ∷ a ∷ rest)
      ≡ err (invalid "pairing code length or check digit invalid")
manual_parse-swap front rest a b p h few done ne =
    let zero_sum = accepted (front ++ a ∷ b ∷ rest) p h few done in
    let size : length (front ++ b ∷ a ∷ rest) ≤ 21 =
      omega (arith, length-append front (b ∷ a ∷ rest), length-append front (a ∷ b ∷ rest), few) in
    refused (front ++ b ∷ a ∷ rest) (All-swap front rest a b h) size
      (λ e. checksum-swap front rest a b 0 h ne (e ∙ sym zero_sum))
