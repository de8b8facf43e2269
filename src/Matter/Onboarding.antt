-- ===== src/Matter/Onboarding.antt =====
-- Codes that a device is added by, plugins/matter/src/onboarding.rs: the manual code. A text is
-- the list of its ASCII bytes.
pub mod Verhoeff
pub mod Typing
pub mod Check
pub mod Base38
pub mod Walk
pub mod Fields
pub mod Manual
pub mod Tests
use stulp.Prelude.{
  ℕ, zero, suc, ◌+◌, ◌-◌, ◌*◌, ◌/◌, ◌%◌, ◌^◌, Bool, true, false, not, ◌&&◌, ◌||◌, Option, none,
  some, List, [], ◌∷◌, ◌++◌, length, take, drop, get_elem?, any, ltb, leb, ◌==◌, if◌then◌else◌,
  bit_and, bit_or,
}
use stulp.Prelude.Results.{Error, Result, ok, err, invalid, guard, ◌>>=◌, ◌>>◌}
use stulp.Matter.Mrp.{push}
use stulp.Matter.Tlv.Reader.{Reader, new, next}

pub record Payload : Type 0 where
  pub version : ℕ
  pub vendor : ℕ
  pub product : ℕ
  pub flow : ℕ
  pub discovery : ℕ
  pub discriminator : ℕ
  pub short : Bool
  pub code : ℕ
  pub extensions : List ℕ

-- `D` and `P`.
abbrev pub group_table : List (List ℕ)
group_table =
    (0 ∷ 1 ∷ 2 ∷ 3 ∷ 4 ∷ 5 ∷ 6 ∷ 7 ∷ 8 ∷ 9 ∷ [])
    ∷ (1 ∷ 2 ∷ 3 ∷ 4 ∷ 0 ∷ 6 ∷ 7 ∷ 8 ∷ 9 ∷ 5 ∷ [])
    ∷ (2 ∷ 3 ∷ 4 ∷ 0 ∷ 1 ∷ 7 ∷ 8 ∷ 9 ∷ 5 ∷ 6 ∷ [])
    ∷ (3 ∷ 4 ∷ 0 ∷ 1 ∷ 2 ∷ 8 ∷ 9 ∷ 5 ∷ 6 ∷ 7 ∷ [])
    ∷ (4 ∷ 0 ∷ 1 ∷ 2 ∷ 3 ∷ 9 ∷ 5 ∷ 6 ∷ 7 ∷ 8 ∷ [])
    ∷ (5 ∷ 9 ∷ 8 ∷ 7 ∷ 6 ∷ 0 ∷ 4 ∷ 3 ∷ 2 ∷ 1 ∷ [])
    ∷ (6 ∷ 5 ∷ 9 ∷ 8 ∷ 7 ∷ 1 ∷ 0 ∷ 4 ∷ 3 ∷ 2 ∷ [])
    ∷ (7 ∷ 6 ∷ 5 ∷ 9 ∷ 8 ∷ 2 ∷ 1 ∷ 0 ∷ 4 ∷ 3 ∷ [])
    ∷ (8 ∷ 7 ∷ 6 ∷ 5 ∷ 9 ∷ 3 ∷ 2 ∷ 1 ∷ 0 ∷ 4 ∷ [])
    ∷ (9 ∷ 8 ∷ 7 ∷ 6 ∷ 5 ∷ 4 ∷ 3 ∷ 2 ∷ 1 ∷ 0 ∷ [])
    ∷ []

abbrev pub permutations : List (List ℕ)
permutations =
    (0 ∷ 1 ∷ 2 ∷ 3 ∷ 4 ∷ 5 ∷ 6 ∷ 7 ∷ 8 ∷ 9 ∷ [])
    ∷ (1 ∷ 5 ∷ 7 ∷ 6 ∷ 2 ∷ 8 ∷ 3 ∷ 0 ∷ 9 ∷ 4 ∷ [])
    ∷ (5 ∷ 8 ∷ 0 ∷ 3 ∷ 7 ∷ 9 ∷ 6 ∷ 1 ∷ 4 ∷ 2 ∷ [])
    ∷ (8 ∷ 9 ∷ 1 ∷ 6 ∷ 0 ∷ 4 ∷ 3 ∷ 5 ∷ 2 ∷ 7 ∷ [])
    ∷ (9 ∷ 4 ∷ 5 ∷ 3 ∷ 1 ∷ 2 ∷ 6 ∷ 8 ∷ 7 ∷ 0 ∷ [])
    ∷ (4 ∷ 2 ∷ 8 ∷ 6 ∷ 5 ∷ 7 ∷ 3 ∷ 9 ∷ 0 ∷ 1 ∷ [])
    ∷ (2 ∷ 7 ∷ 9 ∷ 3 ∷ 8 ∷ 0 ∷ 6 ∷ 4 ∷ 1 ∷ 5 ∷ [])
    ∷ (7 ∷ 0 ∷ 4 ∷ 6 ∷ 9 ∷ 1 ∷ 3 ∷ 2 ∷ 5 ∷ 8 ∷ [])
    ∷ []

abbrev or_zero : Option ℕ → ℕ
or_zero none = 0
or_zero (some n) = n

abbrev row : Option (List ℕ) → List ℕ
row none = []
row (some xs) = xs

-- `TABLE[i][j]`, within the table.
unfoldable pub entry : List (List ℕ) → ℕ → ℕ → ℕ
entry table i j = or_zero (get_elem? (row (get_elem? table i)) j)

-- The loop of `checksum` runs from the last byte to the first.
unfoldable pub checksum : List ℕ → ℕ → ℕ
unfolding entry
checksum [] extra = 0
checksum (b ∷ bs) extra =
    entry group_table (checksum bs extra) (entry permutations ((length bs + extra) % 8) (b - 48))

abbrev pub forbidden : List ℕ
forbidden =
    0 ∷ 11111111 ∷ 22222222 ∷ 33333333 ∷ 44444444 ∷ 55555555 ∷ 66666666 ∷ 77777777 ∷ 88888888
    ∷ 99999999 ∷ 12345678 ∷ 87654321 ∷ []

unfoldable pub passcode : ℕ → Result (Unit {0})
passcode n =
    guard (not (leb (2 ^ 27) n || any (λ c. c == n) forbidden)) (invalid "invalid Matter passcode")

-- The digits of a number in the ten places of `buf`, here as many as asked for.
abbrev pub digits_of : ℕ → ℕ → List ℕ
digits_of zero n = []
digits_of (suc places) n = digits_of places (n / 10) ++ (48 + n % 10) ∷ []

unfoldable pub decimal : List ℕ → ℕ → ℕ → Result (List ℕ)
decimal out n width =
    if ltb 10 width
    then err (invalid "decimal width")
    else ok (out ++ drop (10 - width) (digits_of 10 n))

-- `group`
abbrev pub number_from : ℕ → List ℕ → ℕ
number_from a [] = a
number_from a (b ∷ bs) = number_from (a * 10 + (b - 48)) bs

abbrev pub group : List ℕ → ℕ → ℕ → ℕ
group digits from count = number_from 0 (take count (drop from digits))

abbrev pub is_separator : ℕ → Bool
is_separator b = b == 32 || (b == 45 || b == 46)

abbrev pub is_digit : ℕ → Bool
is_digit b = leb 48 b && leb b 57

-- One byte of a code.
abbrev pub next_digits : List ℕ → ℕ → Result (List ℕ)
next_digits digits b =
    if is_separator b
    then ok digits
    else if not (is_digit b)
    then err (invalid "pairing code contains non-digit")
    else push digits b 21

unfoldable pub collect : List ℕ → List ℕ → Result (List ℕ)
unfolding push
collect digits [] = ok digits
collect digits (b ∷ bs) = do longer ← next_digits digits b; collect longer bs

-- The first digit carries whether vendor and product follow.
abbrev pub has_vendor : ℕ → Bool
has_vendor first = not (bit_and first 4 == 0)

abbrev pub same : Bool → Bool → Bool
same true b = b
same false b = not b

-- The fields of a code from its groups of digits, `long` where it has 21 digits.
unfoldable pub fields_of : ℕ → ℕ → ℕ → ℕ → ℕ → Bool → Result Payload
fields_of first g2 g3 g4 g5 long =
    let vid = has_vendor first in
    let vendor = if vid then g4 else 0 in
    let product = if vid then g5 else 0 in
    let code = bit_or (bit_and g2 0x3fff) (g3 * 2 ^ 14) in
    do
      guard (not (ltb 7 first || (ltb 65535 g2 || not (same vid long))))
          (invalid "invalid pairing code fields")
      guard (leb vendor 65535) (invalid "vendor ID overflow")
      guard (leb product 65535) (invalid "product ID overflow")
      passcode code
      ok (record {
        version = 0;
        vendor = vendor;
        product = product;
        flow = if vid then 2 else 0;
        discovery = 0;
        discriminator = bit_or (bit_and first 3 * 2 ^ 10) (g2 / 2 ^ 14 * 2 ^ 8);
        short = true;
        code = code;
        extensions = [];
      })

-- What the digits of a code say.
abbrev pub fields : List ℕ → Result Payload
fields digits =
    fields_of (group digits 0 1) (group digits 1 5) (group digits 6 4) (group digits 10 5)
      (group digits 15 5) (length digits == 21)

unfoldable pub manual_parse : List ℕ → Result Payload
unfolding collect checksum
manual_parse code = do
  digits ← collect [] code
  guard ((length digits == 11 || length digits == 21) && checksum digits 0 == 0)
      (invalid "pairing code length or check digit invalid")
  fields digits

-- The digit that takes a checksum back to zero.
abbrev pub inverse : List ℕ
inverse = 0 ∷ 4 ∷ 3 ∷ 2 ∷ 1 ∷ 5 ∷ 6 ∷ 7 ∷ 8 ∷ 9 ∷ []

-- The digits of a code in front of its check digit.
unfoldable pub unchecked : Payload → Result (List ℕ)
unfolding decimal
unchecked p =
    let short = p.discriminator / 2 ^ 8 in
    let vid = not (p.flow == 0) in
    do
      one ← decimal [] (bit_or (short / 2 ^ 2) (if vid then 4 else 0)) 1
      two ← decimal one (bit_or (bit_and short 3 * 2 ^ 14) (bit_and p.code 0x3fff)) 5
      three ← decimal two (p.code / 2 ^ 14) 4
      four ← if vid then decimal three p.vendor 5 else ok three
      if vid then decimal four p.product 5 else ok four

-- `while r.next()?.is_some() {}`, for a number of turns; none where the loop needs more of them.
unfoldable pub read_rest : ℕ → Reader → Option (Result (Unit {0}))
read_rest zero r = none
read_rest (suc turns) r = elim (next r) [
  | err x ↦ some (err x)
  | ok (e, r1) ↦ let rest = read_rest turns r1 in elim e [ none ↦ some (ok tt) | some x ↦ rest ]
]

-- The answer of the loop, with an error of the model where its turns are used up.
unfoldable pub ended : Option (Result (Unit {0})) → Result (Unit {0})
ended none = err (invalid "TLV reader stands still")
ended (some answer) = answer

unfoldable pub read_all : List ℕ → Result (Unit {0})
unfolding new read_rest ended
read_all bytes = do r ← new bytes; ended (read_rest (suc (length bytes)) r)

unfoldable pub validate : Payload → Result (Unit {0})
unfolding passcode read_all
validate p = do
  passcode p.code
  guard (not (not (p.version == 0) || (ltb 2 p.flow || ltb 4095 p.discriminator)))
      (invalid "invalid QR payload fields")
  read_all p.extensions

unfoldable pub manual : Payload → Result (List ℕ)
unfolding decimal checksum unchecked
manual p = do
  validate p
  digits ← unchecked p
  decimal digits (or_zero (get_elem? inverse (checksum digits 1))) 1
