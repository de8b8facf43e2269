-- ===== src/Matter/Tlv.antt =====
-- Elements of the Matter TLV encoding (plugins/matter/src/tlv.rs): tags, values and what both sides
-- share. A signed integer is a ℤ, a float its IEEE bits, a string its UTF-8 bytes.
pub mod Writer
pub mod Reader
pub mod Progress
pub mod Layout
pub mod Scan
pub mod Values
pub mod RoundTrip
use stulp.Prelude.{
  ℕ, zero, suc, ◌+◌, ◌-◌, ◌*◌, ◌^◌, ◌<◌, ◌≤◌, ◌≡◌, Bool, true, false, ◌&&◌, ◌||◌, Option, none,
  some, List, [], ◌∷◌, ltb, leb, ◌==◌, if◌then◌else◌,
}

pub data ℤ : Type 0 where
  pos negsuc : ℕ → ℤ

pub data Tag : Type 0 where
  anonymous : Tag
  context common implicit : ℕ → Tag
  full : ℕ → ℕ → ℕ → Tag

pub data Value : Type 0 where
  int : ℤ → Value
  uint : ℕ → Value
  boolean : Bool → Value
  float : ℕ → Value
  string bytes : List ℕ → Value
  null structure array list end : Value

pub record Element : Type 0 where
  pub tag : Tag
  pub value : Value

abbrev pub max_depth : ℕ
max_depth = 32

-- The 64 bits of an `i64`.
abbrev pub to_bits : ℤ → ℕ
to_bits (pos n) = n
to_bits (negsuc n) = 2 ^ 64 - 1 - n

-- Whether a signed integer of so many bits holds the number: `i8::try_from(n).is_ok()` and its like.
abbrev pub fits_bits : ℕ → ℤ → Bool
fits_bits w (pos n) = ltb n (2 ^ (w - 1))
fits_bits w (negsuc n) = ltb n (2 ^ (w - 1))

-- The signed integer of so many bits: `i64::from(v as i8)` and its like.
abbrev pub from_bits : ℕ → ℕ → ℤ
from_bits w v = if ltb v (2 ^ (w - 1)) then pos v else negsuc (2 ^ w - 1 - v)

-- `core::str::from_utf8(bytes).is_ok()`: the bytes that must follow the one read, with the range of
-- the next of them.
abbrev utf8_class : ℕ → Option (ℕ × ℕ × ℕ)
utf8_class b =
    if ltb b 0x80
    then some (0, 0x80, 0xbf)
    else if ltb b 0xc2
    then none
    else if ltb b 0xe0
    then some (1, 0x80, 0xbf)
    else if b == 0xe0
    then some (2, 0xa0, 0xbf)
    else if b == 0xed
    then some (2, 0x80, 0x9f)
    else if ltb b 0xf0
    then some (2, 0x80, 0xbf)
    else if b == 0xf0
    then some (3, 0x90, 0xbf)
    else if ltb b 0xf4
    then some (3, 0x80, 0xbf)
    else if b == 0xf4
    then some (3, 0x80, 0x8f)
    else none

utf8_from : Option (ℕ × ℕ × ℕ) → List ℕ → Bool
utf8_from none bs = false
utf8_from (some (zero, lo, hi)) [] = true
utf8_from (some (suc n, lo, hi)) [] = false
utf8_from (some (zero, lo, hi)) (b ∷ bs) = utf8_from (utf8_class b) bs
utf8_from (some (suc n, lo, hi)) (b ∷ bs) =
    leb lo b && (leb b hi && utf8_from (some (n, 0x80, 0xbf)) bs)

unfoldable pub is_utf8 : List ℕ → Bool
unfolding utf8_from
is_utf8 bs = utf8_from (some (0, 0x80, 0xbf)) bs
