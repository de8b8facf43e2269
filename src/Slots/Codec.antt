-- ===== src/Slots/Codec.antt =====
-- The record format of crates/core/src/slots.rs: `checksum`, `encode`, `decode` and `select`.
-- A slice of bytes is a list; `reserve` answers whether the allocator grants that many bytes.
use stulp.Prelude.{
  ℕ, zero, suc, ◌+◌, ◌-◌, ◌*◌, ◌/◌, ◌^◌, Bool, true, false, not, ◌||◌, Option, none, some, List, [],
  ◌∷◌, ◌++◌, length, ltb, leb, ◌==◌, if◌then◌else◌, bit_and, bit_xor,
}
use stulp.Prelude.Results.{Result, ok, err, full, memory, invalid, conflict}
use stulp.Prelude.Options.{◌>>=◌, ◌>>◌, guard}
use stulp.Bytes.{to_le, from_le, slice, bytes_eq}
use mathlib.Core.List.{foldl}

abbrev pub header : ℕ
header = 24

-- `document::MAX_BYTES`, 64 << 20
abbrev pub max_bytes : ℕ
max_bytes = 64 * 2 ^ 20

-- b"STULPAB\x01"
abbrev pub magic : List ℕ
magic = b'S' ∷ b'T' ∷ b'U' ∷ b'L' ∷ b'P' ∷ b'A' ∷ b'B' ∷ 1 ∷ []

pub data Slot : Type 0 where
  a b legacy : Slot

pub record Record : Type 0 where
  pub generation : ℕ
  pub payload : List ℕ

-- One of the eight rounds that a byte takes.
pub crc_round : ℕ → ℕ
crc_round c = bit_xor (c / 2) (if bit_and c 1 == 0 then 0 else 0xedb8_8320)

pub crc_rounds : ℕ → ℕ → ℕ
crc_rounds zero c = c
crc_rounds (suc n) c = crc_rounds n (crc_round c)

pub crc_byte : ℕ → ℕ → ℕ
crc_byte c byte = crc_rounds 8 (bit_xor c byte)

pub crc : ℕ → List ℕ → ℕ
crc = foldl crc_byte

unfoldable pub checksum : List ℕ → List ℕ → ℕ
unfolding crc crc_byte crc_rounds crc_round
checksum prefix payload = 2 ^ 32 - 1 - crc (crc (2 ^ 32 - 1) prefix) payload

-- The 20 bytes that the checksum covers, before the checksum itself.
abbrev pub prefix_of : ℕ → ℕ → List ℕ
prefix_of generation len = magic ++ (to_le 8 generation ++ to_le 4 len)

unfoldable pub encode : (ℕ → Bool) → ℕ → List ℕ → Result (List ℕ)
encode reserve generation payload =
    let len = length payload in
    let prefix = prefix_of generation len in
    if generation == 0
    then err (invalid "document slot generation must be positive")
    else if ltb max_bytes len
    then err full
    else if leb (2 ^ 32) len
    then err full
    else if reserve (header + len)
    then ok (prefix ++ (to_le 4 (checksum prefix payload) ++ payload))
    else err memory

unfoldable pub decode : List ℕ → Option Record
unfolding bytes_eq slice from_le checksum
decode bytes = do
  start ← slice bytes 0 8
  guard (bytes_eq start magic)
  g ← slice bytes 8 16
  l ← slice bytes 16 20
  c ← slice bytes 20 24
  payload ← slice bytes header (length bytes)
  prefix ← slice bytes 0 20
  guard (not (from_le g == 0))
  guard (from_le l == length payload)
  guard (leb (from_le l) max_bytes)
  guard (checksum prefix payload == from_le c)
  some (record { generation = from_le g; payload = payload })

-- `a.and_then(decode)`
abbrev pub decoded : Option (List ℕ) → Option Record
decoded none = none
decoded (some bytes) = decode bytes

unfoldable pub select_legacy : Option (List ℕ) → Bool → Result (Slot × Record)
select_legacy (some payload) present = ok (legacy, record { generation = 0; payload = payload })
select_legacy none present =
    if present
    then err (invalid "no valid document slot and no legacy document")
    else ok (legacy, record { generation = 0; payload = [] })

-- The two decoded slots, the legacy document, and whether one of the slots was there at all.
unfoldable pub choose :
    Option Record → Option Record → Option (List ℕ) → Bool → Result (Slot × Record)
choose (some l) (some r) old present =
    if l.generation == r.generation
    then (if bytes_eq l.payload r.payload
        then ok (a, l)
        else err (conflict "document slots have conflicting generations"))
    else if ltb r.generation l.generation
    then ok (a, l)
    else ok (b, r)
choose (some l) none old present = ok (a, l)
choose none (some r) old present = ok (b, r)
choose none none old present = select_legacy old present

abbrev pub is_some {ℓ} : {A : Type ℓ} → Option A → Bool
is_some none = false
is_some (some x) = true

unfoldable pub select : Option (List ℕ) → Option (List ℕ) → Option (List ℕ) → Result (Slot × Record)
unfolding choose select_legacy bytes_eq
select left right old = choose (decoded left) (decoded right) old (is_some left || is_some right)
