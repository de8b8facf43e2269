-- ===== src/Matter/Tlv/Writer.antt =====
-- `Writer` of plugins/matter/src/tlv.rs. An operation that fails gives no writer: its callers drop
-- the one they have.
use stulp.Prelude.{
  ℕ, ◌+◌, ◌-◌, ◌*◌, ◌^◌, Bool, not, ◌&&◌, List, [], ◌∷◌, take, length, ltb, leb, ◌==◌,
  if◌then◌else◌, bit_or,
}
use stulp.Prelude.Results.{Result, ok, err, invalid, guard, ◌>>=◌, ◌>>◌}
use stulp.Bytes.{to_le}
use stulp.Matter.Buffer.{append}
use stulp.Matter.Tlv.{
  ℤ, Tag, anonymous, context, common, implicit, full, Value, structure, array, list, max_depth,
  to_bits, fits_bits,
}

pub record Writer : Type 0 where
  pub written : List ℕ
  pub depth : ℕ

abbrev pub empty : Writer
empty = record { written = []; depth = 0 }

unfoldable pub width : ℕ → ℕ
width n = if leb n 255 then 0 else if leb n 65535 then 1 else if leb n (2 ^ 32 - 1) then 2 else 3

-- `append(&mut self.bytes, more)?`
unfoldable pub push : Writer → List ℕ → Result Writer
unfolding append
push w more = do out ← append w.written more; ok (record w { written = out })

-- `&n.to_le_bytes()[..if long { 4 } else { 2 }]`
unfoldable pub tag_number : ℕ → List ℕ
unfolding to_le
tag_number n = take (if ltb 65535 n then 4 else 2) (to_le 4 n)

unfoldable pub control : Writer → Tag → ℕ → Result Writer
unfolding push tag_number to_le
control w anonymous kind = push w (kind ∷ [])
control w (context n) kind = push w (bit_or 0x20 kind ∷ n ∷ [])
control w (common n) kind = do
  w1 ← push w (bit_or (bit_or 0x40 (if ltb 65535 n then 0x20 else 0)) kind ∷ [])
  push w1 (tag_number n)
control w (implicit n) kind = do
  w1 ← push w (bit_or (bit_or 0x80 (if ltb 65535 n then 0x20 else 0)) kind ∷ [])
  push w1 (tag_number n)
control w (full v p n) kind = do
  w1 ← push w (bit_or (if ltb 65535 n then 0xe0 else 0xc0) kind ∷ [])
  w2 ← push w1 (to_le 2 v)
  w3 ← push w2 (to_le 2 p)
  push w3 (tag_number n)

-- `uint_width`, at the code of the width.
unfoldable pub write_width : Writer → Tag → ℕ → ℕ → ℕ → Result Writer
unfolding control push to_le
write_width w tag n count code = do
  guard (not (ltb count 8 && leb (2 ^ (count * 8)) n)) (invalid "TLV integer does not fit width")
  w1 ← control w tag (4 + code)
  push w1 (take count (to_le 8 n))

unfoldable pub write_uint_width : Writer → Tag → ℕ → ℕ → Result Writer
unfolding write_width
write_uint_width w tag n count =
    if count == 1
    then write_width w tag n count 0
    else if count == 2
    then write_width w tag n count 1
    else if count == 4
    then write_width w tag n count 2
    else if count == 8
    then write_width w tag n count 3
    else err (invalid "invalid TLV integer width")

unfoldable pub write_uint : Writer → Tag → ℕ → Result Writer
unfolding write_uint_width width
write_uint w tag n = write_uint_width w tag n (2 ^ width n)

unfoldable pub int_width : ℤ → ℕ
int_width n =
    if fits_bits 8 n then 0 else if fits_bits 16 n then 1 else if fits_bits 32 n then 2 else 3

unfoldable pub write_int : Writer → Tag → ℤ → Result Writer
unfolding control push int_width to_le
write_int w tag n = do
  w1 ← control w tag (int_width n)
  push w1 (take (2 ^ int_width n) (to_le 8 (to_bits n)))

unfoldable pub write_boolean : Writer → Tag → Bool → Result Writer
unfolding control
write_boolean w tag n = control w tag (if n then 9 else 8)

-- The float is its bits.
unfoldable pub write_float32 : Writer → Tag → ℕ → Result Writer
unfolding control push to_le
write_float32 w tag n = do w1 ← control w tag 10; push w1 (to_le 4 n)

unfoldable pub write_float64 : Writer → Tag → ℕ → Result Writer
unfolding control push to_le
write_float64 w tag n = do w1 ← control w tag 11; push w1 (to_le 8 n)

unfoldable pub write_data : Writer → Tag → ℕ → List ℕ → Result Writer
unfolding control push width to_le
write_data w tag kind bs = do
  w1 ← control w tag (kind + width (length bs))
  w2 ← push w1 (take (2 ^ width (length bs)) (to_le 8 (length bs)))
  push w2 bs

unfoldable pub write_string : Writer → Tag → List ℕ → Result Writer
unfolding write_data
write_string w tag s = write_data w tag 12 s

unfoldable pub write_bytes : Writer → Tag → List ℕ → Result Writer
unfolding write_data
write_bytes w tag b = write_data w tag 16 b

unfoldable pub write_null : Writer → Tag → Result Writer
unfolding control
write_null w tag = control w tag 20

-- `start`, at the code of the container.
unfoldable pub open_container : Writer → Tag → ℕ → Result Writer
unfolding control
open_container w tag code = do
  guard (ltb w.depth max_depth) (invalid "TLV nesting exceeds 32")
  w1 ← control w tag code
  ok (record w1 { depth = w1.depth + 1 })

unfoldable pub start : Writer → Tag → Value → Result Writer
unfolding open_container
start w tag structure = open_container w tag 21
start w tag array = open_container w tag 22
start w tag list = open_container w tag 23
start w tag _ = err (invalid "not a TLV container")

unfoldable pub finish_container : Writer → Result Writer
unfolding push
finish_container w = do
  guard (not (w.depth == 0)) (invalid "TLV end without container")
  w1 ← push w (24 ∷ [])
  ok (record w1 { depth = w1.depth - 1 })

unfoldable pub finish : Writer → Result (List ℕ)
finish w = if w.depth == 0 then ok w.written else err (invalid "TLV has unterminated containers")
