-- ===== src/Matter/Tlv/Reader.antt =====
-- `Reader` of plugins/matter/src/tlv.rs, on a machine whose `usize` has 64 bits.
use stulp.Prelude.{
  ℕ, zero, suc, ◌+◌, ◌-◌, ◌*◌, ◌/◌, ◌%◌, ◌^◌, Bool, true, false, not, ◌||◌, Option, none, some,
  List, length, ltb, leb, ◌==◌, if◌then◌else◌, bit_and,
}
use stulp.Prelude.Results.{Result, ok, err, invalid, ok_or, guard, ◌>>=◌, ◌>>◌}
use stulp.Bytes.{from_le, slice}
use stulp.Matter.Buffer.{max}
use stulp.Matter.Tlv.{
  Tag, anonymous, context, common, implicit, full, Value, int, uint, boolean, float, string, bytes,
  null, structure, array, list, end, Element, max_depth, from_bits, is_utf8,
}

pub record Reader : Type 0 where
  pub input : List ℕ
  pub at : ℕ
  pub depth : ℕ

unfoldable pub new : List ℕ → Result Reader
new input =
    if ltb max (length input)
    then err (invalid "TLV input exceeds 65535 bytes")
    else ok (record { input = input; at = 0; depth = 0 })

-- `Reader::take`
unfoldable pub take_bytes : Reader → ℕ → Result (List ℕ × Reader)
unfolding slice
take_bytes r n = do
  guard (ltb (r.at + n) (2 ^ 64)) (invalid "TLV length overflow")
  b ← ok_or (slice r.input r.at (r.at + n)) (invalid "truncated TLV element")
  ok (b, record r { at = r.at + n })

unfoldable pub le : Reader → ℕ → Result (ℕ × Reader)
unfolding take_bytes
le r n = do guard (leb n 8) (invalid "TLV width"); (b, r') ← take_bytes r n; ok (from_le b, r')

-- `f64::from(f32::from_bits(bits))` in bits: a subnormal is shifted until its leading bit is out.
abbrev normal : ℕ → ℕ → ℕ → ℕ × ℕ
normal zero e m = (e, m)
normal (suc fuel) e m =
    let next = normal fuel (e - 1) (m * 2) in if leb (2 ^ 23) m then (e, m - 2 ^ 23) else next

unfoldable pub widen : ℕ → ℕ
widen b =
    let sign = b / 2 ^ 31 in
    let exponent = b / 2 ^ 23 % 256 in
    let fraction = b % 2 ^ 23 in
    let (e, m) = normal 24 897 fraction in
    sign * 2 ^ 63
    + (if exponent == 255
        then 2047 * 2 ^ 52 + (if fraction == 0 then 0 else fraction % 2 ^ 22 * 2 ^ 29 + 2 ^ 51)
        else if exponent == 0
        then if fraction == 0 then 0 else e * 2 ^ 52 + m * 2 ^ 29
        else (exponent + 896) * 2 ^ 52 + fraction * 2 ^ 29)

unfoldable pub read_tag : Reader → ℕ → Result (Tag × Reader)
unfolding le
read_tag r zero = ok (anonymous, r)
read_tag r (suc zero) = do (n, r1) ← le r 1; ok (context n, r1)
read_tag r (suc (suc zero)) = do (n, r1) ← le r 2; ok (common n, r1)
read_tag r (suc (suc (suc zero))) = do (n, r1) ← le r 4; ok (common n, r1)
read_tag r (suc (suc (suc (suc zero)))) = do (n, r1) ← le r 2; ok (implicit n, r1)
read_tag r (suc (suc (suc (suc (suc zero))))) = do (n, r1) ← le r 4; ok (implicit n, r1)
read_tag r (suc (suc (suc (suc (suc (suc zero)))))) = do
  (v, r1) ← le r 2
  (p, r2) ← le r1 2
  (n, r3) ← le r2 2
  ok (full v p n, r3)
read_tag r (suc (suc (suc (suc (suc (suc (suc k))))))) = do
  (v, r1) ← le r 2
  (p, r2) ← le r1 2
  (n, r3) ← le r2 4
  ok (full v p n, r3)

unfoldable pub is_anonymous : Tag → Bool
is_anonymous anonymous = true
is_anonymous _ = false

unfoldable pub read_data : Reader → ℕ → Result (Value × Reader)
unfolding le take_bytes is_utf8
read_data r kind = do
  (n, r1) ← le r (2 ^ bit_and kind 3)
  (bs, r2) ← take_bytes r1 n
  if ltb kind 16
      then if is_utf8 bs then ok (string bs, r2) else err (invalid "TLV string is not UTF-8")
      else ok (bytes bs, r2)

unfoldable pub enter : Reader → Value → Result (Value × Reader)
enter r value =
    if leb max_depth r.depth
    then err (invalid "TLV nesting exceeds 32")
    else ok (value, record r { depth = r.depth + 1 })

unfoldable pub leave : Reader → Tag → Result (Value × Reader)
unfolding is_anonymous
leave r tag =
    if r.depth == 0 || not (is_anonymous tag)
    then err (invalid "invalid TLV container end")
    else ok (end, record r { depth = r.depth - 1 })

unfoldable pub read_int : Reader → ℕ → Result (Value × Reader)
unfolding le
read_int r count = do (v, r1) ← le r count; ok (int (from_bits (8 * count) v), r1)

unfoldable pub read_uint : Reader → ℕ → Result (Value × Reader)
unfolding le
read_uint r count = do (v, r1) ← le r count; ok (uint v, r1)

unfoldable pub read_float32 : Reader → Result (Value × Reader)
unfolding le widen
read_float32 r = do (v, r1) ← le r 4; ok (float (widen v), r1)

unfoldable pub read_float64 : Reader → Result (Value × Reader)
unfolding le
read_float64 r = do (v, r1) ← le r 8; ok (float v, r1)

unfoldable pub read_value : Reader → Tag → ℕ → Result (Value × Reader)
unfolding read_int read_uint read_float32 read_float64 read_data enter leave
read_value r tag kind =
    if leb kind 3
    then read_int r (2 ^ kind)
    else if leb kind 7
    then read_uint r (2 ^ (kind - 4))
    else if kind == 8
    then ok (boolean false, r)
    else if kind == 9
    then ok (boolean true, r)
    else if kind == 10
    then read_float32 r
    else if kind == 11
    then read_float64 r
    else if leb kind 19
    then read_data r kind
    else if kind == 20
    then ok (null, r)
    else if kind == 21
    then enter r structure
    else if kind == 22
    then enter r array
    else if kind == 23
    then enter r list
    else if kind == 24
    then leave r tag
    else err (invalid "reserved TLV type")

unfoldable pub next : Reader → Result (Option Element × Reader)
unfolding le read_tag read_value
next r =
    if r.at == length r.input
    then if r.depth == 0 then ok (none, r) else err (invalid "unterminated TLV container")
    else do
      (control, r1) ← le r 1
      (tag, r2) ← read_tag r1 (control / 32)
      (value, r3) ← read_value r2 tag (bit_and control 31)
      ok (some (record { tag = tag; value = value }), r3)
