-- ===== src/Matter/Tlv/Values.antt =====
-- Values behind their tags, as the TLV reader takes them (plugins/matter/src/tlv.rs).
use stulp.Prelude.{
  ℕ, zero, suc, ◌+◌, ◌-◌, ◌*◌, ◌^◌, ◌<◌, ◌≤◌, ◌≡◌, ◌≢◌, refl, ap, ◌∙◌, true, false, List, ◌++◌,
  arith, take, drop, length, ltb, leb, ◌==◌, bit_and, append_assoc, length-append, length-drop, ◌⊎◌,
  inl, inr,
}
use stulp.Prelude.Results.{ok}
use stulp.Bytes.{to_le}
use stulp.Matter.Tlv.{
  ℤ, pos, negsuc, Tag, Value, int, uint, boolean, float, string, bytes, null, structure, array,
  list, end, max_depth, to_bits, from_bits, fits_bits, is_utf8,
}
use stulp.Matter.Tlv.Writer.{width, int_width}
use stulp.Matter.Tlv.Reader.{
  Reader, take_bytes, le, read_int, read_uint, read_float64, read_data, enter, leave, is_anonymous,
  read_value,
}
use stulp.Matter.Tlv.Layout.{value_bytes, kind_of, depth_after, DepthFits, width-le, int_width-le}
use stulp.Matter.Tlv.Scan.{Stands, moved, take_bytes-Stands, le-Stands}

-- The range of a Rust value; a string is UTF-8.
unfoldable pub ValueFits : Value → Type 0
ValueFits (int n) = fits_bits 64 n ≡ true
ValueFits (uint n) = n < 2 ^ 64
ValueFits (float n) = n < 2 ^ 64
ValueFits (string s) = is_utf8 s ≡ true
ValueFits _ = Unit

pub take-to_le : (k n : ℕ) → k ≤ 3 → take (2 ^ k) (to_le 8 n) ≡ to_le (2 ^ k) n
unfolding to_le
take-to_le zero n h = refl
take-to_le (suc zero) n h = refl
take-to_le (suc (suc zero)) n h = refl
take-to_le (suc (suc (suc zero))) n h = refl
take-to_le (suc (suc (suc (suc k)))) n h = absurd (omega arith)

pub pow-le : (k : ℕ) → k ≤ 3 → 2 ^ k ≤ 8
pow-le zero h = omega arith
pow-le (suc zero) h = omega arith
pow-le (suc (suc zero)) h = omega arith
pow-le (suc (suc (suc zero))) h = omega arith
pow-le (suc (suc (suc (suc k)))) h = absurd (omega arith)

width_lem : (n : ℕ) → n < 2 ^ 64 → n < 256 ^ (2 ^ width n)
unfolding width
width_lem n h = ground arith

int_width_lem : (n : ℤ) → fits_bits 64 n ≡ true → fits_bits (8 * 2 ^ int_width n) n ≡ true
unfolding int_width
int_width_lem (pos n) h = ground arith
int_width_lem (negsuc n) h = ground arith

-- A signed integer at a width that holds it.
low_lem :
    (k : ℕ) (n : ℤ)
    → k ≤ 3
    → fits_bits (8 * 2 ^ k) n ≡ true
    → (low : ℕ) × (low < 256 ^ (2 ^ k))
      × (to_le (2 ^ k) (to_bits n) ≡ to_le (2 ^ k) low)
      × (from_bits (8 * 2 ^ k) low ≡ n)
unfolding to_le
low_lem zero (pos n) h f = (n, ground arith, refl, ground arith)
low_lem (suc zero) (pos n) h f = (n, ground arith, refl, ground arith)
low_lem (suc (suc zero)) (pos n) h f = (n, ground arith, refl, ground arith)
low_lem (suc (suc (suc zero))) (pos n) h f = (n, ground arith, refl, ground arith)
low_lem zero (negsuc n) h f = (2 ^ 8 - 1 - n, ground arith, ground arith, ground arith)
low_lem (suc zero) (negsuc n) h f = (2 ^ 16 - 1 - n, ground arith, ground arith, ground arith)
low_lem (suc (suc zero)) (negsuc n) h f = (2 ^ 32 - 1 - n, ground arith, ground arith, ground arith)
low_lem (suc (suc (suc zero))) (negsuc n) h f = (2 ^ 64 - 1 - n, ground arith, refl, ground arith)
low_lem (suc (suc (suc (suc k)))) n h f = absurd (omega arith)

-- A size in front of bytes is read back.
size-Stands :
    (r : Reader) (n : ℕ) (rest : List ℕ)
    → n < 2 ^ 64
    → Stands r (take (2 ^ width n) (to_le 8 n) ++ rest)
    → (le r (2 ^ width n) ≡ ok (n, moved r (2 ^ width n))) × Stands (moved r (2 ^ width n)) rest
size-Stands r n rest hn (h, le1, small) =
    le-Stands r (2 ^ width n) n rest (pow-le (width n) (width-le n)) (width_lem n hn)
      (h ∙ ap (λ (t : List ℕ). t ++ rest) (take-to_le (width n) n (width-le n)), le1, small)

-- A form of data has the code of the width of its size.
data_form : (k w : ℕ) → (k ≡ 12) ⊎ (k ≡ 16) → w ≤ 3 → bit_and (k + w) 3 ≡ w
data_form k zero (inl e) h = rw e
data_form k (suc zero) (inl e) h = rw e
data_form k (suc (suc zero)) (inl e) h = rw e
data_form k (suc (suc (suc zero))) (inl e) h = rw e
data_form k (suc (suc (suc (suc w)))) (inl e) h = absurd (omega arith)
data_form k zero (inr e) h = rw e
data_form k (suc zero) (inr e) h = rw e
data_form k (suc (suc zero)) (inr e) h = rw e
data_form k (suc (suc (suc zero))) (inr e) h = rw e
data_form k (suc (suc (suc (suc w)))) (inr e) h = absurd (omega arith)

pub uint_form :
    (r : Reader) (tag : Tag) (w : ℕ) → w ≤ 3 → read_value r tag (4 + w) ≡ read_uint r (2 ^ w)
unfolding read_value
uint_form r tag zero h = refl
uint_form r tag (suc zero) h = refl
uint_form r tag (suc (suc zero)) h = refl
uint_form r tag (suc (suc (suc zero))) h = refl
uint_form r tag (suc (suc (suc (suc w)))) h = absurd (omega arith)

string_form :
    (r : Reader) (tag : Tag) (w : ℕ) → w ≤ 3 → read_value r tag (12 + w) ≡ read_data r (12 + w)
unfolding read_value
string_form r tag zero h = refl
string_form r tag (suc zero) h = refl
string_form r tag (suc (suc zero)) h = refl
string_form r tag (suc (suc (suc zero))) h = refl
string_form r tag (suc (suc (suc (suc w)))) h = absurd (omega arith)

bytes_form :
    (r : Reader) (tag : Tag) (w : ℕ) → w ≤ 3 → read_value r tag (16 + w) ≡ read_data r (16 + w)
unfolding read_value
bytes_form r tag zero h = refl
bytes_form r tag (suc zero) h = refl
bytes_form r tag (suc (suc zero)) h = refl
bytes_form r tag (suc (suc (suc zero))) h = refl
bytes_form r tag (suc (suc (suc (suc w)))) h = absurd (omega arith)

-- What is read for a value.
unfoldable pub Reads : Reader → Tag → Value → List ℕ → Type 0
Reads r tag v rest =
    (r' : Reader) × (read_value r tag (kind_of v) ≡ ok (v, r'))
    × Stands r' rest
    × (r'.depth ≡ depth_after v r.depth)
    × (r'.input ≡ r.input)

data-Stands :
    (r : Reader) (k : ℕ) (bs rest : List ℕ)
    → (k ≡ 12) ⊎ (k ≡ 16)
    → Stands r ((take (2 ^ width (length bs)) (to_le 8 (length bs)) ++ bs) ++ rest)
    → let r1 = moved r (2 ^ width (length bs)) in
      let r2 = moved r1 (length bs) in
      (le r (2 ^ bit_and (k + width (length bs)) 3) ≡ ok (length bs, r1))
      × (take_bytes r1 (length bs) ≡ ok (bs, r2))
      × Stands r2 rest
data-Stands r k bs rest form (h, le1, small) =
    let size = take (2 ^ width (length bs)) (to_le 8 (length bs)) in
    let e = h ∙ append_assoc size bs rest in
    let total : length (drop r.at r.input) ≡ length (size ++ (bs ++ rest)) = ap length e in
    let fits : length bs < 2 ^ 64 =
      omega
        (arith, length-drop r.at r.input, length-append size (bs ++ rest), length-append bs rest) in
    let (a, h1) = size-Stands r (length bs) (bs ++ rest) fits (e, le1, small) in
    let (b, h2) = take_bytes-Stands (moved r (2 ^ width (length bs))) bs rest (length bs) refl h1 in
    (rw (data_form k (width (length bs)) form (width-le (length bs))) a, b, h2)

string_small : (w : ℕ) → w ≤ 3 → ltb (12 + w) 16 ≡ true
string_small w h = ground arith

bytes_large : (w : ℕ) → ltb (16 + w) 16 ≡ false
bytes_large w = ground arith

room_lem : (d : ℕ) → d < max_depth → leb max_depth d ≡ false
room_lem d h = ground arith

nonzero_lem : (d : ℕ) → d ≢ 0 → (d == 0) ≡ false
nonzero_lem zero h = absurd (h refl)
nonzero_lem (suc d) h = ground arith

pub value-Stands :
    (r : Reader) (tag : Tag) (v : Value) (rest : List ℕ)
    → ValueFits v
    → DepthFits v tag r.depth
    → Stands r (value_bytes v ++ rest)
    → Reads r tag v rest
unfolding ValueFits DepthFits value_bytes kind_of Reads depth_after read_value enter leave
    is_anonymous read_int read_uint read_float64 read_data
value-Stands r tag (int n) rest hv hd (h, le1, small) =
    let k = int_width n in
    let (low, fits, same, back) = low_lem k n (int_width-le n) (int_width_lem n hv) in
    let shape = take-to_le k (to_bits n) (int_width-le n) ∙ same in
    let (a, h1) =
      le-Stands r (2 ^ k) low rest (pow-le k (int_width-le n)) fits
        (h ∙ ap (λ (t : List ℕ). t ++ rest) shape, le1, small) in
    let test : leb k 3 ≡ true = ground (arith, int_width-le n) in
    (moved r (2 ^ k), rw (test, a, back), h1, refl, refl)
value-Stands r tag (uint n) rest hv hd (h, le1, small) =
    let k = width n in
    let (a, h1) =
      le-Stands r (2 ^ k) n rest (pow-le k (width-le n)) (width_lem n hv)
        (h ∙ ap (λ (t : List ℕ). t ++ rest) (take-to_le k n (width-le n)), le1, small) in
    let read : read_uint r (2 ^ k) ≡ ok (uint n, moved r (2 ^ k)) = rw a in
    (moved r (2 ^ k), uint_form r tag k (width-le n) ∙ read, h1, refl, refl)
value-Stands r tag (boolean true) rest hv hd h = (r, refl, h, refl, refl)
value-Stands r tag (boolean false) rest hv hd h = (r, refl, h, refl, refl)
value-Stands r tag (float n) rest hv hd h =
    let (a, h1) = le-Stands r 8 n rest (omega arith) (omega arith) h in
    (moved r 8, rw a, h1, refl, refl)
value-Stands r tag (string s) rest hv hd h =
    let (a, b, h1) = data-Stands r 12 s rest (inl refl) h in
    let w = width (length s) in
    let r2 = moved (moved r (2 ^ w)) (length s) in
    let low = string_small w (width-le (length s)) in
    let read : read_data r (12 + w) ≡ ok (string s, r2) = rw (a, b, low, hv) in
    (r2, string_form r tag w (width-le (length s)) ∙ read, h1, refl, refl)
value-Stands r tag (bytes s) rest hv hd h =
    let (a, b, h1) = data-Stands r 16 s rest (inr refl) h in
    let w = width (length s) in
    let r2 = moved (moved r (2 ^ w)) (length s) in
    let high = bytes_large w in
    let read : read_data r (16 + w) ≡ ok (bytes s, r2) = rw (a, b, high) in
    (r2, bytes_form r tag w (width-le (length s)) ∙ read, h1, refl, refl)
value-Stands r tag null rest hv hd h = (r, refl, h, refl, refl)
value-Stands r tag structure rest hv hd h =
    (record r { depth = r.depth + 1 }, rw (room_lem r.depth hd), h, refl, refl)
value-Stands r tag array rest hv hd h =
    (record r { depth = r.depth + 1 }, rw (room_lem r.depth hd), h, refl, refl)
value-Stands r tag list rest hv hd h =
    (record r { depth = r.depth + 1 }, rw (room_lem r.depth hd), h, refl, refl)
value-Stands r tag end rest hv (open_one, anon) h =
    (record r { depth = r.depth - 1 }, rw (anon, nonzero_lem r.depth open_one), h, refl, refl)
