-- ===== src/Matter/Buffer.antt =====
-- `append` and `copy` of plugins/matter/src/lib.rs, and the reader `Cursor` of
-- plugins/matter/src/message.rs. Allocations of these buffers, 65535 bytes at most, are taken to
-- succeed.
use stulp.Prelude.{
  ℕ, ◌+◌, ◌-◌, ◌^◌, ◌≤◌, ◌<◌, ◌≡◌, refl, sym, ◌∙◌, some, List, [], ◌++◌, arith, length, take, drop,
  ltb, leb, if◌then◌else◌, length-drop, length-append, drop-drop, take-append, drop-append,
}
use stulp.Prelude.Results.{Result, ok, err, invalid, ok_or, ◌>>=◌}
use stulp.Bytes.{slice, from_le, to_le, from_le-to_le, length-to_le}

abbrev pub max : ℕ
max = 65535

unfoldable pub append : List ℕ → List ℕ → Result (List ℕ)
append out bytes =
    if ltb (max - length out) (length bytes)
    then err (invalid "Matter buffer exceeds 65535 bytes")
    else ok (out ++ bytes)

unfoldable pub copy : List ℕ → Result (List ℕ)
unfolding append
copy bytes = append [] bytes

pub append-eq-ok : (out bytes all : List ℕ) → append out bytes ≡ ok all → all ≡ out ++ bytes
unfolding append
append-eq-ok out bytes all h = ground arith

pub copy-eq-ok : (bytes : List ℕ) → length bytes ≤ max → copy bytes ≡ ok bytes
unfolding copy
copy-eq-ok bytes h = ground arith

pub copy-fits : (bytes out : List ℕ) → copy bytes ≡ ok out → (out ≡ bytes) × (length bytes ≤ max)
unfolding copy append
copy-fits bytes out h = (append-eq-ok [] bytes out h, ground (arith, h))

pub record Cursor : Type 0 where
  pub bytes : List ℕ
  pub at : ℕ

abbrev pub advance : Cursor → ℕ → Cursor
advance c n = record c { at = c.at + n }

-- `Cursor::le`, for a width of at most eight bytes.
unfoldable pub read_le : Cursor → ℕ → Result (ℕ × Cursor)
unfolding slice
read_le c n = do
  b ← ok_or (slice c.bytes c.at (c.at + n)) (invalid "short Matter header")
  if leb (length b) 8 then ok (from_le b, advance c n) else err (invalid "invalid integer width")

unfoldable pub read_extension : Cursor → Result (List ℕ × Cursor)
unfolding read_le slice copy
read_extension c = do
  (n, c') ← read_le c 2
  b ← ok_or (slice c'.bytes c'.at (c'.at + n)) (invalid "short Matter extension")
  out ← copy b
  ok (out, advance c' n)

-- What the cursor has still to read.
abbrev pub Ahead : Cursor → List ℕ → Type 0
Ahead c rest = (drop c.at c.bytes ≡ rest) × (c.at ≤ length c.bytes)

pub Ahead-advance :
    (c : Cursor) (xs rest : List ℕ) (n : ℕ)
    → Ahead c (xs ++ rest)
    → n ≡ length xs
    → Ahead (advance c n) rest
Ahead-advance c xs rest n (h, le) e =
    let size : length (drop c.at c.bytes) ≡ n + length rest =
      rw h (omega (arith, length-append xs rest)) in
    (
      sym (drop-drop n c.at c.bytes) ∙ rw h (drop-append xs rest n e),
      omega (arith, length-drop c.at c.bytes),
    )

pub slice-Ahead :
    (c : Cursor) (xs rest : List ℕ) (n : ℕ)
    → Ahead c (xs ++ rest)
    → n ≡ length xs
    → slice c.bytes c.at (c.at + n) ≡ some xs
unfolding slice
slice-Ahead c xs rest n (h, le) e =
    let size : length (drop c.at c.bytes) ≡ n + length rest =
      rw h (omega (arith, length-append xs rest)) in
    let fits : c.at + n ≤ length c.bytes = omega (arith, length-drop c.at c.bytes) in
    let wide : c.at + n - c.at ≡ n = omega arith in
    let first : take n (drop c.at c.bytes) ≡ xs = rw h (take-append xs rest n e) in
    ground (arith, first)

pub read_le-Ahead :
    (c : Cursor) (n v : ℕ) (rest : List ℕ)
    → n ≤ 8
    → v < 256 ^ n
    → Ahead c (to_le n v ++ rest)
    → read_le c n ≡ ok (v, advance c n)
read_le-Ahead c n v rest hn hv h =
    let cut = slice-Ahead c (to_le n v) rest n h (sym (length-to_le n v)) in
    unfold read_le in ground (arith, cut, length-to_le n v, from_le-to_le n v hv)

pub read_extension-Ahead :
    (c : Cursor) (xs rest : List ℕ)
    → length xs ≤ max
    → Ahead c (to_le 2 (length xs) ++ (xs ++ rest))
    → read_extension c ≡ ok (xs, advance (advance c 2) (length xs))
read_extension-Ahead c xs rest hx h =
    let size = read_le-Ahead c 2 (length xs) (xs ++ rest) (omega arith) (omega arith) h in
    let behind =
      Ahead-advance c (to_le 2 (length xs)) (xs ++ rest) 2 h (sym (length-to_le 2 (length xs))) in
    let cut = slice-Ahead (advance c 2) xs rest (length xs) behind refl in
    unfold read_extension in rw (size, cut, copy-eq-ok xs hx)
