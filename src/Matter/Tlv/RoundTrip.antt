-- ===== src/Matter/Tlv/RoundTrip.antt =====
-- The TLV reader behind the TLV writer (plugins/matter/src/tlv.rs).
use stulp.Prelude.{
  ℕ, zero, suc, ◌+◌, ◌-◌, ◌^◌, ◌<◌, ◌≤◌, ◌≡◌, refl, sym, ap, ◌∙◌, true, false, some, List, ◌++◌,
  arith, take, drop, length, ◌==◌, append_assoc, Bool-cases, length-append, length-drop,
  drop-append, inl, inr,
}
use stulp.Prelude.Results.{Result, ok}
use stulp.Bytes.{to_le}
use stulp.Matter.Buffer.{max}
use stulp.Matter.Tlv.{
  Tag, anonymous, context, common, implicit, full, Value, int, uint, boolean, float, string, bytes,
  null, structure, array, list, end,
}
use stulp.Matter.Tlv.Writer.{Writer, write_width, write_uint_width, write_float32}
use stulp.Matter.Tlv.Reader.{Reader, read_uint, read_float32, read_value, next, widen}
use stulp.Matter.Tlv.Layout.{
  tag_bytes, value_bytes, kind_of, depth_after, DepthFits, width-le, int_width-le, write,
  write-eq-ok, width-eq-ok, float32-eq-ok,
}
use stulp.Matter.Tlv.Scan.{Stands, moved, le-Stands, TagFits, tag-Stands}
use stulp.Matter.Tlv.Values.{ValueFits, Reads, take-to_le, pow-le, uint_form, value-Stands}

kind_of-lt : (v : Value) → kind_of v < 32
unfolding kind_of
kind_of-lt (int n) = omega (arith, int_width-le n)
kind_of-lt (uint n) = omega (arith, width-le n)
kind_of-lt (boolean true) = omega arith
kind_of-lt (boolean false) = omega arith
kind_of-lt (float n) = omega arith
kind_of-lt (string s) = omega (arith, width-le (length s))
kind_of-lt (bytes b) = omega (arith, width-le (length b))
kind_of-lt null = omega arith
kind_of-lt structure = omega arith
kind_of-lt array = omega arith
kind_of-lt list = omega arith
kind_of-lt end = omega arith

tag_bytes-long : (tag : Tag) (kind : ℕ) → 0 < length (tag_bytes tag kind)
unfolding tag_bytes
tag_bytes-long anonymous kind = omega arith
tag_bytes-long (context n) kind = omega arith
tag_bytes-long (common n) kind = omega arith
tag_bytes-long (implicit n) kind = omega arith
tag_bytes-long (full v p n) kind = omega arith

unequal : (a t n m k : ℕ) → (n ≡ a + t) × (t ≡ m + k) × (0 < m) → (a == n) ≡ false
unequal a t n m k (e, f, h) = ground arith

reader_eq :
    (r : Reader) {input : List ℕ} {at depth : ℕ}
    → r.input ≡ input
    → r.at ≡ at
    → r.depth ≡ depth
    → r ≡ record { input = input; at = at; depth = depth }
reader_eq r e f g = λ i. record { input = e i; at = f i; depth = g i }

place_lem :
    (r : Reader) (front rest : List ℕ)
    → r.input ≡ front ++ rest
    → Stands r rest
    → r.at ≡ length front
place_lem r front rest e (h, le1, small) =
    let total : length r.input ≡ length front + length rest =
      ap length e ∙ length-append front rest in
    let left : length r.input - r.at ≡ length rest = sym (length-drop r.at r.input) ∙ ap length h in
    omega arith

-- What is read for a value behind its form.
Answers : ℕ → Tag → Value → List ℕ → List ℕ → ℕ → ℕ → Type 0
Answers kind tag v body rest before after =
    (r : Reader)
    → r.depth ≡ before
    → Stands r (body ++ rest)
    → (r' : Reader) × (read_value r tag kind ≡ ok (v, r'))
      × Stands r' rest
      × (r'.depth ≡ after)
      × (r'.input ≡ r.input)

-- The next element, by its form and its bytes.
next-form :
    (w w' : Writer) (tag : Tag) (v : Value) (kind : ℕ) (body rest : List ℕ)
    → TagFits tag
    → kind < 32
    → length (w'.written ++ rest) ≤ max
    → w'.written ≡ w.written ++ (tag_bytes tag kind ++ body)
    → Answers kind tag v body rest w.depth w'.depth
    → next (record { input = w'.written ++ rest; at = length w.written; depth = w.depth })
      ≡ ok (
        some (record { tag = tag; value = v }),
        record { input = w'.written ++ rest; at = length w'.written; depth = w'.depth },
      )
unfolding Answers
next-form w w' tag v kind body rest ht low_kind small same answers =
    let r : Reader = record {
      input = w'.written ++ rest;
      at = length w.written;
      depth = w.depth;
    } in
    let text : w'.written ++ rest ≡ w.written ++ (tag_bytes tag kind ++ (body ++ rest)) =
      ap (λ (t : List ℕ). t ++ rest) same ∙ simp append_assoc in
    let size : length (w'.written ++ rest)
        ≡ length w.written + length (tag_bytes tag kind ++ (body ++ rest)) =
      ap length text ∙ length-append w.written (tag_bytes tag kind ++ (body ++ rest)) in
    let room : length w.written ≤ length (w'.written ++ rest) = omega arith in
    let ahead : Stands r (tag_bytes tag kind ++ (body ++ rest)) = (
      ap (drop (length w.written)) text
          ∙ drop-append w.written (tag_bytes tag kind ++ (body ++ rest)) (length w.written) refl,
      room,
      small,
    ) in
    let (c, r1, r2, a, b, low, h2, d2, i2) =
      tag-Stands r tag kind (body ++ rest) low_kind ht ahead in
    let (r3, e3, h3, d3, i3) = answers r2 d2 h2 in
    let more : (length w.written == length (w'.written ++ rest)) ≡ false =
      unequal _ _ _ _ _
        (size, length-append (tag_bytes tag kind) (body ++ rest), tag_bytes-long tag kind) in
    let last : r3
        ≡ record { input = w'.written ++ rest; at = length w'.written; depth = w'.depth } =
      reader_eq r3 (i3 ∙ i2) (place_lem r3 w'.written rest (i3 ∙ i2) h3) d3 in
    unfold next in rw (more, a, b, low, e3, last)

-- A call of the writer: the method of a value, `uint_width` at a width, or `float32`.
pub data Call : Type 0 where
  shortest : Value → Call
  at_width : ℕ → ℕ → Call
  single : ℕ → Call

unfoldable pub perform : Writer → Tag → Call → Result Writer
unfolding write write_uint_width write_float32
perform w tag (shortest v) = write w tag v
perform w tag (at_width n count) = write_uint_width w tag n count
perform w tag (single n) = write_float32 w tag n

-- The value that a call stands for; a float of 32 bits is read as one of 64.
unfoldable pub meaning : Call → Value
unfolding widen
meaning (shortest v) = v
meaning (at_width n count) = uint n
meaning (single n) = float (widen n)

-- The range of a Rust value.
unfoldable pub CallFits : Call → Type 0
unfolding ValueFits
CallFits (shortest v) = ValueFits v
CallFits (at_width n count) = n < 2 ^ 64
CallFits (single n) = n < 2 ^ 32

-- The widths that `uint_width` accepts, and what it writes.
uint_width-eq-ok :
    (w w' : Writer) (tag : Tag) (n count : ℕ)
    → write_uint_width w tag n count ≡ ok w'
    → (k : ℕ) × (k ≤ 3) × (count ≡ 2 ^ k) × (write_width w tag n (2 ^ k) k ≡ ok w')
unfolding write_uint_width
uint_width-eq-ok w w' tag n count h = elim (Bool-cases (count == 1)) [
  | inl t1 ↦ let e : count ≡ 1 = ground (arith, t1) in (0, omega arith, e, rw e at h)
  | inr f1 ↦ elim (Bool-cases (count == 2)) [
    | inl t2 ↦ let e : count ≡ 2 = ground (arith, t2) in (1, omega arith, e, rw e at h)
    | inr f2 ↦ elim (Bool-cases (count == 4)) [
      | inl t4 ↦ let e : count ≡ 4 = ground (arith, t4) in (2, omega arith, e, rw e at h)
      | inr f4 ↦ elim (Bool-cases (count == 8)) [
        | inl t8 ↦ let e : count ≡ 8 = ground (arith, t8) in (3, omega arith, e, rw e at h)
        | inr f8 ↦ absurd (cc (rw (f1, f2, f4, f8) at h))
      ]
    ]
  ]
]

-- What `write_width` asks of a number.
width_fits :
    (w w' : Writer) (tag : Tag) (n k : ℕ)
    → k ≤ 3
    → n < 2 ^ 64
    → write_width w tag n (2 ^ k) k ≡ ok w'
    → n < 256 ^ (2 ^ k)
unfolding write_width
width_fits w w' tag n zero hk h done = ground arith
width_fits w w' tag n (suc zero) hk h done = ground arith
width_fits w w' tag n (suc (suc zero)) hk h done = ground arith
width_fits w w' tag n (suc (suc (suc zero))) hk h done = omega arith
width_fits w w' tag n (suc (suc (suc (suc k)))) hk h done = absurd (omega arith)

-- A reader in step with a writer, by depth and by place, reads as its next element the tag and the
-- value that the writer is given by a call that succeeds, whatever stands behind, and is then in
-- step with the writer after the call. The calls are `uint`, `uint_width` at any width that it
-- accepts, `int`, `boolean`, `float32`, `float64`, `string`, `bytes`, `null`, `start` and `end`. The
-- tag and the value are in range, a container's end has no tag, and the input is one that
-- `Reader::new` accepts.
pub next-write :
    (w w' : Writer) (tag : Tag) (c : Call) (rest : List ℕ)
    → TagFits tag
    → CallFits c
    → (c ≡ shortest end → tag ≡ anonymous)
    → length (w'.written ++ rest) ≤ max
    → perform w tag c ≡ ok w'
    → next (record { input = w'.written ++ rest; at = length w.written; depth = w.depth })
      ≡ ok (
        some (record { tag = tag; value = meaning c }),
        record { input = w'.written ++ rest; at = length w'.written; depth = w'.depth },
      )
unfolding perform meaning CallFits Reads Answers read_value read_uint read_float32
next-write w w' tag (shortest v) rest ht hv closing small done =
    let (same, hd) = write-eq-ok w tag v (λ e. closing (ap shortest e)) done in
    next-form w w' tag v (kind_of v) (value_bytes v) rest ht (kind_of-lt v) small
      (ap (λ (t : Writer). t.written) same)
      (λ r d h.
        let fits : DepthFits v tag r.depth = coe 1 0 (i. DepthFits v tag (d i)) hd in
        let (r', e, h', d', k) = value-Stands r tag v rest hv fits h in
        (r', e, h', d' ∙ ap (depth_after v) d ∙ ap (λ (t : Writer). t.depth) (sym same), k))
next-write w w' tag (at_width n count) rest ht hv closing small done =
    let (k, hk, wide, h1) = uint_width-eq-ok w w' tag n count done in
    let same = width-eq-ok w tag n (2 ^ k) k h1 in
    let body = take (2 ^ k) (to_le 8 n) in
    next-form w w' tag (uint n) (4 + k) body rest ht (omega (arith, hk)) small
      (ap (λ (t : Writer). t.written) same)
      (λ r d (h, le1, room).
        let (a, h2) =
          le-Stands r (2 ^ k) n rest (pow-le k hk) (width_fits w w' tag n k hk hv h1)
            (h ∙ ap (λ (t : List ℕ). t ++ rest) (take-to_le k n hk), le1, room) in
        let read : read_uint r (2 ^ k) ≡ ok (uint n, moved r (2 ^ k)) = rw a in
        (
          moved r (2 ^ k),
          uint_form r tag k hk ∙ read,
          h2,
          d ∙ ap (λ (t : Writer). t.depth) (sym same),
          refl,
        ))
next-write w w' tag (single n) rest ht hv closing small done =
    let same = float32-eq-ok w tag n done in
    next-form w w' tag (float (widen n)) 10 (to_le 4 n) rest ht (omega arith) small
      (ap (λ (t : Writer). t.written) same)
      (λ r d h.
        let (a, h2) = le-Stands r 4 n rest (omega arith) (omega (arith, hv)) h in
        (moved r 4, rw a, h2, d ∙ ap (λ (t : Writer). t.depth) (sym same), refl))
