-- ===== src/Matter/Tlv/Layout.antt =====
-- The bytes that each call of the TLV writer adds (plugins/matter/src/tlv.rs).
use stulp.Prelude.{
  ℕ, zero, suc, ◌+◌, ◌-◌, ◌*◌, ◌^◌, ◌<◌, ◌≤◌, ◌≡◌, refl, sym, ap, ◌∙◌, true, false, not, ◌&&◌, List,
  [], ◌∷◌, ◌++◌, arith, take, length, ltb, leb, ◌==◌, if◌then◌else◌, bit_or, append_assoc,
  append-nil, ◌≢◌,
}
use stulp.Prelude.Results.{Result, ok, invalid, guard, ◌>>=◌, bind-eq-ok, then-eq-ok}
use stulp.Bytes.{to_le}
use stulp.Matter.Buffer.{append, append-eq-ok}
use stulp.Matter.Tlv.{
  ℤ, Tag, anonymous, context, common, implicit, full, Value, int, uint, boolean, float, string,
  bytes, null, structure, array, list, end, max_depth, to_bits,
}
use stulp.Matter.Tlv.Writer.{
  Writer, width, push, tag_number, control, write_width, write_uint_width, write_uint, int_width,
  write_int, write_boolean, write_float32, write_float64, write_data, write_string, write_bytes,
  write_null, open_container, start, finish_container,
}

-- What a tag takes, with the form of a value.
unfoldable pub tag_bytes : Tag → ℕ → List ℕ
unfolding tag_number
tag_bytes anonymous kind = kind ∷ []
tag_bytes (context n) kind = bit_or 0x20 kind ∷ n ∷ []
tag_bytes (common n) kind =
    bit_or (bit_or 0x40 (if ltb 65535 n then 0x20 else 0)) kind ∷ tag_number n
tag_bytes (implicit n) kind =
    bit_or (bit_or 0x80 (if ltb 65535 n then 0x20 else 0)) kind ∷ tag_number n
tag_bytes (full v p n) kind =
    bit_or (if ltb 65535 n then 0xe0 else 0xc0) kind ∷ (to_le 2 v ++ (to_le 2 p ++ tag_number n))

-- The form of a value.
unfoldable pub kind_of : Value → ℕ
unfolding width int_width
kind_of (int n) = int_width n
kind_of (uint n) = 4 + width n
kind_of (boolean n) = if n then 9 else 8
kind_of (float n) = 11
kind_of (string s) = 12 + width (length s)
kind_of (bytes b) = 16 + width (length b)
kind_of null = 20
kind_of structure = 21
kind_of array = 22
kind_of list = 23
kind_of end = 24

-- What a value takes behind its tag.
unfoldable pub value_bytes : Value → List ℕ
unfolding width int_width
value_bytes (int n) = take (2 ^ int_width n) (to_le 8 (to_bits n))
value_bytes (uint n) = take (2 ^ width n) (to_le 8 n)
value_bytes (boolean n) = []
value_bytes (float n) = to_le 8 n
value_bytes (string s) = take (2 ^ width (length s)) (to_le 8 (length s)) ++ s
value_bytes (bytes b) = take (2 ^ width (length b)) (to_le 8 (length b)) ++ b
value_bytes null = []
value_bytes structure = []
value_bytes array = []
value_bytes list = []
value_bytes end = []

-- The depth behind a call.
unfoldable pub depth_after : Value → ℕ → ℕ
depth_after structure d = d + 1
depth_after array d = d + 1
depth_after list d = d + 1
depth_after end d = d - 1
depth_after _ d = d

-- The method of the writer that a value is given to; `end` closes the container that is open.
unfoldable pub write : Writer → Tag → Value → Result Writer
unfolding write_int write_uint write_boolean write_float64 write_string write_bytes write_null start
    finish_container
write w tag (int n) = write_int w tag n
write w tag (uint n) = write_uint w tag n
write w tag (boolean n) = write_boolean w tag n
write w tag (float n) = write_float64 w tag n
write w tag (string s) = write_string w tag s
write w tag (bytes b) = write_bytes w tag b
write w tag null = write_null w tag
write w tag structure = start w tag structure
write w tag array = start w tag array
write w tag list = start w tag list
write w tag end = finish_container w

-- The writer with more bytes.
abbrev pub added : Writer → List ℕ → Writer
added w more = record w { written = w.written ++ more }

push-eq-ok : (w : Writer) (more : List ℕ) {w' : Writer} → push w more ≡ ok w' → w' ≡ added w more
unfolding push
push-eq-ok w more {w'} h =
    let (out, e, h1) =
      bind-eq-ok (append w.written more) (λ out. ok (record w { written = out })) h in
    let same = append-eq-ok w.written more out e in
    let last : record w { written = out } ≡ w' = cc in
    sym last ∙ ap (λ (t : List ℕ). record w { written = t }) same

added_assoc : (w : Writer) (a b : List ℕ) → added (added w a) b ≡ added w (a ++ b)
added_assoc w a b = ap (λ (t : List ℕ). record w { written = t }) (append_assoc w.written a b)

pub control-eq-ok :
    (w : Writer) (tag : Tag) (kind : ℕ) {w' : Writer}
    → control w tag kind ≡ ok w'
    → w' ≡ added w (tag_bytes tag kind)
unfolding control tag_bytes
control-eq-ok w anonymous kind h = push-eq-ok w (kind ∷ []) h
control-eq-ok w (context n) kind h = push-eq-ok w (bit_or 0x20 kind ∷ n ∷ []) h
control-eq-ok w (common n) kind h =
    let b = bit_or (bit_or 0x40 (if ltb 65535 n then 0x20 else 0)) kind ∷ [] in
    let (w1, e1, h1) = bind-eq-ok (push w b) (λ w1. push w1 (tag_number n)) h in
    let e2 = push-eq-ok w1 (tag_number n) h1 in
    e2 ∙ rw (push-eq-ok w b e1) (added_assoc w b (tag_number n))
control-eq-ok w (implicit n) kind h =
    let b = bit_or (bit_or 0x80 (if ltb 65535 n then 0x20 else 0)) kind ∷ [] in
    let (w1, e1, h1) = bind-eq-ok (push w b) (λ w1. push w1 (tag_number n)) h in
    let e2 = push-eq-ok w1 (tag_number n) h1 in
    e2 ∙ rw (push-eq-ok w b e1) (added_assoc w b (tag_number n))
control-eq-ok w (full v p n) kind h =
    let b = bit_or (if ltb 65535 n then 0xe0 else 0xc0) kind ∷ [] in
    let (w1, e1, h1) =
      bind-eq-ok (push w b)
        (λ w1. do w2 ← push w1 (to_le 2 v); w3 ← push w2 (to_le 2 p); push w3 (tag_number n)) h in
    let (w2, e2, h2) = bind-eq-ok (push w1 (to_le 2 v)) _ h1 in
    let (w3, e3, h3) = bind-eq-ok (push w2 (to_le 2 p)) _ h2 in
    push-eq-ok w3 (tag_number n) h3
    ∙ ap (λ (t : Writer). added t (tag_number n)) (push-eq-ok w2 (to_le 2 p) e3)
    ∙ ap (λ (t : Writer). added (added t (to_le 2 p)) (tag_number n)) (push-eq-ok w1 (to_le 2 v) e2)
    ∙ ap (λ (t : Writer). added (added (added t (to_le 2 v)) (to_le 2 p)) (tag_number n))
        (push-eq-ok w b e1)
    ∙ ap (λ (t : List ℕ). record w { written = t }) (simp append_assoc)

-- A tag with a value behind it.
two-eq-ok :
    (w : Writer) (tag : Tag) (kind : ℕ) (more : List ℕ) {w' : Writer}
    → (do w1 ← control w tag kind; push w1 more) ≡ ok w'
    → w' ≡ added w (tag_bytes tag kind ++ more)
two-eq-ok w tag kind more h =
    let (w1, e1, h1) = bind-eq-ok (control w tag kind) (λ w1. push w1 more) h in
    push-eq-ok w1 more h1
    ∙ ap (λ (t : Writer). added t more) (control-eq-ok w tag kind e1)
    ∙ added_assoc w (tag_bytes tag kind) more

data-eq-ok :
    (w : Writer) (tag : Tag) (kind : ℕ) (bs : List ℕ) {w' : Writer}
    → write_data w tag kind bs ≡ ok w'
    → w'
      ≡ added w (
          tag_bytes tag (kind + width (length bs))
          ++ (take (2 ^ width (length bs)) (to_le 8 (length bs)) ++ bs))
unfolding write_data
data-eq-ok w tag kind bs h =
    let size = take (2 ^ width (length bs)) (to_le 8 (length bs)) in
    let code = kind + width (length bs) in
    let (w1, e1, h1) = bind-eq-ok (control w tag code) (λ w1. do w2 ← push w1 size; push w2 bs) h in
    let (w2, e2, h2) = bind-eq-ok (push w1 size) (λ w2. push w2 bs) h1 in
    push-eq-ok w2 bs h2
    ∙ ap (λ (t : Writer). added t bs) (push-eq-ok w1 size e2)
    ∙ ap (λ (t : Writer). added (added t size) bs) (control-eq-ok w tag code e1)
    ∙ ap (λ (t : Writer). added t bs) (added_assoc w (tag_bytes tag code) size)
    ∙ added_assoc w (tag_bytes tag code ++ size) bs
    ∙ ap (added w) (append_assoc (tag_bytes tag code) size bs)

pub width-eq-ok :
    (w : Writer) (tag : Tag) (n count code : ℕ) {w' : Writer}
    → write_width w tag n count code ≡ ok w'
    → w' ≡ added w (tag_bytes tag (4 + code) ++ take count (to_le 8 n))
unfolding write_width
width-eq-ok w tag n count code h =
    let (fits, h1) =
      then-eq-ok
        (guard (not (ltb count 8 && leb (2 ^ (count * 8)) n))
          (invalid "TLV integer does not fit width"))
        (do w1 ← control w tag (4 + code); push w1 (take count (to_le 8 n))) h in
    two-eq-ok w tag (4 + code) (take count (to_le 8 n)) h1

pub float32-eq-ok :
    (w : Writer) (tag : Tag) (n : ℕ) {w' : Writer}
    → write_float32 w tag n ≡ ok w'
    → w' ≡ added w (tag_bytes tag 10 ++ to_le 4 n)
unfolding write_float32
float32-eq-ok w tag n h = two-eq-ok w tag 10 (to_le 4 n) h

pub width-le : (n : ℕ) → width n ≤ 3
unfolding width
width-le n = ground arith

pub int_width-le : (n : ℤ) → int_width n ≤ 3
unfolding int_width
int_width-le n = ground arith

code_lem :
    (w : Writer) (tag : Tag) (n k : ℕ)
    → k ≤ 3
    → write_uint_width w tag n (2 ^ k) ≡ write_width w tag n (2 ^ k) k
unfolding write_uint_width
code_lem w tag n zero h = refl
code_lem w tag n (suc zero) h = refl
code_lem w tag n (suc (suc zero)) h = refl
code_lem w tag n (suc (suc (suc zero))) h = refl
code_lem w tag n (suc (suc (suc (suc k)))) h = absurd (omega arith)

container-eq-ok :
    (w : Writer) (tag : Tag) (code : ℕ) {w' : Writer}
    → open_container w tag code ≡ ok w'
    → (w' ≡ record w { written = w.written ++ (tag_bytes tag code ++ []); depth = w.depth + 1 })
      × (w.depth < max_depth)
unfolding open_container
container-eq-ok w tag code {w'} h =
    let (fits, h1) =
      then-eq-ok (guard (ltb w.depth max_depth) (invalid "TLV nesting exceeds 32"))
        (do w1 ← control w tag code; ok (record w1 { depth = w1.depth + 1 })) h in
    let (w1, e1, h2) =
      bind-eq-ok (control w tag code) (λ w1. ok (record w1 { depth = w1.depth + 1 })) h1 in
    let same = control-eq-ok w tag code e1 in
    let last : record w1 { depth = w1.depth + 1 } ≡ w' = cc in
    let small : w.depth < max_depth = ground arith in
    (
      sym last
          ∙ ap (λ (t : Writer). record t { depth = t.depth + 1 }) same
          ∙ ap (λ (t : List ℕ). record { written = w.written ++ t; depth = w.depth + 1 })
              (sym (append-nil (tag_bytes tag code))),
      small,
    )

plain-eq-ok :
    (w : Writer) (tag : Tag) (kind : ℕ) {w' : Writer}
    → control w tag kind ≡ ok w'
    → w' ≡ added w (tag_bytes tag kind ++ [])
plain-eq-ok w tag kind h =
    control-eq-ok w tag kind h ∙ ap (added w) (sym (append-nil (tag_bytes tag kind)))

-- What an opened or closed container asks of the depth, and an end of its tag.
unfoldable pub DepthFits : Value → Tag → ℕ → Type 0
DepthFits structure tag d = d < max_depth
DepthFits array tag d = d < max_depth
DepthFits list tag d = d < max_depth
DepthFits end tag d = (d ≢ 0) × (tag ≡ anonymous)
DepthFits _ tag d = Unit

pub write-eq-ok :
    (w : Writer) (tag : Tag) (v : Value) {w' : Writer}
    → (v ≡ end → tag ≡ anonymous)
    → write w tag v ≡ ok w'
    → (w' ≡ record {
      written = w.written ++ (tag_bytes tag (kind_of v) ++ value_bytes v);
      depth = depth_after v w.depth;
    })
      × DepthFits v tag w.depth
unfolding write kind_of value_bytes depth_after DepthFits write_int write_uint write_boolean
    write_float64 write_string write_bytes write_null start
write-eq-ok w tag (int n) closing h =
    (two-eq-ok w tag (int_width n) (take (2 ^ int_width n) (to_le 8 (to_bits n))) h, tt)
write-eq-ok w tag (uint n) closing h = (
  width-eq-ok w tag n (2 ^ width n) (width n) (sym (code_lem w tag n (width n) (width-le n)) ∙ h),
  tt,
)
write-eq-ok w tag (boolean true) closing h = (plain-eq-ok w tag 9 h, tt)
write-eq-ok w tag (boolean false) closing h = (plain-eq-ok w tag 8 h, tt)
write-eq-ok w tag (float n) closing h = (two-eq-ok w tag 11 (to_le 8 n) h, tt)
write-eq-ok w tag (string s) closing h = (data-eq-ok w tag 12 s h, tt)
write-eq-ok w tag (bytes b) closing h = (data-eq-ok w tag 16 b h, tt)
write-eq-ok w tag null closing h = (plain-eq-ok w tag 20 h, tt)
write-eq-ok w tag structure closing h = container-eq-ok w tag 21 h
write-eq-ok w tag array closing h = container-eq-ok w tag 22 h
write-eq-ok w tag list closing h = container-eq-ok w tag 23 h
write-eq-ok w tag end {w'} closing h =
    let anon = closing refl in
    let (opened, h1) =
      then-eq-ok (guard (not (w.depth == 0)) (invalid "TLV end without container"))
        (do w1 ← push w (24 ∷ []); ok (record w1 { depth = w1.depth - 1 }))
        (unfold finish_container in h) in
    let (w1, e1, h2) =
      bind-eq-ok (push w (24 ∷ [])) (λ w1. ok (record w1 { depth = w1.depth - 1 })) h1 in
    let same = push-eq-ok w (24 ∷ []) e1 in
    let last : record w1 { depth = w1.depth - 1 } ≡ w' = cc in
    let some_open : w.depth ≢ 0 = ground arith in
    let shape : tag_bytes anonymous 24 ++ [] ≡ 24 ∷ [] = unfold tag_bytes in refl in
    (
      sym last
          ∙ ap (λ (t : Writer). record t { depth = t.depth - 1 }) same
          ∙ ap (λ (t : List ℕ). record { written = w.written ++ t; depth = w.depth - 1 })
              (rw anon (sym shape)),
      (some_open, anon),
    )
