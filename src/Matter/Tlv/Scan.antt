-- ===== src/Matter/Tlv/Scan.antt =====
-- How the TLV reader takes the bytes that stand ahead of it (plugins/matter/src/tlv.rs).
use stulp.Prelude.{
  ℕ, zero, suc, ◌+◌, ◌*◌, ◌/◌, ◌^◌, ◌<◌, ◌≤◌, ◌≡◌, refl, sym, ap, ◌∙◌, Bool, true, false, ◌&&◌,
  List, [], ◌∷◌, ◌++◌, arith, take, drop, length, ltb, leb, ◌==◌, if◌then◌else◌, bit_or, bit_and,
  inl, inr, append_assoc, Bool-cases,
}
use stulp.Prelude.Results.{ok}
use stulp.Bytes.{to_le, from_le-to_le, length-to_le}
use stulp.Matter.Buffer.{max, Cursor, Ahead-advance, slice-Ahead}
use stulp.Matter.Tlv.{Tag, anonymous, context, common, implicit, full}
use stulp.Matter.Tlv.Writer.{tag_number}
use stulp.Matter.Tlv.Reader.{Reader, take_bytes, le, read_tag}
use stulp.Matter.Tlv.Layout.{tag_bytes}

-- The reader stands before these bytes, of an input that `Reader::new` accepts.
abbrev pub Stands : Reader → List ℕ → Type 0
Stands r rest = (drop r.at r.input ≡ rest) × (r.at ≤ length r.input) × (length r.input ≤ max)

abbrev pub moved : Reader → ℕ → Reader
moved r n = record r { at = r.at + n }

abbrev cursor : Reader → Cursor
cursor r = record { bytes = r.input; at = r.at }

pub take_bytes-Stands :
    (r : Reader) (xs rest : List ℕ) (n : ℕ)
    → n ≡ length xs
    → Stands r (xs ++ rest)
    → (take_bytes r n ≡ ok (xs, moved r n)) × Stands (moved r n) rest
take_bytes-Stands r xs rest n e (h, le1, small) =
    let cut = slice-Ahead (cursor r) xs rest n (h, le1) e in
    let (h', le') = Ahead-advance (cursor r) xs rest n (h, le1) e in
    let fits : ltb (r.at + n) (2 ^ 64) ≡ true = ground arith in
    (unfold take_bytes in rw (fits, cut), (h', le', small))

pub le-Stands :
    (r : Reader) (n v : ℕ) (rest : List ℕ)
    → n ≤ 8
    → v < 256 ^ n
    → Stands r (to_le n v ++ rest)
    → (le r n ≡ ok (v, moved r n)) × Stands (moved r n) rest
le-Stands r n v rest hn hv h =
    let (t, h') = take_bytes-Stands r (to_le n v) rest n (sym (length-to_le n v)) h in
    let wide : leb n 8 ≡ true = ground arith in
    (unfold le in rw (wide, t, from_le-to_le n v hv), h')

pub byte-Stands :
    (r : Reader) (b : ℕ) (rest : List ℕ)
    → b < 256
    → Stands r (b ∷ rest)
    → (le r 1 ≡ ok (b, moved r 1)) × Stands (moved r 1) rest
byte-Stands r b rest hb (h, le1, small) =
    let e : to_le 1 b ≡ b ∷ [] = unfold to_le in ground arith in
    le-Stands r 1 b rest (omega arith) (omega arith)
      (h ∙ ap (λ (t : List ℕ). t ++ rest) (sym e), le1, small)

-- The range of a Rust tag.
unfoldable pub TagFits : Tag → Type 0
TagFits anonymous = Unit
TagFits (context n) = n < 2 ^ 8
TagFits (common n) = n < 2 ^ 32
TagFits (implicit n) = n < 2 ^ 32
TagFits (full v p n) = (v < 2 ^ 16) × (p < 2 ^ 16) × (n < 2 ^ 32)

-- Every pair of a form of tag and a form of value is one byte, from which both are read.
abbrev all_below : ℕ → (ℕ → Bool) → Bool
all_below zero p = true
all_below (suc n) p = p n && all_below n p

all_below_lem : (n : ℕ) (p : ℕ → Bool) (k : ℕ) → all_below n p ≡ true → k < n → p k ≡ true
all_below_lem zero p k h lt = absurd (omega arith)
all_below_lem (suc n) p k h lt = elim (Bool-cases (k == n)) [
  | inl same ↦ let e : k ≡ n = ground arith in let all : p n ≡ true = ground arith in rw e all
  | inr other ↦ all_below_lem n p k (ground arith) (ground arith)
]

control_test : ℕ → ℕ → Bool
control_test f k = let b = bit_or (32 * f) k in ltb b 256 && (b / 32 == f && bit_and b 31 == k)

control_all : all_below 8 (λ f. all_below 32 (λ k. control_test f k)) ≡ true
unfolding control_test
control_all = refl

zero_form : (k : ℕ) → k < 32 → k ≡ bit_or (32 * 0) k
zero_form k h =
    let same : (bit_or (32 * 0) k == k) ≡ true =
      all_below_lem 32 (λ k. bit_or (32 * 0) k == k) k refl h in
    ground (arith, same)

control_parts :
    (b f k : ℕ)
    → (ltb b 256 && (b / 32 == f && bit_and b 31 == k)) ≡ true
    → (b < 256) × (b / 32 ≡ f) × (bit_and b 31 ≡ k)
control_parts b f k h = ground arith

control_lem :
    (f k b : ℕ)
    → f < 8
    → k < 32
    → b ≡ bit_or (32 * f) k
    → (b < 256) × (b / 32 ≡ f) × (bit_and b 31 ≡ k)
unfolding control_test
control_lem f k b hf hk e =
    let row = all_below_lem 8 (λ f. all_below 32 (λ k. control_test f k)) f control_all hf in
    let cell : control_test f k ≡ true = all_below_lem 32 (λ k. control_test f k) k row hk in
    rw e (control_parts (bit_or (32 * f) k) f k cell)

head-Stands :
    (r : Reader) (f kind b : ℕ) (rest : List ℕ)
    → f < 8
    → kind < 32
    → b ≡ bit_or (32 * f) kind
    → Stands r (b ∷ rest)
    → (le r 1 ≡ ok (b, moved r 1)) × (b / 32 ≡ f) × (bit_and b 31 ≡ kind) × Stands (moved r 1) rest
head-Stands r f kind b rest hf hk e h =
    let (small, form, low) = control_lem f kind b hf hk e in
    let (read, h') = byte-Stands r b rest small h in (read, form, low, h')

-- The number of a tag is read at the width that its size asks for.
long-Stands :
    (r : Reader) (n : ℕ) (rest : List ℕ)
    → n < 2 ^ 32
    → ltb 65535 n ≡ true
    → Stands r (tag_number n ++ rest)
    → (le r 4 ≡ ok (n, moved r 4)) × Stands (moved r 4) rest
unfolding tag_number
long-Stands r n rest hn long (h, le1, small) =
    let shape : take (if ltb 65535 n then 4 else 2) (to_le 4 n) ≡ to_le 4 n =
      rw long (unfold to_le in refl) in
    le-Stands r 4 n rest (omega arith) (omega arith)
      (h ∙ ap (λ (t : List ℕ). t ++ rest) shape, le1, small)

short-Stands :
    (r : Reader) (n : ℕ) (rest : List ℕ)
    → ltb 65535 n ≡ false
    → Stands r (tag_number n ++ rest)
    → (le r 2 ≡ ok (n, moved r 2)) × Stands (moved r 2) rest
unfolding tag_number
short-Stands r n rest short (h, le1, small) =
    let shape : take (if ltb 65535 n then 4 else 2) (to_le 4 n) ≡ to_le 2 n =
      rw short (unfold to_le in refl) in
    le-Stands r 2 n rest (omega arith) (ground arith)
      (h ∙ ap (λ (t : List ℕ). t ++ rest) shape, le1, small)

-- The control byte and the tag of an element are read back from what the writer adds for them.
pub tag-Stands :
    (r : Reader) (tag : Tag) (kind : ℕ) (rest : List ℕ)
    → kind < 32
    → TagFits tag
    → Stands r (tag_bytes tag kind ++ rest)
    → (c : ℕ) × (r1 r2 : Reader) × (le r 1 ≡ ok (c, r1))
      × (read_tag r1 (c / 32) ≡ ok (tag, r2))
      × (bit_and c 31 ≡ kind)
      × Stands r2 rest
      × (r2.depth ≡ r.depth)
      × (r2.input ≡ r.input)
unfolding tag_bytes TagFits read_tag
tag-Stands r anonymous kind rest hk ht h =
    let (read, form, low, h1) =
      head-Stands r 0 kind kind rest (omega arith) hk (zero_form kind hk) h in
    (kind, moved r 1, moved r 1, read, rw form, low, h1, refl, refl)
tag-Stands r (context n) kind rest hk ht h =
    let b = bit_or 0x20 kind in
    let (read, form, low, h1) = head-Stands r 1 kind b (n ∷ rest) (omega arith) hk refl h in
    let (r1, h2) = byte-Stands (moved r 1) n rest ht h1 in
    (b, moved r 1, moved (moved r 1) 1, read, rw (form, r1), low, h2, refl, refl)
tag-Stands r (common n) kind rest hk ht h = elim (Bool-cases (ltb 65535 n)) [
  | inl long ↦
      let b = bit_or (bit_or 0x40 (if ltb 65535 n then 0x20 else 0)) kind in
      let (read, form, low, h1) =
        head-Stands r 3 kind b (tag_number n ++ rest) (omega arith) hk (rw long) h in
      let (r1, h2) = long-Stands (moved r 1) n rest ht long h1 in
      (b, moved r 1, moved (moved r 1) 4, read, rw (form, r1), low, h2, refl, refl)
  | inr short ↦
      let b = bit_or (bit_or 0x40 (if ltb 65535 n then 0x20 else 0)) kind in
      let (read, form, low, h1) =
        head-Stands r 2 kind b (tag_number n ++ rest) (omega arith) hk (rw short) h in
      let (r1, h2) = short-Stands (moved r 1) n rest short h1 in
      (b, moved r 1, moved (moved r 1) 2, read, rw (form, r1), low, h2, refl, refl)
]
tag-Stands r (implicit n) kind rest hk ht h = elim (Bool-cases (ltb 65535 n)) [
  | inl long ↦
      let b = bit_or (bit_or 0x80 (if ltb 65535 n then 0x20 else 0)) kind in
      let (read, form, low, h1) =
        head-Stands r 5 kind b (tag_number n ++ rest) (omega arith) hk (rw long) h in
      let (r1, h2) = long-Stands (moved r 1) n rest ht long h1 in
      (b, moved r 1, moved (moved r 1) 4, read, rw (form, r1), low, h2, refl, refl)
  | inr short ↦
      let b = bit_or (bit_or 0x80 (if ltb 65535 n then 0x20 else 0)) kind in
      let (read, form, low, h1) =
        head-Stands r 4 kind b (tag_number n ++ rest) (omega arith) hk (rw short) h in
      let (r1, h2) = short-Stands (moved r 1) n rest short h1 in
      (b, moved r 1, moved (moved r 1) 2, read, rw (form, r1), low, h2, refl, refl)
]
tag-Stands r (full v p n) kind rest hk (hv, hp, hn) (h, le1, small) =
    let x1 = tag_number n ++ rest in
    let b = bit_or (if ltb 65535 n then 0xe0 else 0xc0) kind in
    let flat : (b ∷ (to_le 2 v ++ (to_le 2 p ++ tag_number n))) ++ rest
        ≡ b ∷ (to_le 2 v ++ (to_le 2 p ++ x1)) =
      simp append_assoc in
    elim (Bool-cases (ltb 65535 n)) [
      | inl long ↦
          let (read, form, low, h1) =
            head-Stands r 7 kind b (to_le 2 v ++ (to_le 2 p ++ x1)) (omega arith) hk (rw long)
              (h ∙ flat, le1, small) in
          let (r1, h2) = le-Stands (moved r 1) 2 v (to_le 2 p ++ x1) (omega arith) hv h1 in
          let (r2, h3) = le-Stands (moved (moved r 1) 2) 2 p x1 (omega arith) hp h2 in
          let (r3, h4) = long-Stands (moved (moved (moved r 1) 2) 2) n rest hn long h3 in
          (
            b,
            moved r 1,
            moved (moved (moved (moved r 1) 2) 2) 4,
            read,
            rw (form, r1, r2, r3),
            low,
            h4,
            refl,
            refl,
          )
      | inr short ↦
          let (read, form, low, h1) =
            head-Stands r 6 kind b (to_le 2 v ++ (to_le 2 p ++ x1)) (omega arith) hk (rw short)
              (h ∙ flat, le1, small) in
          let (r1, h2) = le-Stands (moved r 1) 2 v (to_le 2 p ++ x1) (omega arith) hv h1 in
          let (r2, h3) = le-Stands (moved (moved r 1) 2) 2 p x1 (omega arith) hp h2 in
          let (r3, h4) = short-Stands (moved (moved (moved r 1) 2) 2) n rest short h3 in
          (
            b,
            moved r 1,
            moved (moved (moved (moved r 1) 2) 2) 2,
            read,
            rw (form, r1, r2, r3),
            low,
            h4,
            refl,
            refl,
          )
    ]
