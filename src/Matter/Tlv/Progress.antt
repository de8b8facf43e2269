-- ===== src/Matter/Tlv/Progress.antt =====
-- The place of the TLV reader of plugins/matter/src/tlv.rs.
use stulp.Prelude.{
  ℕ, zero, suc, ◌+◌, ◌-◌, ◌*◌, ◌/◌, ◌^◌, ◌≤◌, ◌≡◌, refl, sym, ◌∙◌, true, false, not, ◌&&◌, ◌||◌,
  some, List, arith, length, ltb, leb, ◌==◌, if◌then◌else◌, inl, inr, Bool-cases, bit_and,
}
use stulp.Prelude.Results.{Result, ok, err, invalid, ◌>>=◌, Result-cases}
use stulp.Bytes.{from_le, slice}
use stulp.Matter.Tlv.{
  Tag, anonymous, context, common, implicit, full, Value, int, uint, boolean, float, string, bytes,
  null, structure, array, list, Element, max_depth, from_bits, is_utf8,
}
use stulp.Matter.Tlv.Reader.{
  Reader, take_bytes, le, read_tag, read_int, read_uint, read_float32, read_float64, read_data,
  enter, leave, read_value, next, widen, is_anonymous,
}

-- The same input, and no step back.
pub record Keeps (r r' : Reader) : Type 0 where
  pub same : r'.input ≡ r.input
  pub onward : r.at ≤ r'.at

stays : (r : Reader) → Keeps r r
stays r = record { same = refl; onward = omega arith }

chained : {r r' r'' : Reader} → Keeps r r' → Keeps r' r'' → Keeps r r''
chained k l = record { same = l.same ∙ k.same; onward = omega (arith, k.onward, l.onward) }

-- What `take_bytes` leaves: it went forward by as many bytes as there are.
take_bytes-eq-ok :
    (r : Reader) (n : ℕ) {b : List ℕ} {r' : Reader}
    → take_bytes r n ≡ ok (b, r')
    → Keeps r r' × (r'.at ≡ r.at + n) × (r.at + n ≤ length r.input)
unfolding take_bytes slice
take_bytes-eq-ok r n {b} {r'} h = elim (Bool-cases (ltb (r.at + n) (2 ^ 64))) [
  | inr over ↦ absurd (cc (rw (over, take_bytes) at h))
  | inl fits ↦ elim (Bool-cases (leb r.at (r.at + n) && leb (r.at + n) (length r.input))) [
    | inr short ↦ absurd (cc (rw (fits, take_bytes, short) at h))
    | inl there ↦
        let moved : record r { at = r.at + n } ≡ r' = cc (rw (fits, take_bytes, there) at h) in
        rw (sym moved) (record { same = refl; onward = omega arith }, refl, ground (arith, there))
  ]
]

module _ {A : Type 0} where
  le_then :
      (r : Reader) (n : ℕ) (rest : ℕ → Reader → Result (A × Reader)) {a : A} {r' : Reader}
      → ((v : ℕ) (r1 : Reader) → rest v r1 ≡ ok (a, r') → Keeps r1 r')
      → (le r n >>= λ (v, r1). rest v r1) ≡ ok (a, r')
      → Keeps r r'
  unfolding le
  le_then r n rest keeps h = elim (Bool-cases (leb n 8)) [
    | inr wide ↦ absurd (cc (rw (wide, le) at h))
    | inl narrow ↦ elim (Result-cases (take_bytes r n)) [
      | inr (x, bad) ↦ absurd (cc (rw (narrow, le, bad) at h))
      | inl ((bs, r1), good) ↦
          chained (take_bytes-eq-ok r n good).0 (keeps (from_le bs) r1 (rw (narrow, le, good) at h))
    ]
  ]

  -- What is answered without another byte.
  answered :
      (a : A) (r : Reader) {b : A} {r' : Reader}
      → ◌≡◌ {A = Result (A × Reader)} (ok (a, r)) (ok (b, r'))
      → Keeps r r'
  answered a r {b} {r'} h = let here : r ≡ r' = cc h in rw here (stays r')

-- Vendor, profile and number.
abbrev last_part : ℕ → ℕ → Reader → ℕ → Result (Tag × Reader)
last_part v p r2 width = do (n, r3) ← le r2 width; ok (full v p n, r3)

abbrev later_parts : ℕ → Reader → ℕ → Result (Tag × Reader)
later_parts v r1 width = do (p, r2) ← le r1 2; last_part v p r2 width

abbrev parts : Reader → ℕ → Result (Tag × Reader)
parts r width = do (v, r1) ← le r 2; later_parts v r1 width

parts-Keeps :
    (r : Reader) (width : ℕ) {t : Tag} {r' : Reader} → parts r width ≡ ok (t, r') → Keeps r r'
parts-Keeps r width h =
    le_then r 2 (λ v r1. later_parts v r1 width)
      (λ v r1.
        le_then r1 2 (λ p r2. last_part v p r2 width)
          (λ p r2.
            le_then r2 width (λ n r3. ok (full v p n, r3)) (λ n r3. answered (full v p n) r3)))
      h

read_tag-Keeps :
    (r : Reader) (form : ℕ) {t : Tag} {r' : Reader} → read_tag r form ≡ ok (t, r') → Keeps r r'
unfolding read_tag
read_tag-Keeps r zero h = answered anonymous r h
read_tag-Keeps r (suc zero) h =
    le_then r 1 (λ n r1. ok (context n, r1)) (λ n r1. answered (context n) r1) h
read_tag-Keeps r (suc (suc zero)) h =
    le_then r 2 (λ n r1. ok (common n, r1)) (λ n r1. answered (common n) r1) h
read_tag-Keeps r (suc (suc (suc zero))) h =
    le_then r 4 (λ n r1. ok (common n, r1)) (λ n r1. answered (common n) r1) h
read_tag-Keeps r (suc (suc (suc (suc zero)))) h =
    le_then r 2 (λ n r1. ok (implicit n, r1)) (λ n r1. answered (implicit n) r1) h
read_tag-Keeps r (suc (suc (suc (suc (suc zero))))) h =
    le_then r 4 (λ n r1. ok (implicit n, r1)) (λ n r1. answered (implicit n) r1) h
read_tag-Keeps r (suc (suc (suc (suc (suc (suc zero)))))) h = parts-Keeps r 2 h
read_tag-Keeps r (suc (suc (suc (suc (suc (suc (suc k))))))) h = parts-Keeps r 4 h

read_int-Keeps :
    (r : Reader) (count : ℕ) {v : Value} {r' : Reader} → read_int r count ≡ ok (v, r') → Keeps r r'
unfolding read_int
read_int-Keeps r count h =
    le_then r count (λ n r1. ok (int (from_bits (8 * count) n), r1))
      (λ n r1. answered (int (from_bits (8 * count) n)) r1) h

read_uint-Keeps :
    (r : Reader) (count : ℕ) {v : Value} {r' : Reader} → read_uint r count ≡ ok (v, r') → Keeps r r'
unfolding read_uint
read_uint-Keeps r count h =
    le_then r count (λ n r1. ok (uint n, r1)) (λ n r1. answered (uint n) r1) h

read_float32-Keeps :
    (r : Reader) {v : Value} {r' : Reader} → read_float32 r ≡ ok (v, r') → Keeps r r'
unfolding read_float32
read_float32-Keeps r h =
    le_then r 4 (λ n r1. ok (float (widen n), r1)) (λ n r1. answered (float (widen n)) r1) h

read_float64-Keeps :
    (r : Reader) {v : Value} {r' : Reader} → read_float64 r ≡ ok (v, r') → Keeps r r'
unfolding read_float64
read_float64-Keeps r h = le_then r 8 (λ n r1. ok (float n, r1)) (λ n r1. answered (float n) r1) h

-- The bytes of a string, as text or as they are.
abbrev text_or_bytes : ℕ → List ℕ → Reader → Result (Value × Reader)
text_or_bytes kind bs r2 =
    if ltb kind 16
    then if is_utf8 bs then ok (string bs, r2) else err (invalid "TLV string is not UTF-8")
    else ok (bytes bs, r2)

text_or_bytes-Keeps :
    (kind : ℕ) (bs : List ℕ) (r2 : Reader) {v : Value} {r' : Reader}
    → text_or_bytes kind bs r2 ≡ ok (v, r')
    → Keeps r2 r'
text_or_bytes-Keeps kind bs r2 h = elim (Bool-cases (ltb kind 16)) [
  | inr raw ↦ answered (bytes bs) r2 (rw raw at h)
  | inl text ↦ elim (Bool-cases (is_utf8 bs)) [
    | inl good ↦ answered (string bs) r2 (rw (text, good) at h)
    | inr bad ↦ absurd (cc (rw (text, bad) at h))
  ]
]

read_data-Keeps :
    (r : Reader) (kind : ℕ) {v : Value} {r' : Reader} → read_data r kind ≡ ok (v, r') → Keeps r r'
unfolding read_data
read_data-Keeps r kind h =
    le_then r (2 ^ bit_and kind 3)
      (λ n r1. take_bytes r1 n >>= λ (bs, r2). text_or_bytes kind bs r2)
      (λ n r1 g. elim (Result-cases (take_bytes r1 n)) [
        | inr (x, bad) ↦ absurd (cc (rw bad at g))
        | inl ((bs, r2), good) ↦
            chained (take_bytes-eq-ok r1 n good).0 (text_or_bytes-Keeps kind bs r2 (rw good at g))
      ])
      h

enter-Keeps :
    (r : Reader) (value : Value) {v : Value} {r' : Reader} → enter r value ≡ ok (v, r') → Keeps r r'
unfolding enter
enter-Keeps r value {v} {r'} h = elim (Bool-cases (leb max_depth r.depth)) [
  | inl deep ↦ absurd (cc (rw deep at h))
  | inr room ↦
      let here : record r { depth = r.depth + 1 } ≡ r' = cc (rw room at h) in
      rw (sym here) (record { same = refl; onward = omega arith })
]

leave-Keeps :
    (r : Reader) (tag : Tag) {v : Value} {r' : Reader} → leave r tag ≡ ok (v, r') → Keeps r r'
unfolding leave
leave-Keeps r tag {v} {r'} h = elim (Bool-cases (r.depth == 0 || not (is_anonymous tag))) [
  | inl bad ↦ absurd (cc (rw bad at h))
  | inr good ↦
      let here : record r { depth = r.depth - 1 } ≡ r' = cc (rw good at h) in
      rw (sym here) (record { same = refl; onward = omega arith })
]

-- The containers and what is above the floats.
abbrev upper_value : Reader → Tag → ℕ → Result (Value × Reader)
upper_value r tag kind =
    if leb kind 19
    then read_data r kind
    else if kind == 20
    then ok (null, r)
    else if kind == 21
    then enter r structure
    else if kind == 22
    then enter r array
    else if kind == 23
    then enter r list
    else if kind == 24
    then leave r tag
    else err (invalid "reserved TLV type")

upper_value-Keeps :
    (r : Reader) (tag : Tag) (kind : ℕ) {v : Value} {r' : Reader}
    → upper_value r tag kind ≡ ok (v, r')
    → Keeps r r'
upper_value-Keeps r tag kind h = elim (Bool-cases (leb kind 19)) [
  | inl t19 ↦ read_data-Keeps r kind (rw t19 at h)
  | inr f19 ↦ elim (Bool-cases (kind == 20)) [
    | inl t20 ↦ answered null r (rw (f19, t20) at h)
    | inr f20 ↦ elim (Bool-cases (kind == 21)) [
      | inl t21 ↦ enter-Keeps r structure (rw (f19, f20, t21) at h)
      | inr f21 ↦ elim (Bool-cases (kind == 22)) [
        | inl t22 ↦ enter-Keeps r array (rw (f19, f20, f21, t22) at h)
        | inr f22 ↦ elim (Bool-cases (kind == 23)) [
          | inl t23 ↦ enter-Keeps r list (rw (f19, f20, f21, f22, t23) at h)
          | inr f23 ↦ elim (Bool-cases (kind == 24)) [
            | inl t24 ↦ leave-Keeps r tag (rw (f19, f20, f21, f22, f23, t24) at h)
            | inr f24 ↦ absurd (cc (rw (f19, f20, f21, f22, f23, f24) at h))
          ]
        ]
      ]
    ]
  ]
]

read_value-Keeps :
    (r : Reader) (tag : Tag) (kind : ℕ) {v : Value} {r' : Reader}
    → read_value r tag kind ≡ ok (v, r')
    → Keeps r r'
unfolding read_value
read_value-Keeps r tag kind h = elim (Bool-cases (leb kind 3)) [
  | inl t3 ↦ read_int-Keeps r (2 ^ kind) (rw t3 at h)
  | inr f3 ↦ elim (Bool-cases (leb kind 7)) [
    | inl t7 ↦ read_uint-Keeps r (2 ^ (kind - 4)) (rw (f3, t7) at h)
    | inr f7 ↦ elim (Bool-cases (kind == 8)) [
      | inl t8 ↦ answered (boolean false) r (rw (f3, f7, t8) at h)
      | inr f8 ↦ elim (Bool-cases (kind == 9)) [
        | inl t9 ↦ answered (boolean true) r (rw (f3, f7, f8, t9) at h)
        | inr f9 ↦ elim (Bool-cases (kind == 10)) [
          | inl t10 ↦ read_float32-Keeps r (rw (f3, f7, f8, f9, t10) at h)
          | inr f10 ↦ elim (Bool-cases (kind == 11)) [
            | inl t11 ↦ read_float64-Keeps r (rw (f3, f7, f8, f9, f10, t11) at h)
            | inr f11 ↦ upper_value-Keeps r tag kind (rw (f3, f7, f8, f9, f10, f11) at h)
          ]
        ]
      ]
    ]
  ]
]

-- An element takes a byte at least, of those that are there.
pub next-advances :
    (r : Reader) {e : Element} {r' : Reader}
    → next r ≡ ok (some e, r')
    → (r'.input ≡ r.input) × (r.at + 1 ≤ r'.at) × (r.at + 1 ≤ length r.input)
unfolding next le
next-advances r {e} {r'} h = elim (Bool-cases (r.at == length r.input)) [
  | inl done ↦ elim (Bool-cases (r.depth == 0)) [
    | inl whole ↦ absurd (cc (rw (done, next, whole) at h))
    | inr inside ↦ absurd (cc (rw (done, next, inside) at h))
  ]
  | inr more ↦ elim (Result-cases (take_bytes r 1)) [
    | inr (x, bad) ↦ absurd (cc (rw (more, next, le, bad) at h))
    | inl ((bs, r1), read) ↦
        let (kept, place, there) = take_bytes-eq-ok r 1 read in
        elim (Result-cases (read_tag r1 (from_le bs / 32))) [
          | inr (x, bad) ↦ absurd (cc (rw (more, next, le, read, bad) at h))
          | inl ((tag, r2), tagged) ↦
              elim (Result-cases (read_value r2 tag (bit_and (from_le bs) 31))) [
                | inr (x, bad) ↦ absurd (cc (rw (more, next, le, read, tagged, bad) at h))
                | inl ((value, r3), valued) ↦
                    let last : r3 ≡ r' = cc (rw (more, next, le, read, tagged, valued) at h) in
                    let k =
                      chained (read_tag-Keeps r1 (from_le bs / 32) tagged)
                        (read_value-Keeps r2 tag (bit_and (from_le bs) 31) valued) in
                    rw (sym last) (k.same ∙ kept.same, omega (arith, k.onward, place), there)
              ]
        ]
  ]
]
