-- ===== src/Matter/Message/Fields.antt =====
-- Reading back what was written (plugins/matter/src/message.rs).
use stulp.Prelude.{
  ℕ, zero, suc, ◌+◌, ◌-◌, ◌%◌, ◌^◌, ◌≤◌, ◌<◌, ◌≡◌, refl, sym, ap, ◌∙◌, Bool, true, false, not, ◌&&◌,
  Option, none, some, List, [], ◌∷◌, ◌++◌, arith, length, leb, ◌==◌, bit_and, append_assoc,
  length-append, length-drop, append-nil,
}
use stulp.Prelude.Results.{ok, invalid, guard, bind-eq-ok}
use stulp.Bytes.{to_le, length-to_le}
use stulp.Matter.Buffer.{
  append, append-eq-ok, max, Cursor, advance, Ahead, Ahead-advance, read_le, read_le-Ahead,
  read_extension-Ahead,
}
use stulp.Matter.Message.{
  is_some, is_empty, append_option, read_option, read_extensions, ext, message_flags,
  security_flags, exchange_flags,
}

-- The bytes of an optional integer and of an extension.
abbrev pub option_bytes : ℕ → Option ℕ → List ℕ
option_bytes width none = []
option_bytes width (some n) = to_le width n

abbrev pub ext_bytes : List ℕ → List ℕ
ext_bytes [] = []
ext_bytes (x ∷ xs) = to_le 2 (length (x ∷ xs)) ++ (x ∷ xs)

abbrev pub Fits : ℕ → Option ℕ → Type 0
Fits width none = Unit
Fits width (some n) = n < 256 ^ width

pub append_option-eq-ok :
    (out : List ℕ) (width : ℕ) (o : Option ℕ) (all : List ℕ)
    → append_option out width o ≡ ok all
    → all ≡ out ++ option_bytes width o
unfolding append_option
append_option-eq-ok out width none all h = ground (arith, append-nil out)
append_option-eq-ok out width (some n) all h = append-eq-ok out (to_le width n) all h

pub ext-eq-ok :
    (out bytes all : List ℕ)
    → ext out bytes ≡ ok all
    → (all ≡ out ++ ext_bytes bytes) × (length bytes ≤ max)
unfolding ext
ext-eq-ok out [] all h = (ground (arith, append-nil out), omega arith)
ext-eq-ok out (x ∷ xs) all h =
    let (u, small, h1) =
      bind-eq-ok (guard (leb (length (x ∷ xs)) 65535) (invalid "Matter extension too long")) _ h in
    let (sized, first, second) =
      bind-eq-ok (append out (to_le 2 (length (x ∷ xs) % 2 ^ 16))) _ h1 in
    let fits : length (x ∷ xs) ≤ max = ground arith in
    let same : length (x ∷ xs) % 2 ^ 16 ≡ length (x ∷ xs) = omega arith in
    let one = append-eq-ok out (to_le 2 (length (x ∷ xs) % 2 ^ 16)) sized first in
    let two = append-eq-ok sized (x ∷ xs) all second in
    (two ∙ rw (one, same) (append_assoc out (to_le 2 (length (x ∷ xs))) (x ∷ xs)), fits)

abbrev pub after : Cursor → ℕ → Option ℕ → Cursor
after c width none = c
after c width (some n) = advance c width

abbrev pub after_ext : Cursor → List ℕ → Cursor
after_ext c [] = c
after_ext c (x ∷ xs) = advance (advance c 2) (length (x ∷ xs))

pub read_option-Ahead :
    (c : Cursor) (width : ℕ) (o : Option ℕ) (rest : List ℕ)
    → width ≤ 8
    → Fits width o
    → Ahead c (option_bytes width o ++ rest)
    → (read_option c (is_some o) width ≡ ok (o, after c width o)) × Ahead (after c width o) rest
unfolding read_option
read_option-Ahead c width none rest hw hf h = (refl, h)
read_option-Ahead c width (some n) rest hw hf h = (
  rw (read_le-Ahead c width n rest hw hf h),
  Ahead-advance c (to_le width n) rest width h (sym (length-to_le width n)),
)

pub read_extensions-Ahead :
    (c : Cursor) (xs rest : List ℕ)
    → length xs ≤ max
    → Ahead c (ext_bytes xs ++ rest)
    → (read_extensions c (not (is_empty xs)) ≡ ok (xs, after_ext c xs))
      × Ahead (after_ext c xs) rest
unfolding read_extensions
read_extensions-Ahead c [] rest hx h = (refl, h)
read_extensions-Ahead c (x ∷ xs) rest hx h =
    let size = to_le 2 (length (x ∷ xs)) in
    let h' : Ahead c (size ++ ((x ∷ xs) ++ rest)) = (h.0 ∙ append_assoc size (x ∷ xs) rest, h.1) in
    let behind =
      Ahead-advance c size ((x ∷ xs) ++ rest) 2 h' (sym (length-to_le 2 (length (x ∷ xs)))) in
    (
      read_extension-Ahead c (x ∷ xs) rest hx h',
      Ahead-advance (advance c 2) (x ∷ xs) rest (length (x ∷ xs)) behind refl,
    )

pub read_byte-Ahead :
    (c : Cursor) (b : ℕ) (rest : List ℕ)
    → b < 256
    → Ahead c (b ∷ rest)
    → (read_le c 1 ≡ ok (b, advance c 1)) × Ahead (advance c 1) rest
read_byte-Ahead c b rest hb h =
    let e : to_le 1 b ≡ b ∷ [] = unfold to_le in ground arith in
    let h' : Ahead c (to_le 1 b ++ rest) = (h.0 ∙ rw e, h.1) in
    (
      read_le-Ahead c 1 b rest (omega arith) (omega arith) h',
      Ahead-advance c (to_le 1 b) rest 1 h' (sym (length-to_le 1 b)),
    )

pub read_number-Ahead :
    (c : Cursor) (n v : ℕ) (rest : List ℕ)
    → n ≤ 8
    → v < 256 ^ n
    → Ahead c (to_le n v ++ rest)
    → (read_le c n ≡ ok (v, advance c n)) × Ahead (advance c n) rest
read_number-Ahead c n v rest hn hv h = (
  read_le-Ahead c n v rest hn hv h,
  Ahead-advance c (to_le n v) rest n h (sym (length-to_le n v)),
)

-- The flag byte tells which of the optional fields are there.
pub message_flags_lem :
    (s d g : Bool)
    → d && g ≡ false
    → let f = message_flags s d g in
      (f < 256)
      × ((bit_and f 0xf8 == 0 && not (bit_and f 3 == 3)) ≡ true)
      × (not (bit_and f 4 == 0) ≡ s)
      × ((bit_and f 3 == 1) ≡ d)
      × ((bit_and f 3 == 2) ≡ g)
unfolding message_flags
message_flags_lem s d g h = ground arith

pub security_flags_lem :
    (k : ℕ) (c e : Bool)
    → k ≤ 1
    → let f = security_flags k c e in
      (f < 256)
      × ((bit_and f 0x9c == 0 && leb (bit_and f 3) 1) ≡ true)
      × (bit_and f 3 ≡ k)
      × (not (bit_and f 64 == 0) ≡ c)
      × (not (bit_and f 32 == 0) ≡ e)
unfolding security_flags
security_flags_lem zero c e h = ground arith
security_flags_lem (suc zero) c e h = ground arith
security_flags_lem (suc (suc k)) c e h = absurd (omega arith)

pub exchange_flags_lem :
    (i a r e v : Bool)
    → let f = exchange_flags i a r e v in
      (f < 256)
      × ((bit_and f 0xe0 == 0) ≡ true)
      × (not (bit_and f 16 == 0) ≡ v)
      × (not (bit_and f 2 == 0) ≡ a)
      × (not (bit_and f 8 == 0) ≡ e)
      × (not (bit_and f 1 == 0) ≡ i)
      × (not (bit_and f 4 == 0) ≡ r)
unfolding exchange_flags
exchange_flags_lem i a r e v = ground arith

-- Moving the cursor leaves its bytes.
pub after_bytes : (c : Cursor) (width : ℕ) (o : Option ℕ) → (after c width o).bytes ≡ c.bytes
after_bytes c width none = refl
after_bytes c width (some n) = refl

pub after_ext_bytes : (c : Cursor) (xs : List ℕ) → (after_ext c xs).bytes ≡ c.bytes
after_ext_bytes c [] = refl
after_ext_bytes c (x ∷ xs) = refl

-- A cursor that has `rest` ahead of it stands at the end of what comes before `rest`.
pub at-Ahead :
    (c : Cursor) (layout rest : List ℕ)
    → c.bytes ≡ layout ++ rest
    → Ahead c rest
    → c.at ≡ length layout
at-Ahead c layout rest e (h, le) =
    let total : length c.bytes ≡ length layout + length rest =
      ap length e ∙ length-append layout rest in
    let left : length c.bytes - c.at ≡ length rest = sym (length-drop c.at c.bytes) ∙ ap length h in
    omega arith
