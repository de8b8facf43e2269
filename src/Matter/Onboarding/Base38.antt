-- ===== src/Matter/Onboarding/Base38.antt =====
-- The text of a QR code in base 38, plugins/matter/src/onboarding.rs: the loops over chunks of `qr`
-- and `qr_parse`.
pub mod RoundTrip
use stulp.Prelude.{
  ℕ, zero, suc, ◌+◌, ◌*◌, ◌/◌, ◌%◌, ◌^◌, Option, none, some, List, [], ◌∷◌, ◌++◌, get_elem?,
  position, leb, ltb, ◌==◌, not, if◌then◌else◌, bit_or,
}
use stulp.Prelude.Results.{Result, ok, err, invalid, guard, ok_or, ◌>>=◌, ◌>>◌}
use stulp.Bytes.{to_le}
use stulp.Matter.Buffer.{append}
use stulp.Matter.Onboarding.{or_zero}

-- "0123456789ABCDEFGHIJKLMNOPQRSTUVWXYZ-."
abbrev pub alphabet : List ℕ
alphabet =
    48 ∷ 49 ∷ 50 ∷ 51 ∷ 52 ∷ 53 ∷ 54 ∷ 55 ∷ 56 ∷ 57 ∷ 65 ∷ 66 ∷ 67 ∷ 68 ∷ 69 ∷ 70 ∷ 71 ∷ 72 ∷ 73
    ∷ 74 ∷ 75 ∷ 76 ∷ 77 ∷ 78 ∷ 79 ∷ 80 ∷ 81 ∷ 82 ∷ 83 ∷ 84 ∷ 85 ∷ 86 ∷ 87 ∷ 88 ∷ 89 ∷ 90 ∷ 45 ∷ 46
    ∷ []

abbrev pub symbol : ℕ → ℕ
symbol value = or_zero (get_elem? alphabet (value % 38))

-- So many symbols of a value, the lowest first.
unfoldable pub symbols : ℕ → ℕ → List ℕ
symbols zero value = []
symbols (suc count) value = symbol value ∷ symbols count (value / 38)

-- `bytes.chunks(3)`, each in five symbols, the last one in four or two.
unfoldable pub encode38 : List ℕ → List ℕ
unfolding symbols
encode38 [] = []
encode38 (a ∷ []) = symbols 2 a
encode38 (a ∷ b ∷ []) = symbols 4 (bit_or a (b * 2 ^ 8))
encode38 (a ∷ b ∷ c ∷ rest) =
    symbols 5 (bit_or (bit_or a (b * 2 ^ 8)) (c * 2 ^ 16)) ++ encode38 rest

-- `chars.iter().rev()`: the last symbol is the highest.
unfoldable pub value_of : List ℕ → Result ℕ
value_of [] = ok 0
value_of (c ∷ cs) = do
  value ← value_of cs
  index ← ok_or (position (λ b. b == c) alphabet) (invalid "invalid base38 character")
  ok (value * 38 + index)

-- One chunk, which stands for `n` bytes.
unfoldable pub decode_chunk : List ℕ → ℕ → List ℕ → Result (List ℕ)
unfolding value_of append to_le
decode_chunk bytes n chars = do
  value ← value_of chars
  guard (not (leb (2 ^ (n * 8)) value)) (invalid "base38 group overflow")
  append bytes (to_le n value)

-- `text.as_bytes().chunks(5)`
unfoldable pub decode38 : List ℕ → List ℕ → Result (List ℕ)
unfolding decode_chunk
decode38 bytes [] = ok bytes
decode38 bytes (a ∷ b ∷ []) = decode_chunk bytes 1 (a ∷ b ∷ [])
decode38 bytes (a ∷ b ∷ c ∷ d ∷ []) = decode_chunk bytes 2 (a ∷ b ∷ c ∷ d ∷ [])
decode38 bytes (a ∷ b ∷ c ∷ d ∷ e ∷ rest) = do
  longer ← decode_chunk bytes 3 (a ∷ b ∷ c ∷ d ∷ e ∷ [])
  decode38 longer rest
decode38 bytes (a ∷ []) = err (invalid "invalid base38 trailing length")
decode38 bytes (a ∷ b ∷ c ∷ []) = err (invalid "invalid base38 trailing length")
