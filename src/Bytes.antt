-- ===== src/Bytes.antt =====
-- Byte strings as lists of numbers below 256, and Rust's `to_le_bytes`, `from_le_bytes`,
-- `to_be_bytes` and `slice.get(a..b)`.
use stulp.Prelude.{
  ℕ, zero, suc, ◌+◌, ◌-◌, ◌*◌, ◌/◌, ◌%◌, ◌^◌, ◌≤◌, ◌<◌, ◌≡◌, refl, ap, Option, none, some, List, [],
  ◌∷◌, ◌++◌, arith, length, take, drop, All, leb, ◌&&◌, if◌then◌else◌, Bool, true, false, ◌==◌,
  length-append, le→leb, drop-append, take-append, length-take, length-drop, drop-drop, take-add,
  take-all,
}
use mathlib.Core.List.{reverse}
use native.Mathlib.Nat.{pow-suc}

abbrev pub IsByte : ℕ → Type 0
IsByte b = b < 256

abbrev pub AreBytes : List ℕ → Type 0
AreBytes = All IsByte

-- The lowest `n` bytes of `v`, lowest first.
unfoldable pub to_le : ℕ → ℕ → List ℕ
to_le zero v = []
to_le (suc n) v = v % 256 ∷ to_le n (v / 256)

unfoldable pub from_le : List ℕ → ℕ
from_le [] = 0
from_le (b ∷ bs) = b + 256 * from_le bs

unfoldable pub to_be : ℕ → ℕ → List ℕ
unfolding to_le
to_be n v = reverse (to_le n v)

unfoldable pub from_be : List ℕ → ℕ
unfolding from_le
from_be bs = from_le (reverse bs)

-- `bytes.get(a..b)`
unfoldable pub slice {ℓ} : {A : Type ℓ} → List A → ℕ → ℕ → Option (List A)
slice bytes a b =
    if leb a b && leb b (length bytes) then some (take (b - a) (drop a bytes)) else none

-- `==` on byte slices.
unfoldable pub bytes_eq : List ℕ → List ℕ → Bool
bytes_eq [] [] = true
bytes_eq [] (y ∷ ys) = false
bytes_eq (x ∷ xs) [] = false
bytes_eq (x ∷ xs) (y ∷ ys) = x == y && bytes_eq xs ys

pub bytes_eq_sound : (xs ys : List ℕ) → bytes_eq xs ys ≡ true → xs ≡ ys
unfolding bytes_eq
bytes_eq_sound [] [] h = refl
bytes_eq_sound [] (y ∷ ys) h = cc
bytes_eq_sound (x ∷ xs) [] h = cc
bytes_eq_sound (x ∷ xs) (y ∷ ys) h = ground (arith, bytes_eq_sound xs ys)

pub bytes_eq_refl : (xs : List ℕ) → bytes_eq xs xs ≡ true
unfolding bytes_eq
bytes_eq_refl [] = refl
bytes_eq_refl (x ∷ xs) = ground (arith, bytes_eq_refl xs)

pub slice-append :
    {A : Type 0} (front mid back : List A) (i j : ℕ)
    → i ≡ length front
    → j ≡ i + length mid
    → slice (front ++ (mid ++ back)) i j ≡ some mid
unfolding slice
slice-append front mid back i j hi hj =
    let size : j ≤ length (front ++ (mid ++ back)) =
      omega (arith, length-append front (mid ++ back), length-append mid back) in
    let low : leb i j ≡ true = le→leb i j (omega arith) in
    rw (low, le→leb _ _ size, drop-append front (mid ++ back) i hi)
      (ap some (take-append mid back (j - i) (omega arith)))

pub slice-eq-some :
    {A : Type 0} (xs : List A) (i j : ℕ) (ys : List A)
    → slice xs i j ≡ some ys
    → (i ≤ j) × (j ≤ length xs) × (ys ≡ take (j - i) (drop i xs)) × (length ys ≡ j - i)
unfolding slice
slice-eq-some xs i j ys h = ground (arith, length-take (j - i) (drop i xs), length-drop i xs)

slice_in_range :
    {A : Type 0} (xs : List A) (i j : ℕ)
    → i ≤ j
    → j ≤ length xs
    → slice xs i j ≡ some (take (j - i) (drop i xs))
unfolding slice
slice_in_range xs i j p q = rw (le→leb i j p, le→leb j (length xs) q)

-- Two adjacent slices join.
pub slice-join :
    {A : Type 0} (xs : List A) (i j k : ℕ) (ys zs : List A)
    → slice xs i j ≡ some ys
    → slice xs j k ≡ some zs
    → slice xs i k ≡ some (ys ++ zs)
slice-join xs i j k ys zs h h' =
    let (p, q, ey, ly) = slice-eq-some xs i j ys h in
    let (p', q', ez, lz) = slice-eq-some xs j k zs h' in
    let at : j ≡ i + (j - i) = omega arith in
    let sum : j - i + (k - j) ≡ k - i = omega arith in
    let tail : drop j xs ≡ drop (j - i) (drop i xs) = rw drop-drop (ap (λ (t : ℕ). drop t xs) at) in
    let joined : ys ++ zs ≡ take (k - i) (drop i xs) = rw (ey, ez, tail, take-add, sum) refl in
    rw joined (slice_in_range xs i k (omega arith) q')

pub slice_whole : {A : Type 0} (xs ys : List A) → slice xs 0 (length xs) ≡ some ys → xs ≡ ys
slice_whole xs ys h =
    let (p, q, e, l) = slice-eq-some xs 0 (length xs) ys h in
    rw (e, take-all (length xs - 0) xs (omega arith))

pub length-to_le : (n v : ℕ) → length (to_le n v) ≡ n
unfolding to_le
length-to_le zero v = refl
length-to_le (suc n) v = ap suc (length-to_le n (v / 256))

pub to_le-AreBytes : (n v : ℕ) → AreBytes (to_le n v)
unfolding to_le
to_le-AreBytes zero v = tt
to_le-AreBytes (suc n) v = (omega arith, to_le-AreBytes n (v / 256))

pub from_le-to_le : (n v : ℕ) → v < 256 ^ n → from_le (to_le n v) ≡ v
unfolding to_le from_le
from_le-to_le zero v h = omega arith
from_le-to_le (suc n) v h =
    omega (arith, pow-suc 256 n, from_le-to_le n (v / 256) (omega (arith, pow-suc 256 n)))

pub to_le-from_le : (bs : List ℕ) (n : ℕ) → n ≡ length bs → AreBytes bs → to_le n (from_le bs) ≡ bs
unfolding to_le from_le
to_le-from_le [] zero e h = refl
to_le-from_le [] (suc n) e h = absurd (omega arith)
to_le-from_le (b ∷ bs) zero e h = absurd (omega arith)
to_le-from_le (b ∷ bs) (suc n) e (hb, hs) =
    let low : (b + 256 * from_le bs) % 256 ≡ b = omega arith in
    let high : (b + 256 * from_le bs) / 256 ≡ from_le bs = omega arith in
    rw (low, high, to_le-from_le bs n (omega arith) hs)

pub from_le-lt : (bs : List ℕ) → AreBytes bs → from_le bs < 256 ^ length bs
unfolding from_le
from_le-lt [] h = omega arith
from_le-lt (b ∷ bs) (hb, hs) = omega (arith, from_le-lt bs hs, pow-suc 256 (length bs))
