-- ===== src/Prelude/Bits.antt =====
-- Facts about the bit operations at variables, by induction on the binary digits.
use Prim.Native.Nat.{
  ℕ, zero, suc, ◌+◌, ◌-◌, ◌*◌, ◌/◌, ◌%◌, ◌^◌, ◌≤◌, ◌<◌, min, max, digits, bitwise, differ, bit_and,
  bit_or, bit_xor, bit_and-bitwise, bit_or-bitwise, bit_xor-bitwise,
}
use mathlib.Core.Path.{◌≡◌, refl, sym, ap, ◌∙◌}
use mathlib.Core.Logic.{◌≢◌}
use native.Mathlib.Omega.{arith}
use native.Mathlib.Nat.{
  pow-suc, div-add-mod, mod-lt, one-le-pow, mul-add-mod_self_left, mod-eq_of_lt, mul_assoc,
}
use native.Mathlib.Decide.{dec_lt}

module _ (rest : ℕ → ℕ) (op : ℕ → ℕ → ℕ) where
  -- Fuel beyond the first number changes nothing.
  fuel_irrelevant : (n m c d : ℕ) → c ≤ n → c ≤ m → digits rest op n c d ≡ digits rest op m c d
  fuel_irrelevant zero zero c d p q = refl
  fuel_irrelevant zero (suc m) zero d p q = refl
  fuel_irrelevant (suc n) zero zero d p q = refl
  fuel_irrelevant (suc n) (suc m) zero d p q = refl
  fuel_irrelevant (suc n) (suc m) (suc c) d p q =
      rw (fuel_irrelevant n m (suc c / 2) (d / 2) (omega arith) (omega arith))
  fuel_irrelevant zero (suc m) (suc c) d p q = absurd (omega arith)
  fuel_irrelevant (suc n) zero (suc c) d p q = absurd (omega arith)

  lowest_digit :
      (a b : ℕ)
      → bitwise rest op (suc a) b ≡ bitwise rest op (suc a / 2) (b / 2) * 2 + op (suc a % 2) (b % 2)
  lowest_digit a b =
      rw (fuel_irrelevant a (suc a / 2) (suc a / 2) (b / 2) (omega arith) (omega arith))

pub bit_and-digit : (a b : ℕ) → bit_and a b ≡ bit_and (a / 2) (b / 2) * 2 + min (a % 2) (b % 2)
bit_and-digit zero b = simp bit_and-bitwise (omega arith)
bit_and-digit (suc a) b = simp bit_and-bitwise (lowest_digit (λ y. 0) min a b)

pub bit_or-digit : (a b : ℕ) → bit_or a b ≡ bit_or (a / 2) (b / 2) * 2 + max (a % 2) (b % 2)
bit_or-digit zero b = simp bit_or-bitwise (omega arith)
bit_or-digit (suc a) b = simp bit_or-bitwise (lowest_digit (λ y. y) max a b)

pub bit_xor-digit : (a b : ℕ) → bit_xor a b ≡ bit_xor (a / 2) (b / 2) * 2 + differ (a % 2) (b % 2)
bit_xor-digit zero b = simp bit_xor-bitwise (omega arith)
bit_xor-digit (suc a) b = simp bit_xor-bitwise (lowest_digit (λ y. y) differ a b)

differ-lt : (a b : ℕ) → a < 2 → b < 2 → differ a b < 2
differ-lt zero b p q = q
differ-lt (suc zero) zero p q = p
differ-lt (suc zero) (suc b) p q = omega arith
differ-lt (suc (suc a)) b p q = absurd (omega arith)

-- The exclusive or of two numbers of `k` bits has `k` bits.
pub bit_xor-lt : (k a b : ℕ) → a < 2 ^ k → b < 2 ^ k → bit_xor a b < 2 ^ k
bit_xor-lt zero a b p q = rw (le_zero a (omega arith), le_zero b (omega arith)) (omega arith)
  where
    le_zero : (n : ℕ) → n ≤ 0 → n ≡ 0
    le_zero n h = omega arith
bit_xor-lt (suc k) a b p q = omega (
  arith,
  bit_xor-digit a b,
  pow-suc 2 k,
  differ-lt (a % 2) (b % 2) (omega arith) (omega arith),
  bit_xor-lt k (a / 2) (b / 2) (omega (arith, pow-suc 2 k)) (omega (arith, pow-suc 2 k)),
)

differ_twice : (a b : ℕ) → a < 2 → b < 2 → differ (differ a b) b ≡ a
differ_twice zero zero p q = refl
differ_twice zero (suc zero) p q = refl
differ_twice zero (suc (suc b)) p q = absurd (omega arith)
differ_twice (suc zero) zero p q = refl
differ_twice (suc zero) (suc zero) p q = refl
differ_twice (suc zero) (suc (suc b)) p q = absurd (omega arith)
differ_twice (suc (suc a)) b p q = absurd (omega arith)

bit_xor_within : (k a b : ℕ) → a ≤ k → b ≤ k → bit_xor (bit_xor a b) b ≡ a
bit_xor_within zero a b p q =
    let none_left : a ≡ 0 = omega arith in
    let none_other : b ≡ 0 = omega arith in rw (none_left, none_other) refl
bit_xor_within (suc k) a b p q =
    let x = bit_xor a b in
    let digit = differ-lt (a % 2) (b % 2) (omega arith) (omega arith) in
    let half : x / 2 ≡ bit_xor (a / 2) (b / 2) = omega (arith, bit_xor-digit a b, digit) in
    let low : x % 2 ≡ differ (a % 2) (b % 2) = omega (arith, bit_xor-digit a b, digit) in
    let rest = bit_xor_within k (a / 2) (b / 2) (omega arith) (omega arith) in
    let back : differ (x % 2) (b % 2) ≡ a % 2 =
      rw low (differ_twice (a % 2) (b % 2) (omega arith) (omega arith)) in
    let again : bit_xor (x / 2) (b / 2) ≡ a / 2 = rw half rest in
    omega (arith, bit_xor-digit x b, back, again)

-- The exclusive or with a number undoes itself.
pub bit_xor_twice : (a b : ℕ) → bit_xor (bit_xor a b) b ≡ a
bit_xor_twice a b = bit_xor_within (a + b) a b (omega arith) (omega arith)

bit_or_within : (k a : ℕ) → a ≤ k → bit_or a 0 ≡ a
bit_or_within zero a h = let none_left : a ≡ 0 = omega arith in rw none_left refl
bit_or_within (suc k) a h = omega (arith, bit_or-digit a 0, bit_or_within k (a / 2) (omega arith))

bit_or_over : (k a : ℕ) → a ≤ k → bit_or 0 a ≡ a
bit_or_over zero a h = let none_left : a ≡ 0 = omega arith in rw none_left refl
bit_or_over (suc k) a h = omega (arith, bit_or-digit 0 a, bit_or_over k (a / 2) (omega arith))

bit_and_within : (k a : ℕ) → a ≤ k → bit_and a 0 ≡ 0
bit_and_within zero a h = let none_left : a ≡ 0 = omega arith in rw none_left refl
bit_and_within (suc k) a h =
    omega (arith, bit_and-digit a 0, bit_and_within k (a / 2) (omega arith))

-- A number above `k` bits, with a number of `k` bits below it.
pub bit_or-add : (k a b : ℕ) → b < 2 ^ k → bit_or (a * 2 ^ k) b ≡ a * 2 ^ k + b
bit_or-add zero a b h =
    let none_left : b ≡ 0 = omega (arith, h) in
    let one : a * 2 ^ 0 ≡ a = omega arith in
    rw (none_left, one) (omega (arith, bit_or_within a a (omega arith)))
bit_or-add (suc k) a b h =
    let double = ap (λ (t : ℕ). a * t) (pow-suc 2 k) in
    let half : a * 2 ^ suc k / 2 ≡ a * 2 ^ k = omega (arith, double) in
    let rest = rw (sym half) at (bit_or-add k a (b / 2) (omega (arith, h, pow-suc 2 k))) in
    omega (arith, double, bit_or-digit (a * 2 ^ suc k) b, rest)

-- The same the other way round.
pub bit_or-add_low : (k a b : ℕ) → b < 2 ^ k → bit_or b (a * 2 ^ k) ≡ a * 2 ^ k + b
bit_or-add_low zero a b h =
    let none_left : b ≡ 0 = omega (arith, h) in
    let one : a * 2 ^ 0 ≡ a = omega arith in
    rw (none_left, one) (omega (arith, bit_or_over a a (omega arith)))
bit_or-add_low (suc k) a b h =
    let double = ap (λ (t : ℕ). a * t) (pow-suc 2 k) in
    let half : a * 2 ^ suc k / 2 ≡ a * 2 ^ k = omega (arith, double) in
    let rest = rw (sym half) at (bit_or-add_low k a (b / 2) (omega (arith, h, pow-suc 2 k))) in
    omega (arith, double, bit_or-digit b (a * 2 ^ suc k), rest)

mod_double : (m a : ℕ) → 0 < m → a / 2 % m * 2 + a % 2 ≡ a % (2 * m)
mod_double m a h =
    let q = a / 2 / m in
    let low = a / 2 % m * 2 + a % 2 in
    let parts : a ≡ 2 * m * q + low = omega (arith, div-add-mod (a / 2) m, mul_assoc 2 m q) in
    let small : low < 2 * m = omega (arith, mod-lt (a / 2) h) in
    sym (
      ap (λ (t : ℕ). t % (2 * m)) parts
      ∙ (mul-add-mod_self_left (2 * m) q low ∙ mod-eq_of_lt small))

-- The lowest `k` bits.
pub bit_and-mask : (k a : ℕ) → bit_and a (2 ^ k - 1) ≡ a % 2 ^ k
bit_and-mask zero a = omega (arith, bit_and_within a a (omega arith))
bit_and-mask (suc k) a =
    let double = pow-suc 2 k in
    let half : (2 ^ suc k - 1) / 2 ≡ 2 ^ k - 1 = omega (arith, double, one-le-pow k 2) in
    let rest = rw (sym half) at (bit_and-mask k (a / 2)) in
    let whole : 2 * 2 ^ k ≡ 2 ^ suc k = omega (arith, double) in
    let cut = mod_double (2 ^ k) a (omega (arith, one-le-pow k 2)) ∙ ap (λ (t : ℕ). a % t) whole in
    omega (arith, bit_and-digit a (2 ^ suc k - 1), rest, double, one-le-pow k 2, cut)

-- Bit `i` of `n`, counted from the lowest.
abbrev pub bit : ℕ → ℕ → ℕ
bit n zero = n % 2
bit n (suc i) = bit (n / 2) i

pub bit-lt : (i n : ℕ) → bit n i < 2
bit-lt zero n = omega arith
bit-lt (suc i) n = bit-lt i (n / 2)

pub bit-bit_or : (i a b : ℕ) → bit (bit_or a b) i ≡ max (bit a i) (bit b i)
bit-bit_or zero a b = omega (arith, bit_or-digit a b)
bit-bit_or (suc i) a b =
    let halves : bit_or a b / 2 ≡ bit_or (a / 2) (b / 2) = omega (arith, bit_or-digit a b) in
    rw halves (bit-bit_or i (a / 2) (b / 2))

bit_and-zero : (k a : ℕ) → a ≤ k → bit_and a 0 ≡ 0
bit_and-zero k zero h = refl
bit_and-zero zero (suc a) h = absurd (omega arith)
bit_and-zero (suc k) (suc a) h =
    omega (arith, bit_and-digit (suc a) 0, bit_and-zero k (suc a / 2) (omega arith))

-- `n & (1 << d)` isolates bit `d`.
pub bit_and_pow : (d a : ℕ) → bit_and a (2 ^ d) ≡ bit a d * 2 ^ d
bit_and_pow zero a = omega (arith, bit_and-digit a 1, bit_and-zero (a / 2) (a / 2) (omega arith))
bit_and_pow (suc d) a =
    let half : 2 ^ suc d / 2 ≡ 2 ^ d = omega (arith, pow-suc 2 d) in
    let even : 2 ^ suc d % 2 ≡ 0 = omega (arith, pow-suc 2 d) in
    let digit = bit_and-digit a (2 ^ suc d) in
    let ih = bit_and_pow d (a / 2) in
    let low : bit_and a (2 ^ suc d) ≡ bit (a / 2) d * 2 ^ d * 2 + min (a % 2) 0 =
      rw (half, even, ih) at digit in
    rw (low, pow-suc) (omega arith)

pub bit-zero : (i : ℕ) → bit 0 i ≡ 0
bit-zero zero = refl
bit-zero (suc i) = bit-zero i

pub bit-one : (i : ℕ) → bit 1 (suc i) ≡ 0
bit-one i = bit-zero i

-- A shift to the left moves every bit up, and fills with zeros.
pub bit-shift_low : (d i n : ℕ) → i < d → bit (n * 2 ^ d) i ≡ 0
bit-shift_low zero i n h = absurd (omega arith)
bit-shift_low (suc d) zero n h = omega (arith, ap (λ (t : ℕ). n * t) (pow-suc 2 d))
bit-shift_low (suc d) (suc i) n h =
    let half : n * 2 ^ suc d / 2 ≡ n * 2 ^ d = omega (arith, ap (λ (t : ℕ). n * t) (pow-suc 2 d)) in
    rw half (bit-shift_low d i n (omega arith))

pub bit-shift_high : (d j i n : ℕ) → j ≡ i + d → bit (n * 2 ^ d) j ≡ bit n i
bit-shift_high zero j i n h =
    let same : n * 2 ^ 0 ≡ n = omega arith in let e : j ≡ i = omega arith in rw (same, e)
bit-shift_high (suc d) zero i n h = absurd (omega arith)
bit-shift_high (suc d) (suc j) i n h =
    let half : n * 2 ^ suc d / 2 ≡ n * 2 ^ d = omega (arith, ap (λ (t : ℕ). n * t) (pow-suc 2 d)) in
    rw half (bit-shift_high d j i n (omega arith))

half-mod_pow : (k n : ℕ) → n % 2 ^ suc k / 2 ≡ n / 2 % 2 ^ k
half-mod_pow k n =
    let q : ℕ = n / 2 ^ suc k in
    let r : ℕ = n % 2 ^ suc k in
    let parts : n ≡ 2 * (2 ^ k * q) + r =
      omega (arith, div-add-mod n (2 ^ suc k), ap (λ (t : ℕ). t * q) (pow-suc 2 k)) in
    let small : r / 2 < 2 ^ k =
      omega (arith, pow-suc 2 k, mod-lt n (one-le-pow (suc k) 2 (omega arith))) in
    let halves : n / 2 ≡ 2 ^ k * q + r / 2 = omega arith in
    rw (halves, mul-add-mod_self_left, mod-eq_of_lt small)

pub bit-mod_pow : (k i n : ℕ) → i < k → bit (n % 2 ^ k) i ≡ bit n i
bit-mod_pow zero i n h = absurd (omega arith)
bit-mod_pow (suc k) zero n h =
    omega (arith, div-add-mod n (2 ^ suc k), ap (λ (t : ℕ). t * (n / 2 ^ suc k)) (pow-suc 2 k))
bit-mod_pow (suc k) (suc i) n h = rw half-mod_pow (bit-mod_pow k i (n / 2) (omega arith))

pub bit-pow_self : (d : ℕ) → bit (2 ^ d) d ≡ 1
bit-pow_self d =
    let e : 2 ^ d ≡ 1 * 2 ^ d = omega arith in rw e (bit-shift_high d d 0 1 (omega arith))

pub bit-pow_ne : (d i : ℕ) → i ≢ d → bit (2 ^ d) i ≡ 0
bit-pow_ne d i h =
    let e : 2 ^ d ≡ 1 * 2 ^ d = omega arith in
    elim (dec_lt i d) [
      | yes low ↦ rw e (bit-shift_low d i 1 low)
      | no high ↦
          let up : i - d ≡ suc (i - d - 1) = omega arith in
          rw (e, bit-shift_high d i (i - d) 1 (omega arith), up) (bit-one (i - d - 1))
    ]
