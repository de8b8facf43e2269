-- ===== src/Matter/Onboarding/Verhoeff.antt =====
-- The check digit of plugins/matter/src/onboarding.rs. The facts about its tables are decided by
-- trying all digits.
use stulp.Prelude.{
  ℕ, zero, suc, ◌+◌, ◌-◌, ◌%◌, ◌<◌, ◌≤◌, ◌≡◌, ◌≢◌, refl, Bool, true, false, not, ◌&&◌, ◌||◌, some,
  List, [], ◌∷◌, ◌++◌, arith, length, set, get_elem?, All, ltb, ◌==◌, length-set, length-append,
}
use native.Mathlib.Decide.{ℕ_discrete}
use stulp.Prelude.Distinct.{All-set}
use stulp.Matter.Onboarding.{entry, group_table, permutations, checksum}

-- A test of all numbers below a bound.
abbrev pub all_below : ℕ → (ℕ → Bool) → Bool
all_below zero test = true
all_below (suc n) test = test n && all_below n test

both : (a b : Bool) → (a && b) ≡ true → (a ≡ true) × (b ≡ true)
both true b h = (refl, h)
both false b h = absurd (cc h)

pub all_below-lt :
    (n : ℕ) (test : ℕ → Bool) → all_below n test ≡ true → (d : ℕ) → d < n → test d ≡ true
all_below-lt zero test h d lt = absurd (omega (arith, lt))
all_below-lt (suc n) test h d lt = elim (ℕ_discrete d n) [
  | yes same ↦ rw same (both (test n) (all_below n test) h).0
  | no other ↦
      all_below-lt n test (both (test n) (all_below n test) h).1 d (omega (arith, lt, other))
]

abbrev pub dd : ℕ → ℕ → ℕ
dd = entry group_table

abbrev pub pp : ℕ → ℕ → ℕ
pp = entry permutations

abbrev pub implies : Bool → Bool → Bool
implies a b = not a || b

product_small : all_below 10 (λ a. all_below 10 (λ b. ltb (dd a b) 10)) ≡ true
unfolding entry
product_small = refl

permuted_small : all_below 8 (λ i. all_below 10 (λ a. ltb (pp i a) 10)) ≡ true
unfolding entry
permuted_small = refl

left_cancels :
    all_below 10 (λ a. all_below 10 (λ b. all_below 10 (λ c. implies (dd a b == dd a c) (b == c))))
    ≡ true
unfolding entry
left_cancels = refl

right_cancels :
    all_below 10 (λ a. all_below 10 (λ b. all_below 10 (λ c. implies (dd a c == dd b c) (a == b))))
    ≡ true
unfolding entry
right_cancels = refl

permuted_differ :
    all_below 8 (λ i. all_below 10 (λ a. all_below 10 (λ b. implies (pp i a == pp i b) (a == b))))
    ≡ true
unfolding entry
permuted_differ = refl

twisted_differ :
    all_below 8 (λ i. all_below 10 (λ c. all_below 10 (λ a. all_below 10 (λ b.
      implies
        (dd (dd c (pp i b)) (pp ((i + 1) % 8) a) == dd (dd c (pp i a)) (pp ((i + 1) % 8) b))
        (a == b)))))
    ≡ true
unfolding entry
twisted_differ = refl

implied : (x y b c : ℕ) → implies (x == y) (b == c) ≡ true → x ≡ y → b ≡ c
implied x y b c h e = ground (arith, h, e)

dd-lt : (a b : ℕ) → a < 10 → b < 10 → dd a b < 10
dd-lt a b ha hb =
    let rows = all_below-lt 10 (λ a. all_below 10 (λ b. ltb (dd a b) 10)) product_small a ha in
    ground (arith, all_below-lt 10 (λ b. ltb (dd a b) 10) rows b hb)

pub pp-lt : (i a : ℕ) → i < 8 → a < 10 → pp i a < 10
pp-lt i a hi ha =
    let rows = all_below-lt 8 (λ i. all_below 10 (λ a. ltb (pp i a) 10)) permuted_small i hi in
    ground (arith, all_below-lt 10 (λ a. ltb (pp i a) 10) rows a ha)

dd-cancel_left : (a b c : ℕ) → a < 10 → b < 10 → c < 10 → dd a b ≡ dd a c → b ≡ c
dd-cancel_left a b c ha hb hc e =
    let rows =
      all_below-lt 10
        (λ a. all_below 10 (λ b. all_below 10 (λ c. implies (dd a b == dd a c) (b == c))))
        left_cancels a ha in
    let columns =
      all_below-lt 10 (λ b. all_below 10 (λ c. implies (dd a b == dd a c) (b == c))) rows b hb in
    implied (dd a b) (dd a c) b c
      (all_below-lt 10 (λ c. implies (dd a b == dd a c) (b == c)) columns c hc) e

dd-cancel_right : (a b c : ℕ) → a < 10 → b < 10 → c < 10 → dd a c ≡ dd b c → a ≡ b
dd-cancel_right a b c ha hb hc e =
    let rows =
      all_below-lt 10
        (λ a. all_below 10 (λ b. all_below 10 (λ c. implies (dd a c == dd b c) (a == b))))
        right_cancels a ha in
    let columns =
      all_below-lt 10 (λ b. all_below 10 (λ c. implies (dd a c == dd b c) (a == b))) rows b hb in
    implied (dd a c) (dd b c) a b
      (all_below-lt 10 (λ c. implies (dd a c == dd b c) (a == b)) columns c hc) e

pp-cancel : (i a b : ℕ) → i < 8 → a < 10 → b < 10 → pp i a ≡ pp i b → a ≡ b
pp-cancel i a b hi ha hb e =
    let rows =
      all_below-lt 8
        (λ i. all_below 10 (λ a. all_below 10 (λ b. implies (pp i a == pp i b) (a == b))))
        permuted_differ i hi in
    let columns =
      all_below-lt 10 (λ a. all_below 10 (λ b. implies (pp i a == pp i b) (a == b))) rows a ha in
    implied (pp i a) (pp i b) a b
      (all_below-lt 10 (λ b. implies (pp i a == pp i b) (a == b)) columns b hb) e

-- Two digits next to each other, at places `i` and `i + 1`, over the checksum `c` of the rest.
abbrev twist : ℕ → ℕ → ℕ → ℕ → ℕ
twist i c a b = dd (dd c (pp i b)) (pp ((i + 1) % 8) a)

twist-cancel :
    (i c a b : ℕ) → i < 8 → c < 10 → a < 10 → b < 10 → twist i c a b ≡ twist i c b a → a ≡ b
twist-cancel i c a b hi hc ha hb e =
    let test = λ (i c a b : ℕ). implies (twist i c a b == twist i c b a) (a == b) in
    let places =
      all_below-lt 8 (λ i. all_below 10 (λ c. all_below 10 (λ a. all_below 10 (test i c a))))
        twisted_differ i hi in
    let sums = all_below-lt 10 (λ c. all_below 10 (λ a. all_below 10 (test i c a))) places c hc in
    let firsts = all_below-lt 10 (λ a. all_below 10 (test i c a)) sums a ha in
    implied (twist i c a b) (twist i c b a) a b (all_below-lt 10 (test i c a) firsts b hb) e

-- An ASCII digit.
abbrev pub IsDigit : ℕ → Type 0
IsDigit b = (48 ≤ b) × (b < 58)

pub checksum-lt : (bs : List ℕ) (extra : ℕ) → All IsDigit bs → checksum bs extra < 10
unfolding checksum
checksum-lt [] extra h = omega arith
checksum-lt (b ∷ bs) extra ((low, high), h) =
    dd-lt (checksum bs extra) (pp ((length bs + extra) % 8) (b - 48)) (checksum-lt bs extra h)
      (pp-lt ((length bs + extra) % 8) (b - 48) (omega arith) (omega (arith, high)))

-- One changed digit changes the checksum.
pub checksum-set :
    (bs : List ℕ) (extra i x y : ℕ)
    → All IsDigit bs
    → get_elem? bs i ≡ some x
    → IsDigit y
    → y ≢ x
    → checksum (set bs i y) extra ≢ checksum bs extra
unfolding checksum
checksum-set [] extra i x y h at hy ne e = absurd (cc at)
checksum-set (b ∷ bs) extra zero x y ((low, high), h) at (ylow, yhigh) ne e =
    let place = (length bs + extra) % 8 in
    let here : b ≡ x = cc at in
    let sum = checksum-lt bs extra h in
    let inner =
      dd-cancel_left (checksum bs extra) (pp place (y - 48)) (pp place (b - 48)) sum
        (pp-lt place (y - 48) (omega arith) (omega (arith, yhigh)))
        (pp-lt place (b - 48) (omega arith) (omega (arith, high))) e in
    let same =
      pp-cancel place (y - 48) (b - 48) (omega arith) (omega (arith, yhigh)) (omega (arith, high))
        inner in
    ne (omega (arith, same, here, low, ylow))
checksum-set (b ∷ bs) extra (suc i) x y ((low, high), h) at hy ne e =
    let place = (length bs + extra) % 8 in
    let size = length-set bs i y in
    let other = checksum-lt (set bs i y) extra (All-set IsDigit bs i y h hy) in
    let moved : dd (checksum (set bs i y) extra) (pp place (b - 48))
        ≡ dd (checksum bs extra) (pp place (b - 48)) =
      rw size at e in
    checksum-set bs extra i x y h at hy ne (
      dd-cancel_right (checksum (set bs i y) extra) (checksum bs extra) (pp place (b - 48)) other
        (checksum-lt bs extra h) (pp-lt place (b - 48) (omega arith) (omega (arith, high))) moved)

pub All-swap :
    (front rest : List ℕ) (a b : ℕ)
    → All IsDigit (front ++ a ∷ b ∷ rest)
    → All IsDigit (front ++ b ∷ a ∷ rest)
All-swap [] rest a b (ha, (hb, h)) = (hb, (ha, h))
All-swap (x ∷ front) rest a b (hx, h) = (hx, All-swap front rest a b h)

-- Two different neighbours that change places change the checksum.
pub checksum-swap :
    (front rest : List ℕ) (a b extra : ℕ)
    → All IsDigit (front ++ a ∷ b ∷ rest)
    → a ≢ b
    → checksum (front ++ b ∷ a ∷ rest) extra ≢ checksum (front ++ a ∷ b ∷ rest) extra
unfolding checksum
checksum-swap [] rest a b extra ((alow, ahigh), ((blow, bhigh), h)) ne e =
    let place = (length rest + extra) % 8 in
    let next : (length (a ∷ rest) + extra) % 8 ≡ (place + 1) % 8 = omega arith in
    let sum = checksum-lt rest extra h in
    let twisted : twist place (checksum rest extra) (b - 48) (a - 48)
        ≡ twist place (checksum rest extra) (a - 48) (b - 48) =
      rw next at e in
    let same =
      twist-cancel place (checksum rest extra) (b - 48) (a - 48) (omega arith) sum
        (omega (arith, bhigh)) (omega (arith, ahigh)) twisted in
    ne (omega (arith, same, alow, blow))
checksum-swap (x ∷ front) rest a b extra ((low, high), h) ne e =
    let place = (length (front ++ a ∷ b ∷ rest) + extra) % 8 in
    let size : length (front ++ b ∷ a ∷ rest) ≡ length (front ++ a ∷ b ∷ rest) =
      omega (arith, length-append front (b ∷ a ∷ rest), length-append front (a ∷ b ∷ rest)) in
    let moved : dd (checksum (front ++ b ∷ a ∷ rest) extra) (pp place (x - 48))
        ≡ dd (checksum (front ++ a ∷ b ∷ rest) extra) (pp place (x - 48)) =
      rw size at e in
    checksum-swap front rest a b extra h ne (
      dd-cancel_right (checksum (front ++ b ∷ a ∷ rest) extra)
        (checksum (front ++ a ∷ b ∷ rest) extra) (pp place (x - 48))
        (checksum-lt (front ++ b ∷ a ∷ rest) extra (All-swap front rest a b h))
        (checksum-lt (front ++ a ∷ b ∷ rest) extra h)
        (pp-lt place (x - 48) (omega arith) (omega (arith, high))) moved)
