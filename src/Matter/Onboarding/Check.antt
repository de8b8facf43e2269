-- ===== src/Matter/Onboarding/Check.antt =====
-- The check digit that `manual` of plugins/matter/src/onboarding.rs adds.
use stulp.Prelude.{
  ℕ, ◌+◌, ◌-◌, ◌%◌, ◌<◌, ◌≡◌, refl, ◌∙◌, true, List, [], ◌∷◌, ◌++◌, arith, length, get_elem?, All,
  ltb, ◌==◌, length-append,
}
use stulp.Matter.Onboarding.{entry, checksum, inverse, or_zero}
use stulp.Matter.Onboarding.Verhoeff.{all_below, all_below-lt, dd, pp, pp-lt, IsDigit, checksum-lt}

associates :
    all_below 10 (λ a. all_below 10 (λ b. all_below 10 (λ c. dd (dd a b) c == dd a (dd b c))))
    ≡ true
unfolding entry
associates = refl

undone : all_below 10 (λ s. dd (or_zero (get_elem? inverse s)) s == 0) ≡ true
unfolding entry
undone = refl

undo_small : all_below 10 (λ s. ltb (or_zero (get_elem? inverse s)) 10) ≡ true
undo_small = refl

starts : all_below 10 (λ d. dd 0 (pp 0 d) == dd d 0) ≡ true
unfolding entry
starts = refl

dd_assoc : (a b c : ℕ) → a < 10 → b < 10 → c < 10 → dd (dd a b) c ≡ dd a (dd b c)
dd_assoc a b c ha hb hc =
    let rows =
      all_below-lt 10 (λ a. all_below 10 (λ b. all_below 10 (λ c. dd (dd a b) c == dd a (dd b c))))
        associates a ha in
    let columns =
      all_below-lt 10 (λ b. all_below 10 (λ c. dd (dd a b) c == dd a (dd b c))) rows b hb in
    ground (arith, all_below-lt 10 (λ c. dd (dd a b) c == dd a (dd b c)) columns c hc)

-- A digit behind the others is a factor in front of their checksum.
checksum-snoc :
    (bs : List ℕ) (d : ℕ)
    → All IsDigit bs
    → d < 10
    → checksum (bs ++ (48 + d) ∷ []) 0 ≡ dd d (checksum bs 1)
unfolding checksum
checksum-snoc [] d h hd =
    let digit : 48 + d - 48 ≡ d = omega arith in
    rw digit (ground (arith, all_below-lt 10 (λ d. dd 0 (pp 0 d) == dd d 0) starts d hd))
checksum-snoc (b ∷ bs) d ((low, high), h) hd =
    let place : (length (bs ++ (48 + d) ∷ []) + 0) % 8 ≡ (length bs + 1) % 8 =
      omega (arith, length-append bs ((48 + d) ∷ [])) in
    let p = pp ((length bs + 1) % 8) (b - 48) in
    let small = pp-lt ((length bs + 1) % 8) (b - 48) (omega arith) (omega (arith, high)) in
    rw (place, checksum-snoc bs d h hd) (dd_assoc d (checksum bs 1) p hd (checksum-lt bs 1 h) small)

abbrev pub check_digit : List ℕ → ℕ
check_digit bs = or_zero (get_elem? inverse (checksum bs 1))

pub check_digit-lt : (bs : List ℕ) → All IsDigit bs → check_digit bs < 10
check_digit-lt bs h = ground (
  arith,
  all_below-lt 10 (λ s. ltb (or_zero (get_elem? inverse s)) 10) undo_small (checksum bs 1)
      (checksum-lt bs 1 h),
)

-- With its check digit a code has the checksum zero.
pub checksum-check_digit :
    (bs : List ℕ) → All IsDigit bs → checksum (bs ++ (48 + check_digit bs) ∷ []) 0 ≡ 0
checksum-check_digit bs h =
    let s = checksum bs 1 in
    let back =
      all_below-lt 10 (λ s. dd (or_zero (get_elem? inverse s)) s == 0) undone s
        (checksum-lt bs 1 h) in
    checksum-snoc bs (check_digit bs) h (check_digit-lt bs h) ∙ ground (arith, back)
