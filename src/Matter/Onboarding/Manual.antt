-- ===== src/Matter/Onboarding/Manual.antt =====
-- Writing and reading manual codes, plugins/matter/src/onboarding.rs.
use stulp.Prelude.{
  ℕ, zero, suc, ◌+◌, ◌/◌, ◌%◌, ◌^◌, ◌<◌, ◌≤◌, ◌≡◌, refl, sym, ap, ◌∙◌, Bool, true, false, not, ◌||◌,
  List, [], ◌∷◌, ◌++◌, arith, length, All, All-append, length-append, ◌⊎◌, ltb, leb, ◌==◌, inl, inr,
  Bool-cases,
}
use stulp.Prelude.Results.{ok, invalid, guard, then-eq-ok, bind-eq-ok}
use stulp.Matter.Onboarding.{
  read_all, Payload, digits_of, passcode, fields_of, fields, decimal, unchecked, validate, manual,
  manual_parse, group,
}
use stulp.Matter.Onboarding.Fields.{
  number_1, number_4, number_5, plain_first, vendor_first, plain_firsts, vendor_firsts, first_of,
  second_of, third_of, second_lem, told, IsValid, fields_of-plain, fields_of-vendor,
}
use stulp.Matter.Onboarding.Check.{check_digit, check_digit-lt, checksum-check_digit}
use stulp.Matter.Onboarding.Typing.{collect-digits}
use stulp.Matter.Onboarding.Verhoeff.{all_below-lt, IsDigit}

digits_of-IsDigit : (places n : ℕ) → All IsDigit (digits_of places n)
digits_of-IsDigit zero n = tt
digits_of-IsDigit (suc places) n =
    All-append IsDigit (digits_of places (n / 10)) ((48 + n % 10) ∷ [])
      (digits_of-IsDigit places (n / 10)) ((omega arith, omega arith), tt)

abbrev front : Payload → ℕ → List ℕ
front p v = (digits_of 1 (first_of p v) ++ digits_of 5 (second_of p)) ++ digits_of 4 (third_of p)

abbrev whole : Payload → List ℕ
whole p = (front p 4 ++ digits_of 5 p.vendor) ++ digits_of 5 p.product

front-IsDigit : (p : Payload) (v : ℕ) → All IsDigit (front p v)
front-IsDigit p v =
    All-append IsDigit (digits_of 1 (first_of p v) ++ digits_of 5 (second_of p))
      (digits_of 4 (third_of p))
      (All-append IsDigit (digits_of 1 (first_of p v)) (digits_of 5 (second_of p))
        (digits_of-IsDigit 1 (first_of p v)) (digits_of-IsDigit 5 (second_of p)))
      (digits_of-IsDigit 4 (third_of p))

whole-IsDigit : (p : Payload) → All IsDigit (whole p)
whole-IsDigit p =
    All-append IsDigit (front p 4 ++ digits_of 5 p.vendor) (digits_of 5 p.product)
      (All-append IsDigit (front p 4) (digits_of 5 p.vendor) (front-IsDigit p 4)
        (digits_of-IsDigit 5 p.vendor))
      (digits_of-IsDigit 5 p.product)

unchecked-plain : (p : Payload) → (p.flow == 0) ≡ true → unchecked p ≡ ok (front p 0)
unfolding unchecked decimal
unchecked-plain p standard = rw standard refl

unchecked-vendor : (p : Payload) → (p.flow == 0) ≡ false → unchecked p ≡ ok (whole p)
unfolding unchecked decimal
unchecked-vendor p custom = rw custom refl

-- A code with its check digit is collected, and passes.
parse_checked :
    (bs : List ℕ)
    → All IsDigit bs
    → (length bs ≡ 10) ⊎ (length bs ≡ 20)
    → manual_parse (bs ++ (48 + check_digit bs) ∷ []) ≡ fields (bs ++ (48 + check_digit bs) ∷ [])
unfolding manual_parse
parse_checked bs h size =
    let code = bs ++ (48 + check_digit bs) ∷ [] in
    let small = check_digit-lt bs h in
    let digits =
      All-append IsDigit bs ((48 + check_digit bs) ∷ []) h
        ((omega (arith, small), omega (arith, small)), tt) in
    let longer = length-append bs ((48 + check_digit bs) ∷ []) in
    let few : length code ≤ 21 = ground (arith, longer, size) in
    let fits : (length code == 11 || length code == 21) ≡ true = ground (arith, longer, size) in
    rw (collect-digits [] code digits few, checksum-check_digit bs h, fits) refl

second_small : (p : Payload) → second_of p < 100000
second_small p = omega (arith, second_lem p)

third_small : (p : Payload) → IsValid p → third_of p < 10000
third_small p v = omega (arith, v.bits)

plain_small : (p : Payload) → IsValid p → first_of p 0 < 10
plain_small p v = ground (
  arith,
  all_below-lt 4 plain_first plain_firsts (p.discriminator / 2 ^ 8 / 2 ^ 2)
      (omega (arith, v.twelve)),
)

vendor_small : (p : Payload) → IsValid p → first_of p 4 < 10
vendor_small p v = ground (
  arith,
  all_below-lt 4 vendor_first vendor_firsts (p.discriminator / 2 ^ 8 / 2 ^ 2)
      (omega (arith, v.twelve)),
)

fields-plain :
    (p : Payload) (d : ℕ)
    → IsValid p
    → (p.flow == 0) ≡ true
    → fields (front p 0 ++ d ∷ []) ≡ ok (told p)
fields-plain p d v standard =
    let code = front p 0 ++ d ∷ [] in
    let one : group code 0 1 ≡ first_of p 0 = number_1 (first_of p 0) (plain_small p v) in
    let two : group code 1 5 ≡ second_of p = number_5 (second_of p) (second_small p) in
    let three : group code 6 4 ≡ third_of p = number_4 (third_of p) (third_small p v) in
    ap
      (λ (t : ℕ).
        fields_of t (group code 1 5) (group code 6 4) (group code 10 5) (group code 15 5) false)
      one
    ∙ (ap
          (λ (t : ℕ).
            fields_of (first_of p 0) t (group code 6 4) (group code 10 5) (group code 15 5) false)
          two
        ∙ (ap
              (λ (t : ℕ).
                fields_of (first_of p 0) (second_of p) t (group code 10 5) (group code 15 5) false)
              three
            ∙ fields_of-plain p (group code 10 5) (group code 15 5) v standard))

fields-vendor :
    (p : Payload) (d : ℕ)
    → IsValid p
    → (p.flow == 0) ≡ false
    → p.vendor < 2 ^ 16
    → p.product < 2 ^ 16
    → fields (whole p ++ d ∷ []) ≡ ok (told p)
fields-vendor p d v custom hv hp =
    let code = whole p ++ d ∷ [] in
    let one : group code 0 1 ≡ first_of p 4 = number_1 (first_of p 4) (vendor_small p v) in
    let two : group code 1 5 ≡ second_of p = number_5 (second_of p) (second_small p) in
    let three : group code 6 4 ≡ third_of p = number_4 (third_of p) (third_small p v) in
    let four : group code 10 5 ≡ p.vendor = number_5 p.vendor (omega (arith, hv)) in
    let five : group code 15 5 ≡ p.product = number_5 p.product (omega (arith, hp)) in
    ap
      (λ (t : ℕ).
        fields_of t (group code 1 5) (group code 6 4) (group code 10 5) (group code 15 5) true)
      one
    ∙ (ap
          (λ (t : ℕ).
            fields_of (first_of p 4) t (group code 6 4) (group code 10 5) (group code 15 5) true)
          two
        ∙ (ap
              (λ (t : ℕ).
                fields_of (first_of p 4) (second_of p) t (group code 10 5) (group code 15 5) true)
              three
            ∙ (ap
                  (λ (t : ℕ).
                    fields_of (first_of p 4) (second_of p) (third_of p) t (group code 15 5) true)
                  four
                ∙ (ap
                      (λ (t : ℕ).
                        fields_of (first_of p 4) (second_of p) (third_of p) p.vendor t true)
                      five
                    ∙ fields_of-vendor p v custom hv hp))))

-- The check digit is written as one digit.
checked :
    (bs code : List ℕ)
    → All IsDigit bs
    → decimal bs (check_digit bs) 1 ≡ ok code
    → bs ++ (48 + check_digit bs) ∷ [] ≡ code
unfolding decimal
checked bs code h done =
    let written : bs ++ (48 + check_digit bs % 10) ∷ [] ≡ code = cc done in
    let digit : check_digit bs % 10 ≡ check_digit bs = omega (arith, check_digit-lt bs h) in
    rw digit at written

in_range_le :
    (a b : Bool) (n : ℕ)
    → guard (not (a || (b || ltb 4095 n))) (invalid "invalid QR payload fields") ≡ ok tt
    → n ≤ 4095
in_range_le true b n h = absurd (cc h)
in_range_le false true n h = absurd (cc h)
in_range_le false false n h = elim (Bool-cases (ltb 4095 n)) [
  | inl above ↦ absurd (cc (rw above at h))
  | inr within ↦ ground (arith, within)
]

passcode_lt : (n : ℕ) → passcode n ≡ ok tt → n < 2 ^ 27
unfolding passcode
passcode_lt n h = elim (Bool-cases (leb (2 ^ 27) n)) [
  | inl above ↦ absurd (cc (rw above at h))
  | inr within ↦ ground (arith, within)
]

validate-IsValid : (p : Payload) → validate p ≡ ok tt → IsValid p
unfolding validate
validate-IsValid p h =
    let (passes, h1) = then-eq-ok (passcode p.code) _ h in
    let (in_range, h2) =
      then-eq-ok
        (guard (not (not (p.version == 0) || (ltb 2 p.flow || ltb 4095 p.discriminator)))
          (invalid "invalid QR payload fields"))
        (read_all p.extensions) h1 in
    record {
      twelve = in_range_le (not (p.version == 0)) (ltb 2 p.flow) p.discriminator in_range;
      passes = passes;
      bits = passcode_lt p.code passes;
    }

-- Where `manual` writes a code, `manual_parse` reads back what a manual code tells: passcode, the
-- four high bits of the discriminator, and vendor and product of a flow that is not standard.
pub manual_parse-manual :
    (p : Payload) (code : List ℕ)
    → p.vendor < 2 ^ 16
    → p.product < 2 ^ 16
    → manual p ≡ ok code
    → manual_parse code ≡ ok (told p)
unfolding manual
manual_parse-manual p code hv hp done =
    let (valid, h1) = then-eq-ok (validate p) _ done in
    let v = validate-IsValid p valid in
    let (bs, written, h2) = bind-eq-ok (unchecked p) (λ bs. decimal bs (check_digit bs) 1) h1 in
    elim (Bool-cases (p.flow == 0)) [
      | inl standard ↦
          let same : front p 0 ≡ bs = cc (unchecked-plain p standard, written) in
          let last = checked (front p 0) code (front-IsDigit p 0) (rw (sym same) at h2) in
          rw (sym last) (
            parse_checked (front p 0) (front-IsDigit p 0) (inl refl)
            ∙ fields-plain p (48 + check_digit (front p 0)) v standard)
      | inr custom ↦
          let same : whole p ≡ bs = cc (unchecked-vendor p custom, written) in
          let last = checked (whole p) code (whole-IsDigit p) (rw (sym same) at h2) in
          rw (sym last) (
            parse_checked (whole p) (whole-IsDigit p) (inr refl)
            ∙ fields-vendor p (48 + check_digit (whole p)) v custom hv hp)
    ]
