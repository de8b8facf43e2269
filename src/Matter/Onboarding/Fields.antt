-- ===== src/Matter/Onboarding/Fields.antt =====
-- The numbers in a manual code, plugins/matter/src/onboarding.rs.
use stulp.Prelude.{
  ℕ, ◌+◌, ◌*◌, ◌/◌, ◌%◌, ◌^◌, ◌<◌, ◌≤◌, ◌≡◌, refl, ◌∙◌, Bool, true, false, not, ◌&&◌, [], arith,
  ltb, leb, ◌==◌, if◌then◌else◌, bit_and, bit_or,
}
use stulp.Prelude.Bits.{bit_or-add, bit_or-add_low, bit_and-mask}
use stulp.Prelude.Results.{ok}
use stulp.Matter.Onboarding.{Payload, digits_of, number_from, has_vendor, passcode, fields_of}
use stulp.Matter.Onboarding.Verhoeff.{all_below, all_below-lt}

pub number_1 : (n : ℕ) → n < 10 → number_from 0 (digits_of 1 n) ≡ n
number_1 n h = omega arith

pub number_4 : (n : ℕ) → n < 10000 → number_from 0 (digits_of 4 n) ≡ n
number_4 n h = omega arith

pub number_5 : (n : ℕ) → n < 100000 → number_from 0 (digits_of 5 n) ≡ n
number_5 n h = omega arith

-- The first digit: the two bits `a`, without and with the bit for vendor and product.
abbrev pub plain_first : ℕ → Bool
plain_first a =
    not (has_vendor (bit_or a 0)) && (bit_and (bit_or a 0) 3 == a && not (ltb 7 (bit_or a 0)))

abbrev pub vendor_first : ℕ → Bool
vendor_first a =
    has_vendor (bit_or a 4) && (bit_and (bit_or a 4) 3 == a && not (ltb 7 (bit_or a 4)))

pub plain_firsts : all_below 4 plain_first ≡ true
plain_firsts = refl

pub vendor_firsts : all_below 4 vendor_first ≡ true
vendor_firsts = refl

-- The three numbers in front of a code, with the bit `v` for vendor and product.
abbrev pub first_of : Payload → ℕ → ℕ
first_of p v = bit_or (p.discriminator / 2 ^ 8 / 2 ^ 2) v

abbrev pub second_of : Payload → ℕ
second_of p = bit_or (bit_and (p.discriminator / 2 ^ 8) 3 * 2 ^ 14) (bit_and p.code 0x3fff)

abbrev pub third_of : Payload → ℕ
third_of p = p.code / 2 ^ 14

pub second_lem :
    (p : Payload) → second_of p ≡ p.discriminator / 2 ^ 8 % 4 * 2 ^ 14 + p.code % 2 ^ 14
second_lem p =
    let mask = bit_and-mask 14 p.code in
    let two = bit_and-mask 2 (p.discriminator / 2 ^ 8) in
    let added =
      bit_or-add 14 (bit_and (p.discriminator / 2 ^ 8) 3) (bit_and p.code 0x3fff)
        (omega (arith, mask)) in
    omega (arith, mask, two, added)

code_back : (p : Payload) → bit_or (bit_and (second_of p) 0x3fff) (third_of p * 2 ^ 14) ≡ p.code
code_back p =
    let mask = bit_and-mask 14 (second_of p) in
    let second = second_lem p in
    let added =
      bit_or-add_low 14 (third_of p) (bit_and (second_of p) 0x3fff) (omega (arith, mask)) in
    omega (arith, mask, second, added)

discriminator_back :
    (p : Payload) (v : ℕ)
    → bit_and (first_of p v) 3 ≡ p.discriminator / 2 ^ 8 / 2 ^ 2
    → bit_or (bit_and (first_of p v) 3 * 2 ^ 10) (second_of p / 2 ^ 14 * 2 ^ 8)
      ≡ p.discriminator / 2 ^ 8 * 2 ^ 8
discriminator_back p v h =
    let second = second_lem p in
    let high : second_of p / 2 ^ 14 ≡ p.discriminator / 2 ^ 8 % 4 = omega (arith, second) in
    let added =
      bit_or-add 10 (p.discriminator / 2 ^ 8 / 2 ^ 2) (p.discriminator / 2 ^ 8 % 4 * 2 ^ 8)
        (omega arith) in
    rw (h, high) (added ∙ omega arith)

-- What a manual code tells of a payload: the four high bits of the discriminator, and vendor and
-- product only where the flow is not the standard one.
unfoldable pub told : Payload → Payload
told p =
    let vid = not (p.flow == 0) in
    record {
      version = 0;
      vendor = if vid then p.vendor else 0;
      product = if vid then p.product else 0;
      flow = if vid then 2 else 0;
      discovery = 0;
      discriminator = p.discriminator / 2 ^ 8 * 2 ^ 8;
      short = true;
      code = p.code;
      extensions = [];
    }

pub record IsValid (p : Payload) : Type 0 where
  pub twelve : p.discriminator ≤ 4095
  pub passes : passcode p.code ≡ ok tt
  pub bits : p.code < 2 ^ 27

pub fields_of-plain :
    (p : Payload) (g4 g5 : ℕ)
    → IsValid p
    → (p.flow == 0) ≡ true
    → fields_of (first_of p 0) (second_of p) (third_of p) g4 g5 false ≡ ok (told p)
unfolding fields_of told
fields_of-plain p g4 g5 v standard =
    let facts =
      all_below-lt 4 plain_first plain_firsts (p.discriminator / 2 ^ 8 / 2 ^ 2)
        (omega (arith, v.twelve)) in
    let no_vendor : has_vendor (first_of p 0) ≡ false = ground (arith, facts) in
    let low : ltb 7 (first_of p 0) ≡ false = ground (arith, facts) in
    let two : bit_and (first_of p 0) 3 ≡ p.discriminator / 2 ^ 8 / 2 ^ 2 = ground (arith, facts) in
    let short : ltb 65535 (second_of p) ≡ false = ground (arith, second_lem p) in
    rw (no_vendor, low, short, code_back p, v.passes, discriminator_back p 0 two, standard) refl

pub fields_of-vendor :
    (p : Payload)
    → IsValid p
    → (p.flow == 0) ≡ false
    → p.vendor < 2 ^ 16
    → p.product < 2 ^ 16
    → fields_of (first_of p 4) (second_of p) (third_of p) p.vendor p.product true ≡ ok (told p)
unfolding fields_of told
fields_of-vendor p v custom hv hp =
    let facts =
      all_below-lt 4 vendor_first vendor_firsts (p.discriminator / 2 ^ 8 / 2 ^ 2)
        (omega (arith, v.twelve)) in
    let with_vendor : has_vendor (first_of p 4) ≡ true = ground (arith, facts) in
    let low : ltb 7 (first_of p 4) ≡ false = ground (arith, facts) in
    let two : bit_and (first_of p 4) 3 ≡ p.discriminator / 2 ^ 8 / 2 ^ 2 = ground (arith, facts) in
    let short : ltb 65535 (second_of p) ≡ false = ground (arith, second_lem p) in
    let small : leb p.vendor 65535 ≡ true = ground (arith, hv) in
    let small_too : leb p.product 65535 ≡ true = ground (arith, hp) in
    rw
      (
        with_vendor,
        low,
        short,
        small,
        small_too,
        code_back p,
        v.passes,
        discriminator_back p 4 two,
        custom,
      )
      refl
