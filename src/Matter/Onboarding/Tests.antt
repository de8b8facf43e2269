-- ===== src/Matter/Onboarding/Tests.antt =====
-- Codes of concrete devices, for the theorems on plugins/matter/src/onboarding.rs.
use stulp.Prelude.{ℕ, ◌≡◌, refl, true, false, some, List, [], ◌∷◌, ◌++◌, arith, set, All}
use stulp.Prelude.Results.{Result, ok, err, invalid}
use stulp.Matter.Mrp.{push}
use stulp.Matter.Tlv.Reader.{new, next}
use stulp.Matter.Onboarding.Base38.{encode38, decode38}
use stulp.Matter.Onboarding.Base38.RoundTrip.{decode38-encode38}
use stulp.Matter.Onboarding.Walk.{Walks, read_rest_lem}
use stulp.Matter.Onboarding.Verhoeff.{IsDigit}
use stulp.Matter.Onboarding.Fields.{told}
use stulp.Matter.Onboarding.Manual.{manual_parse-manual}
use stulp.Matter.Onboarding.Typing.{manual_parse-set, manual_parse-swap}
use stulp.Matter.Onboarding.{
  Payload, manual, manual_parse, unchecked, decimal, checksum, entry, validate, passcode, read_all,
  read_rest, ended, collect, fields_of,
}

-- The device of the unit tests.
abbrev device : Payload
device = record {
  version = 0;
  vendor = 65521;
  product = 32768;
  flow = 0;
  discovery = 4;
  discriminator = 3840;
  short = false;
  code = 20202021;
  extensions = [];
}

-- The code of its unit test, "34970112332".
abbrev printed : List ℕ
printed = 51 ∷ 52 ∷ 57 ∷ 55 ∷ 48 ∷ 49 ∷ 49 ∷ 50 ∷ 51 ∷ 51 ∷ 50 ∷ []

manual_example : manual device ≡ ok printed
unfolding manual unchecked decimal checksum entry validate passcode read_all read_rest ended new
    next
manual_example = refl

abbrev short_device : Payload
short_device = record {
  version = 0;
  vendor = 0;
  product = 0;
  flow = 0;
  discovery = 0;
  discriminator = 3840;
  short = true;
  code = 20202021;
  extensions = [];
}

parsed : manual_parse printed ≡ ok short_device
unfolding manual_parse collect push checksum entry fields_of passcode
parsed = refl

printed-IsDigit : All IsDigit printed
printed-IsDigit = ground arith

manual_parse-set_example :
    manual_parse (set printed 3 56) ≡ err (invalid "pairing code length or check digit invalid")
manual_parse-set_example =
    manual_parse-set printed short_device 3 55 56 printed-IsDigit (omega arith) parsed refl
      (omega arith, omega arith) (λ e. absurd (omega (arith, e)))

manual_parse-swap_example :
    manual_parse ((51 ∷ 52 ∷ []) ++ 55 ∷ 57 ∷ 48 ∷ 49 ∷ 49 ∷ 50 ∷ 51 ∷ 51 ∷ 50 ∷ [])
    ≡ err (invalid "pairing code length or check digit invalid")
manual_parse-swap_example =
    manual_parse-swap (51 ∷ 52 ∷ []) (48 ∷ 49 ∷ 49 ∷ 50 ∷ 51 ∷ 51 ∷ 50 ∷ []) 57 55 short_device
      printed-IsDigit (omega arith) parsed (λ e. absurd (omega (arith, e)))

-- The code of a device with a custom flow.
abbrev custom_printed : List ℕ
custom_printed =
    55 ∷ 52 ∷ 57 ∷ 55 ∷ 48 ∷ 49 ∷ 49 ∷ 50 ∷ 51 ∷ 51 ∷ 54 ∷ 53 ∷ 53 ∷ 50 ∷ 49 ∷ 51 ∷ 50 ∷ 55 ∷ 54
    ∷ 56 ∷ 55 ∷ []

custom_manual : manual (record device { flow = 2 }) ≡ ok custom_printed
unfolding manual unchecked decimal checksum entry validate passcode read_all read_rest ended new
    next
custom_manual = refl

manual_parse-manual_example : manual_parse custom_printed ≡ ok (told (record device { flow = 2 }))
manual_parse-manual_example =
    manual_parse-manual (record device { flow = 2 }) custom_printed (omega arith) (omega arith)
      custom_manual

read_rest_lem_example :
    (answer : Result (Unit {0})) × (read_rest 3 (record { input = 20 ∷ []; at = 0; depth = 0 })
      ≡ some answer)
    × Walks (record { input = 20 ∷ []; at = 0; depth = 0 }) answer
read_rest_lem_example =
    read_rest_lem 3 (record { input = 20 ∷ []; at = 0; depth = 0 }) (omega arith)

decode38-encode38_example :
    decode38 (7 ∷ []) (encode38 (1 ∷ 2 ∷ 3 ∷ 200 ∷ [])) ≡ ok (7 ∷ 1 ∷ 2 ∷ 3 ∷ 200 ∷ [])
decode38-encode38_example =
    decode38-encode38 (7 ∷ []) (1 ∷ 2 ∷ 3 ∷ 200 ∷ []) (ground arith) (omega arith)
