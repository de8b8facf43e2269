-- ===== src/Prelude/Results.antt =====
-- The errors of crates/core/src/lib.rs and fallible results. The texts of the variants are kept,
-- since callers can tell them apart. The variant `Json` wraps a type of another project and is
-- raised by no code that is modelled. The `Invalid` of plugins, crates/sdk/src/lib.rs, is `invalid`
-- too.
use mathlib.Core.Path.{◌≡◌, refl}
use mathlib.Core.Logic.{◌⊎◌, inl, inr}
use mathlib.Core.Bool.{Bool}
use mathlib.Core.Option.{Option, none, some}
use Prim.Native.String.{String}
use stulp.Prelude.Tests.{if◌then◌else◌}

pub data Error : Type 0 where
  full memory changed storage : Error
  invalid missing conflict : String → Error

pub data Result {ℓ} (Value : Type ℓ) : Type ℓ where
  err : Error → Result Value
  ok : Value → Result Value

-- `option.ok_or(error)`
abbrev pub ok_or {ℓ} : {Value : Type ℓ} → Option Value → Error → Result Value
ok_or (some value) error = ok value
ok_or none error = err error

-- `result?` in front of the rest of a function
infixl 5 ◌>>=◌
abbrev pub ◌>>=◌ {ℓ κ} :
    {Value : Type ℓ} {Next : Type κ} → Result Value → (Value → Result Next) → Result Next
err error >>= rest = err error
ok value >>= rest = rest value

-- `if !test { return Err(error) }`
abbrev pub guard : Bool → Error → Result (Unit {0})
guard test error = if test then ok tt else err error

infixl 5 ◌>>◌
abbrev pub ◌>>◌ {ℓ} : {Next : Type ℓ} → Result (Unit {0}) → Result Next → Result Next
first >> rest = first >>= λ _. rest

-- A chain that succeeds has a first part that succeeds.
pub then-eq-ok {ℓ} :
    {Next : Type ℓ} (first : Result (Unit {0})) (rest : Result Next) {result : Next}
    → (first >> rest) ≡ ok result
    → (first ≡ ok tt) × (rest ≡ ok result)
then-eq-ok (ok tt) rest done = (refl, done)
then-eq-ok (err error) rest done = cc

pub bind-eq-ok {ℓ κ} :
    {Value : Type ℓ} {Next : Type κ} (first : Result Value) (rest : Value → Result Next)
    {result : Next}
    → (first >>= rest) ≡ ok result
    → (value : Value) × (first ≡ ok value) × (rest value ≡ ok result)
bind-eq-ok (err error) rest done = cc
bind-eq-ok (ok value) rest done = (value, refl, done)

pub Result-cases {ℓ} :
    {A : Type ℓ} (r : Result A) → ((a : A) × (r ≡ ok a)) ⊎ ((e : Error) × (r ≡ err e))
Result-cases (ok a) = inl (a, refl)
Result-cases (err e) = inr (e, refl)
