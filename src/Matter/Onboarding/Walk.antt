-- ===== src/Matter/Onboarding/Walk.antt =====
-- The walk over the extensions of a code, plugins/matter/src/onboarding.rs: `validate`.
use stulp.Prelude.{
  ℕ, zero, suc, ◌-◌, ◌<◌, ◌≡◌, refl, arith, some, none, length, inl, inr, Option-cases, ap,
}
use stulp.Prelude.Results.{Result, ok, err, Error, Result-cases}
use stulp.Matter.Tlv.{Element}
use stulp.Matter.Tlv.Reader.{Reader, next}
use stulp.Matter.Tlv.Progress.{next-advances}
use stulp.Matter.Onboarding.{read_rest}

-- The loop without a bound: it ends at a reader that refuses, or at one that has no element left.
pub data Walks : Reader → Result (Unit {0}) → Type 0 where
  refused : (r : Reader) (x : Error) → next r ≡ err x → Walks r (err x)
  finished : (r r1 : Reader) → next r ≡ ok (none, r1) → Walks r (ok tt)
  went :
      (r : Reader) (e : Element) (r1 : Reader) {answer : Result (Unit {0})}
      → next r ≡ ok (some e, r1)
      → Walks r1 answer
      → Walks r answer

-- The walk ends. More turns than bytes are left are enough: then `read_rest` answers, and its
-- answer is the one of the loop without a bound.
pub read_rest_lem :
    (turns : ℕ) (r : Reader)
    → length r.input - r.at < turns
    → (answer : Result (Unit {0})) × (read_rest turns r ≡ some answer) × Walks r answer
unfolding read_rest
read_rest_lem zero r h = absurd (omega (arith, h))
read_rest_lem (suc turns) r h = elim (Result-cases (next r)) [
  | inr (x, bad) ↦ (err x, rw (read_rest, bad) refl, refused r x bad)
  | inl ((e, r1), good) ↦ elim (Option-cases e) [
    | inl done ↦ (ok tt, rw (read_rest, good, done) refl, finished r r1 (rw done at good))
    | inr (x, more) ↦
        let found : next r ≡ ok (some x, r1) = rw more at good in
        let (same, onward, there) = next-advances r found in
        let size = ap length same in
        let (answer, ends, walks) =
          read_rest_lem turns r1 (omega (arith, size, onward, there, h)) in
        (answer, rw (read_rest, good, more) ends, went r x r1 found walks)
  ]
]
