-- ===== src/Matter/Mrp/Replay.antt =====
-- The replay window of plugins/matter/src/mrp.rs, `Replay::mark`. A counter is a `u32` and `seen`
-- a `u64`, whose bit `d` stands for the counter `maximum - d`.
use stulp.Prelude.{
  ℕ, zero, suc, ◌+◌, ◌-◌, ◌*◌, ◌%◌, ◌^◌, ◌≤◌, ◌<◌, ◌≡◌, refl, ap, Bool, Bool-cases, true, false,
  not, ◌||◌, ◌⊎◌, inl, inr, Option, none, some, List, [], ◌∷◌, arith, ltb, leb, ◌==◌, if◌then◌else◌,
  lt→ltb, leb→le, bit_and, bit_or,
}
use Prim.Native.Nat.{max}
use native.Mathlib.Nat.{one-le-pow}
use native.Mathlib.Decide.{dec_lt, ℕ_discrete}
use stulp.Prelude.Bits.{
  bit, bit-lt, bit-bit_or, bit_and_pow, bit-shift_low, bit-shift_high, bit-mod_pow, bit-pow_self,
  bit-pow_ne, bit-one,
}

pub record Replay : Type 0 where
  pub maximum : Option ℕ
  pub seen : ℕ

unfoldable pub new : Replay
new = record { maximum = none; seen = 0 }

-- The part of `mark` behind `let Some(max) = self.maximum else`.
unfoldable pub mark_known : ℕ → Replay → ℕ → Bool × Replay
mark_known top r counter =
    if ltb top counter
    then (let d = counter - top in
        let shifted = (if leb 64 d then 1 else bit_or (r.seen * 2 ^ d % 2 ^ 64) 1) in
        (false, record { maximum = some counter; seen = shifted }))
    else (let d = top - counter in
        if leb 64 d
        then (true, r)
        else if not (bit_and r.seen (2 ^ d) == 0)
        then (true, r)
        else (false, record r { seen = bit_or r.seen (2 ^ d) }))

unfoldable pub mark_at : Option ℕ → Replay → ℕ → Bool × Replay
mark_at none r counter = (false, record { maximum = some counter; seen = 1 })
mark_at (some top) r counter = mark_known top r counter

unfoldable pub mark : Replay → ℕ → Bool × Replay
unfolding mark_at mark_known
mark r counter = mark_at r.maximum r counter

-- The window after a history of counters, the latest one first.
unfoldable pub run : List ℕ → Replay
unfolding mark new
run [] = new
run (c ∷ cs) = (mark (run cs) c).1

-- The specification: what was received, and the largest of it.
abbrev pub contains : ℕ → List ℕ → Bool
contains c [] = false
contains c (x ∷ xs) = x == c || contains c xs

abbrev pub newest : List ℕ → ℕ
newest [] = 0
newest (x ∷ xs) = max x (newest xs)

abbrev flag : Bool → ℕ
flag b = if b then 1 else 0

contains-le : (c : ℕ) (cs : List ℕ) → contains c cs ≡ true → c ≤ newest cs
contains-le c [] h = cc
contains-le c (x ∷ xs) h = ground (arith, contains-le c xs)

-- The window's bits are the history's counters of the last 64.
record Tracks (r : Replay) (top : ℕ) (cs : List ℕ) : Type 0 where
  max_known : r.maximum ≡ some top
  top_newest : top ≡ newest cs
  bits : (d : ℕ) → d < 64 → d ≤ top → bit r.seen d ≡ flag (contains (top - d) cs)

flag_and : (seen d : ℕ) → flag (not (bit_and seen (2 ^ d) == 0)) ≡ bit seen d
flag_and seen d =
    ground
      (arith, bit_and_pow d seen, bit-lt d seen, one-le-pow d 2, zero_or_one (bit seen d) (2 ^ d))
  where
    zero_or_one : (b p : ℕ) → (b ≡ 0 → b * p ≡ 0) × (b ≡ 1 → b * p ≡ p)
    zero_or_one b p = (λ e. rw e (omega arith), λ e. rw e (omega arith))

pub shifted_bit :
    (seen d j : ℕ)
    → 0 < d
    → d < 64
    → j < 64
    → bit (bit_or (seen * 2 ^ d % 2 ^ 64) 1) j
      ≡ (if j == 0 then 1 else if ltb j d then 0 else bit seen (j - d))
shifted_bit seen d zero hd hs hj = omega (arith, bit-bit_or 0 (seen * 2 ^ d % 2 ^ 64) 1)
shifted_bit seen d (suc j) hd hs hj =
    let whole = bit-bit_or (suc j) (seen * 2 ^ d % 2 ^ 64) 1 in
    let cut = bit-mod_pow 64 (suc j) (seen * 2 ^ d) hj in
    let one = bit-one j in
    elim (dec_lt (suc j) d) [
      | yes low ↦ ground (arith, whole, cut, one, bit-shift_low d (suc j) seen low)
      | no high ↦
          ground (arith, whole, cut, one, bit-shift_high d (suc j) (suc j - d) seen (omega arith))
    ]

contains_above : (c : ℕ) (cs : List ℕ) → newest cs < c → contains c cs ≡ false
contains_above c [] h = refl
contains_above c (x ∷ xs) h = ground (arith, contains_above c xs)

module _ (r : Replay) (top c : ℕ) (cs : List ℕ) (t : Tracks r top cs) where
  -- The window far below the new counter is dropped.
  fresh_bit : (j : ℕ) → j < 64 → j ≤ c → 64 ≤ c - top → bit 1 j ≡ flag (contains (c - j) (c ∷ cs))
  fresh_bit zero hj hc far = ground arith
  fresh_bit (suc j) hj hc far =
      ground (arith, bit-one j, contains_above (c - suc j) cs (omega (arith, t.top_newest)))

  moved_bit :
      (j : ℕ)
      → j < 64
      → j ≤ c
      → top < c
      → c - top < 64
      → bit (bit_or (r.seen * 2 ^ (c - top) % 2 ^ 64) 1) j ≡ flag (contains (c - j) (c ∷ cs))
  moved_bit zero hj hc above near = ground (arith, shifted_bit r.seen (c - top) 0)
  moved_bit (suc j) hj hc above near =
      let moved = shifted_bit r.seen (c - top) (suc j) (omega arith) near hj in
      elim (dec_lt (suc j) (c - top)) [
        | yes low ↦
            ground (arith, moved, contains_above (c - suc j) cs (omega (arith, t.top_newest)))
        | no high ↦
            let place : top - (suc j - (c - top)) ≡ c - suc j = omega arith in
            let held = t.bits (suc j - (c - top)) (omega arith) (omega arith) in
            ground (arith, moved, rw place at held)
      ]

  -- A counter above the window moves it.
  moved : top < c → ((mark_known top r c).0 ≡ false) × Tracks (mark_known top r c).1 c (c ∷ cs)
  unfolding mark_known
  moved h =
      let higher = lt→ltb top c h in
      elim (Bool-cases (leb 64 (c - top))) [
        | inl far ↦
            rw (higher, far)
              (
                refl,
                record {
                  max_known = refl;
                  top_newest = omega (arith, t.top_newest);
                  bits = λ j hj hc. fresh_bit j hj hc (leb→le 64 (c - top) far);
                },
              )
        | inr near ↦
            rw (higher, near)
              (
                refl,
                record {
                  max_known = refl;
                  top_newest = omega (arith, t.top_newest);
                  bits = λ j hj hc. moved_bit j hj hc h (ground arith);
                },
              )
      ]

  marked_bit :
      (j : ℕ)
      → j < 64
      → j ≤ top
      → c ≤ top
      → bit (bit_or r.seen (2 ^ (top - c))) j ≡ flag (contains (top - j) (c ∷ cs))
  marked_bit j hj hc h =
      let both = bit-bit_or j r.seen (2 ^ (top - c)) in
      let old = t.bits j hj hc in
      elim (ℕ_discrete j (top - c)) [
        | yes e ↦ let one = bit-pow_self (top - c) in ground (arith, both, old, rw (← e) at one)
        | no ne ↦ ground (arith, both, old, bit-pow_ne (top - c) j ne)
      ]

  -- What is in the window already stays there.
  known_bit :
      (j : ℕ)
      → j < 64
      → j ≤ top
      → (contains c cs ≡ true) ⊎ (64 ≤ top - c)
      → bit r.seen j ≡ flag (contains (top - j) (c ∷ cs))
  known_bit j hj hc h = elim (Bool-cases (c == top - j)) [
    | inl e ↦ let same : c ≡ top - j = ground arith in ground (arith, t.bits j hj hc, rw same at h)
    | inr ne ↦ ground (arith, t.bits j hj hc)
  ]

  -- A counter inside or below the window is answered by its bit.
  within :
      c ≤ top
      → ((mark_known top r c).0 ≡ (leb (c + 64) top || contains c cs))
        × Tracks (mark_known top r c).1 top (c ∷ cs)
  unfolding mark_known
  within h =
      let low : ltb top c ≡ false = ground arith in
      let d = top - c in
      let place : top - d ≡ c = omega arith in
      elim (Bool-cases (leb 64 d)) [
        | inl far ↦
            rw (low, far)
              (
                ground arith,
                record {
                  max_known = t.max_known;
                  top_newest = omega (arith, t.top_newest);
                  bits = λ j hj hc. known_bit j hj hc (inr (leb→le 64 d far));
                },
              )
        | inr near ↦
            let tested = flag_and r.seen d in
            let held = rw place at (t.bits d (ground arith) (omega arith)) in
            elim (Bool-cases (not (bit_and r.seen (2 ^ d) == 0))) [
              | inl hit ↦
                  let old : contains c cs ≡ true = ground (arith, tested, held) in
                  rw (low, near, hit)
                    (
                      ground (arith, old),
                      record {
                        max_known = t.max_known;
                        top_newest = omega (arith, t.top_newest);
                        bits = λ j hj hc. known_bit j hj hc (inl old);
                      },
                    )
              | inr miss ↦
                  let fresh : contains c cs ≡ false = ground (arith, tested, held) in
                  rw (low, near, miss)
                    (
                      ground (arith, fresh),
                      record {
                        max_known = t.max_known;
                        top_newest = omega (arith, t.top_newest);
                        bits = λ j hj hc. marked_bit j hj hc h;
                      },
                    )
            ]
      ]

first_bit : (c j : ℕ) → j < 64 → j ≤ c → bit 1 j ≡ flag (contains (c - j) (c ∷ []))
first_bit c zero hj hc = ground arith
first_bit c (suc j) hj hc = ground (arith, bit-one j)

mark_step :
    (r : Replay) (top c : ℕ) (cs : List ℕ)
    → Tracks r top cs
    → ((mark r c).0 ≡ (leb (c + 64) top || contains c cs))
      × ((top' : ℕ) × Tracks (mark r c).1 top' (c ∷ cs))
unfolding mark
mark_step r top c cs t =
    let known : mark r c ≡ mark_known top r c = ap (λ (o : Option ℕ). mark_at o r c) t.max_known in
    elim (dec_lt top c) [
      | yes above ↦
          let (answer, next) = moved r top c cs t above in
          let newer = contains_above c cs (omega (arith, t.top_newest)) in
          rw known (ground (arith, answer, newer), (c, next))
      | no below ↦
          let (answer, next) = within r top c cs t (omega arith) in rw known (answer, (top, next))
    ]

run-Tracks : (c : ℕ) (cs : List ℕ) → (top : ℕ) × Tracks (run (c ∷ cs)) top (c ∷ cs)
unfolding run
run-Tracks c [] = (c, record { max_known = refl; top_newest = omega arith; bits = first_bit c })
run-Tracks c (x ∷ cs) =
    let (top, t) = run-Tracks x cs in (mark_step (run (x ∷ cs)) top c (x ∷ cs) t).1

-- After any history, `mark` answers true exactly for a counter that it was given before, and for
-- one that lies 64 or more below the largest.
pub mark_lem :
    (history : List ℕ) (c : ℕ)
    → (mark (run history) c).0 ≡ (leb (c + 64) (newest history) || contains c history)
mark_lem [] c = unfold run mark in ground arith
mark_lem (x ∷ cs) c =
    let (top, t) = run-Tracks x cs in
    rw (← t.top_newest) (mark_step (run (x ∷ cs)) top c (x ∷ cs) t).0
