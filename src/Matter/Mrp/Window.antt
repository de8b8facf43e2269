-- ===== src/Matter/Mrp/Window.antt =====
-- Counters that a replay window has marked, plugins/matter/src/mrp.rs: `Replay::mark`.
use stulp.Prelude.{
  ℕ, ◌-◌, ◌*◌, ◌%◌, ◌^◌, ◌≤◌, ◌<◌, ◌≡◌, refl, true, false, not, ◌⊎◌, Option, none, some, arith, ltb,
  leb, ◌==◌, inl, inr, Bool-cases, bit_and, bit_or, leb→le,
}
use stulp.Prelude.Bits.{bit, bit-lt, bit-bit_or, bit_and_pow}
use stulp.Matter.Mrp.Replay.{Replay, mark, mark_known, mark_at, shifted_bit}
use stulp.Matter.Mrp.Duplicate.{mark_known-eq-true, window}

-- A counter below the window, or one whose bit is set.
Holds : ℕ → ℕ → ℕ → Type 0
Holds top seen c = (c ≤ top) × ((64 ≤ top - c) ⊎ (bit seen (top - c) ≡ 1))

tested : (seen d : ℕ) → not (bit_and seen (2 ^ d) == 0) ≡ true → bit seen d ≡ 1
tested seen d h = ground (arith, bit_and_pow d seen, bit-lt d seen, empty_ (bit seen d) (2 ^ d))
  where
    empty_ : (b p : ℕ) → b ≡ 0 → b * p ≡ 0
    empty_ b p e = rw e (omega arith)

known-Holds : (top seen c : ℕ) → (mark_known top (window top seen) c).0 ≡ true → Holds top seen c
unfolding Holds mark_known
known-Holds top seen c h = elim (Bool-cases (ltb top c)) [
  | inl above ↦ absurd (cc (rw above at h))
  | inr below ↦ elim (Bool-cases (leb 64 (top - c))) [
    | inl far ↦ (ground (arith, below), inl (leb→le 64 (top - c) far))
    | inr near ↦ elim (Bool-cases (not (bit_and seen (2 ^ (top - c)) == 0))) [
      | inl hit ↦ (ground (arith, below), inr (tested seen (top - c) hit))
      | inr miss ↦ absurd (cc (rw (below, near, miss) at h))
    ]
  ]
]

Holds-known : (top seen c : ℕ) → Holds top seen c → (mark_known top (window top seen) c).0 ≡ true
unfolding Holds mark_known
Holds-known top seen c (low, there) =
    let under : ltb top c ≡ false = ground (arith, low) in
    elim (Bool-cases (leb 64 (top - c))) [
      | inl far ↦ rw (under, far) refl
      | inr near ↦
          let set_ : bit seen (top - c) ≡ 1 = ground (arith, near, there) in
          mark_known-eq-true top seen c low (ground (arith, near)) set_
    ]

-- The window that moves up to a larger counter.
moved-Holds :
    (top seen c c' : ℕ)
    → Holds top seen c
    → top < c'
    → c' - top < 64
    → Holds c' (bit_or (seen * 2 ^ (c' - top) % 2 ^ 64) 1) c
unfolding Holds
moved-Holds top seen c c' (low, there) above near = elim (Bool-cases (leb 64 (c' - c))) [
  | inl far ↦ (omega arith, inl (leb→le 64 (c' - c) far))
  | inr inside ↦
      let close : c' - c < 64 = ground (arith, inside) in
      let old : bit seen (top - c) ≡ 1 = ground (arith, there, close) in
      let shift = shifted_bit seen (c' - top) (c' - c) (omega arith) near close in
      let place : c' - c - (c' - top) ≡ top - c = omega arith in
      (omega arith, inr (ground (arith, rw place at shift, old)))
]

more-Holds : (top seen c d : ℕ) → Holds top seen c → Holds top (bit_or seen (2 ^ d)) c
unfolding Holds
more-Holds top seen c d (low, inl far) = (low, inl far)
more-Holds top seen c d (low, inr old) =
    (low, inr (ground (arith, bit-bit_or (top - c) seen (2 ^ d), bit-lt (top - c) (2 ^ d), old)))

dropped-Holds :
    (top seen c c' : ℕ)
    → Holds top seen c
    → leb 64 (c' - top) ≡ true
    → ltb top c' ≡ true
    → Holds c' 1 c
unfolding Holds
dropped-Holds top seen c c' (low, there) far above =
    (ground (arith, low, above), inl (ground (arith, low, far)))

known_keeps :
    (top seen c c' : ℕ)
    → Holds top seen c
    → (mark (mark_known top (window top seen) c').1 c).0 ≡ true
unfolding mark mark_at mark_known
known_keeps top seen c c' held = elim (Bool-cases (ltb top c')) [
  | inl above ↦ elim (Bool-cases (leb 64 (c' - top))) [
    | inl far ↦ rw (above, far) (Holds-known c' 1 c (dropped-Holds top seen c c' held far above))
    | inr near ↦
        rw (above, near)
          (Holds-known c' (bit_or (seen * 2 ^ (c' - top) % 2 ^ 64) 1) c
            (moved-Holds top seen c c' held (ground (arith, above)) (ground (arith, near))))
  ]
  | inr below ↦ elim (Bool-cases (leb 64 (top - c'))) [
    | inl far ↦ rw (below, far) (Holds-known top seen c held)
    | inr near ↦ elim (Bool-cases (not (bit_and seen (2 ^ (top - c')) == 0))) [
      | inl hit ↦ rw (below, near, hit) (Holds-known top seen c held)
      | inr miss ↦
          rw (below, near, miss)
            (Holds-known top (bit_or seen (2 ^ (top - c'))) c
              (more-Holds top seen c (top - c') held))
    ]
  ]
]

at_keeps :
    (maximum : Option ℕ) (seen c c' : ℕ)
    → (mark (record { maximum = maximum; seen = seen }) c).0 ≡ true
    → (mark (mark (record { maximum = maximum; seen = seen }) c').1 c).0 ≡ true
unfolding mark mark_at
at_keeps none seen c c' h = absurd (cc h)
at_keeps (some top) seen c c' h = known_keeps top seen c c' (known-Holds top seen c h)

-- A counter that is a duplicate stays one, whatever counter is marked.
pub mark_keeps : (r : Replay) (c c' : ℕ) → (mark r c).0 ≡ true → (mark (mark r c').1 c).0 ≡ true
mark_keeps r c c' h = at_keeps r.maximum r.seen c c' h
