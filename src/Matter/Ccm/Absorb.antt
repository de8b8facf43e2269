-- ===== src/Matter/Ccm/Absorb.antt =====
-- The incremental authentication of plugins/matter/src/ccm.rs against one byte at a time.
use stulp.Prelude.{
  ℕ, zero, suc, ◌+◌, ◌-◌, ◌<◌, ◌≤◌, ◌≡◌, refl, sym, ap, ◌∙◌, false, List, [], ◌∷◌, ◌++◌, arith,
  length, take, drop, set, min, ◌==◌, if◌then◌else◌, inl, inr, Bool-cases, length-take, length-drop,
  length-set, append_assoc, append-nil, take-append-drop,
}
use stulp.Matter.Ccm.{Mac, filled, flush, write_step, write_loop, write}

-- The reference: one byte is put in its place, and a full block is encrypted.
abbrev placed : Mac → ℕ → Mac
placed m b = record m { partial = set m.partial m.used b; used = m.used + 1 }

-- A block has room, and is an array of 16 bytes.
pub record HasRoom (m : Mac) : Type 0 where
  pub room : m.used < 16
  pub sixteen : length m.partial ≡ 16

take-set :
    (partial : List ℕ) (u x : ℕ)
    → u < length partial
    → take (suc u) (set partial u x) ≡ take u partial ++ x ∷ []
take-set [] u x h = absurd (omega (arith, h))
take-set (p ∷ partial) zero x h = refl
take-set (p ∷ partial) (suc u) x h =
    ap (λ (t : List ℕ). p ∷ t) (take-set partial u x (omega (arith, h)))

drop-set :
    (partial : List ℕ) (u x k : ℕ)
    → drop (suc (u + k)) (set partial u x) ≡ drop (suc (u + k)) partial
drop-set [] u x k = refl
drop-set (p ∷ partial) zero x k = refl
drop-set (p ∷ partial) (suc u) x k =
    let next : suc u + k ≡ suc (u + k) = omega arith in rw next (drop-set partial u x k)

module _ (encrypt : List ℕ → List ℕ) where
  unfoldable pub absorb : Mac → ℕ → Mac
  absorb m b = if m.used + 1 == 16 then flush encrypt (placed m b) else placed m b

  unfoldable pub absorb_all : Mac → List ℕ → Mac
  unfolding absorb
  absorb_all m [] = m
  absorb_all m (b ∷ bs) = absorb_all (absorb m b) bs

  absorb-HasRoom : (m : Mac) (b : ℕ) → HasRoom m → HasRoom (absorb m b)
  unfolding absorb flush
  absorb-HasRoom m b v = elim (Bool-cases (m.used + 1 == 16)) [
    | inl whole ↦ rw whole (record {
      room = omega arith;
      sixteen = omega (arith, length-set m.partial m.used b, v.sixteen);
    })
    | inr part ↦
        let room = v.room in
        rw part (record {
          room = ground (arith, part, room);
          sixteen = omega (arith, length-set m.partial m.used b, v.sixteen);
        })
  ]

  absorb_all-append :
      (m : Mac) (xs ys : List ℕ) → absorb_all m (xs ++ ys) ≡ absorb_all (absorb_all m xs) ys
  unfolding absorb_all
  absorb_all-append m [] ys = refl
  absorb_all-append m (x ∷ xs) ys = absorb_all-append (absorb m x) xs ys

  -- A block that takes some bytes in one copy.
  abbrev copied_in : Mac → List ℕ → Mac
  copied_in m xs = record m {
    partial = (take m.used m.partial ++ xs) ++ drop (m.used + length xs) m.partial;
    used = m.used + length xs;
  }

  settled : Mac → Mac
  settled m = if m.used == 16 then flush encrypt m else m

  copied_in-cons :
      (m : Mac) (x : ℕ) (xs : List ℕ) → HasRoom m → copied_in (placed m x) xs ≡ copied_in m (x ∷ xs)
  copied_in-cons m x xs v =
      let place : m.used + 1 + length xs ≡ m.used + length (x ∷ xs) = omega arith in
      let next : m.used + 1 ≡ suc m.used = omega arith in
      let behind : m.used + length (x ∷ xs) ≡ suc (m.used + length xs) = omega arith in
      let front = take-set m.partial m.used x (omega (arith, v.room, v.sixteen)) in
      let back = drop-set m.partial m.used x (length xs) in
      let same : (copied_in (placed m x) xs).partial ≡ (copied_in m (x ∷ xs)).partial =
        rw (place, behind, next, front, back, append_assoc (take m.used m.partial) (x ∷ []) xs)
          refl in
      ap (λ (t : List ℕ). record m { partial = t; used = m.used + 1 + length xs }) same
      ∙ ap (λ (t : ℕ). record m { partial = (copied_in m (x ∷ xs)).partial; used = t }) place

  copied_in-nil : (m : Mac) → copied_in m [] ≡ m
  copied_in-nil m =
      let here : m.used + 0 ≡ m.used = omega arith in
      let same : (copied_in m []).partial ≡ m.partial =
        rw (here, append-nil (take m.used m.partial)) (take-append-drop m.used m.partial) in
      ap (λ (t : List ℕ). record m { partial = t; used = m.used + 0 }) same
      ∙ ap (λ (t : ℕ). record m { partial = m.partial; used = t }) here

  absorb_all-copied_in :
      (m : Mac) (x : ℕ) (xs : List ℕ)
      → HasRoom m
      → length (x ∷ xs) ≤ 16 - m.used
      → absorb_all m (x ∷ xs) ≡ settled (copied_in m (x ∷ xs))
  unfolding absorb_all absorb settled
  absorb_all-copied_in m x [] v h =
      ap settled (sym (copied_in-nil (placed m x)) ∙ copied_in-cons m x [] v)
  absorb_all-copied_in m x (y ∷ ys) v h =
      let size = v.room in
      let part : (m.used + 1 == 16) ≡ false = ground (arith, h) in
      let w : HasRoom (placed m x) = record {
        room = ground (arith, part, size);
        sixteen = omega (arith, length-set m.partial m.used x, v.sixteen);
      } in
      rw part (
        absorb_all-copied_in (placed m x) y ys w (omega (arith, h))
        ∙ ap settled (copied_in-cons m x (y ∷ ys) v))

  -- A turn of the loop absorbs the bytes that it takes.
  write_step_lem :
      (m : Mac) (b : ℕ) (bs : List ℕ)
      → HasRoom m
      → write_step encrypt m (b ∷ bs)
        ≡ absorb_all m (take (min (16 - m.used) (length (b ∷ bs))) (b ∷ bs))
  unfolding write_step settled
  write_step_lem m b bs v =
      let n = min (16 - m.used) (length (b ∷ bs)) in
      let k = n - 1 in
      let piece : take n (b ∷ bs) ≡ b ∷ take k bs =
        ap (λ (t : ℕ). take t (b ∷ bs))
          (let some_room : n ≡ suc k = omega (arith, v.room) in some_room) in
      let size : n ≡ length (take n (b ∷ bs)) = omega (arith, length-take n (b ∷ bs)) in
      let copied : filled m (b ∷ bs) ≡ copied_in m (take n (b ∷ bs)) =
        ap
          (λ (t : ℕ). record m {
            partial = (take m.used m.partial ++ take n (b ∷ bs)) ++ drop (m.used + t) m.partial;
            used = m.used + t;
          })
          size in
      let few : length (b ∷ take k bs) ≤ 16 - m.used = omega (arith, length-take k bs, v.room) in
      ap settled copied
      ∙ (ap (λ (t : List ℕ). settled (copied_in m t)) piece
          ∙ (sym (absorb_all-copied_in m b (take k bs) v few) ∙ sym (ap (absorb_all m) piece)))

  absorb_all-HasRoom : (m : Mac) (bytes : List ℕ) → HasRoom m → HasRoom (absorb_all m bytes)
  unfolding absorb_all
  absorb_all-HasRoom m [] v = v
  absorb_all-HasRoom m (b ∷ bs) v = absorb_all-HasRoom (absorb m b) bs (absorb-HasRoom m b v)

  write_loop_lem :
      (turns : ℕ) (m : Mac) (bytes : List ℕ)
      → HasRoom m
      → length bytes ≤ turns
      → write_loop encrypt turns m bytes ≡ absorb_all m bytes
  unfolding write_loop absorb_all
  write_loop_lem zero m [] v h = refl
  write_loop_lem zero m (b ∷ bs) v h = absurd (omega (arith, h))
  write_loop_lem (suc turns) m [] v h = refl
  write_loop_lem (suc turns) m (b ∷ bs) v h =
      let n = min (16 - m.used) (length (b ∷ bs)) in
      let step = write_step_lem m b bs v in
      let front = take n (b ∷ bs) in
      let back = drop n (b ∷ bs) in
      let w = absorb_all-HasRoom m front v in
      let size : length back ≤ turns = omega (arith, length-drop n (b ∷ bs), v.room, h) in
      let whole : front ++ back ≡ b ∷ bs = take-append-drop n (b ∷ bs) in
      rw step (write_loop_lem turns (absorb_all m front) back w size)
      ∙ (sym (absorb_all-append m front back) ∙ ap (absorb_all m) whole)

  -- While a block has room, `write` puts the bytes in one at a time and encrypts each block that
  -- becomes full: the loop takes every byte, however the bytes lie against the blocks.
  pub write_lem :
      (m : Mac) (bytes : List ℕ) → HasRoom m → write encrypt m bytes ≡ absorb_all m bytes
  unfolding write
  write_lem m bytes v = write_loop_lem (length bytes) m bytes v (omega arith)
