-- ===== src/Slots/Files/Durable.antt =====
-- The backend after a `save` of `Files` (crates/core/src/slots.rs).
use stulp.Prelude.{
  ℕ, ◌+◌, ◌^◌, ◌<◌, ◌≡◌, ◌≢◌, inl, inr, refl, Bool, true, Option, none, some, List, arith, ltb,
  ltb→lt, Bool-cases,
}
use stulp.Prelude.Results.{Error, ok, err, Result-cases}
use stulp.Bytes.{bytes_eq_sound}
use stulp.Slots.Codec.{Slot, Record, decode, decoded, encode}
use stulp.Slots.Selection.{IsNewest}
use stulp.Slots.RoundTrip.{decode-encode}
use stulp.Slots.Files.{Backend, Files, inactive, save, write_slot, verify, is_written}

-- What is relied on: an answered read returns what the slot holds and changes nothing; a write
-- changes no other slot, and an answered write stores its bytes. Of the slot of a write that
-- fails nothing is known, and any call may fail.
pub record IsReliable (B : Backend) (contents : B.Store → Slot → Option (List ℕ)) : Type 0 where
  pub read_keeps : (slot at : Slot) (s : B.Store) → contents (B.read slot s).1 at ≡ contents s at
  pub read_answers :
      (slot : Slot) (s : B.Store) (found : Option (List ℕ))
      → (B.read slot s).0 ≡ ok found
      → found ≡ contents s slot
  pub write_others :
      (slot at : Slot) (bytes : List ℕ) (s : B.Store)
      → slot ≢ at
      → contents (B.write slot bytes s).1 at ≡ contents s at
  pub write_stores :
      (slot : Slot) (bytes : List ℕ) (s : B.Store) (done : Unit {0})
      → (B.write slot bytes s).0 ≡ ok done
      → contents (B.write slot bytes s).1 slot ≡ some bytes

-- The document `bytes` is the newest one in the store, and `f` knows where it is.
abbrev pub Holds : {S : Type 0} → (S → Slot → Option (List ℕ)) → Files S → List ℕ → Type 0
Holds contents f bytes =
    IsNewest (contents f.backend Slot.a) (contents f.backend Slot.b)
      (contents f.backend Slot.legacy) f.active
      (record { generation = f.generation; payload = bytes })

inactive-ne : (slot : Slot) → inactive slot ≢ slot
inactive-ne Slot.a e = cc
inactive-ne Slot.b e = cc
inactive-ne Slot.legacy e = cc

is_written_sound :
    (reserve : ℕ → Bool) (B : Backend) (generation : ℕ) (bytes : List ℕ) (found : Option Record)
    → is_written reserve B generation bytes found ≡ true
    → found ≡ some (record { generation = generation; payload = bytes })
unfolding is_written
is_written_sound reserve B generation bytes none h = cc
is_written_sound reserve B generation bytes (some r) h =
    ground (arith, bytes_eq_sound r.payload bytes)

module _ (reserve : ℕ → Bool) (B : Backend) (contents : B.Store → Slot → Option (List ℕ))
    (rel : IsReliable B contents) where
  -- The store after `write_slot`, whatever it answers, as the slots other than its target see it.
  write_slot_others :
      (f : Files B.Store) (target at : Slot) (generation : ℕ) (bytes encoded : List ℕ)
      → target ≢ at
      → contents (write_slot reserve B f target generation bytes encoded).1.backend at
        ≡ contents f.backend at
  unfolding write_slot
  write_slot_others f target at generation bytes encoded h = ground (
    arith,
    rel.write_others target at encoded f.backend,
    rel.read_keeps target at (B.write target encoded f.backend).1,
  )

  verify_target :
      (f : Files B.Store) (target : Slot) (generation : ℕ) (bytes : List ℕ) (e : Error)
      (s : B.Store) (done : Unit {0})
      → (verify reserve B f target generation bytes e s).0 ≡ ok done
      → let f' = (verify reserve B f target generation bytes e s).1 in
        (f'.active ≡ target)
        × (f'.generation ≡ generation)
        × (decoded (contents f'.backend target)
            ≡ some (record { generation = generation; payload = bytes }))
  unfolding verify
  verify_target f target generation bytes e s done h = elim (Result-cases (B.read target s).0) [
    | inl (written, er) ↦
        elim (Bool-cases (is_written reserve B generation bytes (decoded written))) [
          | inl good ↦
              let kept = rel.read_keeps target target s in
              let seen = rel.read_answers target s written er in
              let whole = is_written_sound reserve B generation bytes (decoded written) good in
              rw (er, verify, good) (refl, refl, rw (kept, ← seen) whole)
          | inr bad ↦ absurd (ground arith)
        ]
    | inr (e', er) ↦ absurd (ground arith)
  ]

  -- Where `write_slot` answers ok, its target holds the new record and the files point to it.
  write_slot_target :
      (f : Files B.Store) (target : Slot) (generation : ℕ) (bytes encoded : List ℕ)
      (done : Unit {0})
      → decode encoded ≡ some (record { generation = generation; payload = bytes })
      → (write_slot reserve B f target generation bytes encoded).0 ≡ ok done
      → let f' = (write_slot reserve B f target generation bytes encoded).1 in
        (f'.active ≡ target)
        × (f'.generation ≡ generation)
        × (decoded (contents f'.backend target)
            ≡ some (record { generation = generation; payload = bytes }))
  unfolding write_slot
  write_slot_target f target generation bytes encoded done hd h =
      elim (Result-cases (B.write target encoded f.backend).0) [
        | inl (d, er) ↦
            let stored = rel.write_stores target encoded f.backend d er in
            rw (er, write_slot) (refl, refl, rw stored hd)
        | inr (e, er) ↦
            rw (er, write_slot)
              (verify_target f target generation bytes e (B.write target encoded f.backend).1 done
                (rw (er, write_slot) at h))
      ]

  -- Whatever `save` answers, the slot in use keeps its bytes.
  save_active :
      (f : Files B.Store) (bytes : List ℕ) (at : Slot)
      → inactive f.active ≢ at
      → contents (save reserve B f bytes).1.backend at ≡ contents f.backend at
  unfolding save
  save_active f bytes at h = elim (Bool-cases (ltb (f.generation + 1) (2 ^ 64))) [
    | inr e ↦ rw e
    | inl e ↦ rw e (elim (Result-cases (encode reserve (f.generation + 1) bytes)) [
      | inl (encoded, er) ↦ rw er (write_slot_others f (inactive f.active) at _ bytes encoded h)
      | inr (x, er) ↦ rw er
    ])
  ]

-- Writing generation `g + 1` beside the newest record makes it the newest.
IsNewest-after :
    (active : Slot) (c c' : Slot → Option (List ℕ)) (g : ℕ) (old bytes : List ℕ)
    → IsNewest
        (c Slot.a)
        (c Slot.b)
        (c Slot.legacy)
        active
        (record { generation = g; payload = old })
    → ((at : Slot) → inactive active ≢ at → c' at ≡ c at)
    → decoded (c' (inactive active)) ≡ some (record { generation = g + 1; payload = bytes })
    → IsNewest
        (c' Slot.a)
        (c' Slot.b)
        (c' Slot.legacy)
        (inactive active)
        (record { generation = g + 1; payload = bytes })
IsNewest-after Slot.a c c' g old bytes (h, _) same e = (e, λ s es. ground (arith, left))
  where
    left : decoded (c' Slot.a) ≡ some (record { generation = g; payload = old })
    left = rw (same Slot.a (λ p. cc)) h
IsNewest-after Slot.b c c' g old bytes (h, _) same e = (e, λ s es. ground (arith, right))
  where
    right : decoded (c' Slot.b) ≡ some (record { generation = g; payload = old })
    right = rw (same Slot.b (λ p. cc)) h
IsNewest-after Slot.legacy c c' g old bytes h same e = (e, λ s es. ground (arith, right))
  where
    right : decoded (c' Slot.b) ≡ none
    right = rw (same Slot.b (λ p. cc)) h.1

module _ (reserve : ℕ → Bool) (B : Backend) (contents : B.Store → Slot → Option (List ℕ))
    (rel : IsReliable B contents) where
  save_parts :
      (f : Files B.Store) (bytes : List ℕ) (done : Unit {0})
      → (save reserve B f bytes).0 ≡ ok done
      → (encoded : List ℕ) × (f.generation + 1 < 2 ^ 64)
        × (encode reserve (f.generation + 1) bytes ≡ ok encoded)
        × (save reserve B f bytes
            ≡ write_slot reserve B f (inactive f.active) (f.generation + 1) bytes encoded)
  unfolding save
  save_parts f bytes done h = elim (Bool-cases (ltb (f.generation + 1) (2 ^ 64))) [
    | inr e ↦ absurd (ground arith)
    | inl e ↦ elim (Result-cases (encode reserve (f.generation + 1) bytes)) [
      | inl (encoded, er) ↦ (encoded, ltb→lt _ _ e, er, rw (e, er))
      | inr (x, er) ↦ absurd (ground arith)
    ]
  ]

  -- Over a reliable backend, by files that know the newest document: after a `save` that answers
  -- ok, its document is the newest one in the store, at the next generation. The failed write
  -- whose bytes did arrive is such a case too.
  pub save-Holds :
      (f : Files B.Store) (old bytes : List ℕ)
      → Holds contents f old
      → (save reserve B f bytes).0 ≡ ok tt
      → Holds contents (save reserve B f bytes).1 bytes
        × ((save reserve B f bytes).1.generation ≡ f.generation + 1)
  save-Holds f old bytes held h =
      let (encoded, room, ee, es) = save_parts f bytes tt h in
      let whole = decode-encode reserve (f.generation + 1) bytes encoded room ee in
      let (ea, eg, et) =
        write_slot_target reserve B contents rel f (inactive f.active) (f.generation + 1) bytes
          encoded tt whole (rw es at h) in
      let f' = (write_slot reserve B f (inactive f.active) (f.generation + 1) bytes encoded).1 in
      let newest =
        IsNewest-after f.active (contents f.backend) (contents f'.backend) f.generation old bytes
          held
          (λ at ne.
            write_slot_others reserve B contents rel f (inactive f.active) at (f.generation + 1)
              bytes encoded ne)
          et in
      rw es (rw (ea, eg) newest, eg)

  -- Over a reliable backend, a `save` that fails leaves the generation and the active slot as
  -- they were, in memory and in the store.
  pub save_fails :
      (f : Files B.Store) (bytes : List ℕ) (e : Error)
      → (save reserve B f bytes).0 ≡ err e
      → let f' = (save reserve B f bytes).1 in
        (f'.active ≡ f.active)
        × (f'.generation ≡ f.generation)
        × (contents f'.backend f.active ≡ contents f.backend f.active)
  unfolding save write_slot verify
  save_fails f bytes e h = (
    ground arith,
    ground arith,
    save_active reserve B contents rel f bytes f.active (inactive-ne f.active),
  )
