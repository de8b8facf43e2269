-- ===== src/Slots/Files/Reopen.antt =====
-- Opening a store after a save (crates/core/src/slots.rs).
use stulp.Prelude.{
  ℕ, ◌≡◌, refl, ap, ◌∙◌, Bool, true, Bool-cases, ◌||◌, inl, inr, Option, none, List, arith,
}
use stulp.Prelude.Results.{ok, Result-cases}
use stulp.Slots.Codec.{Slot, Record, decoded, select, is_some}
use stulp.Slots.Selection.{IsNewest, select-IsNewest}
use stulp.Slots.Files.{Backend, Files, save, open_files, open_b, open_legacy, opened}
use stulp.Slots.Files.Durable.{IsReliable, Holds, save-Holds}

module _ (reserve : ℕ → Bool) (B : Backend) where
  opened_lem :
      (left right old : Option (List ℕ)) (s : B.Store) (f : Files B.Store) (bytes : List ℕ)
      → opened reserve B left right old s ≡ ok (f, bytes)
      → (select left right old
          ≡ ok (f.active, record { generation = f.generation; payload = bytes }))
        × (f.backend ≡ s)
  unfolding opened
  opened_lem left right old s f bytes h = ground arith

skip_legacy :
    (left right old : Option (List ℕ)) (slot : Slot) (r : Record)
    → (is_some (decoded left) || is_some (decoded right)) ≡ true
    → IsNewest left right none slot r
    → IsNewest left right old slot r
skip_legacy left right old Slot.a r h n = n
skip_legacy left right old Slot.b r h n = n
skip_legacy left right old Slot.legacy r h n = absurd (ground arith)

newest_unique :
    (left right old : Option (List ℕ)) (slot slot' : Slot) (r r' : Record)
    → IsNewest left right old slot r
    → IsNewest left right old slot' r'
    → (slot ≡ slot') × (r ≡ r')
newest_unique left right old Slot.a Slot.a r r' h k = (refl, ground arith)
newest_unique left right old Slot.a Slot.b r r' h k = absurd (omega (arith, h.1 r' k.0, k.1 r h.0))
newest_unique left right old Slot.a Slot.legacy r r' h k = absurd (ground arith)
newest_unique left right old Slot.b Slot.a r r' h k = absurd (omega (arith, h.1 r' k.0, k.1 r h.0))
newest_unique left right old Slot.b Slot.b r r' h k = (refl, ground arith)
newest_unique left right old Slot.b Slot.legacy r r' h k = absurd (ground arith)
newest_unique left right old Slot.legacy Slot.a r r' h k = absurd (ground arith)
newest_unique left right old Slot.legacy Slot.b r r' h k = absurd (ground arith)
newest_unique left right old Slot.legacy Slot.legacy r r' h k = (refl, ground arith)

module _ (reserve : ℕ → Bool) (B : Backend) (contents : B.Store → Slot → Option (List ℕ))
    (rel : IsReliable B contents) where
  -- The files that an opening answers stand on a store with the contents of `s`.
  SameStore : B.Store → B.Store → Type 0
  SameStore s t = (at : Slot) → contents t at ≡ contents s at

  open_legacy_lem :
      (left right : Option (List ℕ)) (s : B.Store) (f : Files B.Store) (bytes : List ℕ)
      → open_legacy reserve B left right s ≡ ok (f, bytes)
      → IsNewest left right
          (contents s Slot.legacy)
          f.active
          (record { generation = f.generation; payload = bytes })
        × SameStore s f.backend
  unfolding open_legacy SameStore
  open_legacy_lem left right s f bytes h =
      elim (Bool-cases (is_some (decoded left) || is_some (decoded right))) [
        | inl e ↦
            let (picked, same) = opened_lem reserve B left right none s f bytes (rw e at h) in
            (
              skip_legacy left right _ f.active _ e
                  (select-IsNewest left right none f.active _ picked),
              λ at. rw same,
            )
        | inr e ↦ elim (Result-cases (B.read Slot.legacy s).0) [
          | inl (old, er) ↦
              let (picked, same) =
                opened_lem reserve B left right old (B.read Slot.legacy s).1 f bytes
                  (rw (e, er) at h) in
              (
                rw (← rel.read_answers Slot.legacy s old er)
                    (select-IsNewest left right old f.active _ picked),
                λ at. rw same (rel.read_keeps Slot.legacy at s),
              )
          | inr (x, er) ↦ absurd (cc (rw (e, er) at h))
        ]
      ]

  open_b_lem :
      (left : Option (List ℕ)) (s : B.Store) (f : Files B.Store) (bytes : List ℕ)
      → open_b reserve B left s ≡ ok (f, bytes)
      → IsNewest left
          (contents s Slot.b)
          (contents s Slot.legacy)
          f.active
          (record { generation = f.generation; payload = bytes })
        × SameStore s f.backend
  unfolding open_b SameStore
  open_b_lem left s f bytes h = elim (Result-cases (B.read Slot.b s).0) [
    | inl (right, er) ↦
        let (n, same) =
          open_legacy_lem left right (B.read Slot.b s).1 f bytes (rw (er, open_b) at h) in
        (
          rw (← rel.read_answers Slot.b s right er, ← rel.read_keeps Slot.b Slot.legacy s) n,
          λ at. same at ∙ rel.read_keeps Slot.b at s,
        )
    | inr (x, er) ↦ absurd (cc (rw (er, open_b) at h))
  ]

  -- Over a reliable backend, an `open` that succeeds answers the newest document of the store,
  -- and changes no slot.
  pub open-Holds :
      (s : B.Store) (f : Files B.Store) (bytes : List ℕ)
      → open_files reserve B s ≡ ok (f, bytes)
      → Holds contents f bytes × ((at : Slot) → contents f.backend at ≡ contents s at)
  unfolding open_files SameStore
  open-Holds s f bytes h = elim (Result-cases (B.read Slot.a s).0) [
    | inl (left, er) ↦
        let (n, same) = open_b_lem left (B.read Slot.a s).1 f bytes (rw (er, open_files) at h) in
        let keep = λ (at : Slot). same at ∙ rel.read_keeps Slot.a at s in
        (
          rw (keep Slot.a, same Slot.b, same Slot.legacy, ← rel.read_answers Slot.a s left er) n,
          keep,
        )
    | inr (x, er) ↦ absurd (cc (rw (er, open_files) at h))
  ]

  -- Over a reliable backend, after a `save` that answered ok by files that knew the newest
  -- document, an `open` that succeeds reads the saved document.
  pub open-save :
      (f f' : Files B.Store) (old bytes found : List ℕ)
      → Holds contents f old
      → (save reserve B f bytes).0 ≡ ok tt
      → open_files reserve B (save reserve B f bytes).1.backend ≡ ok (f', found)
      → found ≡ bytes
  open-save f f' old bytes found held done again =
      let g = (save reserve B f bytes).1 in
      let (now, _) = save-Holds reserve B contents rel f old bytes held done in
      let (later, same) = open-Holds g.backend f' found again in
      let seen : IsNewest (contents g.backend Slot.a) (contents g.backend Slot.b)
          (contents g.backend Slot.legacy) f'.active
          (record { generation = f'.generation; payload = found }) =
        rw (← same Slot.a, ← same Slot.b, ← same Slot.legacy) later in
      ap (λ (r : Record). r.payload) (newest_unique _ _ _ _ _ _ _ seen now).1
