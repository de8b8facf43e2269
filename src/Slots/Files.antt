-- ===== src/Slots/Files.antt =====
-- `Files` of crates/core/src/slots.rs: `open` and `save`.
-- The trait `Backend` is the adapter's, so it is a parameter; a backend is threaded through calls.
pub mod Durable
pub mod Reopen
use stulp.Prelude.{
  ℕ, suc, ◌+◌, ◌^◌, ◌≤◌, ◌<◌, ◌≡◌, refl, Bool, true, false, ◌&&◌, ◌||◌, not, Option, none, some,
  List, length, ltb, ◌==◌, if◌then◌else◌,
}
use stulp.Prelude.Results.{Error, Result, ok, err, full, memory}
use stulp.Bytes.{bytes_eq}
use stulp.Slots.Codec.{Slot, Record, decode, decoded, encode, select, is_some}

-- `read` answers `none` for a slot that is not there. Either call may fail, and a failed `write`
-- may or may not have reached the store.
pub record Backend : Type 1 where
  pub Store : Type 0
  pub read : Slot → Store → Result (Option (List ℕ)) × Store
  pub write : Slot → List ℕ → Store → Result (Unit {0}) × Store

pub record Files (S : Type 0) : Type 0 where
  pub backend : S
  pub active : Slot
  pub generation : ℕ

-- `self.active == Slot::A`
abbrev pub is_a : Slot → Bool
is_a Slot.a = true
is_a Slot.b = false
is_a Slot.legacy = false

-- The slot that the next `save` writes.
abbrev pub inactive : Slot → Slot
inactive active = if is_a active then Slot.b else Slot.a

module _ (reserve : ℕ → Bool) (B : Backend) where
  open B use {Store, read, write}

  -- The last step of `open`: the chosen record is copied out.
  unfoldable pub opened :
      Option (List ℕ) → Option (List ℕ) → Option (List ℕ) → Store → Result (Files Store × List ℕ)
  opened left right old s = elim (select left right old) [
    | err e ↦ err e
    | ok (slot, r) ↦
        if reserve (length r.payload)
        then ok (record { backend = s; active = slot; generation = r.generation }, r.payload)
        else err memory
  ]

  -- `if left.is_none() && right.is_none()`: the legacy document is read.
  unfoldable pub open_legacy :
      Option (List ℕ) → Option (List ℕ) → Store → Result (Files Store × List ℕ)
  unfolding opened
  open_legacy left right s =
      if is_some (decoded left) || is_some (decoded right)
      then opened left right none s
      else (let (r, s') = read Slot.legacy s in
          elim r [ err e ↦ err e | ok old ↦ opened left right old s' ])

  unfoldable pub open_b : Option (List ℕ) → Store → Result (Files Store × List ℕ)
  unfolding open_legacy
  open_b left s =
      let (r, s') = read Slot.b s in elim r [ err e ↦ err e | ok right ↦ open_legacy left right s' ]

  unfoldable pub open_files : Store → Result (Files Store × List ℕ)
  unfolding open_b
  open_files s = let (r, s') = read Slot.a s in elim r [ err e ↦ err e | ok left ↦ open_b left s' ]

  -- Whether the bytes that were read back are exactly the generation that was being written.
  unfoldable pub is_written : ℕ → List ℕ → Option Record → Bool
  is_written generation bytes none = false
  is_written generation bytes (some r) = r.generation == generation && bytes_eq r.payload bytes

  -- After a failed write, the answer turns on what the slot holds now.
  unfoldable pub verify :
      Files Store → Slot → ℕ → List ℕ → Error → Store → Result (Unit {0}) × Files Store
  unfolding is_written
  verify f target generation bytes e s =
      let (r, s') = read target s in
      elim r [
        | err e' ↦ (err e', record f { backend = s' })
        | ok written ↦
            if is_written generation bytes (decoded written)
            then (ok tt, record { backend = s'; active = target; generation = generation })
            else (err e, record f { backend = s' })
      ]

  unfoldable pub write_slot :
      Files Store → Slot → ℕ → List ℕ → List ℕ → Result (Unit {0}) × Files Store
  unfolding verify
  write_slot f target generation bytes encoded =
      let (r, s) = write target encoded f.backend in
      elim r [
        | ok _ ↦ (ok tt, record { backend = s; active = target; generation = generation })
        | err e ↦ verify f target generation bytes e s
      ]

  -- `generation.checked_add(1)` fails at the largest `u64`.
  unfoldable pub save : Files Store → List ℕ → Result (Unit {0}) × Files Store
  unfolding write_slot
  save f bytes =
      let generation = f.generation + 1 in
      let target = inactive f.active in
      if ltb generation (2 ^ 64)
      then elim (encode reserve generation bytes) [
        | err e ↦ (err e, f)
        | ok encoded ↦ write_slot f target generation bytes encoded
      ]
      else (err full, f)
