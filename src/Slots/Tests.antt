-- ===== src/Slots/Tests.antt =====
-- A store in memory and records in it, for the theorems on crates/core/src/slots.rs.
use stulp.Prelude.{
  ℕ, ◌-◌, ◌^◌, ◌≡◌, ◌≢◌, ◌⊎◌, inl, inr, sym, ◌∙◌, refl, Bool, true, Option, none, some, List, [],
  ◌∷◌, ◌++◌, arith, ◌↔◌,
}
use stulp.Prelude.Results.{ok, err, full, conflict}
use stulp.Bytes.{to_le, from_le, bytes_eq, slice, AreBytes}
use stulp.Slots.Codec.{Slot, Record, checksum, prefix_of, encode, decode, decoded, select}
use stulp.Slots.RoundTrip.{decode-encode, encode-decode}
use stulp.Slots.Torn.{decode_torn, select_torn}
use stulp.Slots.Selection.{IsNewest, select-IsNewest, select-conflict, select_answers}
use stulp.Slots.Files.{Backend, Files, save, write_slot, open_files}
use stulp.Slots.Files.Durable.{IsReliable, Holds, save-Holds, save_fails}
use stulp.Slots.Files.Reopen.{open-Holds, open-save}

abbrev granted : ℕ → Bool
granted n = true

abbrev first : List ℕ
first = 7 ∷ 8 ∷ []

abbrev second : List ℕ
second = 9 ∷ []

-- The record of `first` at a generation, as it stands in a slot.
abbrev image : ℕ → List ℕ
image generation =
    prefix_of generation 2 ++ (to_le 4 (checksum (prefix_of generation 2) first) ++ first)

encode-image : encode granted 1 first ≡ ok (image 1)
unfolding encode
encode-image = refl

decode-image : decode (image 1) ≡ some (record { generation = 1; payload = first })
decode-image = decode-encode granted 1 first (image 1) (omega arith) encode-image

decode-encode_example : decode (image 1) ≡ some (record { generation = 1; payload = first })
decode-encode_example = decode-encode granted 1 first (image 1) (omega arith) encode-image

image-AreBytes : AreBytes (image 1)
unfolding checksum to_le
image-AreBytes = ground arith

encode-decode_example : encode granted 1 first ≡ ok (image 1)
encode-decode_example =
    encode-decode granted (image 1) (record { generation = 1; payload = first }) image-AreBytes
      decode-image refl

-- All of the record but its last byte.
abbrev front : List ℕ
front = prefix_of 1 2 ++ (to_le 4 (checksum (prefix_of 1 2) first) ++ 7 ∷ [])

encode-front : encode granted 1 first ≡ ok (front ++ 8 ∷ [])
unfolding encode to_le
encode-front = refl

decode_torn_example : decode front ≡ none
decode_torn_example = decode_torn granted 1 first front 8 [] (omega arith) encode-front

select_torn_example :
    (select (some front) (some (image 1)) none
      ≡ ok (Slot.b, record { generation = 1; payload = first }))
    × (select (some (image 1)) (some front) none
        ≡ ok (Slot.a, record { generation = 1; payload = first }))
select_torn_example =
    select_torn granted granted 1 1 first first front (image 1) 8 [] none (omega arith)
      (omega arith) encode-front encode-image

select_answers_example :
    ((slot : Slot) × (r : Record) × (select none (some (image 1)) none ≡ ok (slot, r)))
    ⊎ (select none (some (image 1)) none
        ≡ err (conflict "document slots have conflicting generations"))
select_answers_example =
    select_answers none (some (image 1)) none (inr (inl (λ e. absurd (cc (sym decode-image ∙ e)))))

select-image :
    select (some (image 1)) none none ≡ ok (Slot.a, record { generation = 1; payload = first })
unfolding select decode slice bytes_eq from_le checksum to_le
select-image = refl

select-IsNewest_example :
    IsNewest (some (image 1)) none none Slot.a (record { generation = 1; payload = first })
select-IsNewest_example =
    select-IsNewest (some (image 1)) none none Slot.a (record { generation = 1; payload = first })
      select-image

-- Another document at the same generation.
abbrev rival : List ℕ
rival = prefix_of 1 1 ++ (to_le 4 (checksum (prefix_of 1 1) second) ++ second)

select-conflict_example :
    (select (some (image 1)) (some rival) none
      ≡ err (conflict "document slots have conflicting generations"))
    ↔ ((l : Record) × (r : Record) × (decoded (some (image 1)) ≡ some l)
        × (decoded (some rival) ≡ some r)
        × (l.generation ≡ r.generation)
        × (l.payload ≢ r.payload))
select-conflict_example = select-conflict (some (image 1)) (some rival) none

-- The two documents do conflict.
conflict_test :
    select (some (image 1)) (some rival) none
    ≡ err (conflict "document slots have conflicting generations")
unfolding select decode slice bytes_eq from_le checksum to_le
conflict_test = refl

abbrev Disk : Type 0
Disk = Slot → Option (List ℕ)

abbrev put : Slot → List ℕ → Disk → Disk
put Slot.a bytes s Slot.a = some bytes
put Slot.a bytes s Slot.b = s Slot.b
put Slot.a bytes s Slot.legacy = s Slot.legacy
put Slot.b bytes s Slot.a = s Slot.a
put Slot.b bytes s Slot.b = some bytes
put Slot.b bytes s Slot.legacy = s Slot.legacy
put Slot.legacy bytes s Slot.a = s Slot.a
put Slot.legacy bytes s Slot.b = s Slot.b
put Slot.legacy bytes s Slot.legacy = some bytes

abbrev memory_backend : Backend
memory_backend = record {
  Store = Disk;
  read = λ slot s. (ok (s slot), s);
  write = λ slot bytes s. (ok tt, put slot bytes s);
}

abbrev contents : Disk → Slot → Option (List ℕ)
contents s = s

others : (slot at : Slot) (bytes : List ℕ) (s : Disk) → slot ≢ at → put slot bytes s at ≡ s at
others Slot.a Slot.a bytes s h = absurd (h refl)
others Slot.a Slot.b bytes s h = refl
others Slot.a Slot.legacy bytes s h = refl
others Slot.b Slot.a bytes s h = refl
others Slot.b Slot.b bytes s h = absurd (h refl)
others Slot.b Slot.legacy bytes s h = refl
others Slot.legacy Slot.a bytes s h = refl
others Slot.legacy Slot.b bytes s h = refl
others Slot.legacy Slot.legacy bytes s h = absurd (h refl)

stores : (slot : Slot) (bytes : List ℕ) (s : Disk) → put slot bytes s slot ≡ some bytes
stores Slot.a bytes s = refl
stores Slot.b bytes s = refl
stores Slot.legacy bytes s = refl

answers : (found given : Option (List ℕ)) → ok given ≡ ok found → found ≡ given
answers found given h = cc

memory-IsReliable : IsReliable memory_backend contents
memory-IsReliable = record {
  read_keeps = λ slot at s. refl;
  read_answers = λ slot s found h. answers found (s slot) h;
  write_others = others;
  write_stores = λ slot bytes s done h. stores slot bytes s;
}

-- The first slot holds generation 1, the others are not there.
abbrev disk : Disk
disk Slot.a = some (image 1)
disk Slot.b = none
disk Slot.legacy = none

abbrev files : Files Disk
files = record { backend = disk; active = Slot.a; generation = 1 }

files-Holds : Holds contents files first
files-Holds = (decode-image, λ s h. absurd (cc h))

saved : (save granted memory_backend files second).0 ≡ ok tt
unfolding save write_slot encode
saved = refl

save-Holds_example :
    Holds contents (save granted memory_backend files second).1 second
    × ((save granted memory_backend files second).1.generation ≡ 2)
save-Holds_example =
    save-Holds granted memory_backend contents memory-IsReliable files first second files-Holds
      saved

abbrev last_files : Files Disk
last_files = record { backend = disk; active = Slot.a; generation = 2 ^ 64 - 1 }

refused : (save granted memory_backend last_files second).0 ≡ err full
unfolding save
refused = refl

save_fails_example :
    let f' = (save granted memory_backend last_files second).1 in
    (f'.active ≡ Slot.a)
    × (f'.generation ≡ 2 ^ 64 - 1)
    × (contents f'.backend Slot.a ≡ some (image 1))
save_fails_example =
    save_fails granted memory_backend contents memory-IsReliable last_files second full refused

found_first : open_files granted memory_backend disk ≡ ok (files, first)
unfolding open_files select decode slice bytes_eq from_le checksum to_le
found_first = refl

open-Holds_example :
    Holds contents files first × ((at : Slot) → contents files.backend at ≡ contents disk at)
open-Holds_example =
    open-Holds granted memory_backend contents memory-IsReliable disk files first found_first

found_second :
    open_files granted memory_backend (save granted memory_backend files second).1.backend
    ≡ ok (
      record {
        backend = (save granted memory_backend files second).1.backend;
        active = Slot.b;
        generation = 2;
      },
      second,
    )
unfolding open_files save select encode decode slice bytes_eq from_le checksum to_le
found_second = refl

open-save_example : second ≡ second
open-save_example =
    open-save granted memory_backend contents memory-IsReliable files
      (record {
        backend = (save granted memory_backend files second).1.backend;
        active = Slot.b;
        generation = 2;
      })
      first second second files-Holds saved found_second
