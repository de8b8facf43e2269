-- ===== src/Matter/Ccm/Tests.antt =====
-- CCM at a concrete block function, for the theorems on plugins/matter/src/ccm.rs.
use stulp.Prelude.{
  ℕ, ◌≡◌, refl, List, [], ◌∷◌, ◌++◌, arith, length, take, replicate, length-take, length-append,
}
use stulp.Prelude.Results.{ok}
use stulp.Bytes.{to_be, to_le, bytes_eq}
use stulp.Matter.Buffer.{copy, append}
use stulp.Matter.Ccm.{
  seal, open_wire, mac, absorbed, write, write_loop, write_step, flush, pad, write_aad, aad_prefix,
  counter, crypt, crypt_loop, valid_nonce, started,
}
use stulp.Matter.Ccm.Absorb.{absorb_all, write_lem}
use stulp.Matter.Ccm.Open.{open_wire-seal, seal-open_wire}

-- A block function that turns a block round by one byte, and makes every list a block.
abbrev turn : List ℕ → List ℕ
turn [] = replicate 16 0
turn (b ∷ bs) = take 16 (bs ++ b ∷ replicate 16 0)

turn-block : (bytes : List ℕ) → length (turn bytes) ≡ 16
turn-block [] = refl
turn-block (b ∷ bs) =
    omega (arith, length-take 16 (bs ++ b ∷ replicate 16 0), length-append bs (b ∷ replicate 16 0))

abbrev iv : List ℕ
iv = 1 ∷ 2 ∷ 3 ∷ 4 ∷ 5 ∷ 6 ∷ 7 ∷ 8 ∷ 9 ∷ 10 ∷ 11 ∷ 12 ∷ 13 ∷ []

abbrev plain_text : List ℕ
plain_text = 40 ∷ 41 ∷ 42 ∷ []

abbrev sealed_text : List ℕ
sealed_text = 41 ∷ 43 ∷ 41 ∷ 34 ∷ 37 ∷ 6 ∷ 2 ∷ 2 ∷ 14 ∷ 14 ∷ 2 ∷ []

sealed : seal turn 8 iv plain_text (9 ∷ 9 ∷ []) ≡ ok sealed_text
unfolding seal mac absorbed write write_loop write_step flush pad write_aad aad_prefix counter crypt
    crypt_loop valid_nonce copy append to_be to_le
sealed = refl

open_wire-seal_example : open_wire turn 8 iv sealed_text (9 ∷ 9 ∷ []) ≡ ok plain_text
open_wire-seal_example =
    open_wire-seal turn turn-block 8 (omega arith) iv plain_text (9 ∷ 9 ∷ []) sealed_text sealed

opened : open_wire turn 8 iv sealed_text (9 ∷ 9 ∷ []) ≡ ok plain_text
unfolding open_wire mac absorbed write write_loop write_step flush pad write_aad aad_prefix counter
    crypt crypt_loop valid_nonce copy append to_be to_le bytes_eq
opened = refl

seal-open_wire_example : seal turn 8 iv plain_text (9 ∷ 9 ∷ []) ≡ ok sealed_text
seal-open_wire_example =
    seal-open_wire turn turn-block 8 (omega arith) iv plain_text (9 ∷ 9 ∷ []) sealed_text opened

write_lem_example : write turn started (1 ∷ 2 ∷ 3 ∷ []) ≡ absorb_all turn started (1 ∷ 2 ∷ 3 ∷ [])
write_lem_example =
    write_lem turn started (1 ∷ 2 ∷ 3 ∷ []) (record { room = omega arith; sixteen = refl })
