-- ===== src/Matter/Ccm.antt =====
-- AES-CCM, plugins/matter/src/ccm.rs. The cipher `Aes128` of the crate `aes` is a parameter:
-- `encrypt` is its `encrypt_block` at the key. An array of 16 bytes is a list. That a buffer is
-- wiped is not modelled.
pub mod Open
pub mod Absorb
pub mod Filled
pub mod Tests
use stulp.Prelude.{
  ℕ, zero, suc, ◌+◌, ◌-◌, ◌*◌, ◌/◌, ◌%◌, ◌^◌, Bool, true, false, not, ◌&&◌, ◌||◌, List, [], ◌∷◌,
  ◌++◌, length, take, drop, replicate, ltb, leb, ◌==◌, if◌then◌else◌, bit_or, bit_xor, min,
}
use stulp.Prelude.Results.{Result, ok, err, invalid, guard, ◌>>=◌, ◌>>◌}
use stulp.Bytes.{to_be, bytes_eq}
use stulp.Matter.Buffer.{copy}
use stulp.Matter.Message.{is_empty}

-- The running authentication, `Mac`, without its cipher.
pub record Mac : Type 0 where
  pub state : List ℕ
  pub partial : List ℕ
  pub used : ℕ

-- `zip` and `^=`: the bytes without a partner stay.
abbrev pub xor_stream : List ℕ → List ℕ → List ℕ
xor_stream [] ks = []
xor_stream (b ∷ bs) [] = b ∷ bs
xor_stream (b ∷ bs) (k ∷ ks) = bit_xor b k ∷ xor_stream bs ks

-- The tag sizes that `Ccm::new` takes.
unfoldable pub is_tag_size : ℕ → Bool
is_tag_size tag = (leb 4 tag && leb tag 16) && tag % 2 == 0

unfoldable pub valid_nonce : List ℕ → Result (Unit {0})
valid_nonce nonce =
    guard (leb 7 (length nonce) && leb (length nonce) 13)
      (invalid "CCM nonce must be 7 to 13 bytes")

-- A block that starts with its flags and the nonce, and ends with a number.
abbrev pub block_of : ℕ → List ℕ → ℕ → List ℕ
block_of flags nonce value =
    (flags ∷ nonce) ++ (replicate (13 - length nonce) 0 ++ to_be 2 (value % 2 ^ 16))

abbrev pub started : Mac
started = record { state = replicate 16 0; partial = replicate 16 0; used = 0 }

-- The length of the associated data in front of it.
unfoldable pub aad_prefix : ℕ → List (List ℕ)
aad_prefix n = if ltb n 0xff00 then to_be 2 n ∷ [] else (255 ∷ 254 ∷ []) ∷ to_be 4 n ∷ []

-- The block with as many of the bytes as it has room for.
abbrev pub filled : Mac → List ℕ → Mac
filled m bytes =
    let n = min (16 - m.used) (length bytes) in
    record m {
      partial = (take m.used m.partial ++ take n bytes) ++ drop (m.used + n) m.partial;
      used = m.used + n;
    }

-- The block with zeros in its rest.
abbrev pub zero_filled : Mac → Mac
zero_filled m = record m { partial = take m.used m.partial ++ replicate (16 - m.used) 0 }

module _ (encrypt : List ℕ → List ℕ) where
  unfoldable pub flush : Mac → Mac
  flush m = record m { state = encrypt (xor_stream m.state m.partial); used = 0 }

  -- One turn of the loop of `write`, where bytes are left.
  unfoldable pub write_step : Mac → List ℕ → Mac
  unfolding flush
  write_step m bytes =
      if (filled m bytes).used == 16 then flush (filled m bytes) else filled m bytes

  -- `while !bytes.is_empty()`, for a number of turns.
  unfoldable pub write_loop : ℕ → Mac → List ℕ → Mac
  unfolding write_step
  write_loop zero m bytes = m
  write_loop (suc turns) m [] = m
  write_loop (suc turns) m (b ∷ bs) =
      write_loop turns (write_step m (b ∷ bs)) (drop (min (16 - m.used) (length (b ∷ bs))) (b ∷ bs))

  unfoldable pub write : Mac → List ℕ → Mac
  unfolding write_loop
  write m bytes = write_loop (length bytes) m bytes

  unfoldable pub pad : Mac → Mac
  unfolding flush
  pad m = if ltb 0 m.used then flush (zero_filled m) else m

  abbrev pub write_all : Mac → List (List ℕ) → Mac
  write_all m [] = m
  write_all m (bytes ∷ rest) = write_all (write m bytes) rest

  unfoldable pub write_aad : Mac → List ℕ → Mac
  unfolding write pad aad_prefix
  write_aad m [] = m
  write_aad m (b ∷ bs) = pad (write (write_all m (aad_prefix (length (b ∷ bs)))) (b ∷ bs))

  module _ (tag : ℕ) where
    abbrev pub first_flags : List ℕ → List ℕ → ℕ
    first_flags nonce aad =
        bit_or (bit_or (14 - length nonce) ((tag - 2) / 2 * 2 ^ 3)) (if is_empty aad then 0 else 64)

    -- The state behind the first block, the associated data and the plain text.
    unfoldable pub absorbed : List ℕ → List ℕ → List ℕ → Mac
    unfolding write pad write_aad
    absorbed nonce plain aad =
        let begun = write started (block_of (first_flags nonce aad) nonce (length plain)) in
        pad (write (write_aad begun aad) plain)

    unfoldable pub mac : List ℕ → List ℕ → List ℕ → Result (List ℕ)
    unfolding valid_nonce absorbed
    mac nonce plain aad = do
      valid_nonce nonce
      guard (not (ltb 65535 (length plain) || ltb 65535 (length aad)))
          (invalid "CCM input too long")
      ok (absorbed nonce plain aad).state

  unfoldable pub counter : List ℕ → ℕ → List ℕ
  counter nonce value = encrypt (block_of (14 - length nonce) nonce value)

  -- The chunks of 16 from the one at a place on.
  unfoldable pub crypt_loop : ℕ → List ℕ → ℕ → List ℕ → List ℕ
  unfolding counter
  crypt_loop zero nonce i bytes = bytes
  crypt_loop (suc turns) nonce i [] = []
  crypt_loop (suc turns) nonce i (b ∷ bs) =
      xor_stream (take 16 (b ∷ bs)) (counter nonce (i + 1))
      ++ crypt_loop turns nonce (i + 1) (drop 16 (b ∷ bs))

  unfoldable pub crypt : List ℕ → List ℕ → List ℕ
  unfolding crypt_loop
  crypt nonce bytes = crypt_loop (length bytes) nonce 0 bytes

  module _ (tag : ℕ) where
    unfoldable pub seal : List ℕ → List ℕ → List ℕ → Result (List ℕ)
    unfolding counter
    seal nonce plain aad = do
      sum ← mac tag nonce plain aad
      out ← copy plain
      ok (crypt nonce out ++ take tag (xor_stream sum (counter nonce 0)))

    unfoldable pub open_wire : List ℕ → List ℕ → List ℕ → Result (List ℕ)
    unfolding valid_nonce counter bytes_eq
    open_wire nonce wire aad = do
      valid_nonce nonce
      guard (leb tag (length wire)) (invalid "CCM ciphertext shorter than MIC")
      out ← copy (take (length wire - tag) wire)
      let plain = crypt nonce out in
          do
            sum ← mac tag nonce plain aad
            guard
                (bytes_eq (take tag (xor_stream sum (counter nonce 0)))
                  (drop (length wire - tag) wire))
                (invalid "CCM authentication failed")
            ok plain
