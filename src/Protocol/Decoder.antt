-- ===== src/Protocol/Decoder.antt =====
-- The incremental reader of frames, `Decoder` of crates/protocol/src/lib.rs, and the framing of
-- `encode`. A call returns its answer and the decoder that it leaves, also where it fails.
pub mod Fragments
pub mod RoundTrip
use stulp.Prelude.{
  ℕ, zero, ◌+◌, ◌-◌, ◌*◌, ◌^◌, Bool, true, false, not, ◌&&◌, ◌||◌, Option, none, some, List, [],
  ◌∷◌, ◌++◌, length, take, drop, set, ltb, leb, ◌==◌, if◌then◌else◌, min,
}
use stulp.Prelude.Results.{Error, Result, ok, err, full, memory, invalid, ◌>>=◌}
use stulp.Bytes.{to_be, from_be}

-- 8 << 20
abbrev pub max_frame : ℕ
max_frame = 8 * 2 ^ 20

-- `prefix` is the array of four bytes.
pub record Decoder : Type 0 where
  pub prefix : List ℕ
  pub prefix_len : ℕ
  pub body : List ℕ
  pub expected : Option ℕ
  pub limit : ℕ
  pub poisoned : Bool

unfoldable pub new : ℕ → Decoder
new limit = record {
  prefix = 0 ∷ 0 ∷ 0 ∷ 0 ∷ [];
  prefix_len = 0;
  body = [];
  expected = none;
  limit = limit;
  poisoned = false;
}

-- The loop over the length prefix; `used` counts the bytes taken.
unfoldable pub fill_prefix : Decoder → List ℕ → ℕ → Decoder × ℕ
fill_prefix d [] used = (d, used)
fill_prefix d (b ∷ bs) used =
    let more =
      fill_prefix (record d { prefix = set d.prefix d.prefix_len b; prefix_len = d.prefix_len + 1 })
        bs (used + 1) in
    if ltb d.prefix_len 4 then more else (d, used)

-- The rest of `feed` once the length of the body is known.
unfoldable pub feed_body : Decoder → ℕ → List ℕ → ℕ → Result ℕ × Decoder
feed_body d size bytes used =
    let remaining = size - length d.body in
    let count = min remaining (length bytes - used) in
    (ok (used + count), record d { body = d.body ++ take count (drop used bytes) })

-- A complete prefix announces the length, which is checked before anything is reserved.
unfoldable pub feed_size : (ℕ → Bool) → Decoder → List ℕ → ℕ → Option ℕ → Result ℕ × Decoder
unfolding feed_body
feed_size reserve d bytes used (some size) = feed_body d size bytes used
feed_size reserve d bytes used none =
    let size = from_be d.prefix in
    if size == 0 || ltb d.limit size || ltb max_frame size
    then (err (invalid "invalid frame length"), record d { poisoned = true })
    else if reserve size
    then feed_body (record d { expected = some size }) size bytes used
    else (err memory, record d { poisoned = true })

-- What `feed` does behind the loop over the prefix.
unfoldable pub feed_filled : (ℕ → Bool) → List ℕ → Decoder × ℕ → Result ℕ × Decoder
unfolding feed_size
feed_filled reserve bytes (d, used) =
    if ltb d.prefix_len 4 then (ok used, d) else feed_size reserve d bytes used d.expected

unfoldable pub feed : (ℕ → Bool) → Decoder → List ℕ → Result ℕ × Decoder
unfolding fill_prefix feed_filled
feed reserve d bytes =
    if d.poisoned
    then (err (invalid "protocol stream is poisoned"), d)
    else feed_filled reserve bytes (fill_prefix d bytes 0)

-- `self.expected != Some(self.body.len())`
unfoldable pub is_expected : Option ℕ → ℕ → Bool
is_expected none n = false
is_expected (some size) n = size == n

-- Named `take` in the source.
unfoldable pub take_frame : Decoder → Option (List ℕ) × Decoder
unfolding is_expected
take_frame d =
    if is_expected d.expected (length d.body)
    then (some d.body, record d { expected = none; prefix_len = 0; body = [] })
    else (none, d)

unfoldable pub finish : Decoder → Result (Unit {0})
finish d =
    if d.poisoned || not (d.prefix_len == 0)
    then err (invalid "truncated protocol frame")
    else ok tt

-- `encode`, with the text of the value as `json::to_string` answers it.
unfoldable pub encode : (ℕ → Bool) → Result (List ℕ) → Result (List ℕ)
encode reserve text = do
  body ← text
  if length body == 0 || ltb max_frame (length body)
      then err full
      else if leb (2 ^ 32) (length body)
      then err full
      else if reserve (length body + 4)
      then ok (to_be 4 (length body) ++ body)
      else err memory
