-- ===== src/Protocol/Decoder/RoundTrip.antt =====
-- The decoder on a frame that `encode` made (crates/protocol/src/lib.rs).
use stulp.Prelude.{
  ℕ, zero, suc, ◌+◌, ◌-◌, ◌^◌, ◌≤◌, ◌<◌, ◌≡◌, refl, sym, ap, Bool, true, false, Option, none, some,
  List, [], ◌∷◌, ◌++◌, arith, length, drop, min, take-append, drop-append, length-append,
  append_assoc,
}
use stulp.Prelude.Results.{ok}
use stulp.Bytes.{to_be, from_be, to_le, from_le-to_le}
use stulp.Protocol.Decoder.Fragments.{fill_prefix_full, feed_sound, feed_filled_whole}
use stulp.Protocol.Decoder.{
  Decoder, new, max_frame, feed, feed_body, feed_size, fill_prefix, take_frame, encode,
}

-- Between two frames: nothing of a next frame was read. The four bytes of the prefix may be old.
pub record IsIdle (d : Decoder) : Type 0 where
  pub sound : d.poisoned ≡ false
  pub no_prefix : d.prefix_len ≡ 0
  pub no_body : d.body ≡ []
  pub no_length : d.expected ≡ none
  pub four : length d.prefix ≡ 4

pub new-IsIdle : (limit : ℕ) → IsIdle (new limit)
unfolding new
new-IsIdle limit = ground arith

frame_size : (n : ℕ) → n < 2 ^ 32 → from_be (to_be 4 n) ≡ n
unfolding from_be to_be to_le
frame_size n h = from_le-to_le 4 n (omega arith)

-- The prefix of four bytes is replaced whole.
prefix_read :
    (d : Decoder) (x0 x1 x2 x3 : ℕ) (prefix : List ℕ) (prefix_len : ℕ) (rest : List ℕ)
    → prefix_len ≡ 0
    → length prefix ≡ 4
    → fill_prefix
        (record d { prefix = prefix; prefix_len = prefix_len })
        (x0 ∷ x1 ∷ x2 ∷ x3 ∷ rest)
        0
      ≡ (record d { prefix = x0 ∷ x1 ∷ x2 ∷ x3 ∷ []; prefix_len = 4 }, 4)
unfolding fill_prefix
prefix_read d x0 x1 x2 x3 (p0 ∷ p1 ∷ p2 ∷ p3 ∷ []) zero rest e l =
    fill_prefix_full rest (record d { prefix = x0 ∷ x1 ∷ x2 ∷ x3 ∷ []; prefix_len = 4 }) 4 refl
prefix_read d x0 x1 x2 x3 [] n rest e l = absurd (omega arith)
prefix_read d x0 x1 x2 x3 (p0 ∷ []) n rest e l = absurd (omega arith)
prefix_read d x0 x1 x2 x3 (p0 ∷ p1 ∷ []) n rest e l = absurd (omega arith)
prefix_read d x0 x1 x2 x3 (p0 ∷ p1 ∷ p2 ∷ []) n rest e l = absurd (omega arith)
prefix_read d x0 x1 x2 x3 (p0 ∷ p1 ∷ p2 ∷ p3 ∷ p4 ∷ p) n rest e l = absurd (omega arith)
prefix_read d x0 x1 x2 x3 (p0 ∷ p1 ∷ p2 ∷ p3 ∷ []) (suc n) rest e l = absurd (omega arith)

-- The decoder after the prefix and the body, before the frame is taken.
abbrev loaded : Decoder → ℕ → List ℕ → Decoder
loaded d n body = record d { prefix = to_be 4 n; prefix_len = 4; expected = some n; body = body }

size_read :
    (reserve : ℕ → Bool) (d : Decoder) (size : ℕ) (bytes : List ℕ) (used : ℕ) (o : Option ℕ)
    → o ≡ none
    → from_be d.prefix ≡ size
    → 0 < size
    → size ≤ max_frame
    → size ≤ d.limit
    → reserve size ≡ true
    → feed_size reserve d bytes used o
      ≡ feed_body (record d { expected = some size }) size bytes used
unfolding feed_size
size_read reserve d size bytes used o eo e pos small fits granted = ground arith

body_read :
    (d : Decoder) (front body rest : List ℕ) (n : ℕ)
    → length front ≡ 4
    → n ≡ length body
    → d.body ≡ []
    → feed_body d n (front ++ (body ++ rest)) 4 ≡ (ok (4 + n), record d { body = body })
unfolding feed_body
body_read d front body rest n hf hn hb =
    let start : drop 4 (front ++ (body ++ rest)) ≡ body ++ rest =
      drop-append front (body ++ rest) 4 (sym hf) in
    let size : length (front ++ (body ++ rest)) ≡ 4 + (n + length rest) =
      omega (arith, length-append front (body ++ rest), length-append body rest) in
    let none_yet : length d.body ≡ 0 = ap length hb in
    let count : min (n - length d.body) (length (front ++ (body ++ rest)) - 4) ≡ n = omega arith in
    rw (feed_body, count, start, take-append body rest n hn) (rw hb)

feed_frame :
    (reserve : ℕ → Bool) (d : Decoder) (body rest : List ℕ)
    → IsIdle d
    → 0 < length body
    → length body ≤ max_frame
    → length body ≤ d.limit
    → reserve (length body) ≡ true
    → feed reserve d (to_be 4 (length body) ++ (body ++ rest))
      ≡ (ok (4 + length body), loaded d (length body) body)
feed_frame reserve d body rest idle pos small fits granted =
    let n = length body in
    let bytes = to_be 4 n ++ (body ++ rest) in
    let d4 : Decoder = record d { prefix = to_be 4 n; prefix_len = 4 } in
    let filled : fill_prefix d bytes 0 ≡ (d4, 4) =
      unfold to_be to_le in
      prefix_read d _ _ _ _ d.prefix d.prefix_len (body ++ rest) idle.no_prefix idle.four in
    rw
      (
        feed_sound reserve d bytes idle.sound,
        filled,
        feed_filled_whole reserve bytes d4 4 refl,
        size_read reserve d4 n bytes 4 d.expected idle.no_length (frame_size n (omega arith)) pos
            small fits granted,
      )
      (body_read (record d4 { expected = some n }) (to_be 4 n) body rest n
        (unfold to_be to_le in refl) refl idle.no_body)

encode_parts :
    (reserve : ℕ → Bool) (body frame : List ℕ)
    → encode reserve (ok body) ≡ ok frame
    → (0 < length body) × (length body ≤ max_frame) × (frame ≡ to_be 4 (length body) ++ body)
unfolding encode
encode_parts reserve body frame h = ground arith

four_bytes : (n : ℕ) → length (to_be 4 n) ≡ 4
unfolding to_be to_le
four_bytes n = refl

take_loaded :
    (d : Decoder) (body : List ℕ)
    → IsIdle d
    → let (out, d2) = take_frame (loaded d (length body) body) in
      (out ≡ some body) × IsIdle d2 × (d2.limit ≡ d.limit)
unfolding take_frame to_be to_le
take_loaded d body idle = ground arith

-- A decoder between two frames that is fed a frame, with whatever follows it, takes exactly the
-- frame's bytes, hands out its body, and is between two frames again. The frame must be within
-- the decoder's limit, and the allocator must grant the body.
pub take-feed-encode :
    (reserve : ℕ → Bool) (d : Decoder) (body frame rest : List ℕ)
    → IsIdle d
    → encode reserve (ok body) ≡ ok frame
    → length body ≤ d.limit
    → reserve (length body) ≡ true
    → let (used, d1) = feed reserve d (frame ++ rest) in
      let (out, d2) = take_frame d1 in
      (used ≡ ok (length frame)) × (out ≡ some body) × IsIdle d2 × (d2.limit ≡ d.limit)
take-feed-encode reserve d body frame rest idle h fits granted =
    let (pos, small, e) = encode_parts reserve body frame h in
    let read = feed_frame reserve d body rest idle pos small fits granted in
    let whole : frame ++ rest ≡ to_be 4 (length body) ++ (body ++ rest) =
      rw e (append_assoc (to_be 4 (length body)) body rest) in
    let size : length frame ≡ 4 + length body =
      rw e (omega (arith, length-append (to_be 4 (length body)) body, four_bytes (length body))) in
    let (out, now, same) = take_loaded d body idle in rw (whole, read, size) (refl, out, now, same)
