-- ===== src/Protocol/Decoder/Fragments.antt =====
-- Input that comes in parts to the decoder (crates/protocol/src/lib.rs).
use stulp.Prelude.{
  ℕ, ◌+◌, ◌-◌, ◌≤◌, ◌<◌, ◌≡◌, refl, sym, ap, ◌∙◌, Bool, Bool-cases, inl, inr, true, false, Option,
  none, some, List, [], ◌∷◌, ◌++◌, arith, length, take, drop, ltb, if◌then◌else◌, min, set,
  length-append, drop-append_le, drop-append_ge, take-append_ge, length-drop, take-all,
  append_assoc,
}
use stulp.Prelude.Results.{Result, ok, err}
use native.Mathlib.Nat.{add_assoc, add_comm, add-zero}
use stulp.Bytes.{from_be}
use stulp.Protocol.Decoder.{Decoder, feed, feed_body, feed_size, feed_filled, fill_prefix}

-- An answer about the later bytes, counted from the first byte.
abbrev pub counted_from : ℕ → Result ℕ × Decoder → Result ℕ × Decoder
counted_from n (ok used, d) = (ok (n + used), d)
counted_from n (err e, d) = (err e, d)

fill_prefix_offset :
    (xs : List ℕ) (d : Decoder) (used n : ℕ)
    → fill_prefix d xs (n + used) ≡ ((fill_prefix d xs used).0, n + (fill_prefix d xs used).1)
unfolding fill_prefix
fill_prefix_offset [] d used n = refl
fill_prefix_offset (x ∷ xs) d used n =
    let next : Decoder = record d {
      prefix = set d.prefix d.prefix_len x;
      prefix_len = d.prefix_len + 1;
    } in
    ground (arith, fill_prefix_offset xs next (used + 1) n, add_assoc n used 1)

-- The bytes that the prefix takes, and what it leaves alone.
fill_prefix_lem :
    (xs : List ℕ) (d : Decoder) (used : ℕ)
    → ((fill_prefix d xs used).0.poisoned ≡ d.poisoned)
      × (used ≤ (fill_prefix d xs used).1)
      × ((fill_prefix d xs used).1 ≤ used + length xs)
      × ((fill_prefix d xs used).0.prefix_len < 4 → (fill_prefix d xs used).1 ≡ used + length xs)
unfolding fill_prefix
fill_prefix_lem [] d used = (refl, omega arith, omega arith, λ h. omega arith)
fill_prefix_lem (x ∷ xs) d used =
    let next : Decoder = record d {
      prefix = set d.prefix d.prefix_len x;
      prefix_len = d.prefix_len + 1;
    } in
    let (p, l, u, w) = fill_prefix_lem xs next (used + 1) in
    (ground arith, ground arith, ground arith, λ h. ground arith)

pub fill_prefix_full :
    (xs : List ℕ) (d : Decoder) (used : ℕ)
    → ltb d.prefix_len 4 ≡ false
    → fill_prefix d xs used ≡ (d, used)
unfolding fill_prefix
fill_prefix_full [] d used h = refl
fill_prefix_full (x ∷ xs) d used h = rw h

fill_prefix-append :
    (xs ys : List ℕ) (d : Decoder) (used : ℕ)
    → fill_prefix d (xs ++ ys) used ≡ (
        if ltb (fill_prefix d xs used).0.prefix_len 4
        then fill_prefix (fill_prefix d xs used).0 ys (used + length xs)
        else fill_prefix d xs used)
unfolding fill_prefix
fill_prefix-append [] ys d used = ground (arith, fill_prefix_full ys d used, add-zero used)
fill_prefix-append (x ∷ xs) ys d used =
    let next : Decoder = record d {
      prefix = set d.prefix d.prefix_len x;
      prefix_len = d.prefix_len + 1;
    } in
    ground (arith, fill_prefix-append xs ys next (used + 1), add_assoc used 1 (length xs))

feed_body-append :
    (d : Decoder) (size : ℕ) (xs ys : List ℕ) (u : ℕ)
    → u ≤ length xs
    → length xs - u ≤ size - length d.body
    → feed_body d size (xs ++ ys) u
      ≡ counted_from (length xs) (feed_body (feed_body d size xs u).1 size ys 0)
unfolding feed_body
feed_body-append d size xs ys u h room =
    let n = length xs - u in
    let k = min (size - length d.body - n) (length ys) in
    let whole : length (drop u xs) ≡ n = length-drop u xs in
    let first : min (size - length d.body) (length xs - u) ≡ n = omega arith in
    let all : take n (drop u xs) ≡ drop u xs = take-all n (drop u xs) (omega arith) in
    let now : min (size - length d.body) (length (xs ++ ys) - u) ≡ length (drop u xs) + k =
      omega (arith, length-append xs ys) in
    let later : min (size - length (d.body ++ drop u xs)) (length ys - 0) ≡ k =
      omega (arith, length-append d.body (drop u xs)) in
    let split : take (length (drop u xs) + k) (drop u xs ++ ys) ≡ drop u xs ++ take k ys =
      take-append_ge _ k (drop u xs) ys refl in
    let total : u + (length (drop u xs) + k) ≡ length xs + (0 + k) = omega arith in
    rw (feed_body, first, all, now, later, drop-append_le u xs ys h, split, total, append_assoc)

feed_body-skip :
    (d : Decoder) (size : ℕ) (xs ys : List ℕ) (v : ℕ)
    → feed_body d size (xs ++ ys) (length xs + v) ≡ counted_from (length xs) (feed_body d size ys v)
unfolding feed_body
feed_body-skip d size xs ys v =
    let same : drop (length xs + v) (xs ++ ys) ≡ drop v ys =
      drop-append_ge (length xs + v) v xs ys refl in
    let left : length (xs ++ ys) - (length xs + v) ≡ length ys - v =
      omega (arith, length-append xs ys) in
    rw (same, left, add_assoc)

feed_size-skip :
    (reserve : ℕ → Bool) (d : Decoder) (xs ys : List ℕ) (v : ℕ) (o : Option ℕ)
    → feed_size reserve d (xs ++ ys) (length xs + v) o
      ≡ counted_from (length xs) (feed_size reserve d ys v o)
unfolding feed_size
feed_size-skip reserve d xs ys v (some size) = feed_body-skip d size xs ys v
feed_size-skip reserve d xs ys v none =
    let size = from_be d.prefix in
    let next : Decoder = record d { expected = some size } in
    ground (arith, feed_body-skip next size xs ys v)

feed_filled-skip :
    (reserve : ℕ → Bool) (d : Decoder) (xs ys : List ℕ) (v : ℕ)
    → feed_filled reserve (xs ++ ys) (d, length xs + v)
      ≡ counted_from (length xs) (feed_filled reserve ys (d, v))
unfolding feed_filled
feed_filled-skip reserve d xs ys v = ground (arith, feed_size-skip reserve d xs ys v d.expected)

-- With a whole prefix and a known length, `feed` only adds to the body.
pub feed_waiting :
    (reserve : ℕ → Bool) (d : Decoder) (size : ℕ) (ys : List ℕ)
    → d.expected ≡ some size
    → d.poisoned ≡ false
    → ltb d.prefix_len 4 ≡ false
    → feed reserve d ys ≡ feed_body d size ys 0
unfolding feed
feed_waiting reserve d size ys he hp hl = ground (arith, fill_prefix_full ys d 0)

room_left :
    (d : Decoder) (size : ℕ) (xs : List ℕ) (u : ℕ)
    → (feed_body d size xs u).0 ≡ ok (length xs)
    → length xs - u ≤ size - length d.body
unfolding feed_body
room_left d size xs u h = ground arith

-- A decoder that waits for more of its body goes on where it stopped.
feed_body-feed :
    (reserve : ℕ → Bool) (d : Decoder) (size : ℕ) (xs ys : List ℕ) (u : ℕ)
    → d.expected ≡ some size
    → d.poisoned ≡ false
    → ltb d.prefix_len 4 ≡ false
    → u ≤ length xs
    → (feed_body d size xs u).0 ≡ ok (length xs)
    → feed_body d size (xs ++ ys) u
      ≡ counted_from (length xs) (feed reserve (feed_body d size xs u).1 ys)
unfolding feed_body
feed_body-feed reserve d size xs ys u he hp hl hu h =
    feed_body-append d size xs ys u hu (room_left d size xs u h)
    ∙ ap (counted_from (length xs))
        (sym (feed_waiting reserve (feed_body d size xs u).1 size ys he hp hl))

feed_size-feed :
    (reserve : ℕ → Bool) (d : Decoder) (xs ys : List ℕ) (u : ℕ) (o : Option ℕ)
    → d.expected ≡ o
    → d.poisoned ≡ false
    → ltb d.prefix_len 4 ≡ false
    → u ≤ length xs
    → (feed_size reserve d xs u o).0 ≡ ok (length xs)
    → feed_size reserve d (xs ++ ys) u o
      ≡ counted_from (length xs) (feed reserve (feed_size reserve d xs u o).1 ys)
unfolding feed_size
feed_size-feed reserve d xs ys u (some size) he hp hl hu h =
    feed_body-feed reserve d size xs ys u he hp hl hu h
feed_size-feed reserve d xs ys u none he hp hl hu h =
    let size = from_be d.prefix in
    let next : Decoder = record d { expected = some size } in
    ground (arith, feed_body-feed reserve next size xs ys u refl hp hl hu)

pub feed_sound :
    (reserve : ℕ → Bool) (d : Decoder) (bytes : List ℕ)
    → d.poisoned ≡ false
    → feed reserve d bytes ≡ feed_filled reserve bytes (fill_prefix d bytes 0)
unfolding feed
feed_sound reserve d bytes h = rw h

feed_filled_short :
    (reserve : ℕ → Bool) (bytes : List ℕ) (d : Decoder) (u : ℕ)
    → ltb d.prefix_len 4 ≡ true
    → feed_filled reserve bytes (d, u) ≡ (ok u, d)
unfolding feed_filled
feed_filled_short reserve bytes d u h = rw h

pub feed_filled_whole :
    (reserve : ℕ → Bool) (bytes : List ℕ) (d : Decoder) (u : ℕ)
    → ltb d.prefix_len 4 ≡ false
    → feed_filled reserve bytes (d, u) ≡ feed_size reserve d bytes u d.expected
unfolding feed_filled
feed_filled_whole reserve bytes d u h = rw h

module _ (reserve : ℕ → Bool) (d : Decoder) (xs ys : List ℕ) where
  -- The prefix is still incomplete after `xs`.
  short_prefix :
      d.poisoned ≡ false
      → ltb (fill_prefix d xs 0).0.prefix_len 4 ≡ true
      → feed reserve d (xs ++ ys) ≡ counted_from (length xs) (feed reserve (feed reserve d xs).1 ys)
  short_prefix fine open_ =
      let d1 = (fill_prefix d xs 0).0 in
      let (clean, _, _, _) = fill_prefix_lem xs d 0 in
      let first : feed reserve d xs ≡ ((ok (fill_prefix d xs 0).1), d1) =
        feed_sound reserve d xs fine ∙ feed_filled_short reserve xs d1 _ open_ in
      let filled : fill_prefix d (xs ++ ys) 0
          ≡ ((fill_prefix d1 ys 0).0, length xs + (fill_prefix d1 ys 0).1) =
        fill_prefix-append xs ys d 0
        ∙ rw open_ (rw (add_comm 0 (length xs)) (fill_prefix_offset ys d1 0 (length xs))) in
      let last : feed reserve (feed reserve d xs).1 ys
          ≡ feed_filled reserve ys (fill_prefix d1 ys 0) =
        rw first (feed_sound reserve d1 ys (clean ∙ fine)) in
      feed_sound reserve d (xs ++ ys) fine
      ∙ rw filled (feed_filled-skip reserve (fill_prefix d1 ys 0).0 xs ys (fill_prefix d1 ys 0).1)
      ∙ ap (counted_from (length xs)) (sym last)

  -- The prefix is complete, so what is left of `xs` is body.
  whole_prefix :
      d.poisoned ≡ false
      → ltb (fill_prefix d xs 0).0.prefix_len 4 ≡ false
      → (feed reserve d xs).0 ≡ ok (length xs)
      → feed reserve d (xs ++ ys) ≡ counted_from (length xs) (feed reserve (feed reserve d xs).1 ys)
  whole_prefix fine shut h =
      let d1 = (fill_prefix d xs 0).0 in
      let u = (fill_prefix d xs 0).1 in
      let (clean, _, within, _) = fill_prefix_lem xs d 0 in
      let first : feed reserve d xs ≡ feed_size reserve d1 xs u d1.expected =
        feed_sound reserve d xs fine ∙ feed_filled_whole reserve xs d1 u shut in
      let filled : fill_prefix d (xs ++ ys) 0 ≡ (d1, u) = fill_prefix-append xs ys d 0 ∙ rw shut in
      let rest =
        feed_size-feed reserve d1 xs ys u d1.expected refl (clean ∙ fine) shut (omega arith)
          (rw first at h) in
      rw
        (
          feed_sound reserve d (xs ++ ys) fine,
          filled,
          feed_filled_whole reserve (xs ++ ys) d1 u shut,
          first,
        )
        rest

-- Bytes that a decoder has consumed whole can be fed together with what follows: the decoder that
-- is left is the same, and so is the answer, with those bytes counted in.
pub feed-append :
    (reserve : ℕ → Bool) (d : Decoder) (xs ys : List ℕ)
    → (feed reserve d xs).0 ≡ ok (length xs)
    → feed reserve d (xs ++ ys) ≡ counted_from (length xs) (feed reserve (feed reserve d xs).1 ys)
unfolding feed
feed-append reserve d xs ys h = elim (Bool-cases d.poisoned) [
  | inl bad ↦ absurd (ground arith)
  | inr fine ↦ elim (Bool-cases (ltb (fill_prefix d xs 0).0.prefix_len 4)) [
    | inl open_ ↦ short_prefix reserve d xs ys fine open_
    | inr shut ↦ whole_prefix reserve d xs ys fine shut h
  ]
]
