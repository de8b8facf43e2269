-- ===== src/Protocol/Tests.antt =====
-- Frames and requests at concrete values, for the theorems on crates/protocol.
use stulp.Prelude.{
  ℕ, ◌+◌, ◌≤◌, ◌<◌, ◌≡◌, refl, Bool, true, none, some, List, [], ◌∷◌, ◌++◌, arith, ◌==◌,
  if◌then◌else◌, length,
}
use stulp.Prelude.Results.{ok}
use stulp.Bytes.{to_be, from_be, to_le, from_le}
use stulp.Protocol.Decoder.{
  Decoder, feed, fill_prefix, feed_filled, feed_size, feed_body, take_frame, encode,
}
use stulp.Protocol.Decoder.Fragments.{counted_from, feed-append}
use stulp.Protocol.Decoder.RoundTrip.{IsIdle, new-IsIdle, take-feed-encode}
use stulp.Protocol.Session.{
  Session, Pending, begin, complete, disconnect, expire, owner_of, place, take_first, id_and_owner,
}
use stulp.Protocol.Session.Expiry.{expire-eq-none}
use stulp.Protocol.Session.Disconnect.{count, count_owned, count_pending, disconnect_lem}
use stulp.Protocol.Session.Ownership.{
  IsSound, new-IsSound, lookup, begin_lem, complete_lem, expire_lem,
}
use stulp.Protocol.Decoder
use stulp.Protocol.Session

abbrev granted : ℕ → Bool
granted n = true

abbrev body : List ℕ
body = 5 ∷ 6 ∷ []

abbrev frame : List ℕ
frame = 0 ∷ 0 ∷ 0 ∷ 2 ∷ 5 ∷ 6 ∷ []

framed : encode granted (ok body) ≡ ok frame
unfolding encode to_be to_le
framed = refl

take-feed-encode_example :
    let (used, d1) = feed granted (Decoder.new 100) (frame ++ 0 ∷ []) in
    let (out, d2) = take_frame d1 in
    (used ≡ ok 6) × (out ≡ some body) × IsIdle d2 × (d2.limit ≡ (Decoder.new 100).limit)
take-feed-encode_example =
    take-feed-encode granted (Decoder.new 100) body frame (0 ∷ []) (new-IsIdle 100) framed
      (unfold Decoder.new in omega arith) refl

abbrev half : List ℕ
half = 0 ∷ 0 ∷ 0 ∷ 2 ∷ 5 ∷ []

half_fed : (feed granted (Decoder.new 100) half).0 ≡ ok 5
unfolding feed fill_prefix feed_filled feed_size feed_body from_be from_le Decoder.new
half_fed = refl

feed-append_example :
    feed granted (Decoder.new 100) (half ++ 6 ∷ [])
    ≡ counted_from 5 (feed granted (feed granted (Decoder.new 100) half).1 (6 ∷ []))
feed-append_example = feed-append granted (Decoder.new 100) half (6 ∷ []) half_fed

-- A request of owner 3 at time 10 that waits for at most 5.
abbrev begun : Session
begun = (begin Session.new 3 10 5).1

begun_id : begin Session.new 3 10 5 ≡ (ok 1, begun)
unfolding begin place Session.new
begun_id = refl

begin_lem_example :
    IsSound begun
    × (1 ≡ Session.new.next + 1)
    × (begun.next ≡ 1)
    × (lookup 1 Session.new.pending ≡ none)
    × ((j : ℕ)
        → lookup j begun.pending ≡ (
            if 1 == j
            then some (record { id = 1; deadline = 15; owner = 3 })
            else lookup j Session.new.pending))
begin_lem_example = begin_lem Session.new begun 3 10 5 1 new-IsSound.0 begun_id

begun-IsSound : IsSound begun
begun-IsSound = begin_lem_example.0

complete_lem_example :
    let (owner, s') = complete begun 1 in
    (owner ≡ owner_of (lookup 1 begun.pending))
    × IsSound s'
    × ((complete s' 1).0 ≡ none)
    × ((j : ℕ) → lookup j s'.pending ≡ (if 1 == j then none else lookup j begun.pending))
complete_lem_example = complete_lem begun 1 begun-IsSound

expired : (expire begun 20).0 ≡ some (1, 3)
unfolding expire begin place take_first id_and_owner Session.new
expired = refl

expire_lem_example :
    IsSound (expire begun 20).1
    × ((p : Pending) × (lookup 1 begun.pending ≡ some p) × (p.deadline ≤ 20) × (p.owner ≡ 3))
    × ((j : ℕ)
        → lookup j (expire begun 20).1.pending ≡ (if 1 == j then none else lookup j begun.pending))
expire_lem_example = expire_lem begun 20 1 3 begun-IsSound expired

not_yet : (expire begun 12).0 ≡ none
unfolding expire begin place take_first id_and_owner Session.new
not_yet = refl

expire-eq-none_example :
    ((j : ℕ) (p : Pending) → lookup j begun.pending ≡ some p → 12 < p.deadline)
    × ((expire begun 12).1 ≡ begun)
expire-eq-none_example = expire-eq-none begun 12 not_yet

disconnect_lem_example :
    ((owner : ℕ) → count owner (disconnect begun).0 ≡ count_owned owner begun.pending)
    × (length (disconnect begun).0 ≡ count_pending begun.pending)
    × ((disconnect begun).1.next ≡ begun.next)
    × IsSound (disconnect begun).1
    × ((j : ℕ) → lookup j (disconnect begun).1.pending ≡ none)
disconnect_lem_example = disconnect_lem begun begun-IsSound
