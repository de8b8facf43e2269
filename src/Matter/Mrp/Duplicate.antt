-- ===== src/Matter/Mrp/Duplicate.antt =====
-- Counters and messages that are duplicates, plugins/matter/src/mrp.rs.
use stulp.Prelude.{
  ℕ, ◌-◌, ◌*◌, ◌%◌, ◌^◌, ◌≤◌, ◌<◌, ◌≡◌, ◌≢◌, refl, ap, Bool, true, false, not, ◌&&◌, Option, none,
  some, List, arith, set, ltb, leb, ◌==◌, inl, inr, Bool-cases, Option-cases, String, bit_and,
  bit_or,
}
use stulp.Matter.Message.{Message, Cipher}
use stulp.Matter.Mrp.{Node, Exchange, Event}
use stulp.Matter.Mrp.Receive.{
  is_ack, exchange_of, is_answer, settle, mark_exchange, publish, announced, deliver, dispatch,
}
use stulp.Matter.Mrp.Messages.{messages, messages-announced}
use stulp.Matter.Mrp.Quiet.{acknowledge-IsQuiet, late_ack-IsQuiet}
use native.Mathlib.Nat.{one-le-pow}
use stulp.Prelude.Bits.{bit, bit-lt, bit-bit_or, bit_and_pow, bit-pow_self}
use stulp.Matter.Mrp.Replay.{Replay, mark, mark_known, mark_at}

-- A window with the bit of a counter.
seen_again : (seen d : ℕ) → bit seen d ≡ 1 → not (bit_and seen (2 ^ d) == 0) ≡ true
seen_again seen d h = ground (arith, bit_and_pow d seen, one-le-pow d 2, once (bit seen d) (2 ^ d))
  where
    once : (b p : ℕ) → b ≡ 1 → b * p ≡ p
    once b p e = rw e (omega arith)

bit_or_self : (x d : ℕ) → bit (bit_or x (2 ^ d)) d ≡ 1
bit_or_self x d = ground (arith, bit-bit_or d x (2 ^ d), bit-pow_self d, bit-lt d x)

pub mark_known-eq-true :
    (top : ℕ) (seen c : ℕ)
    → c ≤ top
    → top - c < 64
    → bit seen (top - c) ≡ 1
    → (mark_known top (record { maximum = some top; seen = seen }) c).0 ≡ true
unfolding mark_known
mark_known-eq-true top seen c low near h =
    let under : ltb top c ≡ false = ground arith in
    let inside : leb 64 (top - c) ≡ false = ground arith in
    rw (under, inside, seen_again seen (top - c) h) refl

-- The window of a maximum and its bits.
abbrev pub window : ℕ → ℕ → Replay
window top seen = record { maximum = some top; seen = seen }

newest_known : (c bits : ℕ) → bit bits 0 ≡ 1 → (mark_known c (window c bits) c).0 ≡ true
newest_known c bits h =
    let here : c - c ≡ 0 = omega arith in
    mark_known-eq-true c bits c (omega arith) (omega arith) (rw here h)

mark-mark_known : (top seen c : ℕ) → (mark (mark_known top (window top seen) c).1 c).0 ≡ true
unfolding mark mark_known mark_at
mark-mark_known top seen c = elim (Bool-cases (ltb top c)) [
  | inl above ↦ elim (Bool-cases (leb 64 (c - top))) [
    | inl far ↦ rw (above, far) (newest_known c 1 refl)
    | inr near ↦
        rw (above, near)
          (newest_known c (bit_or (seen * 2 ^ (c - top) % 2 ^ 64) 1)
            (bit_or_self (seen * 2 ^ (c - top) % 2 ^ 64) 0))
  ]
  | inr below ↦ elim (Bool-cases (leb 64 (top - c))) [
    | inl far ↦ rw (below, far, below, far) refl
    | inr near ↦ elim (Bool-cases (not (bit_and seen (2 ^ (top - c)) == 0))) [
      | inl hit ↦ rw (below, near, hit, below, near, hit) refl
      | inr miss ↦
          rw (below, near, miss)
            (mark_known-eq-true top (bit_or seen (2 ^ (top - c))) c (ground (arith, below))
              (ground (arith, near)) (bit_or_self seen (top - c)))
    ]
  ]
]

mark-mark_at :
    (maximum : Option ℕ) (seen c : ℕ)
    → (mark (mark (record { maximum = maximum; seen = seen }) c).1 c).0 ≡ true
unfolding mark mark_at
mark-mark_at none seen c = newest_known c 1 refl
mark-mark_at (some top) seen c = mark-mark_known top seen c

-- A counter that has been marked is a duplicate.
pub mark-mark : (r : Replay) (c : ℕ) → (mark (mark r c).1 c).0 ≡ true
mark-mark r c = mark-mark_at r.maximum r.seen c

module _ (cipher : List ℕ → Cipher) where
  publish_duplicate :
      (n : Node) (i : ℕ) (e : Exchange) (is_new : Bool) (m : Message) (replay : Replay)
      → messages (publish cipher n i e is_new m (true, replay)).1.events ≡ messages n.events
  unfolding publish
  publish_duplicate n i e is_new m replay =
      let answered = is_answer m.protocol.ack e.pending in
      let events = announced n.events e.handle is_new answered m.protocol.ack in
      let silent = messages-announced n.events e.handle is_new answered m.protocol.ack in
      let settled : Node = record n {
        exchanges = set n.exchanges i (settle e m answered replay);
        events = events;
      } in
      elim (Bool-cases (is_ack m.protocol)) [
        | inl acks ↦ rw (acks, publish) silent
        | inr says ↦
            rw (says, publish, (acknowledge-IsQuiet cipher settled e.handle).same_events) silent
      ]

  -- A duplicate in a session hands no message up.
  pub dispatch_duplicate :
      (n : Node) (address : String) (local : ℕ) (m : Message)
      → local ≢ 0
      → messages (dispatch cipher n address local m true).1.events ≡ messages n.events
  unfolding dispatch deliver mark_exchange
  dispatch_duplicate n address local m real =
      elim (Option-cases (exchange_of n address local m.protocol)) [
        | inl gone ↦
            rw (gone, dispatch)
              (ap (λ (t : List Event). messages t)
                (late_ack-IsQuiet cipher n address m).same_events)
        | inr ((i, e), found) ↦
            let secure : (local == 0) ≡ false = ground (arith, real) in
            elim (Bool-cases (not (m.protocol.protocol == e.protocol) && not (is_ack m.protocol))) [
              | inl other ↦ rw (found, dispatch, other) refl
              | inr ours ↦
                  rw (found, dispatch, ours, deliver, secure, mark_exchange)
                    (publish_duplicate n i e false m e.replay)
            ]
      ]
