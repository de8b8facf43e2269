-- ===== src/Matter/Mrp/Sound/Receiving.antt =====
-- The state after a datagram was received (plugins/matter/src/mrp.rs).
use stulp.Prelude.{
  ℕ, ◌+◌, ◌-◌, ◌≤◌, ◌≡◌, refl, Bool, true, false, not, ◌&&◌, ◌||◌, Option, none, some, List, [],
  ◌∷◌, ◌++◌, length, set, get_elem?, ltb, leb, ◌==◌, if◌then◌else◌, inl, inr, arith, Bool-cases,
  Option-cases, length-append, String, same_text,
}
use stulp.Prelude.Distinct.{locate-eq-some, All-get_elem?}
use stulp.Prelude.Results.{Result, ok, err, Result-cases}
use stulp.Matter.Message.{Message, Cipher}
use stulp.Matter.Mrp.{
  Node, Secure, Exchange, Event, accepted, message, max_udp, max_out, max_events, fresh,
  add_exchange, bad_ephemeral,
}
use stulp.Matter.Mrp.Replay.{Replay, mark}
use stulp.Matter.Mrp.Send.{session_from}
use stulp.Matter.Mrp.Receive.{
  is_ack, differ, exchange_of, mark_session, is_answer, answers, settle, names, mark_exchange,
  id_of, admit, publish, deliver, deliver_new, announced, accept, dispatch, dispatch_marked,
  received, receive,
}
use stulp.Matter.Mrp.Sound.{
  IsSound, AtMostFive, set_session-IsSound, set_exchange-IsSound, events-IsSound,
}
use stulp.Matter.Mrp.Sound.Opening.{add_exchange-IsSound, add_exchange_keeps}
use stulp.Matter.Mrp.Sound.Sending.{acknowledge-IsSound, late_ack-IsSound}

-- There is room for the three events of one datagram.
abbrev pub HasRoom : Node → Type 0
HasRoom n = length n.events ≤ max_events - 3

settle-AtMostFive :
    (e : Exchange) (m : Message) (answered : Bool) (replay : Replay)
    → AtMostFive e.pending
    → AtMostFive (settle e m answered replay).pending
unfolding settle
settle-AtMostFive e m true replay few = tt
settle-AtMostFive e m false replay few = few

settle-handle :
    (e : Exchange) (m : Message) (answered : Bool) (replay : Replay)
    → (settle e m answered replay).handle ≡ e.handle
unfolding settle
settle-handle e m answered replay = refl

length-answers : (ack : Option ℕ) (h : ℕ) → length (answers ack h) ≤ 1
length-answers none h = omega arith
length-answers (some c) h = omega arith

length-announced :
    (events : List Event) (h : ℕ) (is_new answered : Bool) (ack : Option ℕ)
    → length (announced events h is_new answered ack) ≤ length events + 2
length-announced events h is_new answered ack =
    let opened : List Event = if is_new then accepted h ∷ [] else [] in
    let confirmed : List Event = if answered then answers ack h else [] in
    omega (
      arith,
      length-append (events ++ opened) confirmed,
      length-append events opened,
      one_opened is_new,
      one_confirmed answered,
    )
  where
    one_opened : (b : Bool) → length (if b then accepted h ∷ [] else []) ≤ 1
    one_opened true = omega arith
    one_opened false = omega arith

    one_confirmed : (b : Bool) → length (if b then answers ack h else []) ≤ 1
    one_confirmed true = length-answers ack h
    one_confirmed false = omega arith

mark_session-IsSound :
    (n : Node) (local : ℕ) (address : String) (counter now : ℕ)
    → IsSound n
    → HasRoom n
    → IsSound (mark_session n (session_from n local address) counter now).1
      × HasRoom (mark_session n (session_from n local address) counter now).1
unfolding mark_session
mark_session-IsSound n local address counter now v room =
    elim (Option-cases (session_from n local address)) [
      | inl gone ↦ rw (gone, mark_session) (v, room)
      | inr ((i, s), found) ↦
          let test =
            λ (s : Secure). s.config.local == local && same_text s.config.address address in
          let (at, hit) = locate-eq-some test n.sessions found in
          rw (found, mark_session)
            (
              set_session-IsSound n i s
                  (record s { replay = (mark s.replay counter).1; last = some now }) v at refl,
              room,
            )
    ]

get_elem?-snoc : (es : List Exchange) (e : Exchange) → get_elem? (es ++ e ∷ []) (length es) ≡ some e
get_elem?-snoc [] e = refl
get_elem?-snoc (x ∷ es) e = get_elem?-snoc es e

last_place :
    (es : List Exchange) (e : Exchange)
    → get_elem? (es ++ e ∷ []) (length (es ++ e ∷ []) - 1) ≡ some e
last_place es e =
    let place : length (es ++ e ∷ []) - 1 ≡ length es = omega (arith, length-append es (e ∷ [])) in
    rw place (get_elem?-snoc es e)

left_room : (events : ℕ) (other : Bool) → (ltb 61 events || other) ≡ false → events ≤ 61
left_room events other h = ground (arith, h)

module _ (cipher : List ℕ → Cipher) where
  publish-IsSound :
      (n : Node) (i : ℕ) (e : Exchange) (is_new : Bool) (m : Message) (marked : Bool × Replay)
      → IsSound n
      → HasRoom n
      → get_elem? n.exchanges i ≡ some e
      → IsSound (publish cipher n i e is_new m marked).1
  unfolding publish
  publish-IsSound n i e is_new m (duplicate, replay) v room at =
      let p = m.protocol in
      let answered = is_answer p.ack e.pending in
      let events = announced n.events e.handle is_new answered p.ack in
      let short = length-announced n.events e.handle is_new answered p.ack in
      let e' = settle e m answered replay in
      let same = settle-handle e m answered replay in
      let few =
        settle-AtMostFive e m answered replay
          (All-get_elem? (λ e. AtMostFive e.pending) n.exchanges i v.sendings at) in
      let settled = set_exchange-IsSound n i e e' v at same few in
      let bounded : length events ≤ max_events = omega (arith, short, room) in
      let w =
        events-IsSound (record n { exchanges = set n.exchanges i e' }) events settled bounded in
      elim (Bool-cases (is_ack p)) [
        | inl acks ↦ rw (acks, publish) w
        | inr says ↦ elim (Bool-cases duplicate) [
          | inl again ↦
              rw (says, publish, again)
                (acknowledge-IsSound cipher
                  (record n { exchanges = set n.exchanges i e'; events = events }) e.handle w)
          | inr first ↦
              rw (says, publish, first)
                (events-IsSound (record n { exchanges = set n.exchanges i e' })
                  (events ++ message e.handle m ∷ []) settled
                  (omega (arith, short, room, length-append events (message e.handle m ∷ []))))
        ]
      ]

  deliver-IsSound :
      (n : Node) (i : ℕ) (e : Exchange) (is_new : Bool) (local : ℕ) (m : Message) (duplicate : Bool)
      → IsSound n
      → HasRoom n
      → get_elem? n.exchanges i ≡ some e
      → IsSound (deliver cipher n i e is_new local m duplicate).1
  unfolding deliver
  deliver-IsSound n i e is_new local m duplicate v room at =
      let p = m.protocol in
      elim (Bool-cases (not (p.protocol == e.protocol) && not (is_ack p))) [
        | inl other ↦ rw (other, deliver) v
        | inr ours ↦
            let stray =
              local == 0
              && not (
                  names (if e.initiator then m.header.destination else m.header.source)
                    e.ephemeral) in
            elim (Bool-cases stray) [
              | inl away ↦ rw (ours, deliver, away) v
              | inr home ↦
                  rw (ours, deliver, home)
                    (publish-IsSound n i e is_new m
                      (mark_exchange e local m.header.counter duplicate) v room at)
            ]
      ]

  deliver_new-IsSound :
      (placed : Result ℕ × Node) (make : ℕ → Exchange) (local : ℕ) (m : Message) (duplicate : Bool)
      (before : List Exchange)
      → IsSound placed.1
      → HasRoom placed.1
      → ((h : ℕ) → placed.0 ≡ ok h → placed.1.exchanges ≡ before ++ make h ∷ [])
      → IsSound (deliver_new cipher placed make local m duplicate).1
  unfolding deliver_new
  deliver_new-IsSound (err x, n) make local m duplicate before v room there = v
  deliver_new-IsSound (ok h, n) make local m duplicate before v room there =
      deliver-IsSound n (length n.exchanges - 1) (make h) true local m duplicate v room
        (rw (there h refl) (last_place before (make h)))

  accept-IsSound :
      (n : Node) (address : String) (local : ℕ) (m : Message) (duplicate : Bool)
      → IsSound n
      → HasRoom n
      → IsSound (accept cipher n address local m duplicate).1
  unfolding accept
  accept-IsSound n address local m duplicate v room =
      let p = m.protocol in
      let ephemeral = id_of m.header.source in
      let make = λ (h : ℕ). fresh h address local p.exchange false p.protocol ephemeral 0 in
      elim (Bool-cases (local == 0 && bad_ephemeral ephemeral)) [
        | inl bad ↦ rw (bad, accept) v
        | inr good ↦
            let (w, there) = add_exchange-IsSound n make v (λ h. (refl, tt)) in
            rw (good, accept)
              (deliver_new-IsSound (add_exchange n make) make local m duplicate n.exchanges w
                (rw ((add_exchange_keeps n make).0) room) there)
      ]

  dispatch-IsSound :
      (n : Node) (address : String) (local : ℕ) (m : Message) (duplicate : Bool)
      → IsSound n
      → HasRoom n
      → IsSound (dispatch cipher n address local m duplicate).1
  unfolding dispatch
  dispatch-IsSound n address local m duplicate v room =
      let p = m.protocol in
      elim (Option-cases (exchange_of n address local p)) [
        | inr ((i, e), found) ↦
            let test = λ (e : Exchange).
              same_text e.remote address
              && (e.session == local && (e.id == p.exchange && differ e.initiator p.initiator)) in
            let (at, hit) = locate-eq-some test n.exchanges found in
            rw (found, dispatch) (deliver-IsSound n i e false local m duplicate v room at)
        | inl gone ↦ elim (Bool-cases (duplicate || (not p.initiator || is_ack p))) [
          | inl late ↦ rw (gone, dispatch, late) (late_ack-IsSound cipher n address m v)
          | inr opens ↦
              rw (gone, dispatch, opens) (accept-IsSound n address local m duplicate v room)
        ]
      ]

  admit-HasRoom :
      (n : Node) (address : String) (bytes : List ℕ) {answer : ℕ × Message}
      → admit cipher n address bytes ≡ ok answer
      → HasRoom n
  unfolding admit
  admit-HasRoom n address bytes h = elim (Bool-cases (ltb max_udp (length bytes))) [
    | inl big ↦ absurd (cc (rw (big, admit) at h))
    | inr small ↦
        elim (Bool-cases (ltb (max_events - 3) (length n.events) || leb max_out (length n.out))) [
          | inl busy ↦ absurd (cc (rw (small, admit, busy) at h))
          | inr calm ↦ left_room (length n.events) (leb max_out (length n.out)) calm
        ]
  ]

  pub receive-IsSound :
      (n : Node) (address : String) (bytes : List ℕ) (now : ℕ)
      → IsSound n
      → IsSound (receive cipher n address bytes now).1
  unfolding receive received dispatch_marked
  receive-IsSound n address bytes now v = elim (Result-cases (admit cipher n address bytes)) [
    | inr (x, refused) ↦ rw (refused, receive) v
    | inl ((local, m), admitted) ↦
        let (w, room) =
          mark_session-IsSound n local address m.header.counter now v
            (admit-HasRoom n address bytes admitted) in
        rw (admitted, receive)
          (dispatch-IsSound (mark_session n (session_from n local address) m.header.counter now).1
            address local m (mark_session n (session_from n local address) m.header.counter now).0 w
            room)
  ]
