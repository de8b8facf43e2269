-- ===== src/Matter/Mrp/Delivery.antt =====
-- Messages that come to a session more than once, plugins/matter/src/mrp.rs.
use stulp.Prelude.{
  ℕ, ◌≡◌, ◌≢◌, refl, ap, ◌∙◌, Bool, true, false, not, ◌&&◌, ◌||◌, Option, none, some, List, find,
  set, ◌==◌, if◌then◌else◌, inl, inr, Bool-cases, Option-cases, String, same_text,
}
use stulp.Prelude.Distinct.{find-locate, find-set, locate-eq-some}
use stulp.Prelude.Results.{Result, ok, err}
use stulp.Matter.Message.{Message, Cipher}
use stulp.Matter.Mrp.{Node, Secure, Exchange, fresh, add_exchange, bad_ephemeral}
use stulp.Matter.Mrp.Replay.{Replay, mark}
use stulp.Matter.Mrp.Send.{session_from}
use stulp.Matter.Mrp.Receive.{
  is_ack, exchange_of, mark_session, is_answer, settle, names, mark_exchange, id_of, announced,
  publish, deliver, deliver_new, accept, dispatch, dispatch_marked, received,
}
use stulp.Matter.Mrp.Messages.{messages}
use stulp.Matter.Mrp.Sound.Opening.{add_exchange_keeps}
use stulp.Matter.Mrp.Quiet.{is_spent, marked, acknowledge-IsQuiet, late_ack-IsQuiet}
use stulp.Matter.Mrp.Duplicate.{mark-mark, dispatch_duplicate}

mark_events :
    (n : Node) (found : Option (ℕ × Secure)) (counter now : ℕ)
    → messages (mark_session n found counter now).1.events ≡ messages n.events
unfolding mark_session
mark_events n none counter now = refl
mark_events n (some (i, s)) counter now = refl

abbrev pub passes : ℕ → String → Secure → Bool
passes local address s = s.config.local == local && same_text s.config.address address

pub mark_session-eq-spent :
    (n : Node) (local : ℕ) (address : String) (counter now : ℕ)
    → (mark_session n (session_from n local address) counter now).0
      ≡ is_spent n local address counter
unfolding mark_session
mark_session-eq-spent n local address counter now =
    let same = find-locate (passes local address) n.sessions in
    elim (Option-cases (session_from n local address)) [
      | inl gone ↦ rw (same, gone, mark_session) refl
      | inr ((i, s), found) ↦ rw (same, found, mark_session) refl
    ]

mark_session-spends :
    (n : Node) (local : ℕ) (address : String) (counter now : ℕ) {i : ℕ} {s : Secure}
    → session_from n local address ≡ some (i, s)
    → is_spent (mark_session n (session_from n local address) counter now).1 local address counter
      ≡ true
unfolding mark_session
mark_session-spends n local address counter now {i} {s} found =
    let (at, hit) = locate-eq-some (passes local address) n.sessions found in
    let next : Secure = record s { replay = (mark s.replay counter).1; last = some now } in
    rw (found, mark_session, find-set (passes local address) n.sessions i s next found hit)
      (mark-mark s.replay counter)

module _ (cipher : List ℕ → Cipher) (l : ℕ) (a : String) (c : ℕ) where
  publish-spent :
      (n : Node) (i : ℕ) (e : Exchange) (is_new : Bool) (m : Message) (met : Bool × Replay)
      → is_spent (publish cipher n i e is_new m met).1 l a c ≡ is_spent n l a c
  unfolding publish
  publish-spent n i e is_new m (duplicate, replay) =
      let answered = is_answer m.protocol.ack e.pending in
      let settled : Node = record n {
        exchanges = set n.exchanges i (settle e m answered replay);
        events = announced n.events e.handle is_new answered m.protocol.ack;
      } in
      elim (Bool-cases (is_ack m.protocol)) [
        | inl acks ↦ rw (acks, publish) refl
        | inr says ↦ elim (Bool-cases duplicate) [
          | inl again ↦
              rw (says, publish, again)
                ((acknowledge-IsQuiet cipher settled e.handle).same_windows l a c)
          | inr first ↦ rw (says, publish, first) refl
        ]
      ]

  deliver-spent :
      (n : Node) (i : ℕ) (e : Exchange) (is_new : Bool) (local : ℕ) (m : Message) (duplicate : Bool)
      → is_spent (deliver cipher n i e is_new local m duplicate).1 l a c ≡ is_spent n l a c
  unfolding deliver
  deliver-spent n i e is_new local m duplicate =
      let p = m.protocol in
      let stray =
        local == 0
        && not
            (names (if e.initiator then m.header.destination else m.header.source) e.ephemeral) in
      elim (Bool-cases (not (p.protocol == e.protocol) && not (is_ack p))) [
        | inl other ↦ rw (other, deliver) refl
        | inr ours ↦ elim (Bool-cases stray) [
          | inl away ↦ rw (ours, deliver, away) refl
          | inr home ↦
              rw (ours, deliver, home)
                (publish-spent n i e is_new m (mark_exchange e local m.header.counter duplicate))
        ]
      ]

  deliver_new-spent :
      (placed : Result ℕ × Node) (make : ℕ → Exchange) (local : ℕ) (m : Message) (duplicate : Bool)
      → is_spent (deliver_new cipher placed make local m duplicate).1 l a c
        ≡ is_spent placed.1 l a c
  unfolding deliver_new
  deliver_new-spent (err x, n) make local m duplicate = refl
  deliver_new-spent (ok h, n) make local m duplicate =
      deliver-spent n _ (make h) true local m duplicate

  accept-spent :
      (n : Node) (address : String) (local : ℕ) (m : Message) (duplicate : Bool)
      → is_spent (accept cipher n address local m duplicate).1 l a c ≡ is_spent n l a c
  unfolding accept
  accept-spent n address local m duplicate =
      let p = m.protocol in
      let ephemeral = id_of m.header.source in
      let make = λ (h : ℕ). fresh h address local p.exchange false p.protocol ephemeral 0 in
      elim (Bool-cases (local == 0 && bad_ephemeral ephemeral)) [
        | inl bad ↦ rw (bad, accept) refl
        | inr good ↦
            rw (good, accept)
              (deliver_new-spent (add_exchange n make) make local m duplicate
                ∙ ap (λ (t : List Secure). marked (find (passes l a) t) c)
                    (add_exchange_keeps n make).1)
      ]

  pub dispatch-spent :
      (n : Node) (address : String) (local : ℕ) (m : Message) (duplicate : Bool)
      → is_spent (dispatch cipher n address local m duplicate).1 l a c ≡ is_spent n l a c
  unfolding dispatch
  dispatch-spent n address local m duplicate =
      let p = m.protocol in
      elim (Option-cases (exchange_of n address local p)) [
        | inr ((i, e), found) ↦ rw (found, dispatch) (deliver-spent n i e false local m duplicate)
        | inl gone ↦ elim (Bool-cases (duplicate || (not p.initiator || is_ack p))) [
          | inl late ↦
              rw (gone, dispatch, late) ((late_ack-IsQuiet cipher n address m).same_windows l a c)
          | inr opens ↦ rw (gone, dispatch, opens) (accept-spent n address local m duplicate)
        ]
      ]

module _ (cipher : List ℕ → Cipher) (local : ℕ) (address : String) where
  -- The message of a datagram that comes in a session marks its counter.
  pub received-spent :
      (n : Node) (m : Message) (now : ℕ) {i : ℕ} {s : Secure}
      → session_from n local address ≡ some (i, s)
      → is_spent (received cipher n address local m now).1 local address m.header.counter ≡ true
  unfolding received dispatch_marked
  received-spent n m now found =
      let (duplicate, n1) = mark_session n (session_from n local address) m.header.counter now in
      dispatch-spent cipher local address m.header.counter n1 address local m duplicate
      ∙ mark_session-spends n local address m.header.counter now found

  -- A message whose counter is marked hands nothing up.
  pub received-silent :
      (n : Node) (m : Message) (now : ℕ)
      → local ≢ 0
      → is_spent n local address m.header.counter ≡ true
      → messages (received cipher n address local m now).1.events ≡ messages n.events
  unfolding received dispatch_marked
  received-silent n m now real spent =
      let met = mark_session n (session_from n local address) m.header.counter now in
      let again : met.0 ≡ true =
        mark_session-eq-spent n local address m.header.counter now ∙ spent in
      silent_marked met again ∙ quiet_mark (session_from n local address)
    where
      silent_marked :
          (met : Bool × Node)
          → met.0 ≡ true
          → messages (dispatch_marked cipher met address local m).1.events ≡ messages met.1.events
      silent_marked (duplicate, n1) h = rw h (dispatch_duplicate cipher n1 address local m real)

      quiet_mark :
          (found : Option (ℕ × Secure))
          → messages (mark_session n found m.header.counter now).1.events ≡ messages n.events
      quiet_mark found = mark_events n found m.header.counter now
