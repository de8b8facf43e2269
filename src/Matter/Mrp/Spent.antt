-- ===== src/Matter/Mrp/Spent.antt =====
-- The counters that a session has marked, behind the calls of a node (plugins/matter/src/mrp.rs).
use stulp.Prelude.{
  ℕ, ◌+◌, ◌≡◌, ◌≢◌, refl, ◌∙◌, Bool, true, not, ◌&&◌, ◌||◌, none, some, List, [], ◌∷◌, arith, ◌-◌,
  retain, any, length, ltb, ◌==◌, inl, inr, Bool-cases, Option-cases, String, same_text, bit_and,
}
use stulp.Prelude.Distinct.{locate-eq-some}
use stulp.Prelude.Results.{Result-cases}
use stulp.Matter.Message.{Message, Cipher, is_some}
use stulp.Matter.Mrp.{
  Node, Secure, Session, Event, Outgoing, register, remove, initiate, outgoing, event, exchange_at,
  push, max_events, max_sessions, belongs, has_session, is_blank, next_id, bad_ephemeral, fresh,
  max_exchanges,
}
use stulp.Matter.Mrp.Replay.{mark}
use stulp.Matter.Mrp.Replay
use stulp.Matter.Mrp.Send.{session_from, build, send, acknowledge}
use stulp.Matter.Mrp.Receive.{mark_session, admit, dispatch_marked, received, receive}
use stulp.Matter.Mrp.Tick.{tick}
use stulp.Matter.Mrp.Sound.Calls.{push-le}
use stulp.Matter.Mrp.Sound.Opening.{add_exchange_keeps}
use stulp.Matter.Mrp.Quiet.{is_spent, build-IsQuiet, acknowledge-IsQuiet}
use stulp.Matter.Mrp.Window.{mark_keeps}
use stulp.Matter.Mrp.Delivery.{passes, dispatch-spent}
use stulp.Matter.Mrp.Marked.{
  marked-set, marked-append, marked-retain, send_built-IsQuiet, tick_sessions,
}

module _ (l : ℕ) (a : String) (c : ℕ) where
  -- The sessions alone tell what is spent.
  spent_same :
      (n n' : Node) → n'.sessions ≡ n.sessions → is_spent n l a c ≡ true → is_spent n' l a c ≡ true
  spent_same n n' same spent = rw same spent

  mark_session_keeps :
      (n : Node) (local : ℕ) (address : String) (c' now : ℕ)
      → is_spent n l a c ≡ true
      → is_spent (mark_session n (session_from n local address) c' now).1 l a c ≡ true
  unfolding mark_session
  mark_session_keeps n local address c' now spent =
      elim (Option-cases (session_from n local address)) [
        | inl gone ↦ rw (gone, mark_session) spent
        | inr ((i, s), found) ↦
            let (at_, hit) = locate-eq-some (passes local address) n.sessions found in
            let next : Secure = record s { replay = (mark s.replay c').1; last = some now } in
            rw (found, mark_session)
              (marked-set (passes l a) c n.sessions i s next at_ refl (mark_keeps s.replay c c')
                spent)
      ]

  pub received_keeps :
      (cipher : List ℕ → Cipher) (n : Node) (address : String) (local : ℕ) (m : Message) (now : ℕ)
      → is_spent n l a c ≡ true
      → is_spent (received cipher n address local m now).1 l a c ≡ true
  unfolding received dispatch_marked
  received_keeps cipher n address local m now spent =
      let (duplicate, n1) = mark_session n (session_from n local address) m.header.counter now in
      dispatch-spent cipher l a c n1 address local m duplicate
      ∙ mark_session_keeps n local address m.header.counter now spent

  pub receive_keeps :
      (cipher : List ℕ → Cipher) (n : Node) (address : String) (bytes : List ℕ) (now : ℕ)
      → is_spent n l a c ≡ true
      → is_spent (receive cipher n address bytes now).1 l a c ≡ true
  unfolding receive
  receive_keeps cipher n address bytes now spent =
      elim (Result-cases (admit cipher n address bytes)) [
        | inr (x, bad) ↦ rw (bad, receive) spent
        | inl ((local, m), good) ↦
            rw (good, receive) (received_keeps cipher n address local m now spent)
      ]

  pub register_keeps :
      (n : Node) (config : Session) (seed : ℕ)
      → is_spent n l a c ≡ true
      → is_spent (register n config seed).1 l a c ≡ true
  unfolding register
  register_keeps n config seed spent =
      let test =
        config.local == 0
        || (config.peer == 0 || (is_blank config.address || has_session n config.local)) in
      let s : Secure = record {
        config = config;
        counter = bit_and seed 0x0fff_ffff;
        replay = Replay.new;
        last = none;
      } in
      elim (Bool-cases test) [
        | inl bad ↦ rw (bad, register) spent
        | inr good ↦ elim (Result-cases (push n.sessions s max_sessions)) [
          | inr (x, no_room) ↦ rw (good, register, no_room) spent
          | inl (sessions, room) ↦
              let (few, same) = push-le n.sessions s max_sessions room in
              rw (good, register, room, same)
                (marked-append (passes l a) c n.sessions (s ∷ []) spent)
        ]
      ]

  -- The removal of another session.
  pub remove_keeps :
      (n : Node) (local : ℕ)
      → local ≢ l
      → is_spent n l a c ≡ true
      → is_spent (remove n local).1 l a c ≡ true
  unfolding remove
  remove_keeps n local other spent =
      let retained = retain (λ event. not (belongs n.exchanges local event)) n.events in
      let count = length (retain (λ e. e.session == local) n.exchanges) in
      elim (Bool-cases (ltb (max_events - length retained) count)) [
        | inl crowded ↦ rw (crowded, remove) spent
        | inr room ↦
            rw (room, remove)
              (marked-retain (passes l a) (λ s. not (s.config.local == local)) c n.sessions
                (λ s own. stays s.config.local (same_text s.config.address a) own) spent)
      ]
    where
      stays : (k : ℕ) (text : Bool) → (k == l && text) ≡ true → not (k == local) ≡ true
      stays k text own = ground (arith, own, other)

  pub initiate_keeps :
      (n : Node) (address : String) (session protocol ephemeral retry_ms : ℕ)
      → is_spent n l a c ≡ true
      → is_spent (initiate n address session protocol ephemeral retry_ms).1 l a c ≡ true
  unfolding initiate
  initiate_keeps n address session protocol ephemeral retry_ms spent =
      let missing =
        not (session == 0)
        && not (
            any (λ s. s.config.local == session && same_text s.config.address address)
              n.sessions) in
      let (found, last) = next_id (max_exchanges + 1) n.exchanges address session n.next_exchange in
      let n1 : Node = record n { next_exchange = last } in
      elim (Bool-cases (session == 0 && bad_ephemeral ephemeral)) [
        | inl bad ↦ rw (bad, initiate) spent
        | inr good ↦ elim (Bool-cases missing) [
          | inl unknown ↦ rw (good, initiate, unknown) spent
          | inr known ↦ elim (Option-cases found) [
            | inl used ↦ rw (good, initiate, known, used) spent
            | inr (id, free) ↦
                let make = λ (h : ℕ). fresh h address session id true protocol ephemeral retry_ms in
                rw (good, initiate, known, free, (add_exchange_keeps n1 make).1) spent
          ]
        ]
      ]

  pub send_keeps :
      (cipher : List ℕ → Cipher) (n : Node) (h opcode : ℕ) (payload : List ℕ) (reliable : Bool)
      (now jitter : ℕ)
      → is_spent n l a c ≡ true
      → is_spent (send cipher n h opcode payload reliable now jitter).1 l a c ≡ true
  unfolding send
  send_keeps cipher n h opcode payload reliable now jitter spent =
      elim (Result-cases (exchange_at n h)) [
        | inr (x, gone) ↦ rw (gone, send) spent
        | inl ((i, e), found) ↦ elim (Bool-cases (is_some e.pending)) [
          | inl waits ↦ rw (found, send, waits) spent
          | inr idle ↦
              let built = build cipher n e e.protocol opcode payload reliable in
              let quiet = build-IsQuiet cipher n e e.protocol opcode payload reliable in
              rw (found, send, idle)
                ((send_built-IsQuiet cipher i e reliable now jitter built).same_windows l a c
                  ∙ (quiet.same_windows l a c ∙ spent))
        ]
      ]

  pub acknowledge_keeps :
      (cipher : List ℕ → Cipher) (n : Node) (h : ℕ)
      → is_spent n l a c ≡ true
      → is_spent (acknowledge cipher n h).1 l a c ≡ true
  acknowledge_keeps cipher n h spent = (acknowledge-IsQuiet cipher n h).same_windows l a c ∙ spent

  pub tick_keeps :
      (n : Node) (now jitter : ℕ)
      → is_spent n l a c ≡ true
      → is_spent (tick n now jitter).1 l a c ≡ true
  tick_keeps n now jitter spent =
      spent_same n (tick n now jitter).1 (tick_sessions n now jitter) spent

  pub outgoing_keeps : (n : Node) → is_spent n l a c ≡ true → is_spent (outgoing n).1 l a c ≡ true
  unfolding outgoing
  outgoing_keeps n spent = out_cases n.out refl
    where
      out_cases : (out : List Outgoing) → n.out ≡ out → is_spent (outgoing n).1 l a c ≡ true
      out_cases [] e = rw (e, outgoing) spent
      out_cases (p ∷ ps) e = rw (e, outgoing) spent

  pub event_keeps : (n : Node) → is_spent n l a c ≡ true → is_spent (event n).1 l a c ≡ true
  unfolding event
  event_keeps n spent = event_cases n.events refl
    where
      event_cases : (events : List Event) → n.events ≡ events → is_spent (event n).1 l a c ≡ true
      event_cases [] e = rw (e, event) spent
      event_cases (x ∷ xs) e = rw (e, event) spent
