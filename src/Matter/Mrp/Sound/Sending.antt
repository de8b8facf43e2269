-- ===== src/Matter/Mrp/Sound/Sending.antt =====
-- The state after a sending (plugins/matter/src/mrp.rs).
use stulp.Prelude.{
  ℕ, ◌+◌, ◌^◌, ◌≤◌, ◌≡◌, refl, sym, ap, ◌∙◌, Bool, true, false, not, ◌&&◌, ◌||◌, Option, none, some,
  List, [], locate, get_elem?, leb, ◌==◌, inl, inr, arith, Bool-cases, Option-cases, String,
  same_text,
}
use stulp.Prelude.Distinct.{locate-eq-some, All-get_elem?}
use stulp.Prelude.Results.{Result, ok, err, Result-cases}
use stulp.Matter.Buffer.{copy}
use stulp.Matter.Message.{Message, Cipher, is_some, seal}
use stulp.Matter.Mrp.{
  Node, Secure, Exchange, Pending, Outgoing, max_out, queue, exchange_at, base, interval, add_sat,
}
use stulp.Matter.Mrp.Send.{
  counted, session_of, session_from, build_plain, build_secure, build, post, kept, send_built, send,
  acknowledge_built, acknowledge, bare_ack, post_bare, late_ack,
}
use stulp.Matter.Mrp.Sound.{
  IsSound, AtMostFive, set_session-IsSound, set_exchange-IsSound, out-IsSound, counters-IsSound,
  queue-le,
}

-- A state in which the exchanges are those of another.
abbrev pub SameExchanges : Node → Node → Type 0
SameExchanges n n' = n'.exchanges ≡ n.exchanges

counted-IsSound :
    (n : Node) (i : ℕ) (s : Secure)
    → IsSound n
    → get_elem? n.sessions i ≡ some s
    → IsSound (counted n i s)
counted-IsSound n i s v h =
    set_session-IsSound n i s (record s { counter = s.counter + 1 }) v h refl

build_plain-IsSound :
    (n : Node) (e : Exchange) (protocol opcode : ℕ) (payload : List ℕ) (reliable : Bool)
    → IsSound n
    → IsSound (build_plain n e protocol opcode payload reliable).1
      × SameExchanges n (build_plain n e protocol opcode payload reliable).1
unfolding build_plain
build_plain-IsSound n e protocol opcode payload reliable v =
    elim (Bool-cases (leb (2 ^ 32) (n.counter + 1))) [
      | inl spent ↦ rw (spent, build_plain) (v, refl)
      | inr left ↦ elim (Result-cases (copy payload)) [
        | inr (x, bad) ↦ rw (left, build_plain, bad) (v, refl)
        | inl (data_, good) ↦ elim (Bool-cases (not (e.session == 0))) [
          | inl expired ↦ rw (left, build_plain, good, expired) (v, refl)
          | inr plain ↦
              rw (left, build_plain, good, plain)
                (counters-IsSound n (n.counter + 1) n.next_exchange v, refl)
        ]
      ]
    ]

module _ (cipher : List ℕ → Cipher) where
  build_secure-IsSound :
      (n : Node) (i : ℕ) (s : Secure) (e : Exchange) (protocol opcode : ℕ) (payload : List ℕ)
      (reliable : Bool)
      → IsSound n
      → get_elem? n.sessions i ≡ some s
      → IsSound (build_secure cipher n i s e protocol opcode payload reliable).1
        × SameExchanges n (build_secure cipher n i s e protocol opcode payload reliable).1
  unfolding build_secure
  build_secure-IsSound n i s e protocol opcode payload reliable v h =
      elim (Bool-cases (leb (2 ^ 32) (s.counter + 1))) [
        | inl spent ↦ rw (spent, build_secure) (v, refl)
        | inr left ↦ elim (Result-cases (copy payload)) [
          | inr (x, bad) ↦ rw (left, build_secure, bad) (v, refl)
          | inl (data_, good) ↦ rw (left, build_secure, good) (counted-IsSound n i s v h, refl)
        ]
      ]

  pub build-IsSound :
      (n : Node) (e : Exchange) (protocol opcode : ℕ) (payload : List ℕ) (reliable : Bool)
      → IsSound n
      → IsSound (build cipher n e protocol opcode payload reliable).1
        × SameExchanges n (build cipher n e protocol opcode payload reliable).1
  unfolding build
  build-IsSound n e protocol opcode payload reliable v =
      elim (Option-cases (session_of n e.session)) [
        | inl gone ↦ rw (gone, build) (build_plain-IsSound n e protocol opcode payload reliable v)
        | inr ((i, s), found) ↦
            let (at, hit) = locate-eq-some (λ s. s.config.local == e.session) n.sessions found in
            rw (found, build) (build_secure-IsSound n i s e protocol opcode payload reliable v at)
      ]

  pub post-IsSound :
      (n : Node) (i : ℕ) (e : Exchange) (pending : Option Pending) (bytes : List ℕ)
      → IsSound n
      → get_elem? n.exchanges i ≡ some e
      → AtMostFive pending
      → IsSound (post cipher n i e pending bytes).1
  unfolding post
  post-IsSound n i e pending bytes v h few =
      let item : Outgoing = record { session = e.session; address = e.remote; bytes = bytes } in
      elim (Result-cases (queue n.out item max_out)) [
        | inr (x, no_room) ↦ rw (no_room, post) v
        | inl (out, room) ↦
            rw (room, post)
              (set_exchange-IsSound (record n { out = out }) i e
                (record e { pending = pending; ack = none })
                (out-IsSound n out v (queue-le n.out item max_out room).0) h refl few)
      ]

  kept-AtMostFive :
      (n : Node) (e : Exchange) (reliable : Bool) (bytes : List ℕ) (counter now jitter : ℕ)
      {pending : Option Pending}
      → kept cipher n e reliable bytes counter now jitter ≡ ok pending
      → AtMostFive pending
  unfolding kept
  kept-AtMostFive n e false bytes counter now jitter h = rw (sym (none_of h)) tt
    where
      none_of : {pending : Option Pending} → ok none ≡ ok pending → none ≡ pending
      none_of g = cc g
  kept-AtMostFive n e true bytes counter now jitter {pending} h = elim (Result-cases (copy bytes)) [
    | inr (x, bad) ↦ absurd (cc (rw (bad, kept) at h))
    | inl (copied, good) ↦
        let p : Pending = record {
          counter = counter;
          bytes = copied;
          attempt = 0;
          next = add_sat now (interval (base n e now) 0 jitter);
        } in
        let same : ok (some p) ≡ ok pending = rw (good, kept) at h in
        rw (sym (pending_of p same)) first_few
  ]
    where
      pending_of :
          (p : Pending) {pending : Option Pending} → ok (some p) ≡ ok pending → some p ≡ pending
      pending_of p g = cc g

      first_few : 0 ≤ 4
      first_few = omega arith

  send_built-IsSound :
      (i : ℕ) (e : Exchange) (reliable : Bool) (now jitter : ℕ) (built : Result (List ℕ × ℕ) × Node)
      → IsSound built.1
      → get_elem? built.1.exchanges i ≡ some e
      → IsSound (send_built cipher i e reliable now jitter built).1
  unfolding send_built
  send_built-IsSound i e reliable now jitter (err x, n) v h = v
  send_built-IsSound i e reliable now jitter (ok (bytes, counter), n) v h =
      elim (Result-cases (kept cipher n e reliable bytes counter now jitter)) [
        | inr (x, bad) ↦ rw (bad, send_built) v
        | inl (pending, good) ↦
            rw (good, send_built)
              (post-IsSound n i e pending bytes v h
                (kept-AtMostFive n e reliable bytes counter now jitter good))
      ]

  exchange_at-eq-ok :
      (n : Node) (h : ℕ) {i : ℕ} {e : Exchange}
      → exchange_at n h ≡ ok (i, e)
      → get_elem? n.exchanges i ≡ some e
  unfolding exchange_at
  exchange_at-eq-ok n h found = elim (Option-cases (locate (λ e. e.handle == h) n.exchanges)) [
    | inl gone ↦ absurd (cc (rw (gone, exchange_at) at found))
    | inr (p, here) ↦
        let same : ok p ≡ ok _ = rw (here, exchange_at) at found in
        (locate-eq-some (λ e. e.handle == h) n.exchanges (here ∙ some_of same)).0
  ]
    where
      some_of : {p q : ℕ × Exchange} → ok p ≡ ok q → some p ≡ some q
      some_of {p} {q} g = let e : p ≡ q = cc g in ap (λ (t : ℕ × Exchange). some t) e

  pub send-IsSound :
      (n : Node) (h opcode : ℕ) (payload : List ℕ) (reliable : Bool) (now jitter : ℕ)
      → IsSound n
      → IsSound (send cipher n h opcode payload reliable now jitter).1
  unfolding send
  send-IsSound n h opcode payload reliable now jitter v = elim (Result-cases (exchange_at n h)) [
    | inr (x, gone) ↦ rw (gone, send) v
    | inl ((i, e), found) ↦ elim (Bool-cases (is_some e.pending)) [
      | inl busy ↦ rw (found, send, busy) v
      | inr idle ↦
          let (w, same) = build-IsSound n e e.protocol opcode payload reliable v in
          rw (found, send, idle)
            (send_built-IsSound i e reliable now jitter
              (build cipher n e e.protocol opcode payload reliable) w
              (rw same (exchange_at-eq-ok n h found)))
    ]
  ]

  acknowledge_built-IsSound :
      (i : ℕ) (e : Exchange) (built : Result (List ℕ × ℕ) × Node)
      → IsSound built.1
      → get_elem? built.1.exchanges i ≡ some e
      → AtMostFive e.pending
      → IsSound (acknowledge_built cipher i e built).1
  unfolding acknowledge_built
  acknowledge_built-IsSound i e (err x, n) v h few = v
  acknowledge_built-IsSound i e (ok (bytes, counter), n) v h few =
      post-IsSound n i e e.pending bytes v h few

  pub acknowledge-IsSound : (n : Node) (h : ℕ) → IsSound n → IsSound (acknowledge cipher n h).1
  unfolding acknowledge
  acknowledge-IsSound n h v = elim (Result-cases (exchange_at n h)) [
    | inr (x, gone) ↦ rw (gone, acknowledge) v
    | inl ((i, e), found) ↦ elim (Bool-cases (is_some e.ack)) [
      | inr nothing ↦ rw (found, acknowledge, nothing) v
      | inl owed ↦
          let (w, same) = build-IsSound n e 0 0x10 [] false v in
          let at = exchange_at-eq-ok n h found in
          rw (found, acknowledge, owed)
            (acknowledge_built-IsSound i e (build cipher n e 0 0x10 [] false) w (rw same at)
              (All-get_elem? (λ e. AtMostFive e.pending) n.exchanges i v.sendings at))
    ]
  ]

  post_bare-IsSound :
      (n : Node) (session : ℕ) (address : String) (sealed : Result (List ℕ))
      → IsSound n
      → IsSound (post_bare cipher n session address sealed).1
  unfolding post_bare
  post_bare-IsSound n session address (err x) v = v
  post_bare-IsSound n session address (ok bytes) v =
      let item : Outgoing = record { session = session; address = address; bytes = bytes } in
      elim (Result-cases (queue n.out item max_out)) [
        | inr (x, no_room) ↦ rw (no_room, post_bare) v
        | inl (out, room) ↦
            rw (room, post_bare) (out-IsSound n out v (queue-le n.out item max_out room).0)
      ]

  pub late_ack-IsSound :
      (n : Node) (address : String) (m : Message)
      → IsSound n
      → IsSound (late_ack cipher n address m).1
  unfolding late_ack
  late_ack-IsSound n address m v =
      elim (Bool-cases (m.header.session == 0 || not m.protocol.reliable)) [
        | inl skip ↦ rw (skip, late_ack) v
        | inr wanted ↦ elim (Option-cases (session_from n m.header.session address)) [
          | inl gone ↦ rw (wanted, late_ack, gone) v
          | inr ((i, s), found) ↦ elim (Bool-cases (leb (2 ^ 32) (s.counter + 1))) [
            | inl spent ↦ rw (wanted, late_ack, found, spent) v
            | inr left ↦
                let (at, hit) =
                  locate-eq-some
                    (λ s. s.config.local == m.header.session && same_text s.config.address address)
                    n.sessions found in
                rw (wanted, late_ack, found, left)
                  (post_bare-IsSound (counted n i s) m.header.session address
                    (seal (cipher s.config.outgoing) (bare_ack cipher s m) s.config.local_node)
                    (counted-IsSound n i s v at))
          ]
        ]
      ]
