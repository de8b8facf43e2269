-- ===== src/Matter/Mrp/Quiet.antt =====
-- The events and the replay windows around a sending, plugins/matter/src/mrp.rs.
use stulp.Prelude.{
  ℕ, zero, suc, ◌+◌, ◌^◌, ◌≡◌, refl, ◌∙◌, Bool, false, not, ◌&&◌, ◌||◌, Option, none, some, List,
  [], ◌∷◌, find, set, get_elem?, leb, ◌==◌, inl, inr, Bool-cases, Option-cases, String, same_text,
}
use stulp.Prelude.Distinct.{locate-eq-some}
use stulp.Prelude.Results.{Result, ok, err, Result-cases}
use stulp.Matter.Buffer.{copy}
use stulp.Matter.Message.{Message, Cipher, is_some, seal}
use stulp.Matter.Mrp.{Node, Secure, Exchange, Pending, Outgoing, max_out, queue, exchange_at}
use stulp.Matter.Mrp.Replay.{mark}
use stulp.Matter.Mrp.Send.{
  counted, session_of, session_from, build_plain, build_secure, build, post, acknowledge_built,
  acknowledge, bare_ack, post_bare, late_ack,
}

-- Whether a session has marked a counter.
abbrev pub marked : Option Secure → ℕ → Bool
marked none counter = false
marked (some s) counter = (mark s.replay counter).0

-- Whether the session of an id and an address takes a counter for a duplicate.
abbrev pub is_spent : Node → ℕ → String → ℕ → Bool
is_spent n local address counter =
    marked (find (λ s. s.config.local == local && same_text s.config.address address) n.sessions)
      counter

-- The events and the windows of two states are the same.
pub record IsQuiet (n n' : Node) : Type 0 where
  pub same_events : n'.events ≡ n.events
  pub same_windows :
      (local : ℕ) (address : String) (counter : ℕ)
      → is_spent n' local address counter ≡ is_spent n local address counter

pub unchanged : (n : Node) → IsQuiet n n
unchanged n = record { same_events = refl; same_windows = λ local address counter. refl }

pub marked-find-set :
    (test : Secure → Bool) (counter : ℕ) (ss : List Secure) (i : ℕ) (s s' : Secure)
    → get_elem? ss i ≡ some s
    → test s' ≡ test s
    → s'.replay ≡ s.replay
    → marked (find test (set ss i s')) counter ≡ marked (find test ss) counter
marked-find-set test counter [] i s s' h e g = refl
marked-find-set test counter (x ∷ ss) zero s s' h e g =
    let same : x ≡ s = cc h in
    elim (Bool-cases (test s)) [
      | inl hit ↦ rw (e, same, hit, g) refl
      | inr miss ↦ rw (e, same, miss) refl
    ]
marked-find-set test counter (x ∷ ss) (suc i) s s' h e g = elim (Bool-cases (test x)) [
  | inl hit ↦ rw hit refl
  | inr miss ↦ rw miss (marked-find-set test counter ss i s s' h e g)
]

counted-IsQuiet :
    (n : Node) (i : ℕ) (s : Secure) → get_elem? n.sessions i ≡ some s → IsQuiet n (counted n i s)
counted-IsQuiet n i s h = record {
  same_events = refl;
  same_windows = λ local address counter.
      marked-find-set (λ s. s.config.local == local && same_text s.config.address address) counter
        n.sessions i s (record s { counter = s.counter + 1 }) h refl refl;
}

build_plain-IsQuiet :
    (n : Node) (e : Exchange) (protocol opcode : ℕ) (payload : List ℕ) (reliable : Bool)
    → IsQuiet n (build_plain n e protocol opcode payload reliable).1
unfolding build_plain
build_plain-IsQuiet n e protocol opcode payload reliable =
    elim (Bool-cases (leb (2 ^ 32) (n.counter + 1))) [
      | inl spent ↦ rw (spent, build_plain) (unchanged n)
      | inr left ↦ elim (Result-cases (copy payload)) [
        | inr (x, bad) ↦ rw (left, build_plain, bad) (unchanged n)
        | inl (data_, good) ↦ elim (Bool-cases (not (e.session == 0))) [
          | inl expired ↦ rw (left, build_plain, good, expired) (unchanged n)
          | inr plain ↦
              rw (left, build_plain, good, plain)
                (record { same_events = refl; same_windows = λ local address counter. refl })
        ]
      ]
    ]

module _ (cipher : List ℕ → Cipher) where
  build_secure-IsQuiet :
      (n : Node) (i : ℕ) (s : Secure) (e : Exchange) (protocol opcode : ℕ) (payload : List ℕ)
      (reliable : Bool)
      → get_elem? n.sessions i ≡ some s
      → IsQuiet n (build_secure cipher n i s e protocol opcode payload reliable).1
  unfolding build_secure
  build_secure-IsQuiet n i s e protocol opcode payload reliable h =
      elim (Bool-cases (leb (2 ^ 32) (s.counter + 1))) [
        | inl spent ↦ rw (spent, build_secure) (unchanged n)
        | inr left ↦ elim (Result-cases (copy payload)) [
          | inr (x, bad) ↦ rw (left, build_secure, bad) (unchanged n)
          | inl (data_, good) ↦ rw (left, build_secure, good) (counted-IsQuiet n i s h)
        ]
      ]

  pub build-IsQuiet :
      (n : Node) (e : Exchange) (protocol opcode : ℕ) (payload : List ℕ) (reliable : Bool)
      → IsQuiet n (build cipher n e protocol opcode payload reliable).1
  unfolding build
  build-IsQuiet n e protocol opcode payload reliable =
      elim (Option-cases (session_of n e.session)) [
        | inl gone ↦ rw (gone, build) (build_plain-IsQuiet n e protocol opcode payload reliable)
        | inr ((i, s), found) ↦
            let (at, hit) = locate-eq-some (λ s. s.config.local == e.session) n.sessions found in
            rw (found, build) (build_secure-IsQuiet n i s e protocol opcode payload reliable at)
      ]

  pub post-IsQuiet :
      (n : Node) (i : ℕ) (e : Exchange) (pending : Option Pending) (bytes : List ℕ)
      → IsQuiet n (post cipher n i e pending bytes).1
  unfolding post
  post-IsQuiet n i e pending bytes =
      let item : Outgoing = record { session = e.session; address = e.remote; bytes = bytes } in
      elim (Result-cases (queue n.out item max_out)) [
        | inr (x, no_room) ↦ rw (no_room, post) (unchanged n)
        | inl (out, room) ↦
            rw (room, post)
              (record { same_events = refl; same_windows = λ local address counter. refl })
      ]

  pub chained : {n n' n'' : Node} → IsQuiet n n' → IsQuiet n' n'' → IsQuiet n n''
  chained first second = record {
    same_events = second.same_events ∙ first.same_events;
    same_windows = λ local address counter.
        second.same_windows local address counter ∙ first.same_windows local address counter;
  }

  acknowledge_built-IsQuiet :
      (i : ℕ) (e : Exchange) (built : Result (List ℕ × ℕ) × Node)
      → IsQuiet built.1 (acknowledge_built cipher i e built).1
  unfolding acknowledge_built
  acknowledge_built-IsQuiet i e (err x, n) = unchanged n
  acknowledge_built-IsQuiet i e (ok (bytes, counter), n) = post-IsQuiet n i e e.pending bytes

  pub acknowledge-IsQuiet : (n : Node) (h : ℕ) → IsQuiet n (acknowledge cipher n h).1
  unfolding acknowledge
  acknowledge-IsQuiet n h = elim (Result-cases (exchange_at n h)) [
    | inr (x, gone) ↦ rw (gone, acknowledge) (unchanged n)
    | inl ((i, e), found) ↦ elim (Bool-cases (is_some e.ack)) [
      | inr nothing ↦ rw (found, acknowledge, nothing) (unchanged n)
      | inl owed ↦
          rw (found, acknowledge, owed)
            (chained (build-IsQuiet n e 0 0x10 [] false)
              (acknowledge_built-IsQuiet i e (build cipher n e 0 0x10 [] false)))
    ]
  ]

  post_bare-IsQuiet :
      (n : Node) (session : ℕ) (address : String) (sealed : Result (List ℕ))
      → IsQuiet n (post_bare cipher n session address sealed).1
  unfolding post_bare
  post_bare-IsQuiet n session address (err x) = unchanged n
  post_bare-IsQuiet n session address (ok bytes) =
      let item : Outgoing = record { session = session; address = address; bytes = bytes } in
      elim (Result-cases (queue n.out item max_out)) [
        | inr (x, no_room) ↦ rw (no_room, post_bare) (unchanged n)
        | inl (out, room) ↦
            rw (room, post_bare)
              (record { same_events = refl; same_windows = λ local address counter. refl })
      ]

  pub late_ack-IsQuiet :
      (n : Node) (address : String) (m : Message) → IsQuiet n (late_ack cipher n address m).1
  unfolding late_ack
  late_ack-IsQuiet n address m =
      elim (Bool-cases (m.header.session == 0 || not m.protocol.reliable)) [
        | inl skip ↦ rw (skip, late_ack) (unchanged n)
        | inr wanted ↦ elim (Option-cases (session_from n m.header.session address)) [
          | inl gone ↦ rw (wanted, late_ack, gone) (unchanged n)
          | inr ((i, s), found) ↦ elim (Bool-cases (leb (2 ^ 32) (s.counter + 1))) [
            | inl spent ↦ rw (wanted, late_ack, found, spent) (unchanged n)
            | inr left ↦
                let test = λ (s : Secure).
                  s.config.local == m.header.session && same_text s.config.address address in
                let (at, hit) = locate-eq-some test n.sessions found in
                rw (wanted, late_ack, found, left)
                  (chained (counted-IsQuiet n i s at) (
                    post_bare-IsQuiet (counted n i s) m.header.session address
                      (seal (cipher s.config.outgoing) (bare_ack cipher s m) s.config.local_node)))
          ]
        ]
      ]
