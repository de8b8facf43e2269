-- ===== src/Matter/Mrp/Marked.antt =====
-- Replay windows in the table of sessions, plugins/matter/src/mrp.rs.
use stulp.Prelude.{
  ℕ, zero, suc, ◌≡◌, refl, Bool, true, Option, none, some, List, [], ◌∷◌, ◌++◌, find, locate, set,
  retain, get_elem?, leb, inl, inr, Bool-cases, Option-cases,
}
use stulp.Prelude.Results.{Result, ok, err, Result-cases}
use stulp.Matter.Buffer.{copy}
use stulp.Matter.Message.{Cipher}
use stulp.Matter.Mrp.{Node, Secure, Exchange, Pending, Outgoing, failed, queue, max_out, max_events}
use stulp.Matter.Mrp.Replay.{mark}
use stulp.Matter.Mrp.Send.{kept, send_built}
use stulp.Matter.Mrp.Tick.{is_due, give_up, resend, retry, tick}
use stulp.Matter.Mrp.Quiet.{marked, IsQuiet, unchanged, post-IsQuiet}

pub marked-set :
    (test : Secure → Bool) (c : ℕ) (ss : List Secure) (i : ℕ) (s s' : Secure)
    → get_elem? ss i ≡ some s
    → test s' ≡ test s
    → ((mark s.replay c).0 ≡ true → (mark s'.replay c).0 ≡ true)
    → marked (find test ss) c ≡ true
    → marked (find test (set ss i s')) c ≡ true
marked-set test c [] i s s' h e g spent = spent
marked-set test c (x ∷ ss) zero s s' h e g spent =
    let same : x ≡ s = cc h in
    elim (Bool-cases (test s)) [
      | inl hit ↦ rw (e, hit) (g (rw (same, hit) at spent))
      | inr miss ↦ rw (e, miss) (rw (same, miss) at spent)
    ]
marked-set test c (x ∷ ss) (suc i) s s' h e g spent = elim (Bool-cases (test x)) [
  | inl hit ↦ rw hit (rw hit at spent)
  | inr miss ↦ rw miss (marked-set test c ss i s s' h e g (rw miss at spent))
]

pub marked-append :
    (test : Secure → Bool) (c : ℕ) (ss more : List Secure)
    → marked (find test ss) c ≡ true
    → marked (find test (ss ++ more)) c ≡ true
marked-append test c [] more spent = absurd (cc spent)
marked-append test c (x ∷ ss) more spent = elim (Bool-cases (test x)) [
  | inl hit ↦ rw hit (rw hit at spent)
  | inr miss ↦ rw miss (marked-append test c ss more (rw miss at spent))
]

pub marked-retain :
    (test stays : Secure → Bool) (c : ℕ) (ss : List Secure)
    → ((s : Secure) → test s ≡ true → stays s ≡ true)
    → marked (find test ss) c ≡ true
    → marked (find test (retain stays ss)) c ≡ true
marked-retain test stays c [] h spent = spent
marked-retain test stays c (x ∷ ss) h spent = elim (Bool-cases (test x)) [
  | inl hit ↦ rw (h x hit, hit) (rw hit at spent)
  | inr miss ↦
      let later = marked-retain test stays c ss h (rw miss at spent) in
      elim (Bool-cases (stays x)) [ inl stay ↦ rw (stay, miss) later | inr go ↦ rw go later ]
]

pub send_built-IsQuiet :
    (cipher : List ℕ → Cipher) (i : ℕ) (e : Exchange) (reliable : Bool) (now jitter : ℕ)
    (built : Result (List ℕ × ℕ) × Node)
    → IsQuiet built.1 (send_built cipher i e reliable now jitter built).1
unfolding send_built
send_built-IsQuiet cipher i e reliable now jitter (err x, n) = unchanged n
send_built-IsQuiet cipher i e reliable now jitter (ok (bytes, counter), n) =
    elim (Result-cases (kept cipher n e reliable bytes counter now jitter)) [
      | inr (x, bad) ↦ rw (bad, send_built) (unchanged n)
      | inl (pending, good) ↦ rw (good, send_built) (post-IsQuiet cipher n i e pending bytes)
    ]

give_up_sessions : (n : Node) (i : ℕ) (e : Exchange) → (give_up n i e).1.sessions ≡ n.sessions
unfolding give_up
give_up_sessions n i e = elim (Result-cases (queue n.events (failed e.handle) max_events)) [
  | inr (x, bad) ↦ rw (bad, give_up) refl
  | inl (events, room) ↦ rw (room, give_up) refl
]

resend_sessions :
    (n : Node) (i : ℕ) (e : Exchange) (p : Pending) (now jitter : ℕ)
    → (resend n i e p now jitter).1.sessions ≡ n.sessions
unfolding resend
resend_sessions n i e p now jitter = elim (Result-cases (copy p.bytes)) [
  | inr (x, bad) ↦ rw (bad, resend) refl
  | inl (bytes, good) ↦
      let item : Outgoing = record { session = e.session; address = e.remote; bytes = bytes } in
      elim (Result-cases (queue n.out item max_out)) [
        | inr (x, full_) ↦ rw (good, resend, full_) refl
        | inl (out, room) ↦ rw (good, resend, room) refl
      ]
]

retry_sessions :
    (n : Node) (i : ℕ) (e : Exchange) (p : Option Pending) (now jitter : ℕ)
    → (retry n i e p now jitter).1.sessions ≡ n.sessions
unfolding retry
retry_sessions n i e none now jitter = refl
retry_sessions n i e (some p) now jitter = elim (Bool-cases (leb 4 p.attempt)) [
  | inl last ↦ rw (last, retry) (give_up_sessions n i e)
  | inr more ↦ rw (more, retry) (resend_sessions n i e p now jitter)
]

pub tick_sessions : (n : Node) (now jitter : ℕ) → (tick n now jitter).1.sessions ≡ n.sessions
unfolding tick
tick_sessions n now jitter = elim (Option-cases (locate (λ e. is_due now e.pending) n.exchanges)) [
  | inl idle ↦ rw (idle, tick) refl
  | inr ((i, e), due) ↦ rw (due, tick) (retry_sessions n i e e.pending now jitter)
]
