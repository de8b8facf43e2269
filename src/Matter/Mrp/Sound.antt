-- ===== src/Matter/Mrp/Sound.antt =====
-- What holds of the protocol's state between two calls (plugins/matter/src/mrp.rs).
pub mod Calls
pub mod Sending
pub mod Receiving
pub mod Reachable
pub mod Opening
pub mod Ticking
use stulp.Prelude.{
  ℕ, ◌+◌, ◌-◌, ◌^◌, ◌<◌, ◌≤◌, ◌≡◌, ◌≢◌, refl, sym, ap, ◌∙◌, Bool, true, false, not, ◌&&◌, ◌||◌,
  Option, none, some, List, [], ◌∷◌, ◌++◌, map, length, any, locate, retain, set, remove_at,
  get_elem?, All, ltb, leb, ◌==◌, if◌then◌else◌, inl, inr, arith, Bool-cases, Option-cases,
  length-set, length-append, String, same_text,
}
use stulp.Prelude.Distinct.{
  Nodup, Nodup-snoc, All-snoc, All-mono, locate-eq-some, map-set, All-set, All-get_elem?,
  length-retain, All-retain, Nodup-retain, length-remove_at, All-remove_at, Nodup-remove_at,
  map-snoc, All-map,
}
use stulp.Prelude.Results.{Error, Result, ok, err, Result-cases}
use stulp.Matter.Mrp.{
  Node, Session, Secure, Exchange, Event, Pending, Outgoing, max_sessions, max_exchanges,
  max_events, max_out, new, register, remove, has_session, push, queue, failures, belongs,
  new_handle, add_exchange, next_id, initiate, close, outgoing, event,
}

-- At most five sendings: the first, and four more.
abbrev pub AtMostFive : Option Pending → Type 0
AtMostFive none = Unit
AtMostFive (some p) = p.attempt ≤ 4

abbrev pub handles : List Exchange → List ℕ
handles = map (λ e. e.handle)

abbrev pub locals : List Secure → List ℕ
locals = map (λ s. s.config.local)

-- The tables and queues are within their bounds, no session id and no handle is there twice, no
-- handle is new, session zero is no session, and nothing was sent more than five times.
pub record IsSound (n : Node) : Type 0 where
  pub few_sessions : length n.sessions ≤ max_sessions
  pub few_exchanges : length n.exchanges ≤ max_exchanges
  pub few_out : length n.out ≤ max_out
  pub few_events : length n.events ≤ max_events
  pub real : All (λ s. s.config.local ≢ 0) n.sessions
  pub sessions_differ : Nodup (locals n.sessions)
  pub handles_differ : Nodup (handles n.exchanges)
  pub handles_old : All (λ e. e.handle ≤ n.next_handle) n.exchanges
  pub sendings : All (λ e. AtMostFive e.pending) n.exchanges

pub new-IsSound : (counter exchange : ℕ) → IsSound (new counter exchange)
unfolding new
new-IsSound counter exchange = record {
  few_sessions = omega arith;
  few_exchanges = omega arith;
  few_out = omega arith;
  few_events = omega arith;
  real = tt;
  sessions_differ = tt;
  handles_differ = tt;
  handles_old = tt;
  sendings = tt;
}

-- A session is replaced by one of the same id.
pub set_session-IsSound :
    (n : Node) (i : ℕ) (s s' : Secure)
    → IsSound n
    → get_elem? n.sessions i ≡ some s
    → s'.config ≡ s.config
    → IsSound (record n { sessions = set n.sessions i s' })
set_session-IsSound n i s s' v h e = record {
  few_sessions = omega (arith, length-set n.sessions i s', v.few_sessions);
  few_exchanges = v.few_exchanges;
  few_out = v.few_out;
  few_events = v.few_events;
  real =
      All-set (λ s. s.config.local ≢ 0) n.sessions i s' v.real
        (rw e (All-get_elem? (λ s. s.config.local ≢ 0) n.sessions i v.real h));
  sessions_differ =
      rw (map-set (λ s. s.config.local) n.sessions i s s' h (ap (λ (c : Session). c.local) e))
        v.sessions_differ;
  handles_differ = v.handles_differ;
  handles_old = v.handles_old;
  sendings = v.sendings;
}

-- An exchange is replaced by one of the same handle.
pub set_exchange-IsSound :
    (n : Node) (i : ℕ) (e e' : Exchange)
    → IsSound n
    → get_elem? n.exchanges i ≡ some e
    → e'.handle ≡ e.handle
    → AtMostFive e'.pending
    → IsSound (record n { exchanges = set n.exchanges i e' })
set_exchange-IsSound n i e e' v h same few = record {
  few_sessions = v.few_sessions;
  few_exchanges = omega (arith, length-set n.exchanges i e', v.few_exchanges);
  few_out = v.few_out;
  few_events = v.few_events;
  real = v.real;
  sessions_differ = v.sessions_differ;
  handles_differ = rw (map-set (λ e. e.handle) n.exchanges i e e' h same) v.handles_differ;
  handles_old =
      All-set (λ e. e.handle ≤ n.next_handle) n.exchanges i e' v.handles_old
        (rw same (All-get_elem? (λ e. e.handle ≤ n.next_handle) n.exchanges i v.handles_old h));
  sendings = All-set (λ e. AtMostFive e.pending) n.exchanges i e' v.sendings few;
}

pub out-IsSound :
    (n : Node) (out : List Outgoing)
    → IsSound n
    → length out ≤ max_out
    → IsSound (record n { out = out })
out-IsSound n out v few = record {
  few_sessions = v.few_sessions;
  few_exchanges = v.few_exchanges;
  few_out = few;
  few_events = v.few_events;
  real = v.real;
  sessions_differ = v.sessions_differ;
  handles_differ = v.handles_differ;
  handles_old = v.handles_old;
  sendings = v.sendings;
}

pub events-IsSound :
    (n : Node) (events : List Event)
    → IsSound n
    → length events ≤ max_events
    → IsSound (record n { events = events })
events-IsSound n events v few = record {
  few_sessions = v.few_sessions;
  few_exchanges = v.few_exchanges;
  few_out = v.few_out;
  few_events = few;
  real = v.real;
  sessions_differ = v.sessions_differ;
  handles_differ = v.handles_differ;
  handles_old = v.handles_old;
  sendings = v.sendings;
}

-- The counters of the node have no part in it.
pub counters-IsSound :
    (n : Node) (counter next_exchange : ℕ)
    → IsSound n
    → IsSound (record n { counter = counter; next_exchange = next_exchange })
counters-IsSound n counter next_exchange v = record {
  few_sessions = v.few_sessions;
  few_exchanges = v.few_exchanges;
  few_out = v.few_out;
  few_events = v.few_events;
  real = v.real;
  sessions_differ = v.sessions_differ;
  handles_differ = v.handles_differ;
  handles_old = v.handles_old;
  sendings = v.sendings;
}

-- What `queue` gives is within its bound.
pub queue-le :
    {A : Type 0} (q : List A) (item : A) (limit : ℕ) {q' : List A}
    → queue q item limit ≡ ok q'
    → (length q' ≤ limit) × (q' ≡ q ++ item ∷ [])
unfolding queue
queue-le q item limit h = elim (Bool-cases (leb limit (length q))) [
  | inl full ↦ absurd (cc (rw full at h))
  | inr room ↦
      let same : ok (q ++ item ∷ []) ≡ ok _ = rw room at h in
      ground (arith, same, length-append q (item ∷ []), room)
]
