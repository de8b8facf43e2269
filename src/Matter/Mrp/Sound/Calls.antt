-- ===== src/Matter/Mrp/Sound/Calls.antt =====
-- The state after sessions and queues changed (plugins/matter/src/mrp.rs).
use stulp.Prelude.{
  ℕ, ◌+◌, ◌-◌, ◌≤◌, ◌≡◌, ◌≢◌, ◌⊎◌, refl, ap, Bool, false, not, ◌||◌, none, List, [], ◌∷◌, ◌++◌,
  length, any, retain, All, ltb, leb, ◌==◌, inl, inr, arith, Bool-cases, length-append, bit_and,
}
use stulp.Prelude.Distinct.{Nodup-snoc, All-snoc, length-retain, All-retain, Nodup-retain, map-snoc}
use stulp.Prelude.Results.{ok, Result-cases}
use stulp.Matter.Mrp.{
  Node, Session, Secure, Exchange, Event, Outgoing, max_sessions, max_events, register, remove,
  has_session, is_blank, push, failures, belongs, close, outgoing, event, failed,
}
use stulp.Matter.Mrp.Replay
use stulp.Matter.Mrp.Sound.{IsSound, AtMostFive, locals, out-IsSound, events-IsSound}

list-cases {ℓ} :
    {A : Type ℓ} (xs : List A) → (xs ≡ []) ⊎ ((x : A) × (rest : List A) × (xs ≡ x ∷ rest))
list-cases [] = inl refl
list-cases (x ∷ xs) = inr (x, xs, refl)

pub push-le :
    {A : Type 0} (values : List A) (value : A) (limit : ℕ) {values' : List A}
    → push values value limit ≡ ok values'
    → (length values' ≤ limit) × (values' ≡ values ++ value ∷ [])
unfolding push
push-le values value limit h = elim (Bool-cases (leb limit (length values))) [
  | inl full ↦ absurd (cc (rw full at h))
  | inr room ↦
      let same : ok (values ++ value ∷ []) ≡ ok _ = rw room at h in
      ground (arith, same, length-append values (value ∷ []), room)
]

any-All :
    (local : ℕ) (ss : List Secure)
    → any (λ s. s.config.local == local) ss ≡ false
    → All (λ y. y ≢ local) (locals ss)
any-All local [] h = tt
any-All local (s ∷ ss) h =
    ((λ e. absurd (ground (arith, h, e))), any-All local ss (ground (arith, h)))

-- An admissible session at the end of the table.
added-IsSound :
    (n : Node) (s : Secure) (sessions : List Secure)
    → IsSound n
    → s.config.local ≢ 0
    → has_session n s.config.local ≡ false
    → push n.sessions s max_sessions ≡ ok sessions
    → IsSound (record n { sessions = sessions })
unfolding has_session
added-IsSound n s sessions v real other room =
    let (few, same) = push-le n.sessions s max_sessions room in
    let place = map-snoc (λ s. s.config.local) n.sessions s in
    record {
      few_sessions = few;
      few_exchanges = v.few_exchanges;
      few_out = v.few_out;
      few_events = v.few_events;
      real = rw same (All-snoc (λ s. s.config.local ≢ 0) n.sessions s v.real real);
      sessions_differ =
          rw (same, place)
            (Nodup-snoc (locals n.sessions) s.config.local v.sessions_differ
              (any-All s.config.local n.sessions other));
      handles_differ = v.handles_differ;
      handles_old = v.handles_old;
      sendings = v.sendings;
    }

pub register-IsSound :
    (n : Node) (config : Session) (counter_seed : ℕ)
    → IsSound n
    → IsSound (register n config counter_seed).1
unfolding register
register-IsSound n config counter_seed v =
    let test =
      config.local == 0
      || (config.peer == 0 || (is_blank config.address || has_session n config.local)) in
    let s : Secure = record {
      config = config;
      counter = bit_and counter_seed 0x0fff_ffff;
      replay = Replay.new;
      last = none;
    } in
    elim (Bool-cases test) [
      | inl bad ↦ rw (bad, register) v
      | inr good ↦ elim (Result-cases (push n.sessions s max_sessions)) [
        | inr (x, no_room) ↦ rw (good, register, no_room) v
        | inl (sessions, room) ↦
            rw (good, register, room)
              (added-IsSound n s sessions v
                (admissible_local (config.peer == 0) (is_blank config.address)
                  (has_session n config.local) good)
                (admissible_new (config.local == 0) (config.peer == 0) (is_blank config.address)
                  (has_session n config.local) good)
                room)
      ]
    ]
  where
    admissible_local :
        (b c d : Bool) → ((config.local == 0) || (b || (c || d))) ≡ false → config.local ≢ 0
    admissible_local b c d h e = absurd (ground (arith, h, e))

    admissible_new : (a b c d : Bool) → (a || (b || (c || d))) ≡ false → d ≡ false
    admissible_new a b c d h = ground arith

length-failures :
    (es : List Exchange) (local : ℕ) (events : List Event)
    → length (failures es local events)
      ≡ length events + length (retain (λ e. e.session == local) es)
length-failures [] local events = omega arith
length-failures (e ∷ es) local events = elim (Bool-cases (e.session == local)) [
  | inl here ↦ rw here (
      omega (
        arith,
        length-failures es local events,
        length-append (failures es local events) (failed e.handle ∷ []),
      ))
  | inr other ↦ rw other (length-failures es local events)
]

pub remove-IsSound : (n : Node) (local : ℕ) → IsSound n → IsSound (remove n local).1
unfolding remove
remove-IsSound n local v =
    let stays = λ (e : Exchange). not (e.session == local) in
    let lives = λ (s : Secure). not (s.config.local == local) in
    let retained = retain (λ event. not (belongs n.exchanges local event)) n.events in
    let count = length (retain (λ e. e.session == local) n.exchanges) in
    elim (Bool-cases (ltb (max_events - length retained) count)) [
      | inl crowded ↦ rw (crowded, remove) v
      | inr room ↦
          rw (room, remove)
            (record {
              few_sessions = omega (arith, length-retain lives n.sessions, v.few_sessions);
              few_exchanges = omega (arith, length-retain stays n.exchanges, v.few_exchanges);
              few_out =
                  omega (arith, length-retain (λ p. not (p.session == local)) n.out, v.few_out);
              few_events =
                  fits (length n.events) (length retained) count
                    (length (failures n.exchanges local retained)) room
                    (length-failures n.exchanges local retained)
                    (length-retain (λ event. not (belongs n.exchanges local event)) n.events)
                    v.few_events;
              real = All-retain (λ s. s.config.local ≢ 0) lives n.sessions v.real;
              sessions_differ =
                  Nodup-retain (λ s. s.config.local) lives n.sessions v.sessions_differ;
              handles_differ = Nodup-retain (λ e. e.handle) stays n.exchanges v.handles_differ;
              handles_old =
                  All-retain (λ e. e.handle ≤ n.next_handle) stays n.exchanges v.handles_old;
              sendings = All-retain (λ e. AtMostFive e.pending) stays n.exchanges v.sendings;
            })
    ]
  where
    fits :
        (before kept gone all : ℕ)
        → ltb (64 - kept) gone ≡ false
        → all ≡ kept + gone
        → kept ≤ before
        → before ≤ 64
        → all ≤ 64
    fits before kept gone all h e le few = ground (arith, h, e, le, few)

pub close-IsSound : (n : Node) (h : ℕ) → IsSound n → IsSound (close n h)
unfolding close
close-IsSound n h v =
    let stays = λ (e : Exchange). not (e.handle == h) in
    record {
      few_sessions = v.few_sessions;
      few_exchanges = omega (arith, length-retain stays n.exchanges, v.few_exchanges);
      few_out = v.few_out;
      few_events = v.few_events;
      real = v.real;
      sessions_differ = v.sessions_differ;
      handles_differ = Nodup-retain (λ e. e.handle) stays n.exchanges v.handles_differ;
      handles_old = All-retain (λ e. e.handle ≤ n.next_handle) stays n.exchanges v.handles_old;
      sendings = All-retain (λ e. AtMostFive e.pending) stays n.exchanges v.sendings;
    }

pub outgoing-IsSound : (n : Node) → IsSound n → IsSound (outgoing n).1
unfolding outgoing
outgoing-IsSound n v = elim (list-cases n.out) [
  | inl done ↦ rw (done, outgoing) v
  | inr (p, ps, more) ↦
      rw (more, outgoing)
        (out-IsSound n ps v (omega (arith, ap (λ (t : List Outgoing). length t) more, v.few_out)))
]

pub event-IsSound : (n : Node) → IsSound n → IsSound (event n).1
unfolding event
event-IsSound n v = elim (list-cases n.events) [
  | inl done ↦ rw (done, event) v
  | inr (e, es, more) ↦
      rw (more, event)
        (events-IsSound n es v
          (omega (arith, ap (λ (t : List Event). length t) more, v.few_events)))
]
