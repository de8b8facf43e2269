-- ===== src/Matter/Mrp/Tests.antt =====
-- Nodes at concrete states, for the theorems on plugins/matter/src/mrp.rs.
use stulp.Prelude.{
  set, remove_at, ℕ, ◌+◌, ◌^◌, ◌<◌, ◌≤◌, ◌≡◌, ◌≢◌, ◌⊎◌, refl, true, false, none, some, List, [],
  ◌∷◌, ◌++◌, arith,
}
use stulp.Prelude.Results.{ok}
use stulp.Matter.Message.{Cipher, Message, open_sealed, peek, parse_protocol, nonce}
use stulp.Bytes.{from_le}
use stulp.Matter.Buffer.{copy}
use stulp.Matter.Mrp.{
  failed, is_used, fresh, next_id, Node, Session, Exchange, Event, Pending, event, new, initiate,
  register, push, has_session, remove, add_exchange, new_handle, placed, queue,
}
use stulp.Matter.Mrp.Replay
use stulp.Matter.Mrp.Send.{send}
use stulp.Matter.Mrp.Receive.{
  received, receive, admit, open_message, mark_session, dispatch_marked, dispatch, accept,
  deliver_new, deliver, publish, mark_exchange, settle,
}
use stulp.Matter.Mrp.Tick.{tick, retry}
use stulp.Matter.Mrp.Messages.{messages}
use stulp.Matter.Mrp.Budget.{budget, tick-budget}
use stulp.Matter.Mrp.Retry.{datagram, sent_again, tick_lem}
use stulp.Matter.Mrp.Initiate.{initiate_lem}
use stulp.Matter.Mrp.Forget.{Kept, Concerns, Reports, remove_lem}
use stulp.Matter.Mrp.Once.{Spares, further, no_call, received-once}
use stulp.Matter.Mrp.Sound.{IsSound}
use stulp.Matter.Mrp.Sound.Reachable.{
  started, stepped, initiating, sending, receiving, polling, reachable-IsSound,
}
use stulp.Matter.Tests.{plain_cipher}

abbrev cipher : List ℕ → Cipher
cipher key = plain_cipher

abbrev greeted : Node
greeted =
    (send cipher (initiate (new 1 1) "[fd00::1]:5540" 0 1 9 0).1 1 32 (1 ∷ 2 ∷ []) true 100 0).1

reachable-IsSound_example : IsSound greeted
reachable-IsSound_example = reachable-IsSound cipher (
    stepped (stepped (started 1 1) (initiating "[fd00::1]:5540" 0 1 9 0))
      (sending 1 32 (1 ∷ 2 ∷ []) true 100 0))

abbrev config : Session
config = record {
  local = 7;
  peer = 8;
  local_node = 1;
  peer_node = 2;
  address = "[fd00::1]:5540";
  outgoing = [];
  incoming = [];
  timing = record { idle = 500; active = 300; threshold = 4000 };
}

abbrev paired : Node
paired = (register (new 1 1) config 5).1

abbrev report : Message
report = record {
  header = record {
    session = 7;
    kind = 0;
    control = false;
    counter = 345;
    source = none;
    destination = none;
    group = none;
    extensions = [];
  };
  protocol = record {
    initiator = true;
    reliable = false;
    ack = none;
    opcode = 5;
    exchange = 456;
    protocol = 1;
    vendor = none;
    extensions = [];
  };
  payload = 1 ∷ 2 ∷ [];
}

-- The first time the message is handed up.
delivered :
    messages (received cipher paired "[fd00::1]:5540" 7 report 10).1.events ≡ (1, report) ∷ []
unfolding received mark_session dispatch_marked dispatch accept deliver_new deliver publish
    mark_exchange settle register push has_session new add_exchange new_handle placed Replay.mark
    Replay.mark_at Replay.new messages
delivered = refl

-- Another message of the peer, with a newer counter.
abbrev newer : Message
newer = record report {
  header = record report.header { counter = 346 };
  protocol = record report.protocol { exchange = 457 };
}

abbrev newer_bytes : List ℕ
newer_bytes = 0 ∷ 7 ∷ 0 ∷ 0 ∷ 90 ∷ 1 ∷ 0 ∷ 0 ∷ 1 ∷ 5 ∷ 201 ∷ 1 ∷ 1 ∷ 0 ∷ 1 ∷ 2 ∷ []

abbrev met : Node
met = (received cipher paired "[fd00::1]:5540" 7 report 10).1

-- It is handed up too, between the two.
both_delivered :
    messages (receive cipher met "[fd00::1]:5540" newer_bytes 11).1.events
    ≡ (1, report) ∷ (2, newer) ∷ []
unfolding receive admit open_message open_sealed peek parse_protocol copy nonce received
    mark_session dispatch_marked dispatch accept deliver_new deliver publish mark_exchange settle
    register push has_session new add_exchange new_handle placed Replay.mark Replay.mark_at
    Replay.mark_known Replay.new messages from_le
both_delivered = refl

received-once_example :
    messages
      (received cipher
        (event (receive cipher met "[fd00::1]:5540" newer_bytes 11).1).1
        "[fd00::1]:5540"
        7
        report
        12).1.events
    ≡ messages (event (receive cipher met "[fd00::1]:5540" newer_bytes 11).1).1.events
unfolding register push has_session new Spares
received-once_example =
    received-once cipher 7 "[fd00::1]:5540" paired
      (event (receive cipher met "[fd00::1]:5540" newer_bytes 11).1).1 report report 10 12
      (λ e. absurd (omega (arith, e))) refl refl
      (further (further no_call (receiving "[fd00::1]:5540" newer_bytes 11) tt) polling tt)

abbrev pending : Pending
pending = record { counter = 3; bytes = 4 ∷ 5 ∷ []; attempt = 4; next = 20 }

abbrev talk : Exchange
talk = record {
  handle = 1;
  remote = "[fd00::1]:5540";
  session = 7;
  id = 4;
  initiator = true;
  protocol = 1;
  ephemeral = 0;
  replay = Replay.new;
  ack = none;
  pending = some pending;
  retry = 0;
}

abbrev waiting : Node
waiting = record (new 1 1) { exchanges = talk ∷ []; next_handle = 1 }

waiting-IsSound : IsSound waiting
unfolding new
waiting-IsSound = record {
  few_sessions = omega arith;
  few_exchanges = omega arith;
  few_out = omega arith;
  few_events = omega arith;
  real = tt;
  sessions_differ = tt;
  handles_differ = (tt, tt);
  handles_old = (omega arith, tt);
  sendings = (omega arith, tt);
}

tick-budget_example : budget (tick waiting 30 0).1.exchanges + 1 ≡ budget waiting.exchanges
unfolding tick retry queue new
tick-budget_example = tick-budget waiting 30 0 waiting-IsSound refl refl

remove_lem_example :
    (((remove waiting 7).0 ≡ ok tt)
      × Kept (λ s. s.config.local ≡ 7) waiting.sessions (remove waiting 7).1.sessions
      × Kept (λ e. e.session ≡ 7) waiting.exchanges (remove waiting 7).1.exchanges
      × Kept (λ p. p.session ≡ 7) waiting.out (remove waiting 7).1.out
      × ((before : List Event) × (told : List Event) × ((remove waiting 7).1.events
            ≡ before ++ told)
          × Kept (Concerns waiting.exchanges 7) waiting.events before
          × Reports 7 waiting.exchanges told))
    ⊎ (((remove waiting 7).0 ≢ ok tt) × ((remove waiting 7).1 ≡ waiting))
remove_lem_example = remove_lem waiting 7

initiate_lem_example :
    (id : ℕ) × (id < 2 ^ 16)
    × (is_used waiting.exchanges "[fd00::2]:5540" 0 id ≡ false)
    × ((initiate waiting "[fd00::2]:5540" 0 1 9 0).1.exchanges
        ≡ waiting.exchanges ++ fresh 2 "[fd00::2]:5540" 0 id true 1 9 0 ∷ [])
unfolding new initiate next_id add_exchange new_handle placed push
initiate_lem_example = initiate_lem waiting "[fd00::2]:5540" 0 1 9 0 waiting-IsSound refl

tick_lem_example :
    ((pending.attempt < 4)
      × ((tick waiting 30 0).1.out ≡ waiting.out ++ datagram talk pending ∷ [])
      × ((tick waiting 30 0).1.exchanges
          ≡ set waiting.exchanges 0
              (record talk { pending = some (sent_again waiting talk pending 30 0) })))
    ⊎ ((4 ≤ pending.attempt)
        × ((tick waiting 30 0).1.out ≡ waiting.out)
        × ((tick waiting 30 0).1.events ≡ waiting.events ++ failed talk.handle ∷ [])
        × ((tick waiting 30 0).1.exchanges ≡ remove_at 0 waiting.exchanges))
unfolding tick retry queue new
tick_lem_example = tick_lem waiting 30 0 refl refl refl
