-- ===== src/Matter/Mrp/Once.antt =====
-- Messages that come again in a session, plugins/matter/src/mrp.rs.
use stulp.Prelude.{ℕ, ◌≡◌, ◌≢◌, true, some, List, String}
use stulp.Matter.Message.{Message, Cipher}
use stulp.Matter.Mrp.{Node, Secure, close}
use stulp.Matter.Mrp.Send.{session_from}
use stulp.Matter.Mrp.Receive.{received}
use stulp.Matter.Mrp.Messages.{messages}
use stulp.Matter.Mrp.Quiet.{is_spent}
use stulp.Matter.Mrp.Delivery.{received-spent, received-silent}
use stulp.Matter.Mrp.Spent.{
  receive_keeps, register_keeps, remove_keeps, initiate_keeps, send_keeps, acknowledge_keeps,
  tick_keeps, outgoing_keeps, event_keeps,
}
use stulp.Matter.Mrp.Sound.Reachable.{
  Step, registering, removing, initiating, sending, acknowledging, receiving, ticking, closing,
  taking, polling,
}

-- A call that does not remove this session.
unfoldable pub Spares :
    (local : ℕ) {cipher : List ℕ → Cipher} {n n' : Node} → Step cipher n n' → Type 0
Spares local (removing other) = other ≢ local
Spares local (registering config seed) = Unit
Spares local (initiating address session protocol ephemeral retry_ms) = Unit
Spares local (sending h opcode payload reliable now jitter) = Unit
Spares local (acknowledging h) = Unit
Spares local (receiving address bytes now) = Unit
Spares local (ticking now jitter) = Unit
Spares local (closing h) = Unit
Spares local taking = Unit
Spares local polling = Unit

-- Any calls of a node, failed ones included, that leave the session registered.
pub data Calls (cipher : List ℕ → Cipher) (local : ℕ) (n : Node) : Node → Type 0 where
  no_call : Calls cipher local n n
  further :
      {n' n'' : Node}
      → Calls cipher local n n'
      → (step : Step cipher n' n'') → Spares local step
      → Calls cipher local n n''

module _ (cipher : List ℕ → Cipher) (local : ℕ) (address : String) (c : ℕ) where
  still_marked :
      {n n' : Node} (step : Step cipher n n')
      → Spares local step
      → is_spent n local address c ≡ true
      → is_spent n' local address c ≡ true
  unfolding Spares close
  still_marked {n} (registering config seed) ok_ h = register_keeps local address c n config seed h
  still_marked {n} (removing other) away h = remove_keeps local address c n other away h
  still_marked {n} (initiating to session protocol ephemeral retry_ms) ok_ h =
      initiate_keeps local address c n to session protocol ephemeral retry_ms h
  still_marked {n} (sending g opcode payload reliable now jitter) ok_ h =
      send_keeps local address c cipher n g opcode payload reliable now jitter h
  still_marked {n} (acknowledging g) ok_ h = acknowledge_keeps local address c cipher n g h
  still_marked {n} (receiving from bytes now) ok_ h =
      receive_keeps local address c cipher n from bytes now h
  still_marked {n} (ticking now jitter) ok_ h = tick_keeps local address c n now jitter h
  still_marked {n} (closing g) ok_ h = h
  still_marked {n} taking ok_ h = outgoing_keeps local address c n h
  still_marked {n} polling ok_ h = event_keeps local address c n h

  always_marked :
      {n n' : Node}
      → Calls cipher local n n'
      → is_spent n local address c ≡ true
      → is_spent n' local address c ≡ true
  always_marked no_call h = h
  always_marked (further before step spares) h = still_marked step spares (always_marked before h)

-- A message has come in a session, over any cipher. Whatever calls follow, other messages in the
-- same session included, as long as the session is not removed: a message with the same counter
-- and from the same address then hands no message up, whatever the first one was answered, and
-- whatever the rest of the second one is.
pub received-once :
    (cipher : List ℕ → Cipher) (local : ℕ) (address : String) (n n' : Node) (m m' : Message)
    (now now' : ℕ) {i : ℕ} {s : Secure}
    → local ≢ 0
    → session_from n local address ≡ some (i, s)
    → m'.header.counter ≡ m.header.counter
    → Calls cipher local (received cipher n address local m now).1 n'
    → messages (received cipher n' address local m' now').1.events ≡ messages n'.events
received-once cipher local address n n' m m' now now' real found same calls =
    let c = m.header.counter in
    let spent = received-spent cipher local address n m now found in
    let still = always_marked cipher local address c calls spent in
    received-silent cipher local address n' m' now' real (rw same still)
