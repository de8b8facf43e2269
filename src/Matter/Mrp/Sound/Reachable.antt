-- ===== src/Matter/Mrp/Sound/Reachable.antt =====
-- The states that the calls of a node reach (plugins/matter/src/mrp.rs).
use stulp.Prelude.{ℕ, Bool, List, String}
use stulp.Matter.Message.{Cipher}
use stulp.Matter.Mrp.{Node, Session, new, register, remove, initiate, close, outgoing, event}
use stulp.Matter.Mrp.Send.{send, acknowledge}
use stulp.Matter.Mrp.Receive.{receive}
use stulp.Matter.Mrp.Tick.{tick}
use stulp.Matter.Mrp.Sound.{IsSound, new-IsSound}
use stulp.Matter.Mrp.Sound.Calls.{
  register-IsSound, remove-IsSound, close-IsSound, outgoing-IsSound, event-IsSound,
}
use stulp.Matter.Mrp.Sound.Opening.{initiate-IsSound}
use stulp.Matter.Mrp.Sound.Sending.{send-IsSound, acknowledge-IsSound}
use stulp.Matter.Mrp.Sound.Receiving.{receive-IsSound}
use stulp.Matter.Mrp.Sound.Ticking.{tick-IsSound}

-- One step of a node, by a public method that has `&mut self`. A call that fails is a step too.
pub data Step (cipher : List ℕ → Cipher) (n : Node) : Node → Type 0 where
  registering : (config : Session) (seed : ℕ) → Step cipher n (register n config seed).1
  removing : (local : ℕ) → Step cipher n (remove n local).1
  initiating :
      (address : String) (session protocol ephemeral retry_ms : ℕ)
      → Step cipher n (initiate n address session protocol ephemeral retry_ms).1
  sending :
      (h opcode : ℕ) (payload : List ℕ) (reliable : Bool) (now jitter : ℕ)
      → Step cipher n (send cipher n h opcode payload reliable now jitter).1
  acknowledging : (h : ℕ) → Step cipher n (acknowledge cipher n h).1
  receiving :
      (address : String) (bytes : List ℕ) (now : ℕ)
      → Step cipher n (receive cipher n address bytes now).1
  ticking : (now jitter : ℕ) → Step cipher n (tick n now jitter).1
  closing : (h : ℕ) → Step cipher n (close n h)
  taking : Step cipher n (outgoing n).1
  polling : Step cipher n (event n).1

-- What a new node can become.
pub data IsReachable (cipher : List ℕ → Cipher) : Node → Type 0 where
  started : (counter exchange : ℕ) → IsReachable cipher (new counter exchange)
  stepped : {n n' : Node} → IsReachable cipher n → Step cipher n n' → IsReachable cipher n'

pub Step-IsSound :
    (cipher : List ℕ → Cipher) {n n' : Node} → IsSound n → Step cipher n n' → IsSound n'
Step-IsSound cipher {n} v (registering config seed) = register-IsSound n config seed v
Step-IsSound cipher {n} v (removing local) = remove-IsSound n local v
Step-IsSound cipher {n} v (initiating address session protocol ephemeral retry_ms) =
    initiate-IsSound n address session protocol ephemeral retry_ms v
Step-IsSound cipher {n} v (sending h opcode payload reliable now jitter) =
    send-IsSound cipher n h opcode payload reliable now jitter v
Step-IsSound cipher {n} v (acknowledging h) = acknowledge-IsSound cipher n h v
Step-IsSound cipher {n} v (receiving address bytes now) =
    receive-IsSound cipher n address bytes now v
Step-IsSound cipher {n} v (ticking now jitter) = tick-IsSound n now jitter v
Step-IsSound cipher {n} v (closing h) = close-IsSound n h v
Step-IsSound cipher {n} v taking = outgoing-IsSound n v
Step-IsSound cipher {n} v polling = event-IsSound n v

-- Whatever calls a new node has had, and whether they failed or not: it has at most 64 sessions,
-- 128 exchanges, 64 datagrams and 64 events, no session id stands twice and none is zero, no
-- handle stands twice and none is larger than the last one given, and no message has been sent
-- more than five times.
pub reachable-IsSound : (cipher : List ℕ → Cipher) {n : Node} → IsReachable cipher n → IsSound n
reachable-IsSound cipher (started counter exchange) = new-IsSound counter exchange
reachable-IsSound cipher (stepped before step) =
    Step-IsSound cipher (reachable-IsSound cipher before) step
