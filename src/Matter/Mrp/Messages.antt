-- ===== src/Matter/Mrp/Messages.antt =====
-- The messages that a node hands to the layer above it, plugins/matter/src/mrp.rs.
use stulp.Prelude.{
  ℕ, ◌≡◌, refl, ap, ◌∙◌, Bool, true, false, Option, none, some, List, [], ◌∷◌, ◌++◌, append-nil,
  if◌then◌else◌,
}
use stulp.Matter.Message.{Message}
use stulp.Matter.Mrp.{Event, accepted, message, acknowledged, failed}
use stulp.Matter.Mrp.Receive.{announced, answers}

-- The messages among events, each with its exchange.
unfoldable pub messages : List Event → List (ℕ × Message)
messages [] = []
messages (accepted h ∷ events) = messages events
messages (message h m ∷ events) = (h, m) ∷ messages events
messages (acknowledged h c ∷ events) = messages events
messages (failed h ∷ events) = messages events

messages-append : (xs ys : List Event) → messages (xs ++ ys) ≡ messages xs ++ messages ys
unfolding messages
messages-append [] ys = refl
messages-append (accepted h ∷ xs) ys = messages-append xs ys
messages-append (message h m ∷ xs) ys =
    ap (λ (t : List (ℕ × Message)). (h, m) ∷ t) (messages-append xs ys)
messages-append (acknowledged h c ∷ xs) ys = messages-append xs ys
messages-append (failed h ∷ xs) ys = messages-append xs ys

-- Events without a message at the end.
pub messages-append_silent :
    (xs ys : List Event) → messages ys ≡ [] → messages (xs ++ ys) ≡ messages xs
messages-append_silent xs ys h = messages-append xs ys ∙ (rw h (append-nil (messages xs)))

opened_silent : (h : ℕ) (is_new : Bool) → messages (if is_new then accepted h ∷ [] else []) ≡ []
unfolding messages
opened_silent h true = refl
opened_silent h false = refl

answers_silent :
    (h : ℕ) (answered : Bool) (ack : Option ℕ)
    → messages (if answered then answers ack h else []) ≡ []
unfolding messages
answers_silent h true none = refl
answers_silent h true (some c) = refl
answers_silent h false ack = refl

-- What `publish` announces has no message.
pub messages-announced :
    (events : List Event) (h : ℕ) (is_new answered : Bool) (ack : Option ℕ)
    → messages (announced events h is_new answered ack) ≡ messages events
messages-announced events h is_new answered ack =
    messages-append_silent (events ++ opened) (if answered then answers ack h else [])
      (answers_silent h answered ack)
    ∙ messages-append_silent events opened (opened_silent h is_new)
  where
    opened : List Event
    opened = if is_new then accepted h ∷ [] else []
