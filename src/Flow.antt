-- ===== src/Flow.antt =====
-- Flows, crates/core/src/flow.rs: the cards of a graph and an execution that runs them. The values
-- of JSON are those of `hop_types`, so their accessors are a parameter; the fields that
-- crates/core/src/json.rs reads with them are defined.
pub mod Queue
pub mod Once
pub mod Tests
use stulp.Prelude.{
  ℕ, zero, suc, ◌+◌, Bool, true, false, ◌&&◌, ◌||◌, Option, none, some, List, [], ◌∷◌, length,
  get_elem?, set, replicate, position, ltb, ◌==◌, if◌then◌else◌, String, same_text,
}
use stulp.Prelude.Results.{Error, Result, ok, err, full, changed, missing, conflict, ok_or}

-- `as_object().and_then(|o| o.get(key))`, `as_str`, `as_bool` and `as_array` of a value.
pub record Json : Type 1 where
  pub Value : Type 0
  pub field : Value → String → Option Value
  pub as_str : Value → Option String
  pub as_bool : Value → Option Bool
  pub as_array : Value → Option (List Value)

abbrev pub max_nodes : ℕ
max_nodes = 128

abbrev pub or_else {ℓ} : {A : Type ℓ} → Option A → A → A
or_else none d = d
or_else (some a) d = a

-- `passed == inverted`
abbrev pub same_bool : Bool → Bool → Bool
same_bool true b = b
same_bool false true = false
same_bool false false = true

pub record Execution : Type 0 where
  pub pending : List ℕ
  pub head : ℕ
  pub tail : ℕ
  pub visited : List Bool
  pub waiting : Option ℕ

-- An execution before any trigger.
abbrev pub idle : Execution
idle = record {
  pending = replicate max_nodes 0;
  head = 0;
  tail = 0;
  visited = replicate max_nodes false;
  waiting = none;
}

unfoldable pub card_kind : String → String
card_kind t =
    if same_text t "trigger" || same_text t "device-trigger"
    then "trigger"
    else if same_text t "condition"
    then "condition"
    else if same_text t "action"
    then "action"
    else ""

-- A card that has not been visited is queued once.
unfoldable pub visit : ℕ → Execution → Result (Unit {0}) × Execution
visit to e = elim (get_elem? e.visited to) [
  | none ↦ (ok tt, e)
  | some true ↦ (ok tt, e)
  | some false ↦
      if ltb e.tail (length e.pending)
      then (
        ok tt,
        record e {
          pending = set e.pending e.tail to;
          tail = e.tail + 1;
          visited = set e.visited to true;
        },
      )
      else (err full, e)
]

unfoldable pub skip : Execution → Result (Unit {0}) × Execution
skip e = elim e.waiting [
  | none ↦ (err (conflict "no flow callback pending"), e)
  | some index ↦
      if ltb index (length e.visited)
      then (ok tt, record e { waiting = none; visited = set e.visited index true })
      else (err full, record e { waiting = none })
]

module _ (J : Json) where
  open J use {Value, field, as_str, as_bool, as_array}

  -- The readers of crates/core/src/json.rs.
  unfoldable pub get : Value → String → Option Value
  get value key = field value key

  unfoldable pub text : Value → String → String
  unfolding get
  text value key = elim (get value key) [ none ↦ "" | some v ↦ or_else (as_str v) "" ]

  unfoldable pub boolean : Value → String → Bool
  unfolding get
  boolean value key = elim (get value key) [ none ↦ false | some v ↦ or_else (as_bool v) false ]

  unfoldable pub array : Value → String → List Value
  unfolding get
  array value key = elim (get value key) [ none ↦ [] | some v ↦ or_else (as_array v) [] ]

  unfoldable pub kind : Value → String
  unfolding get text card_kind
  kind node = card_kind (elim (get node "step") [ none ↦ "" | some s ↦ text s "cardType" ])

  unfoldable pub node_index : List Value → String → Result ℕ
  unfolding text
  node_index nodes id =
      ok_or (position (λ n. same_text (text n "id") id) nodes)
        (missing "connection references a missing card")

  -- The loop of `complete` over the edges out of a card.
  unfoldable pub follow :
      List Value → String → List Value → Execution → Result (Unit {0}) × Execution
  unfolding text node_index visit
  follow nodes id [] e = (ok tt, e)
  follow nodes id (edge ∷ edges) e = elim (same_text (text edge "from") id) [
    | false ↦ follow nodes id edges e
    | true ↦ elim (node_index nodes (text edge "to")) [
      | err x ↦ (err x, e)
      | ok to ↦
          (let (r, e') = visit to e in
            elim r [ err x ↦ (err x, e') | ok u ↦ follow nodes id edges e' ])
    ]
  ]

  -- `complete`, behind its `visited` write.
  unfoldable pub complete_card : Execution → Value → Bool → ℕ → Result (Unit {0}) × Execution
  unfolding array kind boolean get follow text
  complete_card e flow passed index = elim (get_elem? (array flow "nodes") index) [
    | none ↦ (err changed, e)
    | some node ↦
        let inverted : Bool = elim (get node "step") [
          | none ↦ false
          | some s ↦ boolean s "inverted"
        ] in
        if same_text (kind node) "condition" && same_bool passed inverted
        then (ok tt, e)
        else follow (array flow "nodes") (text node "id") (array flow "edges") e
  ]

  unfoldable pub complete : Execution → Value → Bool → Result (Unit {0}) × Execution
  unfolding complete_card
  complete e flow passed = elim e.waiting [
    | none ↦ (err (conflict "no flow callback pending"), e)
    | some index ↦
        if ltb index (length e.visited)
        then complete_card (record e { waiting = none; visited = set e.visited index true }) flow
            passed index
        else (err full, record e { waiting = none })
  ]

  -- `next`, with the place of the card in place of a reference to it.
  unfoldable pub next : Execution → Value → Result (Option ℕ) × Execution
  unfolding array
  next e flow = elim e.waiting [
    | some index ↦ (err (conflict "flow callback is still pending"), e)
    | none ↦ if e.head == e.tail then (ok none, e) else elim (get_elem? e.pending e.head) [
      | none ↦ (err full, e)
      | some index ↦
          let e' = record e { head = e.head + 1; waiting = some index } in
          elim (get_elem? (array flow "nodes") index) [
            | none ↦ (err changed, e')
            | some n ↦ (ok (some index), e')
          ]
    ]
  ]
