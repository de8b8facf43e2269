-- ===== src/Flow/Tests.antt =====
-- A flow of three cards, for the theorems on crates/core/src/flow.rs.
use stulp.Prelude.{
  ◌≡◌, ◌≢◌, refl, arith, true, Option, none, some, List, [], ◌∷◌, if◌then◌else◌, String, same_text,
}
use stulp.Prelude.Results.{err, full}
use stulp.Flow.{
  Json, Execution, idle, complete, complete_card, follow, visit, node_index, text, get, array, kind,
  boolean, card_kind,
}
use stulp.Flow.Queue.{IsSound, Continues, idle-IsSound, complete-IsSound}
use stulp.Prelude.Distinct.{Nodup}
use stulp.Flow.Once.{Call, ask, answered, run, run-Nodup}

-- The values of one flow: a trigger with two actions behind it, the second of which is also behind
-- the first.
data Tree : Type 0 where
  word step : String → Tree
  card edge : String → String → Tree
  cards edges flow : Tree

-- The field of an object with one or two fields.
abbrev pick : String → String → Tree → String → Tree → Option Tree
pick key k v k' v' = if same_text k key then some v else if same_text k' key then some v' else none

abbrev field_of : Tree → String → Option Tree
field_of (step type) key = pick key "cardType" (word type) "kind" (word type)
field_of (card id type) key = pick key "id" (word id) "step" (step type)
field_of (edge from to) key = pick key "from" (word from) "to" (word to)
field_of flow key = pick key "nodes" cards "edges" edges
field_of _ key = none

abbrev word_of : Tree → Option String
word_of (word s) = some s
word_of _ = none

abbrev list_of : Tree → Option (List Tree)
list_of cards = some (card "t" "trigger" ∷ card "x" "action" ∷ card "y" "action" ∷ [])
list_of edges = some (edge "t" "x" ∷ edge "t" "y" ∷ edge "x" "y" ∷ [])
list_of _ = none

abbrev json : Json
json = record {
  Value = Tree;
  field = field_of;
  as_str = word_of;
  as_bool = λ v. none;
  as_array = list_of;
}

abbrev triggered : Execution
triggered = record idle { waiting = some 0 }

triggered-IsSound : IsSound triggered
triggered-IsSound = record {
  size = refl;
  marks = refl;
  order = idle-IsSound.order;
  few = idle-IsSound.few;
  marked = idle-IsSound.marked;
  distinct = idle-IsSound.distinct;
  waits = λ x h. ground (arith, h);
}

abbrev calls : List Call
calls = answered true ∷ ask ∷ answered true ∷ ask ∷ answered true ∷ ask ∷ []

-- Each of the two actions is handed out once.
run_test : (run json flow calls triggered).0 ≡ 1 ∷ 2 ∷ []
unfolding run complete complete_card follow visit node_index text get array kind boolean card_kind
run_test = refl

complete-IsSound_example :
    ((complete json triggered flow true).0 ≢ err full)
    × IsSound (complete json triggered flow true).1
    × Continues triggered (complete json triggered flow true).1
complete-IsSound_example = complete-IsSound json triggered flow true triggered-IsSound

run-Nodup_example :
    Nodup (run json flow calls triggered).0 × IsSound (run json flow calls triggered).1
run-Nodup_example = run-Nodup json flow calls triggered triggered-IsSound
