-- ===== src/Flow/Queue.antt =====
-- The queue of an execution (crates/core/src/flow.rs).
use stulp.Prelude.{
  ℕ, zero, suc, ◌+◌, ◌<◌, ◌≤◌, ◌≡◌, ◌≢◌, refl, sym, ◌∙◌, Bool, true, false, ◌&&◌, none, some, List,
  [], ◌∷◌, ◌⊎◌, inl, inr, arith, length, get_elem?, set, ltb, if◌then◌else◌, length-set,
  get_elem?-set_self, get_elem?-set_ne, Bool-cases, Option-cases, String, same_text,
}
use native.Mathlib.Decide.{ℕ_discrete}
use stulp.Prelude.Results.{Error, Result, ok, err, full, Result-cases}
use stulp.Flow.{
  Json, max_nodes, Execution, idle, visit, follow, complete_card, complete, node_index, position,
  same_bool, get, boolean, kind, text, array,
}

abbrev pub count : List Bool → ℕ
count [] = 0
count (b ∷ bs) = (if b then 1 else 0) + count bs

pub count-le : (bs : List Bool) → count bs ≤ length bs
count-le [] = omega arith
count-le (true ∷ bs) = omega (arith, count-le bs)
count-le (false ∷ bs) = omega (arith, count-le bs)

count-set :
    (bs : List Bool) (i : ℕ)
    → get_elem? bs i ≡ some false
    → (count (set bs i true) ≡ count bs + 1) × (count bs < length bs) × (i < length bs)
count-set [] i h = cc
count-set (true ∷ bs) zero h = cc
count-set (false ∷ bs) zero h = (omega arith, omega (arith, count-le bs), omega arith)
count-set (true ∷ bs) (suc i) h = omega (arith, count-set bs i h)
count-set (false ∷ bs) (suc i) h = omega (arith, count-set bs i h)

count-set_le : (bs : List Bool) (i : ℕ) → count bs ≤ count (set bs i true)
count-set_le [] i = omega arith
count-set_le (true ∷ bs) zero = omega arith
count-set_le (false ∷ bs) zero = omega arith
count-set_le (true ∷ bs) (suc i) = omega (arith, count-set_le bs i)
count-set_le (false ∷ bs) (suc i) = omega (arith, count-set_le bs i)

pub get_elem?-lt :
    {A : Type 0} (xs : List A) (i : ℕ) {x : A} → get_elem? xs i ≡ some x → i < length xs
get_elem?-lt [] i h = cc
get_elem?-lt (y ∷ ys) zero h = omega arith
get_elem?-lt (y ∷ ys) (suc i) h = omega (arith, get_elem?-lt ys i h)

-- Setting a mark keeps the marks.
marked-set :
    (bs : List Bool) (i x : ℕ)
    → get_elem? bs x ≡ some true
    → get_elem? (set bs i true) x ≡ some true
marked-set bs i x h = elim (ℕ_discrete i x) [
  | yes e ↦ rw e (get_elem?-set_self bs x true (get_elem?-lt bs x h))
  | no ne ↦ get_elem?-set_ne bs i x true ne ∙ h
]

-- The queue is a list of distinct cards, all of them marked, and what waits is a card.
pub record IsSound (e : Execution) : Type 0 where
  pub size : length e.pending ≡ max_nodes
  pub marks : length e.visited ≡ max_nodes
  pub order : e.head ≤ e.tail
  pub few : e.tail ≤ count e.visited
  pub marked :
      (i x : ℕ) → i < e.tail → get_elem? e.pending i ≡ some x → get_elem? e.visited x ≡ some true
  pub distinct :
      (i j x : ℕ)
      → i < e.tail
      → j < e.tail
      → get_elem? e.pending i ≡ some x
      → get_elem? e.pending j ≡ some x
      → i ≡ j
  pub waits : (x : ℕ) → e.waiting ≡ some x → x < max_nodes

pub idle-IsSound : IsSound idle
idle-IsSound = record {
  size = refl;
  marks = refl;
  order = omega arith;
  few = omega arith;
  marked = λ i x h g. absurd (omega arith);
  distinct = λ i j x h k g l. absurd (omega arith);
  waits = λ x h. absurd (cc h);
}

-- `after` continues `before`: what is queued stays.
abbrev pub Continues : Execution → Execution → Type 0
Continues before after =
    (before.head ≡ after.head)
    × (before.tail ≤ after.tail)
    × ((i : ℕ) → i < before.tail → get_elem? after.pending i ≡ get_elem? before.pending i)

queued : ℕ → Execution → Execution
queued to e = record e {
  pending = set e.pending e.tail to;
  tail = e.tail + 1;
  visited = set e.visited to true;
}

queued_entry :
    (e : Execution) (to i x : ℕ)
    → IsSound e
    → get_elem? e.visited to ≡ some false
    → i < e.tail + 1
    → get_elem? (set e.pending e.tail to) i ≡ some x
    → ((i ≡ e.tail) × (x ≡ to))
      ⊎ ((i < e.tail) × (get_elem? e.pending i ≡ some x) × (get_elem? e.visited x ≡ some true))
queued_entry e to i x s fresh h g =
    let (a, room, b) = count-set e.visited to fresh in
    let fits : e.tail < length e.pending = omega (arith, s.few, s.size, s.marks) in
    elim (ℕ_discrete e.tail i) [
      | yes same ↦
          let here : get_elem? (set e.pending e.tail to) i ≡ some to =
            rw (sym same) (get_elem?-set_self e.pending e.tail to fits) in
          let eq : some x ≡ some to = sym g ∙ here in inl (sym same, cc eq)
      | no ne ↦
          let old = sym (get_elem?-set_ne e.pending e.tail i to ne) ∙ g in
          let small : i < e.tail = omega (arith, ne) in inr (small, old, s.marked i x small old)
    ]

queued-IsSound :
    (e : Execution) (to : ℕ)
    → IsSound e
    → get_elem? e.visited to ≡ some false
    → IsSound (queued to e)
unfolding queued
queued-IsSound e to s fresh =
    let (grown, room, inside) = count-set e.visited to fresh in
    record {
      size = length-set e.pending e.tail to ∙ s.size;
      marks = length-set e.visited to true ∙ s.marks;
      order = omega (arith, s.order);
      few = omega (arith, s.few, grown);
      marked = λ i x h g. elim (queued_entry e to i x s fresh h g) [
        | inl (_, same) ↦ rw same (get_elem?-set_self e.visited to true inside)
        | inr (_, _, m) ↦ marked-set e.visited to x m
      ];
      distinct = λ i j x h k g l. elim (queued_entry e to i x s fresh h g) [
        | inl (ei, same) ↦ elim (queued_entry e to j x s fresh k l) [
          | inl (ej, _) ↦ ei ∙ sym ej
          | inr (_, _, m) ↦ absurd (cc (fresh, m, same))
        ]
        | inr (hi, gi, m) ↦ elim (queued_entry e to j x s fresh k l) [
          | inl (_, same) ↦ absurd (cc (fresh, m, same))
          | inr (hj, gj, _) ↦ s.distinct i j x hi hj gi gj
        ]
      ];
      waits = s.waits;
    }

pub Continues-trans : (a b c : Execution) → Continues a b → Continues b c → Continues a c
Continues-trans a b c (h, t, p) (h', t', p') =
    (h ∙ h', omega (arith, t, t'), λ i lt. p' i (omega (arith, t, lt)) ∙ p i lt)

-- An answer that is not `full`, with an execution that continues the one before and waits for none.
abbrev pub Fine : Execution → Result (Unit {0}) × Execution → Type 0
Fine e (r, after) = (r ≢ err full) × IsSound after × Continues e after × (after.waiting ≡ none)

queued-Continues : (e : Execution) (to : ℕ) → Continues e (queued to e)
unfolding queued
queued-Continues e to = (
  refl,
  omega arith,
  λ i lt. get_elem?-set_ne e.pending e.tail i to (λ same. absurd (omega (arith, same, lt))),
)

visit-queued :
    (to : ℕ) (e : Execution)
    → IsSound e
    → get_elem? e.visited to ≡ some false
    → visit to e ≡ (ok tt, queued to e)
unfolding visit queued
visit-queued to e s fresh =
    let (grown, room, inside) = count-set e.visited to fresh in
    let small : e.tail < length e.pending = omega (arith, s.few, s.size, s.marks, room) in
    let fits : ltb e.tail (length e.pending) ≡ true = ground (arith, small) in
    rw (fresh, visit, fits, queued)

visit_lem :
    (to : ℕ) (e : Execution)
    → IsSound e
    → e.waiting ≡ none
    → ((visit to e).0 ≡ ok tt) × Fine e (visit to e)
unfolding visit
visit_lem to e s w =
    let same : Continues e e = (refl, omega arith, λ i h. refl) in
    elim (Option-cases (get_elem? e.visited to)) [
      | inl absent ↦
          let shape : visit to e ≡ (ok tt, e) = rw (absent, visit) in
          rw shape (refl, ((λ h. absurd (cc h)), s, same, w))
      | inr (true, old) ↦
          let shape : visit to e ≡ (ok tt, e) = rw (old, visit) in
          rw shape (refl, ((λ h. absurd (cc h)), s, same, w))
      | inr (false, fresh) ↦
          let shape = visit-queued to e s fresh in
          rw shape (
            refl,
            (
              (λ h. absurd (cc h)),
              queued-IsSound e to s fresh,
              queued-Continues e to,
              (unfold queued in w),
            ),
          )
    ]

pub marked_lem :
    (e : Execution) (index : ℕ)
    → IsSound e
    → IsSound (record e { waiting = none; visited = set e.visited index true })
marked_lem e index s = record {
  size = s.size;
  marks = length-set e.visited index true ∙ s.marks;
  order = s.order;
  few = omega (arith, s.few, count-set_le e.visited index);
  marked = λ i x h g. marked-set e.visited index x (s.marked i x h g);
  distinct = s.distinct;
  waits = λ x h. absurd (cc h);
}

module _ (J : Json) where
  open J use {Value}

  node_index_lem :
      (nodes : List Value) (id : String) (x : Error) → node_index J nodes id ≡ err x → x ≢ full
  unfolding node_index
  node_index_lem nodes id x h e =
      elim (Option-cases (position (λ n. same_text (text J n "id") id) nodes)) [
        | inl a ↦ absurd (cc (rw a at h, e))
        | inr (i, a) ↦ absurd (cc (rw a at h))
      ]

  follow_lem :
      (nodes : List Value) (id : String) (edges : List Value) (e : Execution)
      → IsSound e
      → e.waiting ≡ none
      → Fine e (follow J nodes id edges e)
  unfolding follow
  follow_lem nodes id [] e s w = ((λ h. absurd (cc h)), s, (refl, omega arith, λ i h. refl), w)
  follow_lem nodes id (edge ∷ edges) e s w = elim (Bool-cases (same_text (text J edge "from") id)) [
    | inr other ↦ rw (other, follow) (follow_lem nodes id edges e s w)
    | inl hit ↦ elim (Result-cases (node_index J nodes (text J edge "to"))) [
      | inr (x, bad) ↦
          rw (hit, follow, bad)
            (
              (λ h. node_index_lem nodes (text J edge "to") x bad (cc h)),
              s,
              (refl, omega arith, λ i h. refl),
              w,
            )
      | inl (to, good) ↦
          let (fine, (n, s', c, w')) = visit_lem to e s w in
          let (n'', s'', c'', w'') = follow_lem nodes id edges (visit to e).1 s' w' in
          rw (hit, follow, good, fine)
            (
              n'',
              s'',
              Continues-trans e (visit to e).1 (follow J nodes id edges (visit to e).1).1 c c'',
              w'',
            )
    ]
  ]

  is_stopped : Value → Bool → Bool
  unfolding get boolean kind
  is_stopped node passed =
      same_text (kind J node) "condition"
      && same_bool passed
          (elim (get J node "step") [ none ↦ false | some s ↦ boolean J s "inverted" ])

  card_lem :
      (e : Execution) (flow : Value) (passed : Bool) (index : ℕ)
      → IsSound e
      → e.waiting ≡ none
      → Fine e (complete_card J e flow passed index)
  unfolding complete_card is_stopped
  card_lem e flow passed index s w =
      let same : Continues e e = (refl, omega arith, λ i h. refl) in
      elim (Option-cases (get_elem? (array J flow "nodes") index)) [
        | inl gone ↦ rw (gone, complete_card) ((λ h. absurd (cc h)), s, same, w)
        | inr (node, found) ↦ elim (Bool-cases (is_stopped node passed)) [
          | inl stop ↦ rw (found, complete_card, stop) ((λ h. absurd (cc h)), s, same, w)
          | inr go ↦
              rw (found, complete_card, go)
                (follow_lem (array J flow "nodes") (text J node "id") (array J flow "edges") e s w)
        ]
      ]

  -- On an execution whose queue is sound, `complete` never answers that there is no room, whatever
  -- the flow and the answer are; the queue is sound behind it, and what was queued stays in place.
  pub complete-IsSound :
      (e : Execution) (flow : Value) (passed : Bool)
      → IsSound e
      → ((complete J e flow passed).0 ≢ err full)
        × IsSound (complete J e flow passed).1
        × Continues e (complete J e flow passed).1
  unfolding complete
  complete-IsSound e flow passed s = elim (Option-cases e.waiting) [
    | inl idle_now ↦
        rw (idle_now, complete) ((λ h. absurd (cc h)), s, (refl, omega arith, λ i h. refl))
    | inr (index, w) ↦
        let e' : Execution = record e { waiting = none; visited = set e.visited index true } in
        let small : index < length e.visited = omega (arith, s.waits index w, s.marks) in
        let fits : ltb index (length e.visited) ≡ true = ground (arith, small) in
        let (n, s', c, w') = card_lem e' flow passed index (marked_lem e index s) refl in
        rw (w, complete, fits) (n, s', c)
  ]
