-- ===== src/Flow/Once.antt =====
-- The cards that an execution hands out (crates/core/src/flow.rs).
use stulp.Prelude.{
  ℕ, zero, suc, ◌+◌, ◌<◌, ◌≤◌, ◌≡◌, ◌≢◌, refl, ap, ◌∙◌, Bool, true, Option, none, some, List, [],
  ◌∷◌, ◌⊎◌, inl, inr, arith, length, get_elem?, ltb, ◌==◌, All, Bool-cases, Option-cases,
}
use stulp.Prelude.Results.{Result, ok, err, changed, conflict}
use stulp.Prelude.Distinct.{Nodup}
use stulp.Flow.{Json, max_nodes, Execution, skip, complete, next, array}
use stulp.Flow.Queue.{IsSound, Continues, complete-IsSound, marked_lem, get_elem?-lt, count-le}

skip_lem : (e : Execution) → IsSound e → IsSound (skip e).1 × Continues e (skip e).1
unfolding skip
skip_lem e s = elim (Option-cases e.waiting) [
  | inl idle_now ↦ rw (idle_now, skip) (s, (refl, omega arith, λ i h. refl))
  | inr (index, w) ↦
      let small : index < length e.visited = omega (arith, s.waits index w, s.marks) in
      let fits : ltb index (length e.visited) ≡ true = ground (arith, small) in
      rw (w, skip, fits) (marked_lem e index s, (refl, omega arith, λ i h. refl))
]

get_elem?-none : (xs : List ℕ) (i : ℕ) → get_elem? xs i ≡ none → length xs ≤ i
get_elem?-none [] i h = omega arith
get_elem?-none (x ∷ xs) zero h = cc
get_elem?-none (x ∷ xs) (suc i) h = omega (arith, get_elem?-none xs i h)

-- What is handed out stands in the queue, at this place or behind it.
abbrev Placed : Execution → ℕ → ℕ → Type 0
Placed e place x = (p : ℕ) × (place ≤ p) × (p < e.tail) × (get_elem? e.pending p ≡ some x)

-- An execution whose first queued card is taken.
abbrev taken : Execution → ℕ → Execution
taken e x = record e { head = e.head + 1; waiting = some x }

taken-IsSound :
    (e : Execution) (x : ℕ)
    → IsSound e
    → e.head < e.tail
    → get_elem? e.pending e.head ≡ some x
    → IsSound (taken e x)
taken-IsSound e x s more found =
    let mark = s.marked e.head x more found in
    let inside : x < max_nodes = omega (arith, get_elem?-lt e.visited x mark, s.marks) in
    record {
      size = s.size;
      marks = s.marks;
      order = omega (arith, more);
      few = s.few;
      marked = s.marked;
      distinct = s.distinct;
      waits = λ y h. (let same : y ≡ x = cc h in omega (arith, same, inside));
    }

-- The calls on an execution: a card is asked for, or the answer to one comes in.
pub data Call : Type 0 where
  ask failed : Call
  answered : Bool → Call

unfoldable pub handed : Result (Option ℕ) → List ℕ → List ℕ
handed (err e) later = later
handed (ok none) later = later
handed (ok (some x)) later = x ∷ later

module _ (J : Json) where
  open J use {Value}

  -- The cards that a sequence of calls hands out, and the execution behind it.
  unfoldable pub run : Value → List Call → Execution → List ℕ × Execution
  unfolding handed next skip complete
  run flow [] e = ([], e)
  run flow (ask ∷ calls) e =
      let (answer, e') = next J e flow in
      let (later, last) = run flow calls e' in (handed answer later, last)
  run flow (failed ∷ calls) e = run flow calls (skip e).1
  run flow (answered passed ∷ calls) e = run flow calls (complete J e flow passed).1

  -- `next` hands out nothing and changes nothing, or takes the first card of the queue; a card
  -- that the flow has lost is taken and not handed out.
  data Next (e : Execution) (flow : Value) : Type 0 where
    rests :
        (answer : Result (Option ℕ))
        → ((later : List ℕ) → handed answer later ≡ later)
        → next J e flow ≡ (answer, e)
        → Next e flow
    takes :
        (answer : Result (Option ℕ)) (x : ℕ)
        → ((later : List ℕ) → (handed answer later ≡ later) ⊎ (handed answer later ≡ x ∷ later))
        → e.head < e.tail
        → get_elem? e.pending e.head ≡ some x
        → next J e flow ≡ (answer, taken e x)
        → Next e flow

  next_lem : (e : Execution) (flow : Value) → IsSound e → Next e flow
  unfolding next handed
  next_lem e flow s = elim (Option-cases e.waiting) [
    | inr (index, w) ↦
        rests (err (conflict "flow callback is still pending")) (λ later. refl)
          (rw (w, next)
            (λ i. (err (conflict "flow callback is still pending"), record e { waiting = w i })))
    | inl w ↦ elim (Bool-cases (e.head == e.tail)) [
      | inl done ↦
          rests (ok none) (λ later. refl)
            (rw (w, next, done) (λ i. (ok none, record e { waiting = w i })))
      | inr open_ ↦
          let more : e.head < e.tail = ground (arith, s.order, open_) in
          elim (Option-cases (get_elem? e.pending e.head)) [
            | inl gone ↦ absurd (
                omega (
                  arith,
                  get_elem?-none e.pending e.head gone,
                  s.size,
                  s.few,
                  s.marks,
                  count-le e.visited,
                  more,
                ))
            | inr (x, found) ↦ elim (Option-cases (get_elem? (array J flow "nodes") x)) [
              | inl lost ↦
                  takes (err changed) x (λ later. inl refl) more found
                    (rw (w, next, open_, found, lost))
              | inr (node, card) ↦
                  takes (ok (some x)) x (λ later. inr refl) more found
                    (rw (w, next, open_, found, card))
            ]
          ]
    ]
  ]

  -- What a run leaves: a sound queue that continues, and what was handed out, from distinct places.
  Ran : Execution → List ℕ × Execution → Type 0
  Ran e (cards, last) =
      IsSound last
      × (e.tail ≤ last.tail)
      × ((i : ℕ) → i < e.tail → get_elem? last.pending i ≡ get_elem? e.pending i)
      × All (Placed last e.head) cards
      × Nodup cards

  later_lem :
      (last : Execution) (place : ℕ) (cards : List ℕ)
      → All (Placed last (place + 1)) cards
      → All (Placed last place) cards
  later_lem last place [] h = tt
  later_lem last place (x ∷ xs) ((p, le, lt, at), hs) =
      ((p, omega (arith, le), lt, at), later_lem last place xs hs)

  fresh_lem :
      (last : Execution) (place x : ℕ) (cards : List ℕ)
      → IsSound last
      → place < last.tail
      → get_elem? last.pending place ≡ some x
      → All (Placed last (place + 1)) cards
      → All (λ y. y ≢ x) cards
  fresh_lem last place x [] s inside here h = tt
  fresh_lem last place x (y ∷ ys) s inside here ((p, le, lt, at), hs) = (
    (λ same.
        let e = s.distinct p place x lt inside (at ∙ ap (λ (t : ℕ). some t) same) here in
        absurd (omega (arith, e, le))),
    fresh_lem last place x ys s inside here hs,
  )

  continued :
      (e e' : Execution) (out : List ℕ × Execution) → Continues e e' → Ran e' out → Ran e out
  unfolding Ran
  continued e e' (cards, last) (h, t, p) (s, t', p', placed, nodup) =
      (s, omega (arith, t, t'), (λ i lt. p' i (omega (arith, lt, t)) ∙ p i lt), rw h placed, nodup)

  run_lem :
      (flow : Value) (calls : List Call) (e : Execution) → IsSound e → Ran e (run flow calls e)
  unfolding run Ran
  run_lem flow [] e s = (s, omega arith, (λ i lt. refl), tt, tt)
  run_lem flow (failed ∷ calls) e s =
      let (s', c) = skip_lem e s in
      continued e (skip e).1 (run flow calls (skip e).1) c (run_lem flow calls (skip e).1 s')
  run_lem flow (answered passed ∷ calls) e s =
      let e' = (complete J e flow passed).1 in
      let (n, s', c) = complete-IsSound J e flow passed s in
      continued e e' (run flow calls e') c (run_lem flow calls e' s')
  run_lem flow (ask ∷ calls) e s = elim (next_lem e flow s) [
    | rests answer none_handed same ↦
        rw (same, none_handed (run flow calls e).0) (run_lem flow calls e s)
    | takes answer x handed_x more found same ↦
        let s1 = taken-IsSound e x s more found in
        let (s', t', p', placed, nodup) = run_lem flow calls (taken e x) s1 in
        let last = (run flow calls (taken e x)).1 in
        let later = (run flow calls (taken e x)).0 in
        let here = p' e.head more ∙ found in
        elim (handed_x later) [
          | inl silent ↦ rw (same, silent) (s', t', p', later_lem last e.head later placed, nodup)
          | inr given ↦
              rw (same, given)
                (
                  s',
                  t',
                  p',
                  (
                    (e.head, omega arith, omega (arith, more, t'), here),
                    later_lem last e.head later placed,
                  ),
                  (fresh_lem last e.head x later s' (omega (arith, more, t')) here placed, nodup),
                )
        ]
  ]

  -- Whatever calls are made on an execution whose queue is sound, and in whatever order, no card is
  -- handed out twice, and the queue is sound behind them.
  pub run-Nodup :
      (flow : Value) (calls : List Call) (e : Execution)
      → IsSound e
      → Nodup (run flow calls e).0 × IsSound (run flow calls e).1
  unfolding Ran
  run-Nodup flow calls e s = let (s', t', p', placed, nodup) = run_lem flow calls e s in (nodup, s')
