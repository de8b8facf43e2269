-- ===== src/Prelude/Distinct.antt =====
-- Lists of numbers without duplicates, and what the list operations keep of them.
use Prim.Native.Nat.{ℕ, zero, suc, ◌≤◌}
use mathlib.Core.Path.{◌≡◌, refl, sym, ap}
use mathlib.Core.Logic.{◌≢◌, ◌⊎◌, inl, inr}
use mathlib.Core.Bool.{Bool, true, false}
use mathlib.Core.Option.{Option, none, some}
use mathlib.Core.List.{List, [], ◌∷◌, ◌++◌, map}
use native.Mathlib.Omega.{arith}
use stulp.Prelude.Tests.{Bool-cases, Option-cases}
use stulp.Prelude.Lists.{length, get_elem?, set, All, find, located, locate, retain, remove_at}

-- No number stands twice.
abbrev pub Nodup : List ℕ → Type 0
Nodup [] = Unit
Nodup (x ∷ xs) = All (λ y. y ≢ x) xs × Nodup xs

pub Nodup-snoc : (xs : List ℕ) (x : ℕ) → Nodup xs → All (λ y. y ≢ x) xs → Nodup (xs ++ x ∷ [])
Nodup-snoc [] x d h = (tt, tt)
Nodup-snoc (y ∷ ys) x (a, d) (ne, h) = (all_snoc ys a, Nodup-snoc ys x d h)
  where
    all_snoc : (zs : List ℕ) → All (λ z. z ≢ y) zs → All (λ z. z ≢ y) (zs ++ x ∷ [])
    all_snoc [] g = ((λ e. ne (sym e)), tt)
    all_snoc (z ∷ zs) (g, gs) = (g, all_snoc zs gs)

pub All-snoc {ℓ κ} :
    {A : Type ℓ} (P : A → Type κ) (xs : List A) (x : A) → All P xs → P x → All P (xs ++ x ∷ [])
All-snoc P [] x h p = (p, tt)
All-snoc P (y ∷ ys) x (g, h) p = (g, All-snoc P ys x h p)

pub All-mono {ℓ κ μ} :
    {A : Type ℓ} (P : A → Type κ) (Q : A → Type μ) (xs : List A)
    → ((x : A) → P x → Q x)
    → All P xs
    → All Q xs
All-mono P Q [] f h = tt
All-mono P Q (x ∷ xs) f (p, h) = (f x p, All-mono P Q xs f h)

module _ {ℓ} {A : Type ℓ} where
  located-eq-some :
      (b : Bool) (y : A) (rest : Option (ℕ × A)) {i : ℕ} {x : A}
      → located b y rest ≡ some (i, x)
      → ((0 ≡ i) × (y ≡ x) × (b ≡ true)) ⊎ ((j : ℕ) × (suc j ≡ i) × (rest ≡ some (j, x)))
  located-eq-some true y rest h = inl (cc h, cc h, refl)
  located-eq-some false y none h = absurd (cc h)
  located-eq-some false y (some (j, z)) {x = x} h =
      let same : z ≡ x = cc h in inr (j, cc h, ap (λ (t : A). some (j, t)) same)

  pub locate-eq-some :
      (test : A → Bool) (xs : List A) {i : ℕ} {x : A}
      → locate test xs ≡ some (i, x)
      → (get_elem? xs i ≡ some x) × (test x ≡ true)
  locate-eq-some test [] h = absurd (cc h)
  locate-eq-some test (y ∷ ys) h = elim (located-eq-some (test y) y (locate test ys) h) [
    | inl (ei, ex, hit) ↦ (rw (sym ei) (ap (λ (t : A). some t) ex), rw (sym ex) hit)
    | inr (j, ej, later) ↦ let (p, q) = locate-eq-some test ys later in (rw (sym ej) p, q)
  ]

  -- What `find` gives stands where `locate` says.
  pub find-locate :
      (test : A → Bool) (xs : List A)
      → find test xs ≡ elim (locate test xs) [ none ↦ none | some (i, x) ↦ some x ]
  find-locate test [] = refl
  find-locate test (x ∷ xs) = elim (Bool-cases (test x)) [
    | inl hit ↦ rw hit refl
    | inr miss ↦ elim (Option-cases (locate test xs)) [
      | inl gone ↦ rw (miss, gone) (rw gone at (find-locate test xs))
      | inr ((i, y), found) ↦ rw (miss, found) (rw found at (find-locate test xs))
    ]
  ]

  -- The element that `find` gives is replaced by one that passes the test too.
  pub find-set :
      (test : A → Bool) (xs : List A) (i : ℕ) (x y : A)
      → locate test xs ≡ some (i, x)
      → test y ≡ true
      → find test (set xs i y) ≡ some y
  find-set test [] i x y h e = absurd (cc h)
  find-set test (z ∷ zs) i x y h e = elim (located-eq-some (test z) z (locate test zs) h) [
    | inl (here, same, hit) ↦ rw (sym here, e) refl
    | inr (j, there, later) ↦ elim (Bool-cases (test z)) [
      | inl hit ↦ absurd (clash (rw hit at h) there)
      | inr miss ↦ rw (sym there, miss) (find-set test zs j x y later e)
    ]
  ]
    where
      clash :
          {z x : A} {i j : ℕ} → ◌≡◌ {A = Option (ℕ × A)} (some (0, z)) (some (i, x)) → suc j ≡ i → ⊥
      clash g there = cc (g, there)

  pub map-set :
      (f : A → ℕ) (xs : List A) (i : ℕ) (x y : A)
      → get_elem? xs i ≡ some x
      → f y ≡ f x
      → map f (set xs i y) ≡ map f xs
  map-set f [] i x y h e = refl
  map-set f (z ∷ zs) zero x y h e = let same : z ≡ x = cc h in rw (e, same) refl
  map-set f (z ∷ zs) (suc i) x y h e = ap (λ (t : List ℕ). f z ∷ t) (map-set f zs i x y h e)

  pub All-set {κ} :
      (P : A → Type κ) (xs : List A) (i : ℕ) (y : A) → All P xs → P y → All P (set xs i y)
  All-set P [] i y h p = tt
  All-set P (z ∷ zs) zero y (g, h) p = (p, h)
  All-set P (z ∷ zs) (suc i) y (g, h) p = (g, All-set P zs i y h p)

  pub All-get_elem? {κ} :
      (P : A → Type κ) (xs : List A) (i : ℕ) {x : A} → All P xs → get_elem? xs i ≡ some x → P x
  All-get_elem? P [] i h e = absurd (cc e)
  All-get_elem? P (z ∷ zs) zero {x} (g, h) e = let same : z ≡ x = cc e in rw (sym same) g
  All-get_elem? P (z ∷ zs) (suc i) (g, h) e = All-get_elem? P zs i h e

  pub length-retain : (test : A → Bool) (xs : List A) → length (retain test xs) ≤ length xs
  length-retain test [] = omega arith
  length-retain test (x ∷ xs) = ground (arith, length-retain test xs)

  pub All-retain {κ} :
      (P : A → Type κ) (test : A → Bool) (xs : List A) → All P xs → All P (retain test xs)
  All-retain P test [] h = tt
  All-retain P test (x ∷ xs) (g, h) = elim (Bool-cases (test x)) [
    | inl hit ↦ rw hit (g, All-retain P test xs h)
    | inr miss ↦ rw miss (All-retain P test xs h)
  ]

  All-map-retain {κ} :
      (P : ℕ → Type κ) (f : A → ℕ) (test : A → Bool) (xs : List A)
      → All P (map f xs)
      → All P (map f (retain test xs))
  All-map-retain P f test [] h = tt
  All-map-retain P f test (x ∷ xs) (g, h) = elim (Bool-cases (test x)) [
    | inl hit ↦ rw hit (g, All-map-retain P f test xs h)
    | inr miss ↦ rw miss (All-map-retain P f test xs h)
  ]

  pub Nodup-retain :
      (f : A → ℕ) (test : A → Bool) (xs : List A)
      → Nodup (map f xs)
      → Nodup (map f (retain test xs))
  Nodup-retain f test [] h = tt
  Nodup-retain f test (x ∷ xs) (g, h) = elim (Bool-cases (test x)) [
    | inl hit ↦ rw hit (All-map-retain (λ y. y ≢ f x) f test xs g, Nodup-retain f test xs h)
    | inr miss ↦ rw miss (Nodup-retain f test xs h)
  ]

  pub length-remove_at : (i : ℕ) (xs : List A) → length (remove_at i xs) ≤ length xs
  length-remove_at i [] = omega arith
  length-remove_at zero (x ∷ xs) = omega arith
  length-remove_at (suc i) (x ∷ xs) = omega (arith, length-remove_at i xs)

  pub All-remove_at {κ} : (P : A → Type κ) (i : ℕ) (xs : List A) → All P xs → All P (remove_at i xs)
  All-remove_at P i [] h = tt
  All-remove_at P zero (x ∷ xs) (g, h) = h
  All-remove_at P (suc i) (x ∷ xs) (g, h) = (g, All-remove_at P i xs h)

  All-map-remove_at {κ} :
      (P : ℕ → Type κ) (f : A → ℕ) (i : ℕ) (xs : List A)
      → All P (map f xs)
      → All P (map f (remove_at i xs))
  All-map-remove_at P f i [] h = tt
  All-map-remove_at P f zero (x ∷ xs) (g, h) = h
  All-map-remove_at P f (suc i) (x ∷ xs) (g, h) = (g, All-map-remove_at P f i xs h)

  pub Nodup-remove_at :
      (f : A → ℕ) (i : ℕ) (xs : List A) → Nodup (map f xs) → Nodup (map f (remove_at i xs))
  Nodup-remove_at f i [] h = tt
  Nodup-remove_at f zero (x ∷ xs) (g, h) = h
  Nodup-remove_at f (suc i) (x ∷ xs) (g, h) =
      (All-map-remove_at (λ y. y ≢ f x) f i xs g, Nodup-remove_at f i xs h)

  pub map-snoc : (f : A → ℕ) (xs : List A) (x : A) → map f (xs ++ x ∷ []) ≡ map f xs ++ f x ∷ []
  map-snoc f [] x = refl
  map-snoc f (y ∷ ys) x = ap (λ (t : List ℕ). f y ∷ t) (map-snoc f ys x)

  pub All-map {κ} :
      (P : ℕ → Type κ) (f : A → ℕ) (xs : List A) → All (λ x. P (f x)) xs → All P (map f xs)
  All-map P f [] h = tt
  All-map P f (x ∷ xs) (g, h) = (g, All-map P f xs h)
