-- ===== src/Plan/Concurrency/Search.antt =====
-- The search of isPlanAncestor (internal/plan/tools.go), one visit at a time.
use duto_ai.Prelude.{
  ℕ, zero, suc, String, Bool, true, false, Option, none, some, List, [], ◌∷◌, ◌≡◌, refl, subst,
  arith, if◌then◌else◌, Bool-cases, inl, inr, str_eq, str_eq-true, eq_refl,
}
use duto_ai.Prelude.Keys.{member, lookup}
use duto_ai.Plan.Concurrency.{Needs, or_nil, any_need, visit}

-- The first step is reached from the second by its needs, their needs, and so on.
pub data Before (needs : Needs) (a : String) : String → Type 0 where
  needed : {b : String} → member a (or_nil (lookup b needs)) ≡ true → Before needs a b
  through :
      {b c : String}
      → member b (or_nil (lookup c needs)) ≡ true
      → Before needs a b
      → Before needs a c

abbrev pub Look : Type 0
Look = String → List String → Option (Bool × List String)

-- How a loop over needs ends.
pub data Looked (look : Look) (candidate : String)
    : List String → List String → Bool × List String → Type 0 where
  nothing : (seen : List String) → Looked look candidate [] seen (false, seen)
  hit :
      (need : String) (needs seen : List String)
      → need ≡ candidate
      → Looked look candidate (need ∷ needs) seen (true, seen)
  deeper :
      (need : String) (needs seen out : List String)
      → str_eq need candidate ≡ false
      → look need seen ≡ some (true, out)
      → Looked look candidate (need ∷ needs) seen (true, out)
  next :
      (need : String) (needs seen between : List String) (r : Bool × List String)
      → str_eq need candidate ≡ false
      → look need seen ≡ some (false, between)
      → Looked look candidate needs between r
      → Looked look candidate (need ∷ needs) seen r

some_of : {a b : Bool × List String} → some a ≡ some b → a ≡ b
some_of h = cc

pub any_need-Looked :
    (look : Look) (candidate : String) (needs seen : List String) (r : Bool × List String)
    → any_need look candidate needs seen ≡ some r
    → Looked look candidate needs seen r
unfolding any_need
any_need-Looked look candidate [] seen r h =
    subst (Looked look candidate [] seen) (some_of h) (nothing seen)
any_need-Looked look candidate (need ∷ needs) seen r h = elim (Bool-cases (str_eq need candidate)) [
  | inl e ↦
      subst (Looked look candidate (need ∷ needs) seen) (some_of (rw e at h))
        (hit need needs seen (str_eq-true need candidate e))
  | inr e ↦
      split (λ s k. any_need-Looked look candidate needs s r k) e (look need seen) refl (rw e at h)
]
  where
    split :
        ((s : List String)
          → any_need look candidate needs s ≡ some r
          → Looked look candidate needs s r)
        → str_eq need candidate ≡ false
        → (o : Option (Bool × List String)) → look need seen ≡ o
        → ◌≡◌ {A = Option (Bool × List String)}
            (elim o [
              | none ↦ none
              | some (found, seen') ↦
                  if found then some (true, seen') else any_need look candidate needs seen'
            ])
            (some r)
        → Looked look candidate (need ∷ needs) seen r
    split rest e none f k = cc
    split rest e (some (true, out)) f k =
        subst (Looked look candidate (need ∷ needs) seen) (some_of k)
          (deeper need needs seen out e f)
    split rest e (some (false, between)) f k = next need needs seen between r e f (rest between k)

pub Looked-any_need :
    (look : Look) (candidate : String) (needs seen : List String) (r : Bool × List String)
    → Looked look candidate needs seen r
    → any_need look candidate needs seen ≡ some r
unfolding any_need
Looked-any_need look candidate _ _ _ (nothing seen) = refl
Looked-any_need look candidate _ _ _ (hit need needs seen e) = rw (e, eq_refl candidate) refl
Looked-any_need look candidate _ _ _ (deeper need needs seen out e f) = rw (e, f) refl
Looked-any_need look candidate _ _ _ (next need needs seen between r e f l) =
    rw (e, f) (Looked-any_need look candidate needs between r l)

abbrev pub Grows : List String → List String → Type 0
Grows s t = (k : String) → member k s ≡ true → member k t ≡ true

pub cons-Grows : (id : String) (s : List String) → Grows s (id ∷ s)
unfolding member
cons-Grows id s k h = rw h (ground arith)

pub Looked-Grows :
    (look : Look) (candidate : String)
    → ((n : String) (s : List String) (q : Bool × List String) → look n s ≡ some q → Grows s q.1)
    → (ns s : List String) (r : Bool × List String) → Looked look candidate ns s r
    → Grows s r.1
Looked-Grows look candidate g _ _ _ (nothing seen) k m = m
Looked-Grows look candidate g _ _ _ (hit need needs seen e) k m = m
Looked-Grows look candidate g _ _ _ (deeper need needs seen out e f) k m =
    g need seen (true, out) f k m
Looked-Grows look candidate g _ _ _ (next need needs seen between r e f l) k m =
    Looked-Grows look candidate g needs between r l k (g need seen (false, between) f k m)

-- How a visit ends.
pub data Visited (fuel : ℕ) (needs : Needs) (candidate id : String) (seen : List String)
    : Bool × List String → Type 0 where
  again : member id seen ≡ true → Visited fuel needs candidate id seen (false, seen)
  first :
      (r : Bool × List String)
      → member id seen ≡ false
      → Looked (visit fuel needs candidate) candidate (or_nil (lookup id needs)) (id ∷ seen) r
      → Visited fuel needs candidate id seen r

module _ (needs : Needs) (candidate : String) where
  pub visit-Visited :
      (fuel : ℕ) (id : String) (seen : List String) (r : Bool × List String)
      → visit (suc fuel) needs candidate id seen ≡ some r
      → Visited fuel needs candidate id seen r
  unfolding visit
  visit-Visited fuel id seen r h = elim (Bool-cases (member id seen)) [
    | inl e ↦ subst (Visited fuel needs candidate id seen) (some_of (rw e at h)) (again e)
    | inr e ↦ first r e (any_need-Looked _ candidate _ _ r (rw e at h))
  ]

  pub Visited-visit :
      (fuel : ℕ) (id : String) (seen : List String) (r : Bool × List String)
      → Visited fuel needs candidate id seen r
      → visit (suc fuel) needs candidate id seen ≡ some r
  unfolding visit
  Visited-visit fuel id seen _ (again e) = rw e refl
  Visited-visit fuel id seen _ (first r e l) =
      rw e (Looked-any_need (visit fuel needs candidate) candidate _ _ r l)

  pub no_fuel :
      (id : String) (seen : List String) (r : Bool × List String)
      → visit 0 needs candidate id seen ≡ some r
      → ⊥
  unfolding visit
  no_fuel id seen r h = cc

  Visited-Grows :
      (fuel : ℕ)
      → ((n : String) (t : List String) (q : Bool × List String)
          → visit fuel needs candidate n t ≡ some q
          → Grows t q.1)
      → (id : String) (s : List String) (r : Bool × List String)
      → Visited fuel needs candidate id s r
      → Grows s r.1
  Visited-Grows fuel g id s _ (again e) k m = m
  Visited-Grows fuel g id s _ (first r e l) k m =
      Looked-Grows (visit fuel needs candidate) candidate g _ (id ∷ s) r l k (cons-Grows id s k m)

  pub visit-Grows :
      (fuel : ℕ) (id : String) (s : List String) (r : Bool × List String)
      → visit fuel needs candidate id s ≡ some r
      → Grows s r.1
  visit-Grows zero id s r h = absurd (no_fuel id s r h)
  visit-Grows (suc fuel) id s r h =
      Visited-Grows fuel (visit-Grows fuel) id s r (visit-Visited fuel id s r h)
