-- ===== src/Plan/Results/Fuel.antt =====
-- The fuel of the search of terminalConstraints.
use duto_ai.Prelude.{
  ℕ, zero, suc, ◌+◌, ◌-◌, ◌≤◌, ◌<◌, String, Bool, true, false, ◌||◌, Option, none, some, List, [],
  ◌∷◌, ◌≡◌, refl, sym, ◌∙◌, ap, subst, arith, length, if◌then◌else◌, Bool-cases, inl, inr, str_eq,
  str_eq-true, eq_refl,
}
use duto_ai.Prelude.Keys.{member}
use duto_ai.Plan.Outcomes.{Step, TerminalPair, Constraints}
use duto_ai.Plan.Results.{
  Search, find_step, put_conditions, visit_needs, visit_step, visit_constraints,
  terminal_constraints,
}

-- How many steps have an id that is not seen.
abbrev waiting : List Step → List String → ℕ
waiting [] seen = 0
waiting (step ∷ steps) seen = (if member step.id seen then 0 else 1) + waiting steps seen

-- What the one list has, the other has.
abbrev Extends : List String → List String → Type 0
Extends s t = (k : String) → member k s ≡ true → member k t ≡ true

waiting-le :
    (steps : List Step) (s t : List String) → Extends s t → waiting steps t ≤ waiting steps s
waiting-le [] s t g = omega arith
waiting-le (step ∷ steps) s t g = elim (Bool-cases (member step.id s)) [
  | inl e ↦ rw e (rw (g step.id e) (omega (arith, waiting-le steps s t g)))
  | inr e ↦ rw e (bounded (member step.id t) (waiting-le steps s t g))
]
  where
    bounded : (b : Bool) {x y : ℕ} → x ≤ y → ((if b then 0 else 1) + x) ≤ (1 + y)
    bounded b h = ground arith

cons-Extends : (id : String) (s : List String) → Extends s (id ∷ s)
unfolding member
cons-Extends id s k h = rw h (ground arith)

waiting_lt :
    (steps : List Step) (id : String) (s : List String) {step : Step}
    → find_step id steps ≡ some step
    → member id s ≡ false
    → waiting steps (id ∷ s) < waiting steps s
unfolding find_step member
waiting_lt [] id s h new = cc
waiting_lt (x ∷ steps) id s h new = elim (Bool-cases (str_eq x.id id)) [
  | inl e ↦
      let absent : member x.id s ≡ false =
        subst (λ j. member j s ≡ false) (sym (str_eq-true x.id id e)) new in
      let here : str_eq id x.id ≡ true =
        subst (λ j. str_eq j x.id ≡ true) (str_eq-true x.id id e) (eq_refl x.id) in
      rw absent (rw here (omega (arith, waiting-le steps s (id ∷ s) (cons-Extends id s))))
  | inr e ↦ more (str_eq id x.id) (member x.id s) (waiting_lt steps id s (rw e at h) new)
]
  where
    more :
        (a b : Bool) {x y : ℕ}
        → x < y
        → ((if (a || b) then 0 else 1) + x) < ((if b then 0 else 1) + y)
    more a b h = ground arith

visit_needs-Extends :
    (visit : String → Search → Search)
    → ((id : String) (t : Search) → Extends t.1 (visit id t).1)
    → (needs : List String) (t : Search) → Extends t.1 (visit_needs visit needs t).1
unfolding visit_needs
visit_needs-Extends visit g [] t k m = m
visit_needs-Extends visit g (need ∷ needs) t k m =
    visit_needs-Extends visit g needs (visit need t) k (g need t k m)

visit_step-Extends :
    (visit : String → Search → Search)
    → ((id : String) (t : Search) → Extends t.1 (visit id t).1)
    → (o : Option Step) (t : Search) → Extends t.1 (visit_step visit o t).1
visit_step-Extends visit g none t k m = m
visit_step-Extends visit g (some step) t k m =
    visit_needs-Extends visit g step.needs (put_conditions step.conditions t.0, t.1) k m

visit_constraints-Extends :
    (fuel : ℕ) (steps : List Step) (id : String) (t : Search)
    → Extends t.1 (visit_constraints fuel steps id t).1
unfolding visit_constraints
visit_constraints-Extends zero steps id t k m = m
visit_constraints-Extends (suc fuel) steps id t k m = elim (Bool-cases (member id t.1)) [
  | inl e ↦ rw e m
  | inr e ↦ rw e (
      visit_step-Extends (visit_constraints fuel steps)
        (λ n u. visit_constraints-Extends fuel steps n u) (find_step id steps) (t.0, id ∷ t.1) k
        (cons-Extends id t.1 k m))
]

-- Two searches that agree where few steps wait agree on all needs of a step.
visit_needs_agree :
    (steps : List Step) (bound : ℕ) (f g : String → Search → Search)
    → ((id : String) (t : Search) → Extends t.1 (f id t).1)
    → ((id : String) (t : Search) → waiting steps t.1 < bound → f id t ≡ g id t)
    → (needs : List String) (t : Search) → waiting steps t.1 < bound
    → visit_needs f needs t ≡ visit_needs g needs t
unfolding visit_needs
visit_needs_agree steps bound f g grows same [] t h = refl
visit_needs_agree steps bound f g grows same (need ∷ needs) t h =
    let later : waiting steps (f need t).1 < bound =
      omega (arith, waiting-le steps t.1 (f need t).1 (grows need t), h) in
    visit_needs_agree steps bound f g grows same needs (f need t) later
    ∙ ap (visit_needs g needs) (same need t h)

visit_constraints_agree :
    (fuel : ℕ) (steps : List Step) (id : String) (t : Search)
    → waiting steps t.1 < fuel
    → visit_constraints fuel steps id t ≡ visit_constraints (suc fuel) steps id t
unfolding visit_constraints
visit_constraints_agree zero steps id t h = absurd (omega (arith, h))
visit_constraints_agree (suc fuel) steps id t h = elim (Bool-cases (member id t.1)) [
  | inl e ↦ rw e refl
  | inr e ↦ rw e (
      stepwise (λ n u less. visit_constraints_agree fuel steps n u less) (find_step id steps) e
        refl)
]
  where
    stepwise :
        ((n : String) (u : Search)
          → waiting steps u.1 < fuel
          → visit_constraints fuel steps n u ≡ visit_constraints (suc fuel) steps n u)
        → (o : Option Step) → member id t.1 ≡ false
        → find_step id steps ≡ o
        → visit_step (visit_constraints fuel steps) o (t.0, id ∷ t.1)
          ≡ visit_step (visit_constraints (suc fuel) steps) o (t.0, id ∷ t.1)
    stepwise below none new found = refl
    stepwise below (some step) new found =
        visit_needs_agree steps fuel (visit_constraints fuel steps)
          (visit_constraints (suc fuel) steps) (λ n u. visit_constraints-Extends fuel steps n u)
          below step.needs (put_conditions step.conditions t.0, id ∷ t.1)
          (omega (arith, waiting_lt steps id t.1 found new, h))

waiting-length : (steps : List Step) (s : List String) → waiting steps s ≤ length steps
waiting-length [] s = omega arith
waiting-length (step ∷ steps) s = one (member step.id s) (waiting-length steps s)
  where
    one : (b : Bool) {x y : ℕ} → x ≤ y → ((if b then 0 else 1) + x) ≤ suc y
    one b h = ground arith

module _ (pair : TerminalPair) (steps : List Step) where
  abbrev pub search : ℕ → Constraints
  search fuel = (visit_constraints fuel steps pair.step ((pair.step, pair.outcome ∷ []) ∷ [], [])).0

  search_from :
      (more fuel : ℕ)
      → fuel ≡ more + suc (length steps)
      → search fuel ≡ terminal_constraints pair steps
  unfolding terminal_constraints
  search_from zero fuel e =
      let base : fuel ≡ suc (length steps) = omega (arith, e) in ap search base
  search_from (suc more) fuel e =
      let below = more + suc (length steps) in
      let above : fuel ≡ suc below = omega (arith, e) in
      let enough : waiting steps [] < below = omega (arith, waiting-length steps []) in
      ap search above
      ∙ sym (
          ap (λ (t : Search). t.0)
            (visit_constraints_agree below steps pair.step ((pair.step, pair.outcome ∷ []) ∷ [], [])
              enough))
      ∙ search_from more below refl

  -- The fuel of terminalConstraints, one more than there are steps, is enough: with any more of it
  -- the search gives the same constraints.
  pub terminal_constraints_fuel :
      (fuel : ℕ) → length steps < fuel → search fuel ≡ terminal_constraints pair steps
  terminal_constraints_fuel fuel h = search_from (fuel - suc (length steps)) fuel (omega (arith, h))
