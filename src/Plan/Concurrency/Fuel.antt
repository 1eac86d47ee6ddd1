-- ===== src/Plan/Concurrency/Fuel.antt =====
-- The fuel of the search of isPlanAncestor.
use duto_ai.Prelude.{
  ℕ, zero, suc, ◌+◌, ◌-◌, ◌≤◌, ◌<◌, String, Bool, true, false, ◌||◌, List, [], ◌∷◌, ◌≡◌, refl, sym,
  ◌∙◌, ap, subst, arith, length, if◌then◌else◌, Bool-cases, Option, some, inl, inr, str_eq,
  str_eq-true, eq_refl,
}
use duto_ai.Prelude.Keys.{member, lookup, insert, has_key}
use duto_ai.Plan.Concurrency.{ToolStep, Needs, needs_from, or_nil, visit}
use duto_ai.Plan.Concurrency.Search.{
  Look, Looked, nothing, hit, deeper, next, Visited, again, first, Grows, cons-Grows, Visited-visit,
  visit-Visited, visit-Grows, no_fuel,
}

-- How many entries have an id that is not seen.
abbrev unseen : Needs → List String → ℕ
unseen [] seen = 0
unseen ((k, v) ∷ m) seen = (if member k seen then 0 else 1) + unseen m seen

unseen-le : (m : Needs) (s t : List String) → Grows s t → unseen m t ≤ unseen m s
unseen-le [] s t g = omega arith
unseen-le ((k, v) ∷ m) s t g = elim (Bool-cases (member k s)) [
  | inl e ↦ rw e (rw (g k e) (omega (arith, unseen-le m s t g)))
  | inr e ↦ rw e (bounded (member k t) (unseen-le m s t g))
]
  where
    bounded : (b : Bool) {x y : ℕ} → x ≤ y → ((if b then 0 else 1) + x) ≤ (1 + y)
    bounded b h = ground arith

unseen_lt :
    (m : Needs) (id : String) (s : List String)
    → has_key id m ≡ true
    → member id s ≡ false
    → unseen m (id ∷ s) < unseen m s
unfolding has_key member
unseen_lt [] id s h new = cc
unseen_lt ((k, v) ∷ m) id s h new = elim (Bool-cases (str_eq k id)) [
  | inl e ↦
      let absent : member k s ≡ false =
        subst (λ j. member j s ≡ false) (sym (str_eq-true k id e)) new in
      let seen : str_eq id k ≡ true =
        subst (λ j. str_eq j k ≡ true) (str_eq-true k id e) (eq_refl k) in
      rw absent (rw seen (omega (arith, unseen-le m s (id ∷ s) (cons-Grows id s))))
  | inr e ↦ more (str_eq id k) (member k s) (unseen_lt m id s (rw e at h) new)
]
  where
    more :
        (a b : Bool) {x y : ℕ}
        → x < y
        → ((if (a || b) then 0 else 1) + x) < ((if b then 0 else 1) + y)
    more a b h = ground arith

no_needs : (m : Needs) (id : String) → has_key id m ≡ false → or_nil (lookup id m) ≡ []
unfolding has_key lookup
no_needs [] id h = refl
no_needs ((k, v) ∷ m) id h = elim (Bool-cases (str_eq k id)) [
  | inl e ↦ absurd (on (rw e at h))
  | inr e ↦ rw e (no_needs m id (rw e at h))
]
  where
    on : true ≡ false → ⊥
    on p = cc

module _ (needs : Needs) (candidate : String) where
  abbrev Ends : Option (Bool × List String) → Type 0
  Ends run = (r : Bool × List String) × (run ≡ some r)

  -- A loop ends if each of its visits does where as few entries are unseen.
  any_need-Ends :
      (bound : ℕ) (look : Look)
      → ((n : String) (s : List String) (q : Bool × List String) → look n s ≡ some q → Grows s q.1)
      → ((n : String) (s : List String) → unseen needs s < bound → Ends (look n s))
      → (ns s : List String) → unseen needs s < bound
      → (r : Bool × List String) × Looked look candidate ns s r
  any_need-Ends bound look grows ends [] s h = ((false, s), nothing s)
  any_need-Ends bound look grows ends (n ∷ ns) s h = elim (Bool-cases (str_eq n candidate)) [
    | inl e ↦ ((true, s), hit n ns s (str_eq-true n candidate e))
    | inr e ↦
        let ((found, between), f) = ends n s h in
        let fewer : unseen needs between < bound =
          omega (arith, unseen-le needs s between (grows n s (found, between) f), h) in
        let (r, l) = any_need-Ends bound look grows ends ns between fewer in
        split e found between f r l
  ]
    where
      split :
          str_eq n candidate ≡ false
          → (found : Bool) (between : List String) → look n s ≡ some (found, between)
          → (r : Bool × List String) → Looked look candidate ns between r
          → (r : Bool × List String) × Looked look candidate (n ∷ ns) s r
      split e true between f r l = ((true, between), deeper n ns s between e f)
      split e false between f r l = (r, next n ns s between r e f l)

  -- A visit ends if its fuel is more than the entries that are unseen.
  visit-Ends :
      (fuel : ℕ) (id : String) (s : List String)
      → unseen needs s < fuel
      → Ends (visit fuel needs candidate id s)
  visit-Ends zero id s h = absurd (omega (arith, h))
  visit-Ends (suc fuel) id s h = elim (Bool-cases (member id s)) [
    | inl e ↦ ((false, s), Visited-visit needs candidate fuel id s (false, s) (again e))
    | inr e ↦ elim (Bool-cases (has_key id needs)) [
      | inl known ↦
          let (r, l) =
            any_need-Ends fuel (visit fuel needs candidate) (visit-Grows needs candidate fuel)
              (visit-Ends fuel) (or_nil (lookup id needs)) (id ∷ s)
              (omega (arith, unseen_lt needs id s known e, h)) in
          (r, Visited-visit needs candidate fuel id s r (first r e l))
      | inr leaf ↦ (
        (false, id ∷ s),
        Visited-visit needs candidate fuel id s (false, id ∷ s)
            (first (false, id ∷ s) e
              (subst
                (λ ns. Looked (visit fuel needs candidate) candidate ns (id ∷ s) (false, id ∷ s))
                (sym (no_needs needs id leaf)) (nothing (id ∷ s)))),
      )
    ]
  ]

  Looked-more :
      (f g : Look)
      → ((n : String) (s : List String) (q : Bool × List String) → f n s ≡ some q → g n s ≡ some q)
      → (ns s : List String) (r : Bool × List String) → Looked f candidate ns s r
      → Looked g candidate ns s r
  Looked-more f g more _ _ _ (nothing s) = nothing s
  Looked-more f g more _ _ _ (hit n ns s e) = hit n ns s e
  Looked-more f g more _ _ _ (deeper n ns s out e h) = deeper n ns s out e (more n s (true, out) h)
  Looked-more f g more _ _ _ (next n ns s between r e h l) =
      next n ns s between r e (more n s (false, between) h) (Looked-more f g more ns between r l)

  Visited-more :
      (fuel : ℕ)
      → ((n : String) (s : List String) (q : Bool × List String)
          → visit fuel needs candidate n s ≡ some q
          → visit (suc fuel) needs candidate n s ≡ some q)
      → (id : String) (s : List String) (r : Bool × List String)
      → Visited fuel needs candidate id s r
      → Visited (suc fuel) needs candidate id s r
  Visited-more fuel more id s _ (again e) = again e
  Visited-more fuel more id s _ (first r e l) =
      first r e
        (Looked-more (visit fuel needs candidate) (visit (suc fuel) needs candidate) more _ _ r l)

  visit_more :
      (fuel : ℕ) (id : String) (s : List String) (r : Bool × List String)
      → visit fuel needs candidate id s ≡ some r
      → visit (suc fuel) needs candidate id s ≡ some r
  visit_more zero id s r h = absurd (no_fuel needs candidate id s r h)
  visit_more (suc fuel) id s r h =
      Visited-visit needs candidate (suc fuel) id s r
        (Visited-more fuel (visit_more fuel) id s r (visit-Visited needs candidate fuel id s r h))

  visit_by :
      (more fuel : ℕ) (id : String) (s : List String) (r : Bool × List String)
      → visit fuel needs candidate id s ≡ some r
      → visit (more + fuel) needs candidate id s ≡ some r
  visit_by zero fuel id s r h =
      let same : fuel ≡ 0 + fuel = omega arith in
      subst (λ n. visit n needs candidate id s ≡ some r) same h
  visit_by (suc more) fuel id s r h =
      let same : suc (more + fuel) ≡ suc more + fuel = omega arith in
      subst (λ n. visit n needs candidate id s ≡ some r) same
        (visit_more (more + fuel) id s r (visit_by more fuel id s r h))

length-insert :
    (id : String) (ns : List String) (m : Needs) → length (insert id ns m) ≤ suc (length m)
unfolding insert
length-insert id ns [] = omega arith
length-insert id ns ((k, v) ∷ m) = elim (Bool-cases (str_eq k id)) [
  | inl e ↦ rw e (omega arith)
  | inr e ↦ rw e (omega (arith, length-insert id ns m))
]

length-needs_from :
    (steps : List ToolStep) (m : Needs) → length (needs_from steps m) ≤ length steps + length m
unfolding needs_from
length-needs_from [] m = omega arith
length-needs_from (step ∷ steps) m = omega (
  arith,
  length-needs_from steps (insert step.id step.needs m),
  length-insert step.id step.needs m,
)

unseen-length : (m : Needs) (s : List String) → unseen m s ≤ length m
unseen-length [] s = omega arith
unseen-length ((k, v) ∷ m) s = one (member k s) (unseen-length m s)
  where
    one : (b : Bool) {x y : ℕ} → x ≤ y → ((if b then 0 else 1) + x) ≤ suc y
    one b h = ground arith

module _ (candidate step_id : String) (steps : List ToolStep) where
  abbrev of_steps : Needs
  of_steps = needs_from steps []

  -- With more fuel than there are steps the search of isPlanAncestor ends, with one answer.
  pub visit_enough :
      (r : Bool × List String) × ((fuel : ℕ)
        → length steps < fuel
        → visit fuel of_steps candidate step_id [] ≡ some r)
  visit_enough =
      let (r, e) =
        visit-Ends of_steps candidate (suc (length steps)) step_id []
          (omega (arith, unseen-length of_steps [], length-needs_from steps [])) in
      (
        r,
        λ fuel h.
            let least : (fuel - suc (length steps)) + suc (length steps) ≡ fuel =
              omega (arith, h) in
            ap (λ n. visit n of_steps candidate step_id []) (sym least)
            ∙ visit_by of_steps candidate (fuel - suc (length steps)) (suc (length steps)) step_id
                [] r e,
      )
