-- ===== src/Plan/Concurrency/Exact.antt =====
-- The search of isPlanAncestor (internal/plan/tools.go) decides which step comes before another.
use duto_ai.Prelude.{
  ℕ, zero, suc, ◌<◌, String, Bool, true, false, some, List, [], ◌∷◌, length, ◌≡◌, refl, sym, ◌∙◌,
  ap, subst, arith, inl, inr, ◌⊎◌, str_eq, str_eq-true, eq_refl, Bool-cases, ◌↔◌,
}
use duto_ai.Prelude.Keys.{member, member_self, lookup}
use duto_ai.Plan.Concurrency.{
  ToolStep, Needs, needs_from, or_nil, visit, found_of, is_plan_ancestor,
}
use duto_ai.Plan.Concurrency.Search.{
  Before, needed, through, Look, Looked, nothing, hit, deeper, next, Visited, again, first, Grows,
  cons-Grows, visit-Visited, no_fuel,
}
use duto_ai.Plan.Concurrency.Ordered.{visit-Before}
use duto_ai.Plan.Concurrency.Fuel.{visit_enough}

nowhere : (n : String) → member n [] ≡ true → ⊥
unfolding member
nowhere n m = cc

module _ (needs : Needs) (candidate : String) where
  -- The candidate is no need of the step, and each need of it was seen.
  abbrev Cleared : List String → String → Type 0
  Cleared out id =
      (n : String)
      → member n (or_nil (lookup id needs)) ≡ true
      → (str_eq n candidate ≡ false) × (member n out ≡ true)

  Grows-Cleared : (s t : List String) (id : String) → Grows s t → Cleared s id → Cleared t id
  Grows-Cleared s t id g c n m = ((c n m).0, g n (c n m).1)

  -- What a search that did not find the candidate has seen, it has cleared.
  abbrev Clears : List String → List String → Type 0
  Clears seen out = (k : String) → member k out ≡ true → (member k seen ≡ true) ⊎ Cleared out k

  Clears-trans : (s t u : List String) → Grows t u → Clears s t → Clears t u → Clears s u
  Clears-trans s t u g c d k m = elim (d k m) [
    | inr cleared ↦ inr cleared
    | inl old ↦ elim (c k old) [
      | inl older ↦ inl older
      | inr cleared ↦ inr (Grows-Cleared t u k g cleared)
    ]
  ]

  abbrev Clearing : Look → Type 0
  Clearing look =
      (n : String) (s out : List String)
      → look n s ≡ some (false, out)
      → Clears s out × Grows s out × (member n out ≡ true)

  -- A loop that did not find the candidate saw every need, and none is the candidate.
  Looked-Clears :
      (look : Look)
      → Clearing look
      → (ns s : List String) (r : Bool × List String) → Looked look candidate ns s r
      → r.0 ≡ false
      → Clears s r.1
        × Grows s r.1
        × ((n : String) → member n ns ≡ true → (str_eq n candidate ≡ false) × (member n r.1 ≡ true))
  Looked-Clears look c _ _ _ (nothing s) e =
      ((λ k m. inl m), (λ k m. m), λ n m. absurd (nowhere n m))
  Looked-Clears look c _ _ _ (hit need ns s same) e = cc
  Looked-Clears look c _ _ _ (deeper need ns s out other f) e = cc
  Looked-Clears look c _ _ _ (next need ns s between r other f l) e =
      let (one, grown, at) = c need s between f in
      let (rest, grows, each) = Looked-Clears look c ns between r l e in
      (
        Clears-trans s between r.1 grows one rest,
        (λ k m. grows k (grown k m)),
        λ n m. elim (Bool-cases (str_eq need n)) [
          | inl same ↦
              let eq : need ≡ n = str_eq-true need n same in
              (
                subst (λ j. str_eq j candidate ≡ false) eq other,
                subst (λ j. member j r.1 ≡ true) eq (grows need at),
              )
          | inr differ ↦ each n (unfold member in (rw differ at m))
        ],
      )

  Visited-Clears :
      (fuel : ℕ)
      → Clearing (visit fuel needs candidate)
      → (id : String) (s : List String) (r : Bool × List String)
      → Visited fuel needs candidate id s r
      → r.0 ≡ false
      → Clears s r.1 × Grows s r.1 × (member id r.1 ≡ true)
  Visited-Clears fuel c id s _ (again seen) e = ((λ k m. inl m), (λ k m. m), seen)
  Visited-Clears fuel c id s _ (first r new l) e =
      let (clears, grows, each) = Looked-Clears (visit fuel needs candidate) c _ (id ∷ s) r l e in
      (
        (λ k m. elim (clears k m) [
          | inr cleared ↦ inr cleared
          | inl old ↦ elim (Bool-cases (str_eq id k)) [
            | inl same ↦ inr (subst (Cleared r.1) (str_eq-true id k same) each)
            | inr differ ↦ inl (unfold member in (rw differ at old))
          ]
        ]),
        (λ k m. grows k (cons-Grows id s k m)),
        grows id (member_self id s),
      )

  visit-Clears : (fuel : ℕ) → Clearing (visit fuel needs candidate)
  visit-Clears zero id s out h = absurd (no_fuel needs candidate id s (false, out) h)
  visit-Clears (suc fuel) id s out h =
      Visited-Clears fuel (visit-Clears fuel) id s (false, out)
        (visit-Visited needs candidate fuel id s (false, out) h) refl

  -- The candidate does not come before a step in a list all of which is cleared.
  Cleared-apart :
      (out : List String)
      → ((k : String) → member k out ≡ true → Cleared out k)
      → (id : String) → member id out ≡ true
      → Before needs candidate id
      → ⊥
  Cleared-apart out all id m (needed at) = cc ((all id m candidate at).0, eq_refl candidate)
  Cleared-apart out all id m (through {b} at before) =
      Cleared-apart out all b (all id m b at).1 before

  visit-apart :
      (fuel : ℕ) (id : String) (out : List String)
      → visit fuel needs candidate id [] ≡ some (false, out)
      → Before needs candidate id
      → ⊥
  visit-apart fuel id out h before =
      let (clears, grows, at) = visit-Clears fuel id [] out h in
      Cleared-apart out
        (λ k m. elim (clears k m) [
          | inl unseen ↦ absurd (nowhere k unseen)
          | inr cleared ↦ cleared
        ])
        id at before

-- The search of isPlanAncestor ends, whatever the needs, cycles of them included, within one more
-- level of recursion than there are steps, and any more fuel gives the same: whether the candidate
-- comes before the step, that is whether it is reached from the step by needs.
pub is_plan_ancestor_exact :
    (candidate step_id : String) (steps : List ToolStep) (fuel : ℕ)
    → length steps < fuel
    → ((seen : List String) × (visit fuel (needs_from steps []) candidate step_id []
          ≡ some (is_plan_ancestor candidate step_id steps, seen)))
      × ((is_plan_ancestor candidate step_id steps ≡ true)
          ↔ Before (needs_from steps []) candidate step_id)
unfolding is_plan_ancestor
is_plan_ancestor_exact candidate step_id steps fuel h =
    let ((found, seen), enough) = visit_enough candidate step_id steps in
    let least = enough (suc (length steps)) (omega arith) in
    let is : is_plan_ancestor candidate step_id steps ≡ found = ap found_of least in
    (
      (seen, enough fuel h ∙ ap (λ b. some (b, seen)) (sym is)),
      decided found seen (suc (length steps)) least is,
    )
  where
    decided :
        (found : Bool) (seen : List String) (n : ℕ)
        → visit n (needs_from steps []) candidate step_id [] ≡ some (found, seen)
        → is_plan_ancestor candidate step_id steps ≡ found
        → (is_plan_ancestor candidate step_id steps ≡ true)
          ↔ Before (needs_from steps []) candidate step_id
    decided true seen n e is =
        ((λ _. visit-Before (needs_from steps []) candidate n step_id [] seen e), λ _. is)
    decided false seen n e is = (
      (λ h. cc (h, is)),
      λ b. absurd (visit-apart (needs_from steps []) candidate n step_id seen e b),
    )
