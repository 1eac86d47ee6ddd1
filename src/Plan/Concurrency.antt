-- ===== src/Plan/Concurrency.antt =====
-- Which steps may run beside one another (validateToolConcurrency and isPlanAncestor in
-- internal/plan/tools.go). The recursion of isPlanAncestor's inner function runs on fuel, one more
-- than there are steps; none is the result of a search that ran out of it.
pub mod Exact
pub mod Ordered
pub mod Fuel
pub mod Search
use duto_ai.Prelude.{
  ℕ, zero, suc, String, Bool, true, false, not, ◌&&◌, ◌||◌, Option, none, some, List, [], ◌∷◌,
  length, if◌then◌else◌, str_eq, Result, ok, err, ◌>>=◌, ◌>>◌, require,
}
use duto_ai.Prelude.Int.{ℤ, pos, ltb_ℤ}
use duto_ai.Prelude.Keys.{member, lookup, insert}
use duto_ai.Plan.Admission.{PlanError, ToolScope, invalid_limits}
use duto_ai.Plan.Limits.{unsafe_tool_scope}

-- The parts of a Step that the check reads.
pub record ToolStep : Type 0 where
  pub id : String
  pub needs : List String
  pub tools : ToolScope
  pub max_parallel_calls : ℤ

abbrev pub Needs : Type 0
Needs = List (String × List String)

-- needs[step.ID] = step.Needs, for each step.
unfoldable pub needs_from : List ToolStep → Needs → Needs
unfolding insert
needs_from [] needs = needs
needs_from (step ∷ steps) needs = needs_from steps (insert step.id step.needs needs)

abbrev pub or_nil : Option (List String) → List String
or_nil none = []
or_nil (some needs) = needs

-- The loop of the inner function over the needs of a step: whether it found the candidate, and the
-- ids seen by then; none if a visit ran out of fuel.
unfoldable pub any_need :
    (String → List String → Option (Bool × List String))
    → String
    → List String
    → List String
    → Option (Bool × List String)
any_need visit candidate [] seen = some (false, seen)
any_need visit candidate (need ∷ needs) seen =
    let rest : Option (Bool × List String) = elim (visit need seen) [
      | none ↦ none
      | some (found, seen') ↦
          let after = any_need visit candidate needs seen' in
          if found then some (true, seen') else after
    ] in
    if str_eq need candidate then some (true, seen) else rest

unfoldable pub visit : ℕ → Needs → String → String → List String → Option (Bool × List String)
unfolding any_need member lookup
visit zero needs candidate id seen = none
visit (suc fuel) needs candidate id seen =
    let rest =
      any_need (visit fuel needs candidate) candidate (or_nil (lookup id needs)) (id ∷ seen) in
    if member id seen then some (false, seen) else rest

-- Fuel that ran out counts as not found; with the fuel of is_plan_ancestor it does not run out.
abbrev pub found_of : Option (Bool × List String) → Bool
found_of none = false
found_of (some (found, seen)) = found

unfoldable pub is_plan_ancestor : String → String → List ToolStep → Bool
unfolding visit needs_from
is_plan_ancestor candidate step_id steps =
    found_of (visit (suc (length steps)) (needs_from steps []) candidate step_id [])

-- Neither step may change anything unless one needs the other.
unfoldable pub may_overlap : ToolStep → ToolStep → List ToolStep → Bool
unfolding is_plan_ancestor
may_overlap left right steps =
    (is_plan_ancestor left.id right.id steps || is_plan_ancestor right.id left.id steps)
    || not (unsafe_tool_scope left.tools || unsafe_tool_scope right.tools)

-- The inner loop over the steps behind one.
unfoldable pub check_right : ToolStep → List ToolStep → List ToolStep → Result PlanError (Unit {0})
unfolding may_overlap
check_right left [] steps = ok tt
check_right left (right ∷ rest) steps = do
  require (may_overlap left right steps) invalid_limits
  check_right left rest steps

unfoldable pub check_pairs : List ToolStep → List ToolStep → Result PlanError (Unit {0})
unfolding check_right
check_pairs [] steps = ok tt
check_pairs (left ∷ rest) steps = do check_right left rest steps; check_pairs rest steps

unfoldable pub check_parallel : List ToolStep → Result PlanError (Unit {0})
check_parallel [] = ok tt
check_parallel (step ∷ steps) = do
  require (not (unsafe_tool_scope step.tools && ltb_ℤ (pos 1) step.max_parallel_calls))
      invalid_limits
  check_parallel steps

unfoldable pub validate_tool_concurrency : List ToolStep → Result PlanError (Unit {0})
unfolding check_parallel check_pairs
validate_tool_concurrency steps = do check_parallel steps; check_pairs steps steps
