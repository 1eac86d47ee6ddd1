-- ===== src/Plan/Results.antt =====
-- The compilation of a workflow's result (compileResult, terminalPairsCanOverlap and
-- terminalConstraints in internal/plan/plan.go). The recursion of terminalConstraints' inner
-- function runs on fuel, one more than there are steps. Go visits the constraints and the terminals,
-- which are maps, in any order; here they are visited in the order of their lists.
pub mod Fuel
pub mod Apart
use duto_ai.Prelude.{
  ℕ, zero, suc, String, Bool, true, false, not, ◌&&◌, ◌||◌, Option, none, some, List, [], ◌∷◌,
  length, is_empty, if◌then◌else◌, str_eq, Result, ok, err, ◌>>=◌, ◌>>◌, require,
}
use duto_ai.Prelude.Keys.{member, lookup, insert}
use duto_ai.Plan.Admission.{PlanError, invalid_result}
use duto_ai.Plan.Outcomes.{
  Condition, Output, Step, TerminalPair, RouteSource, WorkflowResult, Terminals, Constraints, pairs,
  constraints_conflict, terminals_of, compile_direct_result, compile_routed_result,
}

-- The first step with an id.
unfoldable pub find_step : String → List Step → Option Step
find_step id [] = none
find_step id (step ∷ steps) = if str_eq step.id id then some step else find_step id steps

unfoldable pub put_conditions : List Condition → Constraints → Constraints
unfolding insert
put_conditions [] constraints = constraints
put_conditions (c ∷ cs) constraints = put_conditions cs (insert c.step c.outcomes constraints)

-- What the inner function of terminalConstraints changes: the constraints, and the ids seen.
abbrev pub Search : Type 0
Search = Constraints × List String

unfoldable pub visit_needs : (String → Search → Search) → List String → Search → Search
visit_needs visit [] state = state
visit_needs visit (need ∷ needs) state = visit_needs visit needs (visit need state)

abbrev pub visit_step : (String → Search → Search) → Option Step → Search → Search
visit_step visit none state = state
visit_step visit (some step) state =
    visit_needs visit step.needs (put_conditions step.conditions state.0, state.1)

unfoldable pub visit_constraints : ℕ → List Step → String → Search → Search
unfolding visit_needs find_step member put_conditions
visit_constraints zero steps id state = state
visit_constraints (suc fuel) steps id state =
    let rest =
      visit_step (visit_constraints fuel steps) (find_step id steps) (state.0, id ∷ state.1) in
    if member id state.1 then state else rest

unfoldable pub terminal_constraints : TerminalPair → List Step → Constraints
unfolding visit_constraints
terminal_constraints pair steps =
    (visit_constraints (suc (length steps)) steps pair.step
      ((pair.step, pair.outcome ∷ []) ∷ [], [])).0

-- The inner loop of terminalPairsCanOverlap.
unfoldable pub overlaps_some : TerminalPair → List TerminalPair → List Step → Bool
unfolding terminal_constraints constraints_conflict
overlaps_some left [] steps = false
overlaps_some left (right ∷ rest) steps =
    not (constraints_conflict (terminal_constraints left steps) (terminal_constraints right steps))
    || overlaps_some left rest steps

unfoldable pub pairs_overlap : List TerminalPair → List Step → Bool
unfolding overlaps_some
pairs_overlap [] steps = false
pairs_overlap (left ∷ rest) steps = overlaps_some left rest steps || pairs_overlap rest steps

unfoldable pub terminal_pairs_can_overlap : Terminals → List Step → Bool
unfolding pairs_overlap
terminal_pairs_can_overlap terminals steps = pairs_overlap (pairs terminals) steps

-- outputs[step.ID] = step.Output, for each step.
unfoldable pub outputs_from : List Step → List (String × Output) → List (String × Output)
unfolding insert
outputs_from [] outputs = outputs
outputs_from (step ∷ steps) outputs = outputs_from steps (insert step.id step.output outputs)

-- compileResult: the workflow's result is a step, or where that is "", routes.
unfoldable pub compile_result :
    String → List RouteSource → List Step → Result PlanError WorkflowResult
unfolding terminals_of terminal_pairs_can_overlap outputs_from compile_direct_result
    compile_routed_result
compile_result step routes steps = do
  require
      (not (is_empty (terminals_of steps) || terminal_pairs_can_overlap (terminals_of steps) steps))
      invalid_result
  if not (str_eq step "")
      then compile_direct_result step (outputs_from steps []) (terminals_of steps)
      else compile_routed_result routes (terminals_of steps)
