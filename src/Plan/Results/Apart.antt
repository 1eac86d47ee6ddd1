-- ===== src/Plan/Results/Apart.antt =====
-- The terminals of a workflow whose result compiles.
use duto_ai.Prelude.{
  String, Bool, true, false, not, ◌||◌, List, [], ◌∷◌, ◌++◌, ◌≡◌, ◌∙◌, subst, arith, is_empty, any,
  ok, >>=-eq-ok, require, require-eq-ok, map,
}
use duto_ai.Prelude.Cover.{has}
use duto_ai.Plan.Admission.{invalid_result}
use duto_ai.Plan.Outcomes.{
  Step, TerminalPair, RouteSource, WorkflowResult, pair_eq, pairs, terminals_of,
  constraints_conflict, compile_routed_result,
}
use duto_ai.Plan.Outcomes.Conflict.{excluded, constraints_conflict_sound}
use duto_ai.Plan.Outcomes.Routes.{route_pair, compile_routed_result_covers}
use duto_ai.Plan.Outcomes.Terminals.{ends, terminals_of_exact}
use duto_ai.Plan.Results.{
  overlaps_some, pairs_overlap, terminal_pairs_can_overlap, terminal_constraints, compile_result,
}

overlaps_some-member :
    (left right : TerminalPair) (between after : List TerminalPair) (steps : List Step)
    → overlaps_some left (between ++ right ∷ after) steps ≡ false
    → constraints_conflict (terminal_constraints left steps) (terminal_constraints right steps)
      ≡ true
unfolding overlaps_some
overlaps_some-member left right [] after steps h = ground arith
overlaps_some-member left right (x ∷ between) after steps h =
    overlaps_some-member left right between after steps (ground arith)

pairs_overlap-member :
    (before : List TerminalPair) (left : TerminalPair) (rest : List TerminalPair)
    (steps : List Step)
    → pairs_overlap (before ++ left ∷ rest) steps ≡ false
    → overlaps_some left rest steps ≡ false
unfolding pairs_overlap
pairs_overlap-member [] left rest steps h = ground arith
pairs_overlap-member (x ∷ before) left rest steps h =
    pairs_overlap-member before left rest steps (ground arith)

-- If a workflow's result compiles, any two of its terminals exclude one another: some step must have
-- an outcome of one list for the first, and of a disjoint list for the second.
pub compile_result_apart :
    (step : String) (routes : List RouteSource) (steps : List Step)
    (before between after : List TerminalPair) (left right : TerminalPair) {r : WorkflowResult}
    → compile_result step routes steps ≡ ok r
    → pairs (terminals_of steps) ≡ before ++ left ∷ (between ++ right ∷ after)
    → excluded (terminal_constraints left steps) (terminal_constraints right steps) ≡ true
unfolding compile_result terminal_pairs_can_overlap
compile_result_apart step routes steps before between after left right h listed =
    let (u, e, h1) =
      >>=-eq-ok
        (require
          (not (is_empty (terminals_of steps) || pairs_overlap (pairs (terminals_of steps)) steps))
          invalid_result)
        _ h in
    let disjoint : pairs_overlap (pairs (terminals_of steps)) steps ≡ false =
      second (is_empty (terminals_of steps)) (require-eq-ok _ invalid_result e) in
    constraints_conflict_sound (terminal_constraints left steps) (terminal_constraints right steps)
      (overlaps_some-member left right between after steps (
        pairs_overlap-member before left (between ++ right ∷ after) steps
          (subst (λ ps. pairs_overlap ps steps ≡ false) listed disjoint)))
  where
    second : (a : Bool) {b : Bool} → not (a || b) ≡ true → b ≡ false
    second a p = ground arith

-- If a workflow's result compiles to routes, they lead to the outcomes of its steps that no step
-- consumes, and to each of them.
pub compile_result_routes :
    (routes : List RouteSource) (steps : List Step) (k : TerminalPair) {r : WorkflowResult}
    → compile_result "" routes steps ≡ ok r
    → has pair_eq k (map route_pair r.routes) ≡ any (ends steps k) steps
unfolding compile_result
compile_result_routes routes steps k h =
    let (u, e, h1) =
      >>=-eq-ok
        (require
          (not (
            is_empty (terminals_of steps) || terminal_pairs_can_overlap (terminals_of steps) steps))
          invalid_result)
        (λ x. compile_routed_result routes (terminals_of steps)) h in
    (compile_routed_result_covers routes (terminals_of steps) k h1).0 ∙ terminals_of_exact steps k
