-- ===== src/Examples/Results.antt =====
-- The results of small workflows.
use duto_ai.Prelude.{
  arith, String, true, false, List, [], ◌∷◌, ◌≡◌, refl, ok, some, length, map, any, str_eq, ◌&&◌,
}
use duto_ai.Prelude.Cover.{has}
use duto_ai.Prelude.Keys.{member, lookup}
use duto_ai.Plan.Outcomes.{
  Output, Step, TerminalPair, RouteSource, WorkflowResult, Terminals, Constraints, pair_eq, pairs,
  terminals_of, compile_routed_result, compile_direct_result, constraints_conflict,
}
use duto_ai.Plan.Results.{compile_result, terminal_constraints}
use duto_ai.Plan.Results.Apart.{compile_result_apart, compile_result_routes}
use duto_ai.Plan.Results.Fuel.{search, terminal_constraints_fuel}
use duto_ai.Plan.Outcomes.Conflict.{excluded, constraints_conflict_order}
use duto_ai.Plan.Outcomes.Routes.{route_pair, compile_routed_result_covers}
use duto_ai.Plan.Outcomes.Terminals.{ends, terminals_of_exact}
use duto_ai.Plan.Outcomes.Direct.{compile_direct_result_covers, compile_direct_result_repeated}

abbrev triage_output : Output
triage_output = record { json = "{}"; outcomes = "bug" ∷ "question" ∷ [] }

abbrev fix_output : Output
fix_output = record { json = "{}"; outcomes = "done" ∷ [] }

abbrev triage : Step
triage = record { id = "triage"; needs = []; conditions = []; output = triage_output }

-- Runs where the triage finds a bug.
abbrev fix : Step
fix = record {
  id = "fix";
  needs = "triage" ∷ [];
  conditions = record { step = "triage"; outcomes = "bug" ∷ [] } ∷ [];
  output = fix_output;
}

abbrev steps : List Step
steps = triage ∷ fix ∷ []

abbrev pair : String → String → TerminalPair
pair s o = record { step = s; outcome = o }

abbrev terminals : Terminals
terminals = (pair "triage" "question", triage_output) ∷ (pair "fix" "done", fix_output) ∷ []

steps-terminals : terminals_of steps ≡ terminals
unfolding terminals_of
steps-terminals = refl

terminals_of_exact_example :
    has pair_eq (pair "triage" "bug") (pairs (terminals_of steps))
    ≡ any (ends steps (pair "triage" "bug")) steps
terminals_of_exact_example = terminals_of_exact steps (pair "triage" "bug")

abbrev route : String → String → RouteSource
route s o = record { step = s; when_step = s; when_outcome = o }

abbrev routes : List RouteSource
routes = route "fix" "done" ∷ route "triage" "question" ∷ []

abbrev routed : WorkflowResult
routed = record {
  step = "";
  outcomes = [];
  routes =
      record { step = "fix"; outcome = "done"; schema = fix_output }
      ∷ record { step = "triage"; outcome = "question"; schema = triage_output }
      ∷ [];
  schema = some fix_output;
}

routes_compiled : compile_routed_result routes terminals ≡ ok routed
unfolding compile_routed_result
routes_compiled = refl

compile_routed_result_covers_example :
    (has pair_eq (pair "fix" "done") (map route_pair routed.routes)
      ≡ has pair_eq (pair "fix" "done") (pairs terminals))
    × (length routed.routes ≡ length terminals)
compile_routed_result_covers_example =
    compile_routed_result_covers routes terminals (pair "fix" "done") routes_compiled

abbrev alone : Terminals
alone = (pair "triage" "bug", triage_output) ∷ (pair "triage" "question", triage_output) ∷ []

abbrev direct : WorkflowResult
direct = record {
  step = "triage";
  outcomes = triage_output.outcomes;
  routes = [];
  schema = some triage_output;
}

direct_compiled : compile_direct_result "triage" (("triage", triage_output) ∷ []) alone ≡ ok direct
unfolding compile_direct_result
direct_compiled = refl

compile_direct_result_covers_example :
    has pair_eq (pair "triage" "bug") (pairs alone)
    ≡ (str_eq "triage" "triage" && member "bug" triage_output.outcomes)
unfolding member lookup
compile_direct_result_covers_example =
    compile_direct_result_covers "triage" (("triage", triage_output) ∷ []) alone triage_output
      (pair "triage" "bug") refl (refl, (refl, tt)) direct_compiled

abbrev twice_output : Output
twice_output = record { json = "{}"; outcomes = "bug" ∷ "bug" ∷ [] }

compile_direct_result_repeated_example :
    (r : WorkflowResult) × (compile_direct_result "triage"
        (("triage", twice_output) ∷ ("fix", fix_output) ∷ [])
        ((pair "triage" "bug", twice_output) ∷ (pair "fix" "done", fix_output) ∷ [])
      ≡ ok r)
    × (r.step ≡ "triage")
compile_direct_result_repeated_example =
    compile_direct_result_repeated "triage" "fix" "bug" "done" twice_output fix_output refl

abbrev needed : Constraints
needed = ("scan", "clean" ∷ []) ∷ ("triage", "bug" ∷ []) ∷ []

abbrev refused : Constraints
refused = ("scan", "clean" ∷ []) ∷ ("triage", "question" ∷ []) ∷ []

constraints_conflict_order_example :
    (constraints_conflict needed refused ≡ false)
    × (constraints_conflict (("triage", "bug" ∷ []) ∷ ("scan", "clean" ∷ []) ∷ []) refused ≡ true)
unfolding lookup member any
constraints_conflict_order_example =
    constraints_conflict_order "scan" "triage" ("clean" ∷ []) ("bug" ∷ []) ("clean" ∷ [])
      ("question" ∷ []) [] refused refl refl refl refl

abbrev needed_first : Constraints
needed_first = ("triage", "bug" ∷ []) ∷ []

result_compiled : compile_result "" routes steps ≡ ok routed
unfolding compile_result
result_compiled = refl

compile_result_apart_example :
    excluded
      (terminal_constraints (pair "triage" "question") steps)
      (terminal_constraints (pair "fix" "done") steps)
    ≡ true
unfolding terminals_of
compile_result_apart_example =
    compile_result_apart "" routes steps [] [] [] (pair "triage" "question") (pair "fix" "done")
      result_compiled refl

compile_result_routes_example :
    has pair_eq (pair "fix" "done") (map route_pair routed.routes)
    ≡ any (ends steps (pair "fix" "done")) steps
compile_result_routes_example =
    compile_result_routes routes steps (pair "fix" "done") result_compiled

terminal_constraints_fuel_example :
    search (pair "fix" "done") steps 7 ≡ terminal_constraints (pair "fix" "done") steps
terminal_constraints_fuel_example =
    terminal_constraints_fuel (pair "fix" "done") steps 7 (omega arith)
