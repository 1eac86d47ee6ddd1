-- ===== src/Plan/Outcomes.antt =====
-- The terminals of a workflow, and direct and routed results (the parts of compileResult in
-- internal/plan/plan.go). A step's output schema enters by its JSON encoding, by which schemasEqual
-- compares it, and by the values of its `outcome` property.
pub mod Conflict
pub mod Routes
pub mod Terminals
pub mod Direct
use duto_ai.Prelude.{
  ℕ, String, Bool, true, false, not, ◌&&◌, ◌||◌, Option, none, some, List, [], ◌∷◌, ◌++◌, length,
  is_empty, ◌==◌, if◌then◌else◌, str_eq, any, all, Result, ok, err, ◌>>=◌, ◌>>◌, require,
}
use duto_ai.Prelude.Cover.{has}
use duto_ai.Prelude.Keys.{member, lookup, insert}
use duto_ai.Plan.Admission.{PlanError, invalid_result}

pub record Condition : Type 0 where
  pub step : String
  pub outcomes : List String

pub record Output : Type 0 where
  pub json : String
  pub outcomes : List String

pub record Step : Type 0 where
  pub id : String
  pub needs : List String
  pub conditions : List Condition
  pub output : Output

pub record TerminalPair : Type 0 where
  pub step : String
  pub outcome : String

pub record ResultRoute : Type 0 where
  pub step : String
  pub outcome : String
  pub schema : Output

-- config.ResultRoute: the step, and the condition under which it is the result.
pub record RouteSource : Type 0 where
  pub step : String
  pub when_step : String
  pub when_outcome : String

abbrev pub pair_eq : TerminalPair → TerminalPair → Bool
pair_eq a b = str_eq a.step b.step && str_eq a.outcome b.outcome

-- map[terminalPair]Schema
abbrev pub Terminals : Type 0
Terminals = List (TerminalPair × Output)

abbrev pub pairs : Terminals → List TerminalPair
pairs [] = []
pairs ((k, v) ∷ m) = k ∷ pairs m

unfoldable pub find_terminal : TerminalPair → Terminals → Option Output
find_terminal k [] = none
find_terminal k ((j, v) ∷ m) = if pair_eq j k then some v else find_terminal k m

unfoldable pub put_terminal : TerminalPair → Output → Terminals → Terminals
put_terminal k v [] = (k, v) ∷ []
put_terminal k v ((j, w) ∷ m) = if pair_eq j k then (k, v) ∷ m else (j, w) ∷ put_terminal k v m

-- The conditions of a successor: one names the step and has the outcome, or none names the step.
unfoldable pub conditions_consume : String → String → List Condition → Bool → Bool
unfolding member
conditions_consume id outcome [] conditioned = not conditioned
conditions_consume id outcome (c ∷ cs) conditioned =
    let rest = conditions_consume id outcome cs (str_eq c.step id || conditioned) in
    if str_eq c.step id && member outcome c.outcomes then true else rest

unfoldable pub outcome_consumed : String → String → List Step → Bool
unfolding conditions_consume member
outcome_consumed id outcome [] = false
outcome_consumed id outcome (successor ∷ steps) =
    let rest = outcome_consumed id outcome steps in
    if member id successor.needs && conditions_consume id outcome successor.conditions false
    then true
    else rest

-- The outcomes of one step that no step consumes.
unfoldable pub step_terminals : Step → List Step → List String → Terminals → Terminals
unfolding outcome_consumed put_terminal
step_terminals step steps [] found = found
step_terminals step steps (outcome ∷ outcomes) found = step_terminals step steps outcomes (
    if outcome_consumed step.id outcome steps
    then found
    else put_terminal (record { step = step.id; outcome = outcome }) step.output found)

-- The loop of compileResult over the steps.
unfoldable pub terminals_from : List Step → List Step → Terminals → Terminals
unfolding step_terminals
terminals_from [] steps found = found
terminals_from (step ∷ rest) steps found =
    terminals_from rest steps (step_terminals step steps step.output.outcomes found)

unfoldable pub terminals_of : List Step → Terminals
unfolding terminals_from
terminals_of steps = terminals_from steps steps []

-- map[string][]string: the outcomes that each step must have for a terminal to be reached.
abbrev pub Constraints : Type 0
Constraints = List (String × List String)

abbrev pub disjoint : List String → List String → Bool
disjoint xs ys = not (any (λ v. member v ys) xs)

-- `left` is listed in the order in which Go visits the map.
unfoldable pub constraints_conflict : Constraints → Constraints → Bool
unfolding member any lookup
constraints_conflict [] right = false
constraints_conflict ((step, values) ∷ left) right = elim (lookup step right) [
  | none ↦ constraints_conflict left right
  | some others ↦ disjoint values others
]

-- The state of the loop of compileRoutedResult.
pub record Routing : Type 0 where
  pub covered : List TerminalPair
  pub outcome_schemas : List (String × Output)
  pub routes : List ResultRoute

abbrev pub start : Routing
start = record { covered = []; outcome_schemas = []; routes = [] }

abbrev pub schemas_equal : Output → Output → Bool
schemas_equal a b = str_eq a.json b.json

abbrev pub agrees : Option Output → Output → Bool
agrees none output = true
agrees (some prior) output = schemas_equal prior output

abbrev pub or_invalid : Option Output → Result PlanError Output
or_invalid none = err invalid_result
or_invalid (some output) = ok output

abbrev pub key_of : RouteSource → TerminalPair
key_of r = record { step = r.step; outcome = r.when_outcome }

abbrev pub extend : Routing → RouteSource → Output → Routing
extend s r output = record {
  covered = key_of r ∷ s.covered;
  outcome_schemas = insert r.when_outcome output s.outcome_schemas;
  routes = s.routes ++ record { step = r.step; outcome = r.when_outcome; schema = output } ∷ [];
}

-- One route: its step is its condition's, a terminal that no route has covered, with the schema
-- that the outcome has had so far.
unfoldable pub add_route : Terminals → Routing → RouteSource → Result PlanError Routing
unfolding find_terminal has lookup insert
add_route terminals s r = do
  output ← or_invalid (find_terminal (key_of r) terminals)
  require (str_eq r.step r.when_step) invalid_result
  require (not (has pair_eq (key_of r) s.covered)) invalid_result
  require (agrees (lookup r.when_outcome s.outcome_schemas) output) invalid_result
  ok (extend s r output)

unfoldable pub add_routes : Terminals → Routing → List RouteSource → Result PlanError Routing
unfolding add_route
add_routes terminals s [] = ok s
add_routes terminals s (r ∷ rs) = do s' ← add_route terminals s r; add_routes terminals s' rs

-- plan.Result; its schema is that of its step, or of its first route.
pub record WorkflowResult : Type 0 where
  pub step : String
  pub outcomes : List String
  pub routes : List ResultRoute
  pub schema : Option Output

abbrev pub first_schema : List ResultRoute → Option Output
first_schema [] = none
first_schema (r ∷ rs) = some r.schema

unfoldable pub compile_routed_result :
    List RouteSource → Terminals → Result PlanError WorkflowResult
unfolding add_routes
compile_routed_result source terminals = do
  s ← add_routes terminals start source
  require (length s.covered == length terminals) invalid_result
  ok (record { step = ""; outcomes = []; routes = s.routes; schema = first_schema s.routes })

abbrev pub is_terminal : Terminals → String → String → Bool
is_terminal terminals step outcome =
    has pair_eq (record { step = step; outcome = outcome }) (pairs terminals)

unfoldable pub compile_direct_result :
    String → List (String × Output) → Terminals → Result PlanError WorkflowResult
unfolding lookup has all
compile_direct_result step outputs terminals = do
  output ← or_invalid (lookup step outputs)
  require (length terminals == length output.outcomes) invalid_result
  require (all (is_terminal terminals step) output.outcomes) invalid_result
  ok (record { step = step; outcomes = output.outcomes; routes = []; schema = some output })
