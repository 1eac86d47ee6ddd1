-- ===== src/Config/Workflow.antt =====
-- The checks on a workflow as a whole (ValidateWorkflow in internal/config/validate.go).
pub mod Loops
pub mod Valid
use duto_ai.Prelude.{
  String, Bool, true, false, ◌&&◌, ◌||◌, not, Option, none, some, List, [], ◌∷◌, is_empty, all,
  if◌then◌else◌, str_eq, Result, ok, err, ◌>>=◌, ◌>>◌, require,
}
use duto_ai.Prelude.Keys.{member, add}
use duto_ai.Pattern.{is_name}
use duto_ai.Config.Graph.{
  GraphError, GraphStep, nil_workflow, no_steps, duplicate_step_id, unknown_dependency,
  invalid_name, unknown_result_step, topological_sort,
}
use duto_ai.Config.Agents.{Agents, validate_agent_graph}

-- The parts of config.ResultRoute that are read: its step, and the step of its condition.
pub record Route : Type 0 where
  pub step : String
  pub when_step : String

-- The parts of config.Workflow that are read.
pub record Workflow : Type 0 where
  pub name : String
  pub model : String
  pub agents : Agents
  pub agent_order : List String
  pub steps : List GraphStep
  pub result_step : String
  pub routes : List Route

-- The loop that fills `ids`.
unfoldable pub collect_ids : List String → List GraphStep → Result GraphError (List String)
unfolding is_name add member
collect_ids ids [] = ok ids
collect_ids ids (step ∷ steps) = do
  require (is_name step.id) invalid_name
  require (not (member step.id ids)) duplicate_step_id
  collect_ids (add step.id ids) steps

-- The loop over the needs of each step.
unfoldable pub check_needs : List String → List GraphStep → Result GraphError (Unit {0})
unfolding all member
check_needs ids [] = ok tt
check_needs ids (step ∷ steps) = do
  require (all (λ dependency. member dependency ids) step.needs) unknown_dependency
  check_needs ids steps

-- The loop over the result's routes.
unfoldable pub check_routes : List String → List Route → Result GraphError (Unit {0})
unfolding member
check_routes ids [] = ok tt
check_routes ids (route ∷ routes) = do
  require (str_eq route.step route.when_step) unknown_result_step
  require (member route.step ids) unknown_result_step
  check_routes ids routes

unfoldable pub validate_workflow : Option Workflow → Result GraphError (Unit {0})
unfolding is_name validate_agent_graph collect_ids check_needs check_routes topological_sort
validate_workflow none = err nil_workflow
validate_workflow (some workflow) = do
  require (is_name workflow.name) invalid_name
  require (is_name workflow.model) invalid_name
  require (not (is_empty workflow.steps)) no_steps
  validate_agent_graph workflow.agents workflow.agent_order workflow.steps workflow.result_step
  ids ← collect_ids [] workflow.steps
  check_needs ids workflow.steps
  require (str_eq workflow.result_step "" || member workflow.result_step ids) unknown_result_step
  check_routes ids workflow.routes
  sorted ← topological_sort workflow.steps
  ok tt
