-- ===== src/Examples/Graphs.antt =====
-- The graphs of steps and agents at concrete inputs.
use duto_ai.Prelude.{some, List, [], ◌∷◌, ◌≡◌, refl, ok, err, ◌⊎◌, ◌↔◌, All}
use duto_ai.Prelude.Keys.{Distinct, member}
use duto_ai.Config.Graph.{
  GraphStep, topological_sort, circular_dependency, unknown_dependency, invalid_name,
}
use duto_ai.Config.Graph.Indexed.{step_ids}
use duto_ai.Config.Graph.Ordering.{IsOrderOf, topological_sort-IsOrderOf}
use duto_ai.Config.Graph.Exact.{topological_sort_exact}
use duto_ai.Config.Agents.{Agents, Marks, visited, visit_agents}
use duto_ai.Config.Agents.Cycles.{Grounded}
use duto_ai.Config.Agents.Exact.{visit_agents_exact}
use duto_ai.Config.Workflow.{Workflow, validate_workflow}
use duto_ai.Config.Workflow.Valid.{IsWorkflow, validate_workflow_exact}

abbrev read_step : GraphStep
read_step = record { id = "read"; needs = []; agent = "" }

abbrev judge_step : GraphStep
judge_step = record { id = "judge"; needs = "read" ∷ []; agent = "lead" }

abbrev write_step : GraphStep
write_step = record { id = "write"; needs = "judge" ∷ "read" ∷ []; agent = "" }

abbrev review : List GraphStep
review = write_step ∷ judge_step ∷ read_step ∷ []

sort_review : topological_sort review ≡ ok (read_step ∷ judge_step ∷ write_step ∷ [])
unfolding topological_sort
sort_review = refl

sort_cycle :
    topological_sort (
      record { id = "a"; needs = "b" ∷ []; agent = "" }
      ∷ record { id = "b"; needs = "a" ∷ []; agent = "" }
      ∷ read_step
      ∷ [])
    ≡ err circular_dependency
unfolding topological_sort
sort_cycle = refl

sort_unknown : topological_sort (judge_step ∷ []) ≡ err unknown_dependency
unfolding topological_sort
sort_unknown = refl

topological_sort-IsOrderOf_example : IsOrderOf review (read_step ∷ judge_step ∷ write_step ∷ [])
topological_sort-IsOrderOf_example = topological_sort-IsOrderOf review sort_review

review-Distinct : Distinct (step_ids review)
unfolding member
review-Distinct = (refl, (refl, (refl, tt)))

topological_sort_exact_example :
    ((sorted : List GraphStep) × (topological_sort review ≡ ok sorted))
    ↔ ((sorted : List GraphStep) × IsOrderOf review sorted)
topological_sort_exact_example = topological_sort_exact review review-Distinct

abbrev team : Agents
team =
    ("lead", record { model = "large"; mode = "single_turn"; subagents = "clerk" ∷ "scout" ∷ [] })
    ∷ ("clerk", record { model = "small"; mode = "task"; subagents = "scout" ∷ [] })
    ∷ ("scout", record { model = "small"; mode = "task"; subagents = [] })
    ∷ []

visit_team :
    visit_agents team ("lead" ∷ "clerk" ∷ "scout" ∷ [])
    ≡ ok (("lead", visited) ∷ ("clerk", visited) ∷ ("scout", visited) ∷ [])
unfolding visit_agents
visit_team = refl

abbrev looped : Agents
looped =
    ("lead", record { model = "large"; mode = "task"; subagents = "clerk" ∷ [] })
    ∷ ("clerk", record { model = "small"; mode = "task"; subagents = "lead" ∷ [] })
    ∷ []

visit_loop : visit_agents looped ("lead" ∷ []) ≡ err circular_dependency
unfolding visit_agents
visit_loop = refl

visit_agents_exact_example :
    ((out : Marks) × (visit_agents looped ("lead" ∷ []) ≡ ok out)
      × All (Grounded looped) ("lead" ∷ []))
    ⊎ ((visit_agents looped ("lead" ∷ []) ≡ err circular_dependency)
        × ¬ All (Grounded looped) ("lead" ∷ []))
visit_agents_exact_example = visit_agents_exact looped ("lead" ∷ [])

abbrev workflow : Workflow
workflow = record {
  name = "review";
  model = "large";
  agents = team;
  agent_order = "lead" ∷ "clerk" ∷ "scout" ∷ [];
  steps = review;
  result_step = "";
  routes = record { step = "write"; when_step = "write" } ∷ [];
}

validate_review : validate_workflow (some workflow) ≡ ok tt
unfolding validate_workflow
validate_review = refl

validate_task_step :
    validate_workflow (
      some (record workflow {
        steps = record { id = "read"; needs = []; agent = "clerk" } ∷ [];
        routes = [];
      }))
    ≡ err invalid_name
unfolding validate_workflow
validate_task_step = refl

validate_workflow_exact_example : (validate_workflow (some workflow) ≡ ok tt) ↔ IsWorkflow workflow
validate_workflow_exact_example = validate_workflow_exact workflow
