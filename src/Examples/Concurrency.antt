-- ===== src/Examples/Concurrency.antt =====
-- The check of concurrent steps at a concrete workflow.
use duto_ai.Prelude.{String, List, [], ◌∷◌, ◌≡◌, refl, ok, err, ◌⊎◌, arith, some, true, ◌↔◌}
use duto_ai.Prelude.Int.{pos}
use duto_ai.Plan.Admission.{invalid_limits}
use duto_ai.Plan.Limits.{unsafe_tool_scope}
use duto_ai.Plan.Concurrency.{
  ToolStep, needs_from, visit, is_plan_ancestor, validate_tool_concurrency,
}
use duto_ai.Plan.Concurrency.Search.{Before}
use duto_ai.Plan.Concurrency.Ordered.{validate_tool_concurrency-Before}
use duto_ai.Plan.Concurrency.Exact.{is_plan_ancestor_exact}
use duto_ai.Examples.Plans.{writing}

abbrev step : String → List String → ToolStep
step id needs = record { id = id; needs = needs; tools = writing; max_parallel_calls = pos 1 }

abbrev plan : ToolStep
plan = step "plan" []

abbrev edit : ToolStep
edit = step "edit" ("plan" ∷ [])

abbrev commit : ToolStep
commit = step "commit" ("edit" ∷ [])

abbrev steps : List ToolStep
steps = plan ∷ edit ∷ commit ∷ []

steps_valid : validate_tool_concurrency steps ≡ ok tt
unfolding validate_tool_concurrency unsafe_tool_scope
steps_valid = refl

beside_refused : validate_tool_concurrency (plan ∷ step "other" [] ∷ []) ≡ err invalid_limits
unfolding validate_tool_concurrency unsafe_tool_scope
beside_refused = refl

validate_tool_concurrency-Before_example :
    Before (needs_from steps []) "plan" "commit" ⊎ Before (needs_from steps []) "commit" "plan"
unfolding unsafe_tool_scope
validate_tool_concurrency-Before_example =
    validate_tool_concurrency-Before [] (edit ∷ []) [] plan commit steps_valid refl

-- Two steps that need one another.
abbrev looped : List ToolStep
looped = step "edit" ("commit" ∷ []) ∷ step "commit" ("edit" ∷ []) ∷ []

is_plan_ancestor_exact_example :
    ((seen : List String) × (visit 9 (needs_from looped []) "plan" "commit" []
        ≡ some (is_plan_ancestor "plan" "commit" looped, seen)))
    × ((is_plan_ancestor "plan" "commit" looped ≡ true)
        ↔ Before (needs_from looped []) "plan" "commit")
is_plan_ancestor_exact_example = is_plan_ancestor_exact "plan" "commit" looped 9 (omega arith)
