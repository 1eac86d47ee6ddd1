-- ===== src/Examples/Guards.antt =====
-- A run of two scopes with one tool each, which together ask for more calls than the run has.
use duto_ai.Prelude.{String, true, List, [], ◌∷◌, ◌≡◌, refl, ok, some, ◌≤◌, str_eq, ◌&&◌}
use duto_ai.Prelude.Int.{pos}
use duto_ai.Prelude.Keys.{member, lookup, add}
use duto_ai.Tool.Guard.{
  Guard, ToolLimit, RuntimeLimit, ScopeLimit, granted, fresh, call_deadline, increment, tool_key,
}
use duto_ai.Tool.Guard.Build.{new_guards}
use duto_ai.Tool.Guard.Calls.{granted_run_budget, granted_scope_budget, granted_tool_budget}

abbrev read_limit : ToolLimit
read_limit = record {
  max_calls = pos 2;
  timeout = pos 50;
  max_request_bytes = pos 0;
  max_result_bytes = pos 1024;
}

abbrev run : RuntimeLimit
run = record { max_calls = pos 3; timeout = pos 1000 }

abbrev reading : ScopeLimit
reading = record {
  names = "files.read" ∷ [];
  max_calls = pos 2;
  timeout = pos 100;
  tools = ("files.read", read_limit) ∷ [];
}

abbrev scopes : List (String × ScopeLimit)
scopes = ("plan", reading) ∷ ("report", reading) ∷ []

abbrev guard_of : String → Guard
guard_of scope = record {
  scope = scope;
  allowed = "files.read" ∷ [];
  run_limit = run;
  scope_limit = reading;
  run_deadline = 1007;
  deadline = 107;
}

abbrev guards : List (String × Guard)
guards = ("plan", guard_of "plan") ∷ ("report", guard_of "report") ∷ []

guards_built : new_guards run scopes 7 ≡ ok guards
unfolding new_guards add
guards_built = refl

abbrev calls : List (String × String)
calls =
    ("plan", "files.read")
    ∷ ("report", "files.read")
    ∷ ("plan", "files.read")
    ∷ ("report", "files.read")
    ∷ ("plan", "web.fetch")
    ∷ []

-- The fourth call finds the run's budget spent, and the fifth is not allowed.
three_granted : granted guards (λ scope name. true) fresh calls ≡ 3
unfolding granted increment tool_key
three_granted = refl

-- The tool's own timeout comes before the scope's and the run's deadline.
first_deadline : call_deadline (some (guard_of "plan")) "files.read" 20 ≡ ok 70
unfolding call_deadline
first_deadline = refl

granted_run_budget_example : granted guards (λ scope name. true) fresh calls ≤ 3
granted_run_budget_example = granted_run_budget run scopes 7 guards_built calls

granted_scope_budget_example : granted guards (λ scope name. str_eq scope "plan") fresh calls ≤ 2
unfolding lookup member
granted_scope_budget_example =
    granted_scope_budget run scopes 7 guards_built calls "plan" reading (refl, (refl, tt)) refl

granted_tool_budget_example :
    granted guards (λ scope name. str_eq scope "report" && str_eq name "files.read") fresh calls ≤ 2
unfolding lookup member
granted_tool_budget_example =
    granted_tool_budget run scopes 7 guards_built calls "report" reading (refl, (refl, tt)) refl
      "files.read"
