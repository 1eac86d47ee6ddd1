-- ===== src/Plan/ToolPolicy.antt =====
-- The tool policy of a workflow: the catalog, the ceiling that the configuration trusts, and the
-- workflow's scope under it (compileWorkflowToolPolicy and validateToolBindings in
-- internal/plan/tools.go).
pub mod Bound
use Prim.Native.Char.{code}
use duto_ai.Prelude.{
  ℕ, String, Bool, true, false, not, ◌&&◌, ◌||◌, Option, none, some, List, [], ◌∷◌, ◌==◌,
  if◌then◌else◌, str_eq, any, Result, ok, err, ◌>>=◌, ◌>>◌, require,
}
use duto_ai.Prelude.Int.{ℤ}
use duto_ai.Prelude.Keys.{lookup}
use duto_ai.Tool.Catalog.{Catalog}
use duto_ai.Tool.Catalog.Standard.{builtin_catalog, m3_catalog}
use duto_ai.Tool.Scope.{Expression, ScopeRequest, Profiles, merge_profiles, resolve_ceiling}
use duto_ai.Plan.Admission.{unsupported_capability}
use duto_ai.Plan.Limits.{Durations}
use duto_ai.Plan.ToolLimits.{
  ScopeError, plan, ToolLimit, ToolLimitSource, CompiledScope, policy_error, compile_tool_scope,
  compile_trusted_tool_limits,
}
use duto_ai.Plan.Workspaces.{Workspace}

-- The parts of config.Config that the tool policy reads. A family of tools that works in a
-- workspace is bound to the workspace's name, and the others are bound or not.
pub record ToolSettings : Type 0 where
  pub workspaces : List (String × Workspace)
  pub tool_profiles : Profiles
  pub tools : List String
  pub tool_limits : List (String × ToolLimitSource)
  pub files : Option String
  pub git : Option String
  pub shell : Option String
  pub github : Bool
  pub web : Bool
  pub has_m3 : Bool

-- The parts of config.Workflow that the tool policy reads.
pub record ToolSource : Type 0 where
  pub tool_profiles : Profiles
  pub tools : Expression
  pub tool_limits : List (String × ToolLimitSource)

-- The part of strings.Cut(name, ".") before the dot.
unfoldable pub family : String → String
family String.[] = ""
family (String.◌∷◌ c s) =
    let rest = family s in if code c == code "." then "" else String.◌∷◌ c rest

-- selected[f]
unfoldable pub selects : List String → String → Bool
unfolding any family
selects names f = any (λ name. str_eq (family name) f) names

abbrev pub readable : Option Workspace → Bool
readable none = false
readable (some w) = (str_eq w.access "read" || str_eq w.access "write") && not (str_eq w.root "")

unfoldable pub read_workspace_exists : ToolSettings → String → Bool
unfolding lookup
read_workspace_exists cfg name = readable (lookup name cfg.workspaces)

abbrev pub workspace_bound : ToolSettings → Option String → Bool
workspace_bound cfg none = false
workspace_bound cfg (some name) = read_workspace_exists cfg name

abbrev pub unsupported : ScopeError
unsupported = plan unsupported_capability

unfoldable pub validate_tool_bindings : ToolSettings → List String → Result ScopeError (Unit {0})
unfolding selects read_workspace_exists
validate_tool_bindings cfg names = do
  require (not (selects names "files" && not (workspace_bound cfg cfg.files))) unsupported
  require (not (selects names "git" && not (workspace_bound cfg cfg.git))) unsupported
  require (not (selects names "github" && not cfg.github)) unsupported
  require (not (selects names "web" && not cfg.web)) unsupported
  require (not (selects names "shell" && not (workspace_bound cfg cfg.shell))) unsupported

-- compiledToolPolicy, with the profiles as merged.
pub record ToolPolicy : Type 0 where
  pub catalog : Catalog
  pub profiles : Profiles
  pub ceiling : List String
  pub scope : CompiledScope
  pub trusted_limits : List (String × ToolLimit)

abbrev pub catalog_of : ToolSettings → Catalog
catalog_of cfg = if cfg.has_m3 then m3_catalog else builtin_catalog

abbrev pub workflow_request : ToolSource → Profiles → List String → ScopeRequest
workflow_request workflow profiles ceiling = record {
  expression = workflow.tools;
  profiles = profiles;
  ceiling = ceiling;
  parent = [];
  root = true;
}

-- `max_tool_calls` is the limit of the workflow.
unfoldable pub compile_workflow_tool_policy :
    Durations → ToolSettings → ToolSource → ℤ → Result ScopeError ToolPolicy
unfolding validate_tool_bindings
compile_workflow_tool_policy d cfg workflow max_tool_calls = do
  profiles ← policy_error (merge_profiles cfg.tool_profiles workflow.tool_profiles)
  ceiling ← policy_error (resolve_ceiling (catalog_of cfg) cfg.tools)
  trusted_limits ← compile_trusted_tool_limits d (catalog_of cfg) cfg.tool_limits
  scope ←
      compile_tool_scope d (catalog_of cfg) (workflow_request workflow profiles ceiling)
        workflow.tool_limits trusted_limits max_tool_calls
  validate_tool_bindings cfg scope.names
  ok (record {
    catalog = catalog_of cfg;
    profiles = profiles;
    ceiling = ceiling;
    scope = scope;
    trusted_limits = trusted_limits;
  })
