-- ===== src/Examples/ToolPolicies.antt =====
-- The tool policy of a small workflow.
use duto_ai.Prelude.{false, [], ◌∷◌, ◌≡◌, refl, ok, err, none, some}
use duto_ai.Prelude.Int.{pos}
use duto_ai.Prelude.Keys.{member, add, remove}
use duto_ai.Tool.Catalog.{expand}
use duto_ai.Tool.Catalog.Standard.{builtin_catalog}
use duto_ai.Tool.Scope.{resolve_scope, resolve_ceiling, merge_profiles, change, or_empty}
use duto_ai.Plan.ToolLimits.{compile_tool_scope, compile_trusted_tool_limits}
use duto_ai.Plan.ToolPolicy.{
  ToolSettings, ToolSource, ToolPolicy, unsupported, compile_workflow_tool_policy,
}
use duto_ai.Plan.ToolPolicy.Bound.{Granted, compile_workflow_tool_policy-Granted}
use duto_ai.Examples.Limits.{unary, unary-Reparses}
use duto_ai.Examples.ToolScopes.{source, trusted, asked, scope}

abbrev settings : ToolSettings
settings = record {
  workspaces = ("code", record { root = "/code"; access = "read" }) ∷ [];
  tool_profiles = [];
  tools = "files.read" ∷ [];
  tool_limits = source;
  files = some "code";
  git = none;
  shell = none;
  github = false;
  web = false;
  has_m3 = false;
}

abbrev workflow : ToolSource
workflow = record {
  tool_profiles = [];
  tools = record {
    from = "";
    add_profiles = [];
    adds = "files.read" ∷ [];
    remove_profiles = [];
    removes = [];
  };
  tool_limits = asked;
}

abbrev tool_policy : ToolPolicy
tool_policy = record {
  catalog = builtin_catalog;
  profiles = [];
  ceiling = "files.read" ∷ [];
  scope = scope;
  trusted_limits = trusted;
}

compiled : compile_workflow_tool_policy unary settings workflow (pos 5) ≡ ok tool_policy
unfolding compile_workflow_tool_policy resolve_ceiling merge_profiles compile_trusted_tool_limits
    compile_tool_scope resolve_scope expand change builtin_catalog or_empty add remove
compiled = refl

unbound_refused :
    compile_workflow_tool_policy unary (record settings { files = none }) workflow (pos 5)
    ≡ err unsupported
unfolding compile_workflow_tool_policy resolve_ceiling merge_profiles compile_trusted_tool_limits
    compile_tool_scope resolve_scope expand change builtin_catalog or_empty add remove
unbound_refused = refl

compile_workflow_tool_policy-Granted_example : Granted unary settings tool_policy "files.read"
unfolding member
compile_workflow_tool_policy-Granted_example =
    compile_workflow_tool_policy-Granted unary settings workflow (pos 5) "files.read" unary-Reparses
      compiled refl
