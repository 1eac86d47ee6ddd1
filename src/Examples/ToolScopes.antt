-- ===== src/Examples/ToolScopes.antt =====
-- The compilation of a tool scope, and of the limits that it starts from, at concrete inputs.
use duto_ai.Prelude.{String, true, false, List, [], ◌∷◌, ◌≡◌, refl, ok, err, ◌||◌}
use duto_ai.Prelude.Int.{pos}
use duto_ai.Prelude.Keys.{lookup, member, add, remove}
use duto_ai.Tool.Catalog.{Catalog, Definition, expand}
use duto_ai.Tool.Scope.{ScopeRequest, resolve_scope, change, or_empty}
use duto_ai.Plan.Admission.{invalid_limits}
use duto_ai.Plan.ToolLimits.{
  plan, ToolLimit, ToolLimitSource, CompiledScope, compile_tool_scope, compile_trusted_tool_limits,
}
use duto_ai.Plan.ToolLimits.Narrowed.{Limited, compile_tool_scope-Limited}
use duto_ai.Plan.ToolLimits.Trusted.{Trusted, compile_trusted_tool_limits-Trusted}
use duto_ai.Examples.Limits.{unary, unary-Reparses}

abbrev reading : Definition
reading = record { name = "files.read"; capabilities = "workspace.read" ∷ []; side_effect = "read" }

abbrev catalog : Catalog
catalog = record { names = "files.read" ∷ []; definitions = ("files.read", reading) ∷ [] }

abbrev request : ScopeRequest
request = record {
  expression = record {
    from = "parent";
    add_profiles = [];
    adds = [];
    remove_profiles = [];
    removes = [];
  };
  profiles = [];
  ceiling = "files.read" ∷ [];
  parent = "files.read" ∷ [];
  root = false;
}

abbrev pub source : List (String × ToolLimitSource)
source =
    (
      "files.read",
      record {
        max_calls = pos 8;
        timeout = "+iii";
        max_request_bytes = pos 0;
        max_result_bytes = pos 100;
      },
    )
    ∷ []

abbrev pub trusted_read : ToolLimit
trusted_read = record {
  name = "files.read";
  max_calls = pos 8;
  timeout = "+iii";
  max_request_bytes = pos 0;
  max_result_bytes = pos 100;
}

abbrev pub trusted : List (String × ToolLimit)
trusted = ("files.read", trusted_read) ∷ []

source_trusted : compile_trusted_tool_limits unary catalog source ≡ ok trusted
unfolding compile_trusted_tool_limits
source_trusted = refl

compile_trusted_tool_limits-Trusted_example : Trusted unary catalog "files.read" trusted_read
unfolding lookup
compile_trusted_tool_limits-Trusted_example =
    compile_trusted_tool_limits-Trusted unary unary-Reparses catalog source "files.read"
      trusted_read source_trusted refl

abbrev pub asked : List (String × ToolLimitSource)
asked =
    (
      "files.read",
      record {
        max_calls = pos 2;
        timeout = "";
        max_request_bytes = pos 0;
        max_result_bytes = pos 10;
      },
    )
    ∷ []

abbrev pub scope : CompiledScope
scope = record {
  names = "files.read" ∷ [];
  definitions = reading ∷ [];
  limits = record trusted_read { max_calls = pos 2; max_result_bytes = pos 10 } ∷ [];
}

scope_compiled : compile_tool_scope unary catalog request asked trusted (pos 5) ≡ ok scope
unfolding compile_tool_scope resolve_scope expand change or_empty add remove
scope_compiled = refl

no_calls_refused :
    compile_tool_scope unary catalog request asked trusted (pos 0) ≡ err (plan invalid_limits)
unfolding compile_tool_scope resolve_scope expand change or_empty add remove
no_calls_refused = refl

compile_tool_scope-Limited_example :
    (member "files.read" request.ceiling ≡ true)
    × ((request.root || member "files.read" request.parent) ≡ true)
    × Limited unary trusted scope.limits "files.read"
unfolding member
compile_tool_scope-Limited_example =
    compile_tool_scope-Limited unary catalog request asked trusted (pos 5) "files.read"
      scope_compiled refl
