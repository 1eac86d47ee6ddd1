-- ===== src/Plan/ToolLimits.antt =====
-- The limits of tools: those that the configuration trusts, and their narrowing by the scopes below
-- (compileTrustedToolLimits, compileToolScope, narrowToolLimit and narrowedBytes in
-- internal/plan/tools.go).
pub mod Narrowed
pub mod Trusted
use duto_ai.Prelude.{
  String, Bool, true, false, not, ◌&&◌, ◌||◌, Option, none, some, List, [], ◌∷◌, is_empty,
  if◌then◌else◌, str_eq, Result, ok, err, ◌>>=◌, ◌>>◌, require,
}
use duto_ai.Prelude.Int.{ℤ, pos, ltb_ℤ, is_zero, is_positive, is_negative}
use duto_ai.Prelude.Keys.{member, lookup, insert, has_key}
use duto_ai.Tool.Catalog.{Catalog, Definition, PolicyError, unknown_tool}
use duto_ai.Tool.Scope.{ScopeRequest, Scope, resolve_scope}
use duto_ai.Plan.Admission.{PlanError, invalid_limits}
use duto_ai.Plan.Limits.{Durations, normalized_timeout, or_zero}

-- The errors of the package tool pass through.
pub data ScopeError : Type 0 where
  policy : PolicyError → ScopeError
  plan : PlanError → ScopeError

abbrev pub unknown : String → ScopeError
unknown name = policy (record { code = unknown_tool; name = name })

-- plan.ToolLimit
pub record ToolLimit : Type 0 where
  pub name : String
  pub max_calls : ℤ
  pub timeout : String
  pub max_request_bytes : ℤ
  pub max_result_bytes : ℤ

-- config.ToolLimit
pub record ToolLimitSource : Type 0 where
  pub max_calls : ℤ
  pub timeout : String
  pub max_request_bytes : ℤ
  pub max_result_bytes : ℤ

-- The zero value, which a missing key reads as.
abbrev pub no_request : ToolLimitSource
no_request = record {
  max_calls = pos 0;
  timeout = "";
  max_request_bytes = pos 0;
  max_result_bytes = pos 0;
}

abbrev pub or_no_request : Option ToolLimitSource → ToolLimitSource
or_no_request none = no_request
or_no_request (some l) = l

abbrev pub plan_error {ℓ} : {A : Type ℓ} → Result PlanError A → Result ScopeError A
plan_error (ok a) = ok a
plan_error (err e) = err (plan e)

abbrev pub policy_error {ℓ} : {A : Type ℓ} → Result PolicyError A → Result ScopeError A
policy_error (ok a) = ok a
policy_error (err e) = err (policy e)

-- compileToolScope's parentLimits[name], which must exist.
abbrev pub or_limitless : Option ToolLimit → Result ScopeError ToolLimit
or_limitless none = err (plan invalid_limits)
or_limitless (some l) = ok l

unfoldable pub narrowed_bytes : ℤ → ℤ → Result PlanError ℤ
narrowed_bytes requested parent =
    if is_zero requested
    then ok parent
    else if is_negative requested || ltb_ℤ parent requested
    then err invalid_limits
    else ok requested

-- The test of narrowToolLimit on the number of calls, which is that of narrowedBytes.
unfoldable pub narrowed_calls : ℤ → ℤ → Result PlanError ℤ
narrowed_calls requested parent =
    if not (is_zero requested)
    then (if is_negative requested || ltb_ℤ parent requested
        then err invalid_limits
        else ok requested)
    else ok parent

-- The loop of compileToolScope over the limits that a scope asks for: each is of a tool that exists
-- and is selected.
unfoldable pub check_requested :
    Catalog → List String → List (String × ToolLimitSource) → Result ScopeError (Unit {0})
unfolding has_key member
check_requested c selected [] = ok tt
check_requested c selected ((name, l) ∷ requested) = do
  require (has_key name c.definitions) (unknown name)
  require (member name selected) (plan invalid_limits)
  check_requested c selected requested

-- The value of `definition, _ := catalog.Definition(name)`.
abbrev pub or_undefined : Option Definition → Definition
or_undefined none = record { name = ""; capabilities = []; side_effect = "" }
or_undefined (some d) = d

-- plan.ToolScope, without the parts that repeat the request.
pub record CompiledScope : Type 0 where
  pub names : List String
  pub definitions : List Definition
  pub limits : List ToolLimit

module _ (d : Durations) where
  unfoldable pub narrowed_time : String → String → Result PlanError String
  unfolding normalized_timeout
  narrowed_time requested parent =
      if not (str_eq requested "")
      then (do
        value ← normalized_timeout d requested
        require (not (ltb_ℤ (or_zero (d.parse parent)) (or_zero (d.parse value)))) invalid_limits
        ok value)
      else ok parent

  unfoldable pub narrow_tool_limit : ToolLimit → ToolLimitSource → Result PlanError ToolLimit
  unfolding narrowed_calls narrowed_time narrowed_bytes
  narrow_tool_limit parent requested = do
    calls ← narrowed_calls requested.max_calls parent.max_calls
    timeout ← narrowed_time requested.timeout parent.timeout
    request_bytes ← narrowed_bytes requested.max_request_bytes parent.max_request_bytes
    result_bytes ← narrowed_bytes requested.max_result_bytes parent.max_result_bytes
    ok (record {
      name = parent.name;
      max_calls = calls;
      timeout = timeout;
      max_request_bytes = request_bytes;
      max_result_bytes = result_bytes;
    })

  -- The loop of compileToolScope over the resolved names.
  unfoldable pub compile_tools :
      Catalog
      → List (String × ToolLimitSource)
      → List (String × ToolLimit)
      → List String
      → Result ScopeError (List Definition × List ToolLimit)
  unfolding lookup narrow_tool_limit
  compile_tools c requested parent_limits [] = ok ([], [])
  compile_tools c requested parent_limits (name ∷ names) = do
    parent_limit ← or_limitless (lookup name parent_limits)
    limit ← plan_error (narrow_tool_limit parent_limit (or_no_request (lookup name requested)))
    (definitions, limits) ← compile_tools c requested parent_limits names
    ok (or_undefined (lookup name c.definitions) ∷ definitions, limit ∷ limits)

  -- compileToolScope: `max_tool_calls` is the limit of the scope.
  unfoldable pub compile_tool_scope :
      Catalog
      → ScopeRequest
      → List (String × ToolLimitSource)
      → List (String × ToolLimit)
      → ℤ
      → Result ScopeError CompiledScope
  unfolding check_requested compile_tools
  compile_tool_scope c request requested parent_limits max_tool_calls = do
    resolved ← policy_error (resolve_scope c request)
    require (is_empty resolved.names || is_positive max_tool_calls) (plan invalid_limits)
    check_requested c resolved.names requested
    (definitions, limits) ← compile_tools c requested parent_limits resolved.names
    ok (record { names = resolved.names; definitions = definitions; limits = limits })

  -- The loop of compileTrustedToolLimits.
  unfoldable pub trusted_limits_from :
      Catalog
      → List (String × ToolLimitSource)
      → List (String × ToolLimit)
      → Result ScopeError (List (String × ToolLimit))
  unfolding has_key insert normalized_timeout
  trusted_limits_from c [] limits = ok limits
  trusted_limits_from c ((name, value) ∷ source) limits = do
    require (has_key name c.definitions) (unknown name)
    timeout ← plan_error (normalized_timeout d value.timeout)
    require (is_positive value.max_calls && not (is_negative value.max_request_bytes))
        (plan invalid_limits)
    require (is_positive value.max_result_bytes) (plan invalid_limits)
    trusted_limits_from c source (
        insert name
          (record {
            name = name;
            max_calls = value.max_calls;
            timeout = timeout;
            max_request_bytes = value.max_request_bytes;
            max_result_bytes = value.max_result_bytes;
          })
          limits)

  unfoldable pub compile_trusted_tool_limits :
      Catalog → List (String × ToolLimitSource) → Result ScopeError (List (String × ToolLimit))
  unfolding trusted_limits_from
  compile_trusted_tool_limits c source = trusted_limits_from c source []
