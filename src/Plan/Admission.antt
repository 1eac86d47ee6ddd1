-- ===== src/Plan/Admission.antt =====
-- The capabilities that a plan may use (internal/plan/trust.go). Agents and steps enter by their
-- tool scopes; the digest of the policy, a JSON encoding and its SHA-256, enters as a text.
pub mod Trusted
use duto_ai.Prelude.{
  ℕ, String, Bool, true, false, not, ◌&&◌, ◌||◌, Option, none, some, List, [], ◌∷◌, ◌++◌, length,
  is_empty, ◌==◌, if◌then◌else◌, str_eq, has_prefix, Result, ok, err, ◌>>=◌, ◌>>◌, require,
}
use duto_ai.Prelude.Keys.{member, add}
use duto_ai.Tool.Catalog.{Definition}
use duto_ai.Trust.Context.{Context, context_text}
use duto_ai.Trust.Decision.{Decision}
use duto_ai.Trust.Eligibility.{
  Eligibility, eligibility_for, is_restricted, read_only, grant, staged, denied,
}

pub data PlanError : Type 0 where
  unknown_model invalid_limits unsupported_capability invalid_binding invalid_result : PlanError
  invalid_agent trust_denied invalid_schema : PlanError

-- The parts of config.M3 that admission reads.
pub record Policy : Type 0 where
  pub admission_id : String
  pub contexts : List String
  pub capabilities : List String
  pub operation_sets : List String

-- The parts of a ToolScope that admission reads.
pub record ToolScope : Type 0 where
  pub names : List String
  pub definitions : List Definition

pub record CapabilityDecision : Type 0 where
  pub capability : String
  pub eligibility : Eligibility
  pub admitted : Bool

pub record TrustProjection : Type 0 where
  pub normalized_context : String
  pub admission_id : String
  pub policy_sha256 : String
  pub control_sha256 : String
  pub transport : String
  pub operation_set : String
  pub decisions : List CapabilityDecision

abbrev pub no_projection : TrustProjection
no_projection = record {
  normalized_context = "";
  admission_id = "";
  policy_sha256 = "";
  control_sha256 = "";
  transport = "";
  operation_set = "";
  decisions = [];
}

abbrev pub capability_order : List String
capability_order =
    "workspace.read" ∷ "workspace.mutate" ∷ "git.read" ∷ "git.mutate" ∷ "git.publish"
    ∷ "process.exec" ∷ "network.read" ∷ "network.mutate" ∷ "github.read" ∷ "github.mutate"
    ∷ "agent.call" ∷ []

unfoldable pub add_all : List String → List String → List String
unfolding add
add_all selected [] = selected
add_all selected (name ∷ names) = add_all (add name selected) names

unfoldable pub add_definitions : List String → List Definition → List String
unfolding add_all
add_definitions selected [] = selected
add_definitions selected (d ∷ ds) = add_definitions (add_all selected d.capabilities) ds

-- The capabilities of every tool of every scope: the workflow's, the agents' and the steps'.
unfoldable pub selected_capabilities : List String → List ToolScope → List String
unfolding add_definitions
selected_capabilities selected [] = selected
selected_capabilities selected (scope ∷ scopes) =
    selected_capabilities (add_definitions selected scope.definitions) scopes

-- The `all` of collectOperationTools.
unfoldable pub all_tools : List String → List ToolScope → List String
unfolding add_all
all_tools found [] = found
all_tools found (scope ∷ scopes) = all_tools (add_all found scope.names) scopes

unfoldable pub safe_outputs : List String → List String
unfolding has_prefix
safe_outputs [] = []
safe_outputs (name ∷ names) =
    let rest = safe_outputs names in if has_prefix name "safe-output." then name ∷ rest else rest

-- classifyOperationSet, on all the tools and those that stage a safe output.
unfoldable pub classify_operation_set :
    List String → List String → Decision → Result PlanError String
unfolding member
classify_operation_set tools outputs d =
    if length outputs == 1 && member "safe-output.conversation-reply" outputs
    then (if not (str_eq d.origin.kind "issue") && not (str_eq d.origin.kind "pull_request")
        then err trust_denied
        else if member "files.write" tools || member "git.write.commit" tools
        then err unsupported_capability
        else ok "conversation-reply")
    else if length outputs == 2
        && member "safe-output.branch" outputs
        && member "safe-output.draft-pr" outputs
    then (if not (member "files.write" tools) || not (member "git.write.commit" tools)
        then err unsupported_capability
        else ok "branch-pr")
    else err unsupported_capability

abbrev pub sets_of : Option Policy → Result PlanError (List String)
sets_of none = err trust_denied
sets_of (some m) = ok m.operation_sets

unfoldable pub selected_operation_set :
    Option Policy → List ToolScope → Decision → Result PlanError String
unfolding all_tools safe_outputs classify_operation_set member
selected_operation_set policy scopes d =
    let tools = all_tools [] scopes in
    let outputs = safe_outputs tools in
    if is_empty outputs then ok "" else do
      sets ← sets_of policy
      operation_set ← classify_operation_set tools outputs d
      require (member operation_set sets) trust_denied
      ok operation_set

-- The capabilities that the policy admits, and whether it admits the decision's context.
unfoldable pub admitted_policy : Option Policy → Decision → Result PlanError (List String × Bool)
unfolding member
admitted_policy none d = ok ([], false)
admitted_policy (some m) d = do
  require (str_eq d.admission_id m.admission_id) trust_denied
  ok (m.capabilities, member (context_text d.context) m.contexts)

abbrev pub is_some : Option Policy → Bool
is_some none = false
is_some (some m) = true

unfoldable pub capability_admitted :
    Option Policy → Context → List String → Bool → String → Eligibility → Bool
unfolding member
capability_admitted policy context capabilities allowed capability read_only = true
capability_admitted policy context capabilities allowed capability denied = false
capability_admitted policy context capabilities allowed capability _ =
    is_some policy && allowed && member capability capabilities && not (is_restricted context)

-- The loop of compileTrustProjection over the capabilities.
unfoldable pub decide :
    Option Policy
    → Context
    → List String
    → List String
    → Bool
    → List String
    → Result PlanError (List CapabilityDecision)
unfolding capability_admitted eligibility_for member
decide policy context selected capabilities allowed [] = ok []
decide policy context selected capabilities allowed (capability ∷ rest) = do
  let eligibility = eligibility_for context capability
  let admitted = capability_admitted policy context capabilities allowed capability eligibility
  require (not (member capability selected && not admitted)) trust_denied
  decisions ← decide policy context selected capabilities allowed rest
  ok (
      record { capability = capability; eligibility = eligibility; admitted = admitted }
      ∷ decisions)

unfoldable pub compile_trust_projection :
    Option Policy → String → List ToolScope → Decision → Result PlanError TrustProjection
unfolding selected_capabilities selected_operation_set admitted_policy decide
compile_trust_projection policy policy_sha256 scopes d =
    if not (is_some policy) && not d.present then ok no_projection else do
      operation_set ← selected_operation_set policy scopes d
      (capabilities, allowed) ← admitted_policy policy d
      decisions ←
          decide policy d.context (selected_capabilities [] scopes) capabilities allowed
            capability_order
      ok (record {
        normalized_context = if d.present then context_text d.context else "";
        admission_id = if d.present then d.admission_id else "";
        policy_sha256 = if is_some policy then policy_sha256 else "";
        control_sha256 = if d.present then d.control_sha256 else "";
        transport = if d.present then d.transport else "";
        operation_set = operation_set;
        decisions = decisions;
      })
