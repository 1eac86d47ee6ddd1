-- ===== src/Plan/Workspaces.antt =====
-- The workspaces that agents and steps may use, and write to (validateWorkspaceRequests and
-- validateAuthoringScopes in internal/plan/trust.go, compileWorkspaces and containsWorkspace in
-- internal/plan/plan.go).
pub mod Confinement
use duto_ai.Prelude.{
  String, Bool, true, false, not, ◌&&◌, ◌||◌, Option, none, some, List, [], ◌∷◌, if◌then◌else◌,
  str_eq, any, Result, ok, err, ◌>>=◌, ◌>>◌, require,
}
use duto_ai.Prelude.Keys.{member, lookup}
use duto_ai.Tool.Catalog.{Definition}
use duto_ai.Plan.Admission.{PlanError, ToolScope, unsupported_capability}

-- config.WorkspaceRef and plan.Workspace, which have the same fields.
pub record WorkspaceRef : Type 0 where
  pub name : String
  pub access : String

-- config.Workspace
pub record Workspace : Type 0 where
  pub root : String
  pub access : String

-- The parts of config.Config that these checks read: the workspaces, and the authoring workspace of
-- the M3 section, where there is one.
pub record Config : Type 0 where
  pub workspaces : List (String × Workspace)
  pub authoring : Option String

-- An agent or a step: the agent that it uses (none is ""), its workspaces, and its tools.
pub record Holder : Type 0 where
  pub agent : String
  pub workspaces : List WorkspaceRef
  pub tools : ToolScope

abbrev pub is_write : WorkspaceRef → Bool
is_write ref = str_eq ref.access "write"

abbrev pub known_access : WorkspaceRef → Bool
known_access ref = str_eq ref.access "read" || str_eq ref.access "write"

abbrev pub or_unsupported : Option Workspace → Result PlanError Workspace
or_unsupported none = err unsupported_capability
or_unsupported (some workspace) = ok workspace

-- cfg.M3 != nil && cfg.M3.Authoring.Workspace == name
abbrev pub is_authoring : Option String → String → Bool
is_authoring none name = false
is_authoring (some authoring) name = str_eq authoring name

-- The workspace may be written to, and is the one that the policy authors in.
abbrev pub writable : Config → Workspace → String → Bool
writable cfg workspace name = str_eq workspace.access "write" && is_authoring cfg.authoring name

-- The inner function of validateWorkspaceRequests, from the names that it has seen.
unfoldable pub validate_refs :
    Config → List String → List WorkspaceRef → Result PlanError (Unit {0})
unfolding lookup member
validate_refs cfg seen [] = ok tt
validate_refs cfg seen (ref ∷ refs) = do
  workspace ← or_unsupported (lookup ref.name cfg.workspaces)
  require (known_access ref) unsupported_capability
  require (not (is_write ref && not (writable cfg workspace ref.name))) unsupported_capability
  require (not (member ref.name seen)) unsupported_capability
  validate_refs cfg (ref.name ∷ seen) refs

-- The loop over the agents.
unfoldable pub validate_each :
    (Holder → Result PlanError (Unit {0})) → List Holder → Result PlanError (Unit {0})
validate_each check [] = ok tt
validate_each check (holder ∷ holders) = do check holder; validate_each check holders

-- The check of a step, which is skipped where the step uses an agent.
abbrev pub own : (Holder → Result PlanError (Unit {0})) → Holder → Result PlanError (Unit {0})
own check step = if str_eq step.agent "" then check step else ok tt

unfoldable pub validate_workspace_requests :
    Config → List Holder → List Holder → Result PlanError (Unit {0})
unfolding validate_refs validate_each
validate_workspace_requests cfg agents steps = do
  validate_each (λ holder. validate_refs cfg [] holder.workspaces) agents
  validate_each (own (λ holder. validate_refs cfg [] holder.workspaces)) steps

abbrev pub mutates : Definition → Bool
mutates d = member "workspace.mutate" d.capabilities || member "git.mutate" d.capabilities

unfoldable pub has_mutation : ToolScope → Bool
unfolding any member
has_mutation tools = any mutates tools.definitions

abbrev pub same : Bool → Bool → Bool
same true b = b
same false b = not b

-- The inner function of validateAuthoringScopes: to have a tool that mutates is to have a workspace
-- to write to.
unfoldable pub validate_authoring : Holder → Result PlanError (Unit {0})
unfolding any has_mutation
validate_authoring holder =
    require (same (any is_write holder.workspaces) (has_mutation holder.tools))
      unsupported_capability

unfoldable pub validate_authoring_scopes : List Holder → List Holder → Result PlanError (Unit {0})
unfolding validate_authoring validate_each
validate_authoring_scopes agents steps = do
  validate_each validate_authoring agents
  validate_each (own validate_authoring) steps

abbrev pub root_of : Option String → String
root_of none = ""
root_of (some root) = root

-- The loop of compileWorkspaces, from the names that it has seen.
unfoldable pub compile_workspaces_from :
    List (String × String) → List String → List WorkspaceRef → Result PlanError (List WorkspaceRef)
unfolding lookup member
compile_workspaces_from roots seen [] = ok []
compile_workspaces_from roots seen (ref ∷ refs) = do
  require (known_access ref && not (str_eq (root_of (lookup ref.name roots)) ""))
      unsupported_capability
  require (not (member ref.name seen)) unsupported_capability
  rest ← compile_workspaces_from roots (ref.name ∷ seen) refs
  ok (ref ∷ rest)

unfoldable pub compile_workspaces :
    List (String × String) → List WorkspaceRef → Result PlanError (List WorkspaceRef)
unfolding compile_workspaces_from
compile_workspaces roots source = compile_workspaces_from roots [] source

unfoldable pub contains_workspace : List WorkspaceRef → String → Bool
unfolding any
contains_workspace workspaces name = any (λ (w : WorkspaceRef). str_eq w.name name) workspaces
