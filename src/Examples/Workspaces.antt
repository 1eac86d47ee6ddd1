-- ===== src/Examples/Workspaces.antt =====
-- Workspaces and authoring scopes at concrete inputs.
use mathlib.Core.List.{Memᴰ}
use duto_ai.Prelude.{String, List, [], ◌∷◌, ◌≡◌, refl, ok, err, some, inl}
use duto_ai.Plan.Admission.{unsupported_capability}
use duto_ai.Plan.Workspaces.{
  WorkspaceRef, Config, Holder, validate_workspace_requests, validate_authoring_scopes,
  has_mutation, compile_workspaces,
}
use duto_ai.Plan.Workspaces.Confinement.{Confined, authoring-Confined}
use duto_ai.Examples.Plans.{writing}

abbrev config : Config
config = record {
  workspaces =
      ("code", record { root = "/code"; access = "write" })
      ∷ ("docs", record { root = "/docs"; access = "write" })
      ∷ [];
  authoring = some "code";
}

abbrev ref : String → String → WorkspaceRef
ref name access = record { name = name; access = access }

abbrev author : Holder
author = record {
  agent = "";
  workspaces = ref "docs" "read" ∷ ref "code" "write" ∷ [];
  tools = writing;
}

abbrev reader : Holder
reader = record {
  agent = "";
  workspaces = ref "docs" "read" ∷ [];
  tools = record { names = []; definitions = [] };
}

requests_valid : validate_workspace_requests config (author ∷ []) (reader ∷ []) ≡ ok tt
unfolding validate_workspace_requests
requests_valid = refl

scopes_valid : validate_authoring_scopes (author ∷ []) (reader ∷ []) ≡ ok tt
unfolding validate_authoring_scopes
scopes_valid = refl

abbrev stranger : Holder
stranger = record author { workspaces = ref "docs" "write" ∷ [] }

elsewhere_refused :
    validate_workspace_requests config (stranger ∷ []) [] ≡ err unsupported_capability
unfolding validate_workspace_requests
elsewhere_refused = refl

authoring-Confined_example : Confined config author.workspaces
unfolding has_mutation
authoring-Confined_example =
    authoring-Confined config (author ∷ []) (reader ∷ []) author requests_valid scopes_valid
      (inl (Memᴰ.head refl)) refl

abbrev roots : List (String × String)
roots = ("code", "/code") ∷ ("docs", "/docs") ∷ []

workspaces_compiled : compile_workspaces roots author.workspaces ≡ ok author.workspaces
unfolding compile_workspaces
workspaces_compiled = refl
