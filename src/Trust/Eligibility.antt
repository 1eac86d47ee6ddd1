-- ===== src/Trust/Eligibility.antt =====
-- What each context may do (EligibilityFor of internal/trust/trust.go).
use duto_ai.Prelude.{String, Bool, true, false, List, [], ◌∷◌, ◌≡◌, refl, if◌then◌else◌, str_eq}
use duto_ai.Prelude.Keys.{member, of_All}
use duto_ai.Trust.Context.{Context, forked_pr, same_repository, scheduled, local, unknown}

pub data Eligibility : Type 0 where
  read_only grant staged denied : Eligibility

-- same_repository, scheduled or local.
abbrev pub is_trusted : Context → Bool
is_trusted same_repository = true
is_trusted scheduled = true
is_trusted local = true
is_trusted _ = false

-- forked_pr or unknown.
abbrev pub is_restricted : Context → Bool
is_restricted forked_pr = true
is_restricted unknown = true
is_restricted _ = false

abbrev pub read_capabilities : List String
read_capabilities = "workspace.read" ∷ "git.read" ∷ "network.read" ∷ "github.read" ∷ []

abbrev pub local_capabilities : List String
local_capabilities = "workspace.mutate" ∷ "git.mutate" ∷ "process.exec" ∷ []

abbrev pub staged_capabilities : List String
staged_capabilities = "git.publish" ∷ "github.mutate" ∷ []

unfoldable pub eligibility_for : Context → String → Eligibility
unfolding member
eligibility_for context capability =
    if member capability read_capabilities
    then read_only
    else if member capability local_capabilities
    then (if is_trusted context then grant else denied)
    else if member capability staged_capabilities
    then staged
    else if str_eq capability "network.mutate"
    then denied
    else if str_eq capability "agent.call"
    then (if is_restricted context then read_only else grant)
    else denied

local_not_read :
    (capability : String)
    → member capability local_capabilities ≡ true
    → member capability read_capabilities ≡ false
unfolding member
local_not_read capability m =
    of_All (λ k. member k read_capabilities ≡ false) capability local_capabilities
      (refl, (refl, (refl, tt))) m

-- A capability that changes local state or runs a process is granted in a trusted context, and
-- denied in any other.
pub eligibility_for_local :
    (context : Context) (capability : String)
    → member capability local_capabilities ≡ true
    → eligibility_for context capability ≡ (if is_trusted context then grant else denied)
unfolding eligibility_for
eligibility_for_local context capability m = rw (local_not_read capability m, m)
