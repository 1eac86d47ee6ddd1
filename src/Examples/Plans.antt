-- ===== src/Examples/Plans.antt =====
-- The admission of capabilities at a concrete plan.
use duto_ai.Prelude.{String, Bool, true, false, [], ◌∷◌, ◌≡◌, refl, ok, some, any, ◌⊎◌}
use duto_ai.Prelude.Keys.{member}
use duto_ai.Trust.Eligibility.{Eligibility, eligibility_for, read_only, grant, staged, denied}
use duto_ai.Trust.Source.{Vouched}
use duto_ai.Plan.Admission.{
  Policy, ToolScope, TrustProjection, CapabilityDecision, compile_trust_projection,
}
use duto_ai.Plan.Admission.Trusted.{
  Admitted, Ungoverned, compile_trust_projection-Admitted, compile_trust_projection-Vouched,
}
use duto_ai.Examples.Evidence.{platform, bytes, decision, decoded}

abbrev policy : Policy
policy = record {
  admission_id = "adm-1";
  contexts = "local" ∷ [];
  capabilities = "workspace.mutate" ∷ [];
  operation_sets = [];
}

abbrev pub writing : ToolScope
writing = record {
  names = "files.write" ∷ [];
  definitions =
      record {
        name = "files.write";
        capabilities = "workspace.mutate" ∷ [];
        side_effect = "local_mutation";
      }
      ∷ [];
}

abbrev entry : String → Eligibility → Bool → CapabilityDecision
entry c e a = record { capability = c; eligibility = e; admitted = a }

abbrev projection : TrustProjection
projection = record {
  normalized_context = "local";
  admission_id = "adm-1";
  policy_sha256 = "pp";
  control_sha256 = "00";
  transport = "staged";
  operation_set = "";
  decisions =
      entry "workspace.read" read_only true
      ∷ entry "workspace.mutate" grant true
      ∷ entry "git.read" read_only true
      ∷ entry "git.mutate" grant false
      ∷ entry "git.publish" staged false
      ∷ entry "process.exec" grant false
      ∷ entry "network.read" read_only true
      ∷ entry "network.mutate" denied false
      ∷ entry "github.read" read_only true
      ∷ entry "github.mutate" staged false
      ∷ entry "agent.call" grant false
      ∷ [];
}

compiled : compile_trust_projection (some policy) "pp" (writing ∷ []) decision ≡ ok projection
unfolding compile_trust_projection
compiled = refl

compile_trust_projection-Admitted_example :
    Ungoverned (some policy) decision projection
    ⊎ Admitted (some policy) decision "workspace.mutate"
unfolding any member eligibility_for
compile_trust_projection-Admitted_example =
    compile_trust_projection-Admitted (some policy) "pp" (writing ∷ []) decision "workspace.mutate"
      compiled refl refl (λ e. cc)

compile_trust_projection-Vouched_example : Vouched platform bytes 60
unfolding any member eligibility_for
compile_trust_projection-Vouched_example =
    compile_trust_projection-Vouched (some policy) "pp" (writing ∷ []) decision "workspace.mutate"
      compiled refl platform bytes 60 decoded refl
