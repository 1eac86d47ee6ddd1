-- ===== src/Examples/Verification.antt =====
-- The verification of a bundle's operations at concrete inputs.
use duto_ai.Prelude.{String, true, none, some, [], ◌∷◌, ◌≡◌, refl, ok, length, codes}
use duto_ai.Prelude.Int.{pos}
use duto_ai.Publisher.{Operation}
use duto_ai.Publisher.FileRemote.{branch_kind}
use duto_ai.Publisher.Verify.{
  Bundle, Manifest, Publication, operation_of, validate_operation, verify_operations,
  valid_manifest,
}
use duto_ai.Publisher.Verify.Bound.{verify_operations_any_kind}
use duto_ai.SafeOutput.{Envelope}
use duto_ai.Trust.Decision.{Decision, unknown_decision}

abbrev digest : String
digest = "0123456789abcdef0123456789abcdef0123456789abcdef0123456789abcdef"

abbrev base_sha : String
base_sha = "0123456789abcdef0123456789abcdef01234567"

abbrev ref : String
ref = "refs/heads/duto/m3/c"

abbrev policy : Publication
policy = record {
  branch_prefix = "duto/m3/";
  max_reply_bytes = pos 10;
  max_pr_title_bytes = pos 10;
  max_pr_body_bytes = pos 10;
}

abbrev manifest : Manifest
manifest = record {
  version = pos 2;
  bundle_kind = "m3-authoring";
  completion = "succeeded";
  repository_id = "1";
  run_id = "run";
  operation_set = "conversation-reply";
  plan_sha256 = digest;
  policy_sha256 = digest;
  control_sha256 = digest;
  base_ref = "refs/heads/main";
  base_sha = base_sha;
  source_commit = base_sha;
}

abbrev decision : Decision
decision = record unknown_decision {
  correlation_key = "c";
  repository = record { id = "1"; owner = "o"; name = "n" };
  origin = record { kind = "issue"; number = pos 7 };
}

-- A branch in the place of the reply.
abbrev envelope : Envelope
envelope = record {
  version = 1;
  request_id = digest;
  correlation_key = "c";
  kind = branch_kind;
  mode = "staged";
  run_id = "run";
  plan_sha256 = digest;
  policy_sha256 = digest;
  control_sha256 = digest;
  repository = record { id = "1"; owner = "o"; name = "n" };
  origin = record { kind = "issue"; number = pos 7 };
  base = record { ref = "refs/heads/main"; sha = base_sha };
  source_commit = base_sha;
  depends_on = [];
  preconditions = "absent";
  payload = "{}";
}

abbrev bundle : Bundle
bundle = record {
  file = λ name. some name;
  envelope = λ bytes. some envelope;
  reply_part = λ preconditions payload. none;
  branch_part =
      λ preconditions payload. some (record { target_ref = ref; target_state = "absent" });
  draft_part = λ preconditions payload. none;
  digest = λ bytes. "d";
  request_id = λ run kind d. digest;
  byte_length = λ s. length (codes s);
  valid_utf8 = λ s. true;
  reads_as_hex = λ s. true;
  authored = true;
}

abbrev operation : Operation
operation = record (operation_of bundle manifest decision policy envelope) { target_ref = ref }

operation_valid : validate_operation bundle manifest decision policy envelope ≡ ok operation
unfolding validate_operation
operation_valid = refl

manifest_valid : valid_manifest bundle manifest decision policy digest "reply" ≡ true
unfolding valid_manifest
manifest_valid = refl

verify_operations_any_kind_example :
    (verify_operations bundle manifest decision policy ≡ ok (operation ∷ []))
    × (operation.kind ≡ branch_kind)
verify_operations_any_kind_example =
    verify_operations_any_kind bundle manifest decision policy digest
      "operations/0001-conversation-reply.json" envelope operation manifest_valid refl refl
      operation_valid refl refl
