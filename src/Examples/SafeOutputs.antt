-- ===== src/Examples/SafeOutputs.antt =====
-- The staging of safe outputs at concrete inputs.
use duto_ai.Prelude.{String, true, [], ◌∷◌, ◌≡◌, refl, ok, err, length, codes, all}
use duto_ai.Prelude.Int.{pos}
use duto_ai.Pattern.{is_hex}
use duto_ai.SafeOutput.{
  invalid_request, incomplete_set, Policy, Source, Envelope, Snapshot, Collector, Codec, Limit,
  no_source, envelope, new_collector, branch, draft_pr, reply, snapshot,
}
use duto_ai.SafeOutput.Runs.{Reached, created, branched, requested}
use duto_ai.SafeOutput.Complete.{IsSetOf, snapshot-IsSetOf}

abbrev codec : Codec
codec = record {
  reply_json = λ body. body;
  pr_json = λ title body. body;
  open_json = "open";
  absent_json = λ ref. ref;
  draft_json = λ ref. ref;
  request_id = λ run kind payload. kind;
  byte_length = λ s. length (codes s);
  valid_utf8 = λ s. true;
  reads_as_hex = λ s. all is_hex (codes s);
}

abbrev digest : String
digest = "0123456789abcdef0123456789abcdef0123456789abcdef0123456789abcdef"

abbrev base_sha : String
base_sha = "0123456789abcdef0123456789abcdef01234567"

abbrev once : Limit
once = record {
  max_calls = pos 1;
  timeout = pos 1000;
  max_request_bytes = pos 100;
  max_result_bytes = pos 100;
}

abbrev policy : Policy
policy = record {
  operation_set = "branch-pr";
  plan_sha256 = digest;
  policy_sha256 = digest;
  control_sha256 = digest;
  control_json = "{}";
  correlation_key = "c";
  repository = record { id = "1"; owner = "o"; name = "n" };
  origin = record { kind = "issue"; number = pos 7 };
  base = record { ref = "main"; sha = base_sha };
  branch_prefix = "duto/m3/";
  max_reply_bytes = pos 10;
  max_pr_title_bytes = pos 10;
  max_pr_body_bytes = pos 10;
  max_bundle_bytes = pos 10;
  limits = ("safe-output.branch", once) ∷ ("safe-output.draft-pr", once) ∷ [];
  has_source = true;
}

abbrev source : Source
source = record { commit = "abc"; tree = "def"; bundle = "B" }

abbrev fresh : Collector
fresh = record {
  policy = policy;
  operations = [];
  source = no_source;
  recovery_metadata = "";
  recovery_patch = "";
}

abbrev branch_envelope : Envelope
branch_envelope =
    envelope codec policy "run" "git.branch.publish" "abc" [] "refs/heads/duto/m3/c" "{}"

abbrev with_branch : Collector
with_branch = record fresh { operations = branch_envelope ∷ []; source = source }

abbrev draft_envelope : Envelope
draft_envelope =
    envelope codec policy "run" "pull_request.create_draft" "abc" ("git.branch.publish" ∷ [])
      "refs/heads/duto/m3/c" "Why"

abbrev with_draft : Collector
with_draft = record with_branch { operations = branch_envelope ∷ draft_envelope ∷ [] }

new_fresh : new_collector codec policy ≡ ok fresh
unfolding new_collector
new_fresh = refl

branch-fresh : branch codec fresh "run" (ok source) ≡ ok (with_branch, "git.branch.publish")
unfolding branch
branch-fresh = refl

draft_branch :
    draft_pr codec with_branch "run" "Fix" "Why" ≡ ok (with_draft, "pull_request.create_draft")
unfolding draft_pr
draft_branch = refl

draft_first : draft_pr codec fresh "run" "Fix" "Why" ≡ err invalid_request
unfolding draft_pr
draft_first = refl

reply_refused : reply codec fresh "run" "Hello" ≡ err invalid_request
unfolding reply
reply_refused = refl

half : snapshot with_branch "run" true ≡ err incomplete_set
unfolding snapshot
half = refl

abbrev taken : Snapshot
taken = record {
  operation_set = "branch-pr";
  control_json = "{}";
  operations = branch_envelope ∷ draft_envelope ∷ [];
  source_bundle = "B";
  recovery_metadata = "";
  recovery_patch = "";
}

taken_whole : snapshot with_draft "run" true ≡ ok taken
unfolding snapshot
taken_whole = refl

Reached-draft : Reached codec policy with_draft
Reached-draft =
    requested with_branch with_draft "run" "Fix" "Why" "pull_request.create_draft"
      (branched fresh with_branch "run" "git.branch.publish" (ok source) (created fresh new_fresh)
        branch-fresh)
      draft_branch

snapshot-IsSetOf_example :
    (taken.operation_set ≡ policy.operation_set) × IsSetOf codec policy "run" taken
snapshot-IsSetOf_example = snapshot-IsSetOf codec policy with_draft "run" Reached-draft taken_whole
