-- ===== src/Publisher/Verify.antt =====
-- The checks on the operations of a bundle (verifyOperations in internal/publisher/verify.go). An
-- envelope has the fields of safeoutput.Envelope; a version below 0, which is refused, is not
-- represented. The files of the bundle, the strict JSON decoder, SHA-256, UTF-8 and the check of the
-- git bundle are arguments.
pub mod Bound
pub mod Kinds
use duto_ai.Prelude.{
  ℕ, String, Bool, true, false, ◌&&◌, ◌||◌, not, Option, none, some, List, [], ◌∷◌, is_empty, ◌==◌,
  ltb, length, codes, any, has_prefix, if◌then◌else◌, str_eq, Result, ok, err, ◌>>=◌, ◌>>◌, require,
}
use duto_ai.Prelude.Int.{ℤ, pos, ltb_ℤ}
use duto_ai.Publisher.{Failure, rejected, Operation}
use duto_ai.Publisher.FileRemote.{reply_kind, branch_kind, pr_kind}
use duto_ai.SafeOutput.{Envelope}
use duto_ai.Trust.Decision.{Decision}
use Prim.Native.String.{◌++◌}

-- The files of the manifest are left out.
pub record Manifest : Type 0 where
  pub version : ℤ
  pub bundle_kind : String
  pub completion : String
  pub repository_id : String
  pub run_id : String
  pub operation_set : String
  pub plan_sha256 : String
  pub policy_sha256 : String
  pub control_sha256 : String
  pub base_ref : String
  pub base_sha : String
  pub source_commit : String

-- The parts of config.M3Publication that are read.
pub record Publication : Type 0 where
  pub branch_prefix : String
  pub max_reply_bytes : ℤ
  pub max_pr_title_bytes : ℤ
  pub max_pr_body_bytes : ℤ

pub record ReplyPart : Type 0 where
  pub subject_state : String
  pub body : String

pub record BranchPart : Type 0 where
  pub target_ref : String
  pub target_state : String

pub record DraftPart : Type 0 where
  pub head_ref : String
  pub pull_request_state : String
  pub draft : Bool
  pub title : String
  pub body : String

-- The bundle and the libraries. Each decoder takes the preconditions and the payload, and has no
-- value where one of them does not decode.
pub record Bundle : Type 0 where
  pub file : String → Option String
  pub envelope : String → Option Envelope
  pub reply_part : String → String → Option ReplyPart
  pub branch_part : String → String → Option BranchPart
  pub draft_part : String → String → Option DraftPart
  pub digest : String → String
  pub request_id : String → String → String → String
  pub byte_length : String → ℕ
  pub valid_utf8 : String → Bool
  pub reads_as_hex : String → Bool
  pub authored : Bool

abbrev pub or_rejected {ℓ} : {A : Type ℓ} → Option A → Result Failure A
or_rejected none = err rejected
or_rejected (some a) = ok a

abbrev pub expected_ref : Publication → Decision → String
expected_ref policy decision = "refs/heads/" ++ policy.branch_prefix ++ decision.correlation_key

abbrev pub equal_ℤ : ℤ → ℤ → Bool
equal_ℤ a b = not (ltb_ℤ a b || ltb_ℤ b a)

unfoldable pub bound_to_decision : Envelope → Decision → Bool
bound_to_decision e decision =
    str_eq e.repository.id decision.repository.id
    && str_eq e.repository.owner decision.repository.owner
    && str_eq e.repository.name decision.repository.name
    && str_eq e.origin.kind decision.origin.kind
    && equal_ℤ e.origin.number decision.origin.number
    && str_eq e.correlation_key decision.correlation_key

abbrev pub operation_names : String → Option (List String)
operation_names set =
    if str_eq set "conversation-reply"
    then some ("operations/0001-conversation-reply.json" ∷ [])
    else if str_eq set "branch-pr"
    then some ("operations/0001-branch.json" ∷ "operations/0002-draft-pr.json" ∷ [])
    else none

-- Which operation set a permission profile is for.
abbrev pub set_matches_profile : String → String → Bool
set_matches_profile set profile =
    if str_eq set "conversation-reply"
    then str_eq profile "reply"
    else if str_eq set "branch-pr"
    then str_eq profile "branch-pr"
    else false

-- refs/heads/ and at least one character, without NUL, CR and LF.
unfoldable pub valid_ref : String → Bool
unfolding has_prefix any
valid_ref value =
    has_prefix value "refs/heads/"
    && ltb (length (codes "refs/heads/")) (length (codes value))
    && not (any (λ c. c == 0 || c == 13 || c == 10) (codes value))

module _ (bundle : Bundle) (manifest : Manifest) (decision : Decision) (policy : Publication) where
  unfoldable pub bad_text : String → ℤ → Bool
  bad_text value maximum =
      str_eq value ""
      || ltb_ℤ maximum (pos (bundle.byte_length value))
      || not (bundle.valid_utf8 value)

  abbrev pub hex_text : ℕ → String → Bool
  hex_text size value = bundle.byte_length value == size && bundle.reads_as_hex value

  unfoldable pub valid_manifest : String → String → Bool
  unfolding valid_ref
  valid_manifest policy_digest profile =
      equal_ℤ manifest.version (pos 2)
      && str_eq manifest.bundle_kind "m3-authoring"
      && str_eq manifest.completion "succeeded"
      && not (str_eq manifest.run_id "")
      && str_eq manifest.policy_sha256 policy_digest
      && hex_text 64 manifest.plan_sha256
      && hex_text 64 manifest.policy_sha256
      && hex_text 64 manifest.control_sha256
      && not (str_eq manifest.repository_id "")
      && valid_ref manifest.base_ref
      && hex_text 40 manifest.base_sha
      && hex_text 40 manifest.source_commit
      && set_matches_profile manifest.operation_set profile

  unfoldable pub bound_to_manifest : Envelope → Bool
  bound_to_manifest e =
      e.version == 1
      && str_eq e.mode "staged"
      && str_eq e.run_id manifest.run_id
      && str_eq e.plan_sha256 manifest.plan_sha256
      && str_eq e.policy_sha256 manifest.policy_sha256
      && str_eq e.control_sha256 manifest.control_sha256
      && str_eq e.base.ref manifest.base_ref
      && str_eq e.base.sha manifest.base_sha
      && str_eq e.source_commit manifest.source_commit
      && bundle.byte_length e.request_id == 64
      && bundle.reads_as_hex e.request_id

  -- The operation before its kind is looked at.
  abbrev pub operation_of : Envelope → Operation
  operation_of e = record {
    request_id = e.request_id;
    correlation_key = e.correlation_key;
    kind = e.kind;
    repository_owner = e.repository.owner;
    repository_name = e.repository.name;
    origin_number = e.origin.number;
    target_ref = "";
    source_commit = e.source_commit;
    pr_title = "";
    payload_sha256 = bundle.digest e.payload;
  }

  unfoldable pub validate_reply_operation : Envelope → Operation → Result Failure Operation
  unfolding bad_text
  validate_reply_operation e operation = do
    part ← or_rejected (bundle.reply_part e.preconditions e.payload)
    require
        (str_eq part.subject_state "open"
          && not (bad_text part.body policy.max_reply_bytes)
          && not (str_eq decision.origin.kind "none"))
        rejected
    ok operation

  unfoldable pub validate_branch_operation : Envelope → Operation → Result Failure Operation
  validate_branch_operation e operation = do
    part ← or_rejected (bundle.branch_part e.preconditions e.payload)
    require
        (str_eq part.target_state "absent"
          && str_eq part.target_ref (expected_ref policy decision)
          && not (str_eq part.target_ref e.base.ref))
        rejected
    ok (record operation { target_ref = part.target_ref })

  unfoldable pub validate_draft_operation : Envelope → Operation → Result Failure Operation
  unfolding bad_text
  validate_draft_operation e operation = do
    part ← or_rejected (bundle.draft_part e.preconditions e.payload)
    require
        (str_eq part.head_ref (expected_ref policy decision)
          && str_eq part.pull_request_state "absent"
          && part.draft
          && not (bad_text part.title policy.max_pr_title_bytes)
          && not (bad_text part.body policy.max_pr_body_bytes))
        rejected
    ok (record operation { target_ref = part.head_ref; pr_title = part.title })

  -- The switch on the kind.
  unfoldable pub validate_kind : Envelope → Result Failure Operation
  unfolding validate_reply_operation validate_branch_operation validate_draft_operation
  validate_kind e =
      if str_eq e.kind reply_kind
      then validate_reply_operation e (operation_of e)
      else if str_eq e.kind branch_kind
      then validate_branch_operation e (operation_of e)
      else if str_eq e.kind pr_kind
      then validate_draft_operation e (operation_of e)
      else err rejected

  unfoldable pub validate_operation : Envelope → Result Failure Operation
  unfolding bound_to_manifest bound_to_decision validate_kind
  validate_operation e = do
    require (bound_to_manifest e && bound_to_decision e decision) rejected
    require (str_eq e.request_id (bundle.request_id e.run_id e.kind (bundle.digest e.payload)))
        rejected
    validate_kind e

  -- The loop over the files.
  unfoldable pub read_operations : List String → Result Failure (List (Envelope × Operation))
  unfolding validate_operation
  read_operations [] = ok []
  read_operations (name ∷ names) = do
    bytes ← or_rejected (bundle.file name)
    e ← or_rejected (bundle.envelope bytes)
    operation ← validate_operation e
    rest ← read_operations names
    ok ((e, operation) ∷ rest)

  abbrev pub operations_of : List (Envelope × Operation) → List Operation
  operations_of [] = []
  operations_of ((e, operation) ∷ rest) = operation ∷ operations_of rest

  -- slices.Equal(dependsOn, []string{id})
  abbrev pub is_just : List String → String → Bool
  is_just [] id = false
  is_just (d ∷ []) id = str_eq d id
  is_just (d ∷ e ∷ ds) id = false

  -- The checks on the envelopes of a reply, and of a branch and its pull request.
  abbrev pub reply_alone : List (Envelope × Operation) → Bool
  reply_alone [] = false
  reply_alone ((e, operation) ∷ rest) =
      str_eq manifest.source_commit manifest.base_sha && is_empty e.depends_on

  abbrev pub branch_chained : List (Envelope × Operation) → Bool
  branch_chained [] = false
  branch_chained ((e, operation) ∷ []) = false
  branch_chained ((e, operation) ∷ (f, next) ∷ rest) =
      is_empty e.depends_on
      && is_just f.depends_on e.request_id
      && not (str_eq manifest.source_commit manifest.base_sha)

  unfoldable pub verify_operations : Result Failure (List Operation)
  unfolding read_operations
  verify_operations = do
    names ← or_rejected (operation_names manifest.operation_set)
    pairs ← read_operations names
    require
        (if str_eq manifest.operation_set "conversation-reply"
          then reply_alone pairs
          else branch_chained pairs && bundle.authored)
        rejected
    ok (operations_of pairs)
