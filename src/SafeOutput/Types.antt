-- ===== src/SafeOutput/Types.antt =====
-- The types of safe outputs (internal/safeoutput/safeoutput.go), and small parts of the calls.
use duto_ai.Prelude.{
  ℕ, String, Bool, Option, none, some, List, [], ◌∷◌, if◌then◌else◌, str_eq, Result, ok, err,
}
use duto_ai.Prelude.Int.{ℤ}
use Prim.Native.String.{◌++◌ as string_append}

pub data SafeError : Type 0 where
  invalid_policy invalid_request incomplete_set : SafeError

pub record Repository : Type 0 where
  pub id : String
  pub owner : String
  pub name : String

pub record Origin : Type 0 where
  pub kind : String
  pub number : ℤ

pub record Base : Type 0 where
  pub ref : String
  pub sha : String

pub record Source : Type 0 where
  pub commit : String
  pub tree : String
  pub bundle : String

pub record Limit : Type 0 where
  pub max_calls : ℤ
  pub timeout : ℤ
  pub max_request_bytes : ℤ
  pub max_result_bytes : ℤ

-- The function `Source` is known by whether it is there; what it returns is an argument of `branch`.
pub record Policy : Type 0 where
  pub operation_set : String
  pub plan_sha256 : String
  pub policy_sha256 : String
  pub control_sha256 : String
  pub control_json : String
  pub correlation_key : String
  pub repository : Repository
  pub origin : Origin
  pub base : Base
  pub branch_prefix : String
  pub max_reply_bytes : ℤ
  pub max_pr_title_bytes : ℤ
  pub max_pr_body_bytes : ℤ
  pub max_bundle_bytes : ℤ
  pub limits : List (String × Limit)
  pub has_source : Bool

pub record Envelope : Type 0 where
  pub version : ℕ
  pub request_id : String
  pub correlation_key : String
  pub kind : String
  pub mode : String
  pub run_id : String
  pub plan_sha256 : String
  pub policy_sha256 : String
  pub control_sha256 : String
  pub repository : Repository
  pub origin : Origin
  pub base : Base
  pub source_commit : String
  pub depends_on : List String
  pub preconditions : String
  pub payload : String

pub record Snapshot : Type 0 where
  pub operation_set : String
  pub control_json : String
  pub operations : List Envelope
  pub source_bundle : String
  pub recovery_metadata : String
  pub recovery_patch : String

pub record Collector : Type 0 where
  pub policy : Policy
  pub operations : List Envelope
  pub source : Source
  pub recovery_metadata : String
  pub recovery_patch : String

-- The standard library: the JSON of ReplyArgs, of DraftPRArgs and of the three preconditions, which
-- cannot fail, and what is read from bytes.
pub record Codec : Type 0 where
  pub reply_json : String → String
  pub pr_json : String → String → String
  pub open_json : String
  pub absent_json : String → String
  pub draft_json : String → String
  pub request_id : String → String → String → String
  pub byte_length : String → ℕ
  pub valid_utf8 : String → Bool
  pub reads_as_hex : String → Bool

abbrev pub no_source : Source
no_source = record { commit = ""; tree = ""; bundle = "" }

abbrev pub or_source : Option Source → Source → Source
or_source none kept = kept
or_source (some source) kept = source

abbrev pub head_ref : Policy → String
head_ref p = string_append "refs/heads/" (string_append p.branch_prefix p.correlation_key)

-- The one operation that is staged, if it is a branch.
abbrev pub staged_branch : List Envelope → Result SafeError Envelope
staged_branch [] = err invalid_request
staged_branch (e ∷ []) = if str_eq e.kind "git.branch.publish" then ok e else err invalid_request
staged_branch (e ∷ f ∷ es) = err invalid_request
