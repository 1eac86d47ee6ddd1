-- ===== src/Publisher/FileRemote.antt =====
-- A remote that is a file (internal/publisher/file_remote.go). The file is its decoded state; that
-- JSON decodes what it encoded is taken for granted. What can go wrong outside the code is a list of
-- faults, one for each call: the context is done or the file cannot be read, or it cannot be written,
-- which leaves it as it was, since it is replaced by a rename. `print` gives a number's %d.
pub mod Lawfulness
pub mod Changes
pub mod Conflicts
use duto_ai.Prelude.{
  String, Bool, true, false, ◌&&◌, Option, none, some, List, [], ◌∷◌, if◌then◌else◌, str_eq, Result,
  ok, err,
}
use duto_ai.Prelude.Int.{ℤ}
use duto_ai.Prelude.Keys.{lookup, insert}
use duto_ai.Publisher.{
  Failure, rejected, conflict, other, Operation, RemoteState, Remote, blank_state,
}
use Prim.Native.String.{◌++◌}

pub record FileReply : Type 0 where
  pub payload_sha256 : String
  pub resource : String

pub record FilePr : Type 0 where
  pub source_commit : String
  pub title : String
  pub body_sha256 : String
  pub resource : String

pub record FileState : Type 0 where
  pub replies : List (String × FileReply)
  pub branches : List (String × String)
  pub prs : List (String × FilePr)

pub data Fault : Type 0 where
  works : Fault
  unreadable : Failure → Fault
  unwritable : Fault

pub record Disk : Type 0 where
  pub state : FileState
  pub faults : List Fault

abbrev pub head_fault : List Fault → Fault
head_fault [] = works
head_fault (fault ∷ faults) = fault

abbrev pub tail_faults : List Fault → List Fault
tail_faults [] = []
tail_faults (fault ∷ faults) = faults

-- The disk after a call.
abbrev pub called : Disk → Disk
called disk = record disk { faults = tail_faults disk.faults }

abbrev pub answer : Bool → String → RemoteState
answer same resource = record {
  disposition = if same then "unchanged" else "conflict";
  resource = resource;
}

abbrev pub judge_reply : Option FileReply → Operation → RemoteState
judge_reply none operation = blank_state
judge_reply (some value) operation =
    answer (str_eq value.payload_sha256 operation.payload_sha256) value.resource

abbrev pub judge_branch : Option String → Operation → RemoteState
judge_branch none operation = blank_state
judge_branch (some value) operation =
    answer (str_eq value operation.source_commit) operation.target_ref

abbrev pub judge_pr : Option FilePr → Operation → RemoteState
judge_pr none operation = blank_state
judge_pr (some value) operation =
    answer
      (str_eq value.source_commit operation.source_commit
        && str_eq value.title operation.pr_title
        && str_eq value.body_sha256 operation.payload_sha256)
      value.resource

abbrev pub reply_kind : String
reply_kind = "conversation.reply"

abbrev pub branch_kind : String
branch_kind = "git.branch.publish"

abbrev pub pr_kind : String
pr_kind = "pull_request.create_draft"

-- Preflight, of a state that was loaded.
unfoldable pub judge : Operation → FileState → Result Failure RemoteState
unfolding lookup
judge operation state =
    if str_eq operation.kind reply_kind
    then ok (judge_reply (lookup operation.correlation_key state.replies) operation)
    else if str_eq operation.kind branch_kind
    then ok (judge_branch (lookup operation.target_ref state.branches) operation)
    else if str_eq operation.kind pr_kind
    then ok (judge_pr (lookup operation.target_ref state.prs) operation)
    else err rejected

-- state.Branches[operation.TargetRef]
abbrev pub or_empty : Option String → String
or_empty none = ""
or_empty (some value) = value

abbrev pub preflight_call : Fault → Operation → FileState → Result Failure RemoteState
preflight_call (unreadable e) operation state = err e
preflight_call works operation state = judge operation state
preflight_call unwritable operation state = judge operation state

-- The write, if there is something to write.
abbrev pub stored :
    Fault → Result Failure (String × FileState) → Disk → Result Failure String × Disk
stored (unreadable e) result disk = (err e, disk)
stored works (err e) disk = (err e, disk)
stored works (ok (resource, state)) disk = (ok resource, record disk { state = state })
stored unwritable (err e) disk = (err e, disk)
stored unwritable (ok (resource, state)) disk = (err other, disk)

module _ (print : ℤ → String) where
  abbrev pub repository_url : Operation → String
  repository_url operation =
      "https://github.com/" ++ operation.repository_owner ++ "/" ++ operation.repository_name

  abbrev pub reply_url : Operation → String
  reply_url operation =
      repository_url operation ++ "/issues/" ++ print operation.origin_number ++ "#issuecomment-1"

  abbrev pub pr_url : Operation → String
  pr_url operation = repository_url operation ++ "/pull/1"

  -- The cases of Apply, to a state that was loaded: the state to store.
  abbrev pub put_reply : Operation → FileState → FileState
  put_reply operation state = record state {
    replies =
        insert operation.correlation_key
          (record { payload_sha256 = operation.payload_sha256; resource = reply_url operation })
          state.replies;
  }

  abbrev pub put_branch : Operation → FileState → FileState
  put_branch operation state = record state {
    branches = insert operation.target_ref operation.source_commit state.branches;
  }

  abbrev pub put_pr : Operation → FileState → FileState
  put_pr operation state = record state {
    prs =
        insert operation.target_ref
          (record {
            source_commit = operation.source_commit;
            title = operation.pr_title;
            body_sha256 = operation.payload_sha256;
            resource = pr_url operation;
          })
          state.prs;
  }

  unfoldable pub change : Operation → FileState → Result Failure (String × FileState)
  unfolding lookup insert
  change operation state =
      if str_eq operation.kind reply_kind
      then ok (reply_url operation, put_reply operation state)
      else if str_eq operation.kind branch_kind
      then ok (operation.target_ref, put_branch operation state)
      else if str_eq operation.kind pr_kind
      then (if str_eq (or_empty (lookup operation.target_ref state.branches))
            operation.source_commit
          then ok (pr_url operation, put_pr operation state)
          else err conflict)
      else err rejected

  unfoldable pub file_remote : Remote Disk
  unfolding judge change
  file_remote = record {
    preflight = λ operation disk.
        (preflight_call (head_fault disk.faults) operation disk.state, called disk);
    apply = λ operation disk.
        stored (head_fault disk.faults) (change operation disk.state) (called disk);
  }
