-- ===== src/Trust/Context.antt =====
-- The context that valid evidence puts a run in (internal/trust/trust.go).
use duto_ai.Prelude.{
  String, Bool, false, not, ◌&&◌, ◌||◌, Option, none, some, ltb, length, codes, if◌then◌else◌,
  str_eq, has_prefix,
}
use duto_ai.Prelude.Int.{is_zero, is_positive}
use duto_ai.Pattern.{is_name, is_local_id, is_decimal, is_sha}
use duto_ai.Trust.Evidence.{ControlEvidence, Event, Run, Operator, Subject, Ref, Checkout}

-- The `Context…` constants. `unset` is the empty text of a Decision that nothing has filled in.
pub data Context : Type 0 where
  forked_pr same_repository scheduled local unknown unset : Context

abbrev pub context_text : Context → String
context_text forked_pr = "forked_pr"
context_text same_repository = "same_repository"
context_text scheduled = "scheduled"
context_text local = "local"
context_text unknown = "unknown"
context_text unset = ""

unfoldable pub valid_checkout : Checkout → Bool
unfolding has_prefix is_sha
valid_checkout c =
    has_prefix c.ref "refs/heads/"
    && ltb (length (codes "refs/heads/")) (length (codes c.ref))
    && is_sha c.sha

unfoldable pub valid_ref : Ref → Bool
unfolding has_prefix is_sha is_decimal
valid_ref r = is_decimal r.repository_id && has_prefix r.ref "refs/" && is_sha r.sha

unfoldable pub valid_subject : Subject → Bool
valid_subject s =
    if str_eq s.kind "none"
    then is_zero s.number
    else if str_eq s.kind "issue" || str_eq s.kind "pull_request"
    then is_positive s.number
    else false

unfoldable pub same_checkout : ControlEvidence → Event → Bool
same_checkout v e =
    str_eq e.base.repository_id v.repository.id
    && str_eq e.head.repository_id v.repository.id
    && str_eq e.base.ref v.checkout.ref
    && str_eq e.head.ref v.checkout.ref
    && str_eq e.base.sha v.checkout.sha
    && str_eq e.head.sha v.checkout.sha

-- The fields of validGitHub on evidence that has an event and a run.
unfoldable pub valid_event : ControlEvidence → Event → Run → Bool
unfolding is_decimal is_sha valid_ref valid_subject
valid_event v e r =
    is_decimal v.repository.id
    && is_decimal v.repository.owner_id
    && is_decimal e.actor_id
    && is_decimal r.id
    && is_positive r.attempt
    && is_sha r.workflow_sha
    && valid_ref e.base
    && valid_ref e.head
    && str_eq e.base.repository_id v.repository.id
    && str_eq v.checkout.ref e.base.ref
    && str_eq v.checkout.sha e.base.sha
    && valid_subject e.subject

unfoldable pub valid_operator : ControlEvidence → Operator → Bool
unfolding is_name is_local_id
valid_operator v o =
    is_name o.profile && is_local_id v.repository.id && is_local_id v.repository.owner_id

abbrev pub local_parts : ControlEvidence → Option Event → Option Run → Option Operator → Bool
local_parts v none none (some o) = valid_operator v o
local_parts v _ _ _ = false

unfoldable pub valid_local : ControlEvidence → Bool
unfolding valid_operator
valid_local v = local_parts v v.event v.run v.operator

unfoldable pub pull_request_context : ControlEvidence → Event → Context
pull_request_context v e =
    if not (str_eq e.subject.kind "pull_request")
    then unknown
    else if not (str_eq e.head.repository_id v.repository.id)
    then forked_pr
    else same_repository

unfoldable pub scheduled_context : ControlEvidence → Event → Context
unfolding same_checkout
scheduled_context v e =
    if not (same_checkout v e) || not (str_eq e.subject.kind "none") then unknown else scheduled

unfoldable pub same_repository_context : ControlEvidence → Event → Context
unfolding same_checkout
same_repository_context v e =
    if not (same_checkout v e) || not (str_eq e.subject.kind "none")
    then unknown
    else same_repository

-- The switch of githubContext on the event's name.
unfoldable pub event_context : ControlEvidence → Event → Context
unfolding pull_request_context scheduled_context same_repository_context same_checkout
event_context v e =
    if str_eq e.name "pull_request"
    then pull_request_context v e
    else if str_eq e.name "schedule"
    then scheduled_context v e
    else if str_eq e.name "workflow_dispatch"
    then same_repository_context v e
    else if str_eq e.name "push"
    then (if str_eq e.head.repository_id v.repository.id then same_repository else unknown)
    else if str_eq e.name "issues" || str_eq e.name "issue_comment"
    then (if same_checkout v e then same_repository else unknown)
    else unknown

abbrev pub github_parts : ControlEvidence → Option Event → Option Run → Option Operator → Context
github_parts v (some e) (some r) none = if valid_event v e r then event_context v e else unknown
github_parts v _ _ _ = unknown

unfoldable pub github_context : ControlEvidence → Context
unfolding valid_event event_context
github_context v = github_parts v v.event v.run v.operator
