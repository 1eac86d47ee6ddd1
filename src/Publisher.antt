-- ===== src/Publisher.antt =====
-- The publication of verified operations to a remote (internal/publisher/publisher.go, and receipt
-- of internal/publisher/receipt.go). A remote is a record of its two operations over a state; each
-- call returns the state that it leaves. Publish returns its receipt on an error too, so its result
-- has both. The hash that names the publisher's run is an argument.
pub mod FileRemote
pub mod Laws
pub mod Outcome
pub mod Verify
pub mod Again
pub mod Holding
use duto_ai.Prelude.{
  ℕ, zero, suc, String, Bool, true, false, ◌&&◌, ◌||◌, not, Option, none, some, List, [], ◌∷◌, map,
  if◌then◌else◌, str_eq, Result, ok, err, ◌>>=◌, any,
}
use duto_ai.Prelude.Int.{ℤ}
use duto_ai.Prelude.Arrays.{get_or, update}

-- ErrRejected, ErrConflict, and any other error of a remote.
pub data Failure : Type 0 where
  rejected conflict other : Failure

-- OriginKind, BaseRef, BaseSHA, ReplyBody, PRBody and SourceBundle are left out: what is modelled does
-- not read them.
pub record Operation : Type 0 where
  pub request_id : String
  pub correlation_key : String
  pub kind : String
  pub repository_owner : String
  pub repository_name : String
  pub origin_number : ℤ
  pub target_ref : String
  pub source_commit : String
  pub pr_title : String
  pub payload_sha256 : String

pub record RemoteState : Type 0 where
  pub disposition : String
  pub resource : String

pub record Remote (R : Type 0) : Type 0 where
  pub preflight : Operation → R → Result Failure RemoteState × R
  pub apply : Operation → R → Result Failure String × R

pub record OperationReceipt : Type 0 where
  pub request_id : String
  pub kind : String
  pub disposition : String
  pub resource : String

pub record Receipt : Type 0 where
  pub version : ℕ
  pub publisher_run_id : String
  pub bundle_sha256 : String
  pub plan_sha256 : String
  pub policy_sha256 : String
  pub repository_id : String
  pub operation_set : String
  pub disposition : String
  pub operations : List OperationReceipt

pub record Verified : Type 0 where
  pub bundle_sha256 : String
  pub plan_sha256 : String
  pub policy_sha256 : String
  pub repository_id : String
  pub operation_set : String
  pub operations : List Operation

abbrev pub blank_receipt : Operation → OperationReceipt
blank_receipt operation = record {
  request_id = operation.request_id;
  kind = operation.kind;
  disposition = "";
  resource = "";
}

-- `run_id` gives "publish-" and the first eight bytes of the bundle's hash.
abbrev pub receipt_of : (String → String) → Verified → Receipt
receipt_of run_id v = record {
  version = 1;
  publisher_run_id = run_id v.bundle_sha256;
  bundle_sha256 = v.bundle_sha256;
  plan_sha256 = v.plan_sha256;
  policy_sha256 = v.policy_sha256;
  repository_id = v.repository_id;
  operation_set = v.operation_set;
  disposition = "";
  operations = map blank_receipt v.operations;
}

abbrev pub operation_receipt : Operation → RemoteState → OperationReceipt
operation_receipt operation state = record {
  request_id = operation.request_id;
  kind = operation.kind;
  disposition = state.disposition;
  resource = state.resource;
}

-- receipt.Operations[index] = entry
abbrev pub put_entry : ℕ → OperationReceipt → Receipt → Receipt
put_entry i entry receipt = record receipt {
  operations = update receipt.operations i (λ old. entry);
}

abbrev pub fmt_remote_error : Failure → Failure
fmt_remote_error rejected = rejected
fmt_remote_error conflict = conflict
fmt_remote_error other = conflict

abbrev pub is_unchanged : RemoteState → Bool
is_unchanged state = str_eq state.disposition "unchanged"

abbrev pub known_disposition : String → Bool
known_disposition d = str_eq d "" || str_eq d "unchanged" || str_eq d "conflict"

unfoldable pub all_unchanged : List RemoteState → Bool
unfolding any
all_unchanged states = not (any (λ state. not (is_unchanged state)) states)

pub record Preflighted (R : Type 0) : Type 0 where
  pub states : Result Failure (List RemoteState)
  pub receipt : Receipt
  pub remote : R

pub record Published (R : Type 0) : Type 0 where
  pub failure : Option Failure
  pub receipt : Receipt
  pub remote : R

abbrev pub blank_state : RemoteState
blank_state = record { disposition = ""; resource = "" }

abbrev pub cons_state :
    RemoteState → Result Failure (List RemoteState) → Result Failure (List RemoteState)
cons_state state states = states >>= λ rest. ok (state ∷ rest)

unfoldable pub unchanged_again : Result Failure RemoteState → Bool
unchanged_again (err e) = false
unchanged_again (ok state) = is_unchanged state

abbrev pub state_or_blank : Result Failure RemoteState → RemoteState
state_or_blank (err e) = blank_state
state_or_blank (ok state) = state

-- `if err != nil { return }`: the first result on a failure, and otherwise the second.
abbrev pub unless_failed {ℓ} : {A : Type ℓ} → Option Failure → A → A → A
unless_failed (some e) failed done = failed
unless_failed none failed done = done

-- receipt.Disposition = DispositionApplied, unless the application failed.
abbrev pub finish : {R : Type 0} → Published R → Published R
finish p =
    unless_failed p.failure p (record p { receipt = record p.receipt { disposition = "applied" } })

-- The receipt of operations that are all unchanged.
unfoldable pub unchanged_from : ℕ → List Operation → List RemoteState → Receipt → Receipt
unchanged_from i [] states receipt = receipt
unchanged_from i (operation ∷ operations) states receipt =
    unchanged_from (suc i) operations states
      (put_entry i (operation_receipt operation (get_or states i blank_state)) receipt)

module _ {R : Type 0} (remote : Remote R) where
  -- What one answer leads to; the rest of the loop is given.
  unfoldable pub preflight_answer :
      ℕ → Operation → Receipt → R → Result Failure RemoteState → Preflighted R → Preflighted R
  preflight_answer i operation receipt r (err e) rest = record {
    states = err (fmt_remote_error e);
    receipt = record receipt { disposition = "rejected" };
    remote = r;
  }
  preflight_answer i operation receipt r (ok state) rest =
      if not (known_disposition state.disposition)
      then record { states = err rejected; receipt = receipt; remote = r }
      else if str_eq state.disposition "conflict"
      then record {
        states = err conflict;
        receipt =
            put_entry i (operation_receipt operation state)
              (record receipt { disposition = "conflict" });
        remote = r;
      }
      else record rest { states = cons_state state rest.states }

  -- preflight, from an index on.
  unfoldable pub preflight_from : ℕ → List Operation → Receipt → R → Preflighted R
  unfolding preflight_answer
  preflight_from i [] receipt r = record { states = ok []; receipt = receipt; remote = r }
  preflight_from i (operation ∷ operations) receipt r =
      let (answer, r') = remote.preflight operation r in
      preflight_answer i operation receipt r' answer (preflight_from (suc i) operations receipt r')

  -- An application that failed, and its reconciliation.
  unfoldable pub reconcile : ℕ → Operation → Receipt → R → Failure → Published R
  unfolding unchanged_again
  reconcile i operation receipt r e =
      let (answer, r') = remote.preflight operation r in
      if unchanged_again answer
      then record {
        failure = none;
        receipt =
            put_entry i
              (operation_receipt operation
                (record { disposition = "applied"; resource = (state_or_blank answer).resource }))
              receipt;
        remote = r';
      }
      else record {
        failure = some (fmt_remote_error e);
        receipt = record receipt { disposition = "conflict" };
        remote = r';
      }

  unfoldable pub apply_answer : ℕ → Operation → Receipt → R → Result Failure String → Published R
  unfolding reconcile
  apply_answer i operation receipt r (ok resource) = record {
    failure = none;
    receipt =
        put_entry i
          (operation_receipt operation (record { disposition = "applied"; resource = resource }))
          receipt;
    remote = r;
  }
  apply_answer i operation receipt r (err e) = reconcile i operation receipt r e

  -- The body of the loop of apply.
  unfoldable pub apply_one : ℕ → Operation → RemoteState → Receipt → R → Published R
  unfolding apply_answer
  apply_one i operation state receipt r =
      if is_unchanged state
      then record {
        failure = none;
        receipt = put_entry i (operation_receipt operation state) receipt;
        remote = r;
      }
      else (let (answer, r') = remote.apply operation r in
          apply_answer i operation receipt r' answer)

  -- apply, from an index on.
  unfoldable pub apply_from : ℕ → List Operation → List RemoteState → Receipt → R → Published R
  unfolding apply_one
  apply_from i [] states receipt r = record { failure = none; receipt = receipt; remote = r }
  apply_from i (operation ∷ operations) states receipt r =
      let one = apply_one i operation (get_or states i blank_state) receipt r in
      unless_failed one.failure one (apply_from (suc i) operations states one.receipt one.remote)

  unfoldable pub publish_states : List Operation → Preflighted R → Published R
  unfolding all_unchanged unchanged_from apply_from
  publish_states operations p = elim p.states [
    | err e ↦ record { failure = some e; receipt = p.receipt; remote = p.remote }
    | ok states ↦
        if all_unchanged states
        then record {
          failure = none;
          receipt =
              unchanged_from 0 operations states (record p.receipt { disposition = "unchanged" });
          remote = p.remote;
        }
        else finish (apply_from 0 operations states p.receipt p.remote)
  ]

  unfoldable pub publish : (String → String) → Verified → R → Published R
  unfolding preflight_from publish_states
  publish run_id v r =
      publish_states v.operations (preflight_from 0 v.operations (receipt_of run_id v) r)
