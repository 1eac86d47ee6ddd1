-- ===== src/SafeOutput.antt =====
-- The staging of a run's safe outputs (internal/safeoutput/safeoutput.go). A collector is a record; a
-- call returns the collector that it leaves and its result, or an error, after which the collector is
-- as it was. The mutex makes each call one step. Bytes are texts. What the standard library does is
-- an argument: the JSON encoders, the SHA-256 of a request, and the length and validity of UTF-8.
pub mod Envelopes
pub mod Complete
pub mod Runs
pub mod Types
pub use Types.*
use duto_ai.Prelude.{
  ℕ, String, Bool, true, false, ◌&&◌, ◌||◌, not, Option, none, some, List, [], ◌∷◌, ◌++◌, length,
  is_empty, ◌==◌, all, any, if◌then◌else◌, str_eq, Result, ok, err, ◌>>=◌, ◌>>◌, require,
}
use duto_ai.Prelude.Int.{ℤ, pos, ltb_ℤ}
use duto_ai.Prelude.Keys.{lookup, member}
use Prim.Native.String.{◌++◌ as string_append}

module _ (codec : Codec) where
  unfoldable pub valid_digest : String → Bool
  valid_digest value = codec.byte_length value == 64 && codec.reads_as_hex value

  unfoldable pub invalid_text : String → ℤ → Bool
  invalid_text value maximum =
      str_eq value ""
      || ltb_ℤ maximum (pos (codec.byte_length value))
      || not (codec.valid_utf8 value)

  unfoldable pub validate_policy_fields : Policy → Result SafeError (Unit {0})
  unfolding valid_digest member any
  validate_policy_fields p = do
    require
        (not (
          member "" (
            p.correlation_key ∷ p.repository.id ∷ p.repository.owner ∷ p.repository.name
            ∷ p.base.ref ∷ [])))
        invalid_policy
    require
        (not (
          any (λ value. not (ltb_ℤ (pos 0) value))
            (p.max_reply_bytes ∷ p.max_pr_title_bytes ∷ p.max_pr_body_bytes ∷ p.max_bundle_bytes
              ∷ [])))
        invalid_policy
    require
        (valid_digest p.plan_sha256
          && valid_digest p.policy_sha256
          && valid_digest p.control_sha256
          && not (str_eq p.control_json "")
          && codec.byte_length p.base.sha == 40
          && str_eq p.branch_prefix "duto/m3/")
        invalid_policy

  abbrev pub exact_limit : Option Limit → Bool
  exact_limit none = false
  exact_limit (some limit) =
      ltb_ℤ (pos 0) limit.max_calls
      && not (ltb_ℤ (pos 1) limit.max_calls)
      && ltb_ℤ (pos 0) limit.timeout
      && ltb_ℤ (pos 0) limit.max_request_bytes
      && ltb_ℤ (pos 0) limit.max_result_bytes

  unfoldable pub exact_limits : List (String × Limit) → List String → Bool
  unfolding all lookup
  exact_limits limits names =
      length limits == length names && all (λ name. exact_limit (lookup name limits)) names

  -- The switch on the operation set.
  unfoldable pub validate_set : Policy → Result SafeError (Unit {0})
  unfolding exact_limits
  validate_set p =
      if str_eq p.operation_set "none"
      then require (is_empty p.limits && not p.has_source) invalid_policy
      else if str_eq p.operation_set "conversation-reply"
      then require
          ((str_eq p.origin.kind "issue" || str_eq p.origin.kind "pull_request")
            && exact_limits p.limits ("safe-output.conversation-reply" ∷ []))
          invalid_policy
      else if str_eq p.operation_set "branch-pr"
      then require
          (p.has_source
            && exact_limits p.limits ("safe-output.branch" ∷ "safe-output.draft-pr" ∷ []))
          invalid_policy
      else err invalid_policy

  unfoldable pub validate_policy : Policy → Result SafeError (Unit {0})
  unfolding validate_policy_fields validate_set
  validate_policy p = do validate_policy_fields p; validate_set p

  unfoldable pub new_collector : Policy → Result SafeError Collector
  unfolding validate_policy
  new_collector p = do
    validate_policy p
    ok (record {
      policy = p;
      operations = [];
      source = no_source;
      recovery_metadata = "";
      recovery_patch = "";
    })

  -- What `stage` and `DraftPR` append.
  abbrev pub envelope : Policy → String → String → String → List String → String → String → Envelope
  envelope p run kind source_commit depends_on preconditions payload = record {
    version = 1;
    request_id = codec.request_id run kind payload;
    correlation_key = p.correlation_key;
    kind = kind;
    mode = "staged";
    run_id = run;
    plan_sha256 = p.plan_sha256;
    policy_sha256 = p.policy_sha256;
    control_sha256 = p.control_sha256;
    repository = p.repository;
    origin = p.origin;
    base = p.base;
    source_commit = source_commit;
    depends_on = depends_on;
    preconditions = preconditions;
    payload = payload;
  }

  -- Each call returns the collector and the request's id, which is the whole of Result but for the
  -- word "staged".
  unfoldable pub stage :
      Collector
      → String
      → String
      → String
      → List String
      → String
      → String
      → Option Source
      → Result SafeError (Collector × String)
  stage c run kind source_commit depends_on preconditions payload source = do
    require (not (str_eq run "")) invalid_request
    require (is_empty c.operations) invalid_request
    ok (
      record c {
        operations =
            c.operations
            ++ envelope c.policy run kind source_commit depends_on preconditions payload ∷ [];
        source = or_source source c.source;
      },
      codec.request_id run kind payload,
    )

  unfoldable pub reply : Collector → String → String → Result SafeError (Collector × String)
  unfolding stage invalid_text
  reply c run body = do
    require
        (str_eq c.policy.operation_set "conversation-reply"
          && not (invalid_text body c.policy.max_reply_bytes))
        invalid_request
    stage c run "conversation.reply" c.policy.base.sha [] codec.open_json (codec.reply_json body)
        none

  -- `found` is what the policy's source function returned.
  unfoldable pub branch :
      Collector → String → Result SafeError Source → Result SafeError (Collector × String)
  unfolding stage
  branch c run found = do
    require (str_eq c.policy.operation_set "branch-pr" && c.policy.has_source) invalid_request
    source ← found
    require
        (not (
          str_eq source.commit ""
          || str_eq source.tree ""
          || str_eq source.commit c.policy.base.sha
          || str_eq source.bundle ""))
        invalid_request
    stage c run "git.branch.publish" source.commit [] (codec.absent_json (head_ref c.policy)) "{}"
        (some source)

  unfoldable pub draft_pr :
      Collector → String → String → String → Result SafeError (Collector × String)
  unfolding invalid_text
  draft_pr c run title body = do
    require
        (str_eq c.policy.operation_set "branch-pr"
          && not (invalid_text title c.policy.max_pr_title_bytes)
          && not (invalid_text body c.policy.max_pr_body_bytes))
        invalid_request
    staged ← staged_branch c.operations
    require (not (str_eq c.source.commit "")) invalid_request
    ok (
      record c {
        operations =
            c.operations
            ++ envelope c.policy run "pull_request.create_draft" c.source.commit
                (staged.request_id ∷ []) (codec.draft_json (head_ref c.policy))
                (codec.pr_json title body)
              ∷ [];
      },
      codec.request_id run "pull_request.create_draft" (codec.pr_json title body),
    )

unfoldable pub set_recovery : Collector → String → String → Result SafeError Collector
set_recovery c metadata patch = do
  require (not (str_eq metadata "" || str_eq patch "")) invalid_request
  require (str_eq c.recovery_metadata "" && str_eq c.recovery_patch "") invalid_request
  ok (record c { recovery_metadata = metadata; recovery_patch = patch })

abbrev pub is_staged : String → String → Envelope → Bool
is_staged run kind e = str_eq e.kind kind && str_eq e.run_id run

abbrev pub is_reply_set : String → List Envelope → Bool
is_reply_set run [] = false
is_reply_set run (e ∷ []) = is_staged run "conversation.reply" e
is_reply_set run (e ∷ f ∷ es) = false

abbrev pub is_branch_set : String → List Envelope → Bool
is_branch_set run [] = false
is_branch_set run (e ∷ []) = false
is_branch_set run (e ∷ f ∷ []) =
    is_staged run "git.branch.publish" e && is_staged run "pull_request.create_draft" f
is_branch_set run (e ∷ f ∷ g ∷ es) = false

-- The switch of complete.
unfoldable pub complete_with : String → List Envelope → String → Bool
complete_with operation_set operations run =
    if str_eq operation_set "none"
    then is_empty operations
    else if str_eq operation_set "conversation-reply"
    then is_reply_set run operations
    else if str_eq operation_set "branch-pr"
    then is_branch_set run operations
    else false

unfoldable pub is_complete : Collector → String → Bool
unfolding complete_with
is_complete c run = complete_with c.policy.operation_set c.operations run

unfoldable pub snapshot : Collector → String → Bool → Result SafeError Snapshot
unfolding is_complete
snapshot c run false = ok (record {
  operation_set = "none";
  control_json = c.policy.control_json;
  operations = [];
  source_bundle = "";
  recovery_metadata = c.recovery_metadata;
  recovery_patch = c.recovery_patch;
})
snapshot c run true = do
  require (is_complete c run) incomplete_set
  ok (record {
    operation_set = c.policy.operation_set;
    control_json = c.policy.control_json;
    operations = c.operations;
    source_bundle = c.source.bundle;
    recovery_metadata = "";
    recovery_patch = "";
  })
