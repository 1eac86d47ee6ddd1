-- ===== src/Publisher/Verify/Bound.antt =====
-- What the operations of a bundle that passes are bound to, and which it may hold (verifyOperations
-- in internal/publisher/verify.go).
use duto_ai.Prelude.{
  Bool, false, Bool-cases, String, true, some, [], ◌∷◌, is_empty, ◌≡◌, refl, arith, str_eq, ok,
  require->>, ◌⊎◌, inl, inr,
}
use duto_ai.Publisher.{rejected, Operation}
use duto_ai.Publisher.FileRemote.{reply_kind, branch_kind, pr_kind}
use duto_ai.Publisher.Verify.{
  Bundle, Manifest, Publication, expected_ref, validate_operation, verify_operations,
  valid_manifest, set_matches_profile,
}
use duto_ai.SafeOutput.{Envelope}
use duto_ai.Trust.Decision.{Decision}
use duto_ai.Publisher.Verify.Kinds.{right_true, validate_kind-Kinded}

module _ (bundle : Bundle) (manifest : Manifest) (decision : Decision) (policy : Publication) where
  -- The operation is of the decision's conversation and repository and of the manifest's commit, and
  -- goes to the reference that the policy names for the conversation, unless it is a reply.
  pub record IsBound (operation : Operation) : Type 0 where
    pub conversation : operation.correlation_key ≡ decision.correlation_key
    pub owner : operation.repository_owner ≡ decision.repository.owner
    pub name : operation.repository_name ≡ decision.repository.name
    pub commit : operation.source_commit ≡ manifest.source_commit
    pub target :
        ((operation.kind ≡ reply_kind) × (operation.target_ref ≡ ""))
        ⊎ (((operation.kind ≡ branch_kind) ⊎ (operation.kind ≡ pr_kind))
            × (operation.target_ref ≡ expected_ref policy decision))

  validate_operation-kind :
      (e : Envelope) {operation : Operation}
      → validate_operation bundle manifest decision policy e ≡ ok operation
      → operation.kind ≡ e.kind
  unfolding validate_operation
  validate_operation-kind e h =
      let (bound, h1) = require->> _ rejected _ h in
      let (identified, h2) = require->> _ rejected _ h1 in
      (validate_kind-Kinded bundle manifest decision policy e h2).kind

  reply_profile :
      (set : String)
      → set_matches_profile set "reply" ≡ true
      → str_eq set "conversation-reply" ≡ true
  reply_profile set h = elim (Bool-cases (str_eq set "conversation-reply")) [
    | inl e ↦ e
    | inr e ↦ let impossible : ◌≡◌ {A = Bool} false true = ground (arith, h, e) in absurd (cc)
  ]

  -- A bundle whose manifest is valid for the permission profile `reply` passes with an envelope of any
  -- kind in the place of the reply, a branch or a pull request too, if the envelope is valid by itself
  -- and depends on nothing, and the manifest's source commit is its base.
  pub verify_operations_any_kind :
      (policy_digest bytes : String) (e : Envelope) (operation : Operation)
      → valid_manifest bundle manifest decision policy policy_digest "reply" ≡ true
      → bundle.file "operations/0001-conversation-reply.json" ≡ some bytes
      → bundle.envelope bytes ≡ some e
      → validate_operation bundle manifest decision policy e ≡ ok operation
      → str_eq manifest.source_commit manifest.base_sha ≡ true
      → is_empty e.depends_on ≡ true
      → (verify_operations bundle manifest decision policy ≡ ok (operation ∷ []))
        × (operation.kind ≡ e.kind)
  unfolding verify_operations valid_manifest
  verify_operations_any_kind policy_digest bytes e operation manifest_valid file decoded valid same
        alone =
      let is_reply : str_eq manifest.operation_set "conversation-reply" ≡ true =
        reply_profile manifest.operation_set (right_true _ _ manifest_valid) in
      (
        rw is_reply (rw file (rw decoded (rw valid (rw same (rw alone refl))))),
        validate_operation-kind e valid,
      )
