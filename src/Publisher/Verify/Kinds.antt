-- ===== src/Publisher/Verify/Kinds.antt =====
-- The operations that the switch on an envelope's kind gives (validateOperation in
-- internal/publisher/verify.go).
use duto_ai.Prelude.{
  Bool, true, false, ◌&&◌, not, ◌≡◌, refl, subst, str_eq, str_eq-true, Bool-cases, Result, ok, err,
  require->>, >>=-eq-ok, ok-injective, ◌⊎◌, inl, inr,
}
use duto_ai.Publisher.{Failure, rejected, Operation}
use duto_ai.Publisher.FileRemote.{reply_kind, branch_kind, pr_kind}
use duto_ai.Publisher.Verify.{
  Bundle, Manifest, Publication, or_rejected, expected_ref, operation_of, validate_reply_operation,
  validate_branch_operation, validate_draft_operation, validate_kind,
}
use duto_ai.SafeOutput.{Envelope}
use duto_ai.Trust.Decision.{Decision}

pub left_true : (a b : Bool) → (a && b) ≡ true → a ≡ true
left_true true b h = refl
left_true false b h = cc

pub right_true : (a b : Bool) → (a && b) ≡ true → b ≡ true
right_true true b h = h
right_true false b h = cc

module _ (bundle : Bundle) (manifest : Manifest) (decision : Decision) (policy : Publication) where
  -- What the switch on the kind leaves of an operation, and what it adds.
  pub record Kinded (e : Envelope) (operation : Operation) : Type 0 where
    pub request_id : operation.request_id ≡ e.request_id
    pub kind : operation.kind ≡ e.kind
    pub conversation : operation.correlation_key ≡ e.correlation_key
    pub owner : operation.repository_owner ≡ e.repository.owner
    pub name : operation.repository_name ≡ e.repository.name
    pub commit : operation.source_commit ≡ e.source_commit
    pub target :
        ((e.kind ≡ reply_kind) × (operation.target_ref ≡ ""))
        ⊎ (((e.kind ≡ branch_kind) ⊎ (e.kind ≡ pr_kind))
            × (operation.target_ref ≡ expected_ref policy decision))

  validate_reply_operation-Kinded :
      (e : Envelope) {operation : Operation}
      → e.kind ≡ reply_kind
      → validate_reply_operation bundle manifest decision policy e
          (operation_of bundle manifest decision policy e)
        ≡ ok operation
      → Kinded e operation
  unfolding validate_reply_operation
  validate_reply_operation-Kinded e k h =
      let (part, decoded, h1) =
        >>=-eq-ok (or_rejected (bundle.reply_part e.preconditions e.payload)) _ h in
      let (valid, h2) = require->> _ rejected _ h1 in
      subst (Kinded e) (ok-injective h2) (record {
        request_id = refl;
        kind = refl;
        conversation = refl;
        owner = refl;
        name = refl;
        commit = refl;
        target = inl (k, refl);
      })

  validate_branch_operation-Kinded :
      (e : Envelope) {operation : Operation}
      → e.kind ≡ branch_kind
      → validate_branch_operation bundle manifest decision policy e
          (operation_of bundle manifest decision policy e)
        ≡ ok operation
      → Kinded e operation
  unfolding validate_branch_operation
  validate_branch_operation-Kinded e k h =
      let (part, decoded, h1) =
        >>=-eq-ok (or_rejected (bundle.branch_part e.preconditions e.payload)) _ h in
      let (valid, h2) =
        require->>
          (str_eq part.target_state "absent"
            && str_eq part.target_ref (expected_ref policy decision)
            && not (str_eq part.target_ref e.base.ref))
          rejected _ h1 in
      let at : str_eq part.target_ref (expected_ref policy decision) ≡ true =
        right_true _ _ (left_true _ _ valid) in
      subst (Kinded e) (ok-injective h2) (record {
        request_id = refl;
        kind = refl;
        conversation = refl;
        owner = refl;
        name = refl;
        commit = refl;
        target = inr (inl k, str_eq-true part.target_ref (expected_ref policy decision) at);
      })

  validate_draft_operation-Kinded :
      (e : Envelope) {operation : Operation}
      → e.kind ≡ pr_kind
      → validate_draft_operation bundle manifest decision policy e
          (operation_of bundle manifest decision policy e)
        ≡ ok operation
      → Kinded e operation
  unfolding validate_draft_operation
  validate_draft_operation-Kinded e k h =
      let (part, decoded, h1) =
        >>=-eq-ok (or_rejected (bundle.draft_part e.preconditions e.payload)) _ h in
      let (valid, h2) = require->> _ rejected _ h1 in
      let at : str_eq part.head_ref (expected_ref policy decision) ≡ true =
        left_true _ _ (left_true _ _ (left_true _ _ (left_true _ _ valid))) in
      subst (Kinded e) (ok-injective h2) (record {
        request_id = refl;
        kind = refl;
        conversation = refl;
        owner = refl;
        name = refl;
        commit = refl;
        target = inr (inr k, str_eq-true part.head_ref (expected_ref policy decision) at);
      })

  pub validate_kind-Kinded :
      (e : Envelope) {operation : Operation}
      → validate_kind bundle manifest decision policy e ≡ ok operation
      → Kinded e operation
  unfolding validate_kind
  validate_kind-Kinded e {operation} h = elim (Bool-cases (str_eq e.kind reply_kind)) [
    | inl r ↦ validate_reply_operation-Kinded e (str_eq-true e.kind reply_kind r) (rw r at h)
    | inr r ↦ elim (Bool-cases (str_eq e.kind branch_kind)) [
      | inl b ↦
          validate_branch_operation-Kinded e (str_eq-true e.kind branch_kind b)
            (rw b at (rw r at h))
      | inr b ↦ elim (Bool-cases (str_eq e.kind pr_kind)) [
        | inl p ↦
            validate_draft_operation-Kinded e (str_eq-true e.kind pr_kind p)
              (rw p at (rw b at (rw r at h)))
        | inr p ↦
            let refused : ◌≡◌ {A = Result Failure Operation} (err rejected) (ok operation) =
              rw p at (rw b at (rw r at h)) in
            absurd (cc)
      ]
    ]
  ]
