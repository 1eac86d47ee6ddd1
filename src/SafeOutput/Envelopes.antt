-- ===== src/SafeOutput/Envelopes.antt =====
-- What the operations of a collector say (internal/safeoutput/safeoutput.go).
use duto_ai.Prelude.{String, false, List, [], ◌∷◌, ◌≡◌, refl, str_eq}
use duto_ai.SafeOutput.{Policy, Source, Envelope, Codec, invalid_text, envelope, head_ref}

module _ (codec : Codec) where
  -- What an envelope says: the policy's digests, correlation key, repository, origin and base, and
  -- the operation itself; its id is made of its run, kind and payload.
  pub record Says (p : Policy) (of_kind at : String) (after : List String) (pre sent : String)
      (e : Envelope) : Type 0 where
    pub version : e.version ≡ 1
    pub mode : e.mode ≡ "staged"
    pub correlation_key : e.correlation_key ≡ p.correlation_key
    pub plan_sha256 : e.plan_sha256 ≡ p.plan_sha256
    pub policy_sha256 : e.policy_sha256 ≡ p.policy_sha256
    pub control_sha256 : e.control_sha256 ≡ p.control_sha256
    pub repository : e.repository ≡ p.repository
    pub origin : e.origin ≡ p.origin
    pub base : e.base ≡ p.base
    pub kind : e.kind ≡ of_kind
    pub source_commit : e.source_commit ≡ at
    pub depends_on : e.depends_on ≡ after
    pub preconditions : e.preconditions ≡ pre
    pub payload : e.payload ≡ sent
    pub request_id : e.request_id ≡ codec.request_id e.run_id of_kind sent

  pub envelope-Says :
      (p : Policy) (run kind commit : String) (depends : List String) (pre payload : String)
      → Says p kind commit depends pre payload
          (envelope codec p run kind commit depends pre payload)
  envelope-Says p run kind commit depends pre payload = record {
    version = refl;
    mode = refl;
    correlation_key = refl;
    plan_sha256 = refl;
    policy_sha256 = refl;
    control_sha256 = refl;
    repository = refl;
    origin = refl;
    base = refl;
    kind = refl;
    source_commit = refl;
    depends_on = refl;
    preconditions = refl;
    payload = refl;
    request_id = refl;
  }

  -- A reply: bound to the policy and its base, of a body within the policy's bounds.
  pub record IsReply (p : Policy) (e : Envelope) : Type 0 where
    pub body : String
    pub bounded : invalid_text codec body p.max_reply_bytes ≡ false
    pub set : p.operation_set ≡ "conversation-reply"
    pub says : Says p "conversation.reply" p.base.sha [] codec.open_json (codec.reply_json body) e

  -- The branch: a commit that is not the base's, with a bundle.
  pub record IsBranch (p : Policy) (source : Source) (e : Envelope) : Type 0 where
    pub set : p.operation_set ≡ "branch-pr"
    pub commit : str_eq source.commit "" ≡ false
    pub moved : str_eq source.commit p.base.sha ≡ false
    pub bundle : str_eq source.bundle "" ≡ false
    pub says : Says p "git.branch.publish" source.commit [] (codec.absent_json (head_ref p)) "{}" e

  -- The draft pull request: of the branch's commit, and depending on the branch.
  pub record IsDraft (p : Policy) (source : Source) (b e : Envelope) : Type 0 where
    pub title : String
    pub body : String
    pub title_bounded : invalid_text codec title p.max_pr_title_bytes ≡ false
    pub body_bounded : invalid_text codec body p.max_pr_body_bytes ≡ false
    pub says :
        Says p "pull_request.create_draft" source.commit
          (b.request_id ∷ [])
          (codec.draft_json (head_ref p))
          (codec.pr_json title body)
          e
