-- ===== src/SafeOutput/Runs.antt =====
-- The collectors that calls reach, and what a run's snapshot holds.
use duto_ai.Prelude.{
  String, Bool, true, false, ◌&&◌, ◌||◌, not, Option, none, some, List, [], ◌∷◌, ◌++◌, is_empty,
  ◌≡◌, refl, sym, ap, ◌∙◌, subst, arith, str_eq, str_eq-true, Result, ok, require->>, >>=-eq-ok,
  ok-injective,
}
use duto_ai.SafeOutput.{
  SafeError, invalid_request, Policy, Source, Envelope, Collector, Codec, invalid_text,
  new_collector, validate_policy, envelope, or_source, stage, reply, branch, draft_pr, set_recovery,
  head_ref,
}
use duto_ai.SafeOutput.Envelopes.{IsReply, IsBranch, IsDraft, envelope-Says}

pub both_true : (a b : Bool) → (a && b) ≡ true → a ≡ true
both_true true b h = refl
both_true false b h = cc

pub not_second : (a b : Bool) → (a && not b) ≡ true → b ≡ false
not_second true false h = refl
not_second true true h = cc
not_second false b h = cc

none_true :
    (a b c d : Bool) → not (a || b || c || d) ≡ true → (a ≡ false) × (c ≡ false) × (d ≡ false)
none_true a b c d h = ground (arith, h)

module _ (codec : Codec) where
  -- The collectors that calls reach from a new one; a call that fails leaves the collector.
  pub data Reached (p : Policy) : Collector → Type 0 where
    created : (c : Collector) → new_collector codec p ≡ ok c → Reached p c
    replied :
        (c d : Collector) (run body id : String)
        → Reached p c
        → reply codec c run body ≡ ok (d, id)
        → Reached p d
    branched :
        (c d : Collector) (run id : String) (found : Result SafeError Source)
        → Reached p c
        → branch codec c run found ≡ ok (d, id)
        → Reached p d
    requested :
        (c d : Collector) (run title body id : String)
        → Reached p c
        → draft_pr codec c run title body ≡ ok (d, id)
        → Reached p d
    recovered :
        (c d : Collector) (metadata patch : String)
        → Reached p c
        → set_recovery c metadata patch ≡ ok d
        → Reached p d

  pub data Staged (p : Policy) (operations : List Envelope) (source : Source) : Type 0 where
    nothing : operations ≡ [] → Staged p operations source
    one_reply :
        (e : Envelope) → operations ≡ e ∷ [] → IsReply codec p e → Staged p operations source
    one_branch :
        (b : Envelope)
        → operations ≡ b ∷ []
        → IsBranch codec p source b
        → Staged p operations source
    both :
        (b e : Envelope)
        → operations ≡ b ∷ e ∷ []
        → IsBranch codec p source b
        → IsDraft codec p source b e
        → Staged p operations source

  pub record Inv (p : Policy) (c : Collector) : Type 0 where
    pub same : c.policy ≡ p
    pub staged : Staged p c.operations c.source

  nil_of : (es : List Envelope) → is_empty es ≡ true → es ≡ []
  nil_of [] h = refl
  nil_of (e ∷ es) h = cc

  stage-ok :
      (c : Collector) (run kind commit : String) (depends : List String) (pre payload : String)
      (source : Option Source) {d : Collector} {id : String}
      → stage codec c run kind commit depends pre payload source ≡ ok (d, id)
      → d ≡ record c {
        operations = envelope codec c.policy run kind commit depends pre payload ∷ [];
        source = or_source source c.source;
      }
  unfolding stage
  stage-ok c run kind commit depends pre payload source {d} {id} h =
      let (r, h1) = require->> (not (str_eq run "")) invalid_request _ h in
      let (none_yet, h2) = require->> (is_empty c.operations) invalid_request _ h1 in
      let empty : c.operations ≡ [] = nil_of c.operations none_yet in
      let pair : ◌≡◌ {A = Collector × String}
          (
            record c {
              operations =
                  c.operations ++ envelope codec c.policy run kind commit depends pre payload ∷ [];
              source = or_source source c.source;
            },
            codec.request_id run kind payload,
          )
          (d, id) =
        ok-injective h2 in
      sym (ap (λ (q : Collector × String). q.0) pair)
      ∙ ap
          (λ es. record c {
            operations = es ++ envelope codec c.policy run kind commit depends pre payload ∷ [];
            source = or_source source c.source;
          })
          empty

  pub created-Inv : (p : Policy) (c : Collector) → new_collector codec p ≡ ok c → Inv p c
  unfolding new_collector
  created-Inv p c h =
      let (u, valid, h1) = >>=-eq-ok (validate_policy codec p) _ h in
      subst (Inv p) (ok-injective h1) (record { same = refl; staged = nothing refl })

  pub replied-Inv :
      (p : Policy) (c d : Collector) (run body id : String)
      → Inv p c
      → reply codec c run body ≡ ok (d, id)
      → Inv p d
  unfolding reply
  replied-Inv p c d run body id i h =
      let (valid, h1) =
        require->>
          (str_eq c.policy.operation_set "conversation-reply"
            && not (invalid_text codec body c.policy.max_reply_bytes))
          invalid_request _ h in
      let new =
        stage-ok c run "conversation.reply" c.policy.base.sha [] codec.open_json
          (codec.reply_json body) none h1 in
      let set : str_eq c.policy.operation_set "conversation-reply" ≡ true = both_true _ _ valid in
      let bounded : invalid_text codec body c.policy.max_reply_bytes ≡ false =
        not_second _ _ valid in
      subst (Inv p) (sym new) (record {
        same = i.same;
        staged =
            one_reply
              (envelope codec c.policy run "conversation.reply" c.policy.base.sha [] codec.open_json
                (codec.reply_json body))
              refl
              (subst
                (λ q. IsReply codec q (
                  envelope codec c.policy run "conversation.reply" c.policy.base.sha []
                    codec.open_json (codec.reply_json body)))
                i.same
                (record {
                  body = body;
                  bounded = bounded;
                  set = str_eq-true _ "conversation-reply" set;
                  says =
                      envelope-Says codec c.policy run "conversation.reply" c.policy.base.sha []
                        codec.open_json (codec.reply_json body);
                }));
      })

  pub branched-Inv :
      (p : Policy) (c d : Collector) (run id : String) (found : Result SafeError Source)
      → Inv p c
      → branch codec c run found ≡ ok (d, id)
      → Inv p d
  unfolding branch
  branched-Inv p c d run id found i h =
      let (valid, h1) =
        require->> (str_eq c.policy.operation_set "branch-pr" && c.policy.has_source)
          invalid_request _ h in
      let (source, e, h2) = >>=-eq-ok found _ h1 in
      let (usable, h3) =
        require->>
          (not (
            str_eq source.commit ""
            || str_eq source.tree ""
            || str_eq source.commit c.policy.base.sha
            || str_eq source.bundle ""))
          invalid_request _ h2 in
      let clear = none_true _ _ _ _ usable in
      let pre : String = codec.absent_json (head_ref c.policy) in
      let new = stage-ok c run "git.branch.publish" source.commit [] pre "{}" (some source) h3 in
      let set : str_eq c.policy.operation_set "branch-pr" ≡ true = both_true _ _ valid in
      subst (Inv p) (sym new) (record {
        same = i.same;
        staged =
            one_branch (envelope codec c.policy run "git.branch.publish" source.commit [] pre "{}")
              refl
              (subst
                (λ q.
                  IsBranch codec q source
                    (envelope codec c.policy run "git.branch.publish" source.commit [] pre "{}"))
                i.same
                (record {
                  set = str_eq-true _ "branch-pr" set;
                  commit = clear.0;
                  moved = clear.1;
                  bundle = clear.2;
                  says =
                      envelope-Says codec c.policy run "git.branch.publish" source.commit [] pre
                        "{}";
                }));
      })
