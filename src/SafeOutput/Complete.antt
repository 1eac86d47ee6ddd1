-- ===== src/SafeOutput/Complete.antt =====
-- What a snapshot of a collector that calls reached holds (Snapshot in
-- internal/safeoutput/safeoutput.go).
use duto_ai.Prelude.{
  String, Bool, true, false, ◌&&◌, ◌||◌, not, List, [], ◌∷◌, ◌++◌, ◌≡◌, refl, sym, ap, ◌∙◌, subst,
  arith, str_eq, str_eq-true, Bool-cases, ok, require->>, >>=-eq-ok, ok-injective, ◌⊎◌, inl, inr,
}
use duto_ai.SafeOutput.{
  invalid_request, incomplete_set, Policy, Source, Envelope, Snapshot, Collector, Codec,
  invalid_text, envelope, staged_branch, draft_pr, set_recovery, head_ref, complete_with,
  is_complete, snapshot,
}
use duto_ai.SafeOutput.Runs.{
  Reached, created, replied, branched, requested, recovered, Staged, nothing, one_reply, one_branch,
  both, Inv, created-Inv, replied-Inv, branched-Inv, both_true, not_second,
}
use duto_ai.SafeOutput.Envelopes.{IsReply, IsBranch, IsDraft, envelope-Says}

second_true : (a b : Bool) → (a && b) ≡ true → b ≡ true
second_true true b h = h
second_true false b h = cc

staged_branch-ok :
    (es : List Envelope) {b : Envelope}
    → staged_branch es ≡ ok b
    → (es ≡ b ∷ []) × (str_eq b.kind "git.branch.publish" ≡ true)
staged_branch-ok [] h = cc
staged_branch-ok (e ∷ []) {b} h = split (Bool-cases (str_eq e.kind "git.branch.publish"))
  where
    split :
        ((str_eq e.kind "git.branch.publish" ≡ true) ⊎ (str_eq e.kind "git.branch.publish" ≡ false))
        → ◌≡◌ {A = List Envelope} (e ∷ []) (b ∷ []) × (str_eq b.kind "git.branch.publish" ≡ true)
    split (inl k) =
        let same : e ≡ b = ok-injective (rw k at h) in
        (
          ap (λ x. x ∷ []) same,
          ap (λ (x : Envelope). str_eq x.kind "git.branch.publish") (sym same) ∙ k,
        )
    split (inr k) = absurd (cc (rw k at h))
staged_branch-ok (e ∷ f ∷ es) h = cc

module _ (codec : Codec) where
  -- The one branch of a collector.
  only-IsBranch :
      (p : Policy) (c : Collector) (b : Envelope)
      → Staged codec p c.operations c.source
      → c.operations ≡ b ∷ []
      → p.operation_set ≡ "branch-pr"
      → IsBranch codec p c.source b
  only-IsBranch p c b (nothing e) same set = cc
  only-IsBranch p c b (one_reply e is r) same set =
      absurd (cc (ap (λ s. str_eq s "branch-pr") set, ap (λ s. str_eq s "branch-pr") r.set))
  only-IsBranch p c b (one_branch e is r) same set =
      subst (IsBranch codec p c.source) (head_of (sym is ∙ same)) r
    where
      head_of : ◌≡◌ {A = List Envelope} (e ∷ []) (b ∷ []) → e ≡ b
      head_of h = cc
  only-IsBranch p c b (both e f is r s) same set = absurd (cc (is, same))

  requested-Inv :
      (p : Policy) (c d : Collector) (run title body id : String)
      → Inv codec p c
      → draft_pr codec c run title body ≡ ok (d, id)
      → Inv codec p d
  unfolding draft_pr
  requested-Inv p c d run title body id i h =
      let (valid, h1) =
        require->>
          (str_eq c.policy.operation_set "branch-pr"
            && not (invalid_text codec title c.policy.max_pr_title_bytes)
            && not (invalid_text codec body c.policy.max_pr_body_bytes))
          invalid_request _ h in
      let (b, found, h2) = >>=-eq-ok (staged_branch c.operations) _ h1 in
      let (commit, h3) = require->> (not (str_eq c.source.commit "")) invalid_request _ h2 in
      let (one, kind) = staged_branch-ok c.operations found in
      let first = both_true _ _ valid in
      let set : p.operation_set ≡ "branch-pr" =
        ap (λ (q : Policy). q.operation_set) (sym i.same)
        ∙ str_eq-true _ "branch-pr" (both_true _ _ first) in
      let sent : Envelope =
        envelope codec c.policy run "pull_request.create_draft" c.source.commit (b.request_id ∷ [])
          (codec.draft_json (head_ref c.policy)) (codec.pr_json title body) in
      let draft : IsDraft codec c.policy c.source b sent = record {
        title = title;
        body = body;
        title_bounded = not_second _ _ first;
        body_bounded = not_second _ _ valid;
        says =
            envelope-Says codec c.policy run "pull_request.create_draft" c.source.commit
              (b.request_id ∷ []) (codec.draft_json (head_ref c.policy)) (codec.pr_json title body);
      } in
      subst (Inv codec p) (ap (λ (q : Collector × String). q.0) (ok-injective h3)) (record {
        same = i.same;
        staged =
            both b sent (ap (λ es. es ++ sent ∷ []) one) (only-IsBranch p c b i.staged one set)
              (subst (λ q. IsDraft codec q c.source b sent) i.same draft);
      })

  recovered-Inv :
      (p : Policy) (c d : Collector) (metadata patch : String)
      → Inv codec p c
      → set_recovery c metadata patch ≡ ok d
      → Inv codec p d
  unfolding set_recovery
  recovered-Inv p c d metadata patch i h =
      let (some_bytes, h1) =
        require->> (not (str_eq metadata "" || str_eq patch "")) invalid_request _ h in
      let (fresh, h2) =
        require->> (str_eq c.recovery_metadata "" && str_eq c.recovery_patch "") invalid_request _
          h1 in
      subst (Inv codec p) (ok-injective h2) (record { same = i.same; staged = i.staged })

  -- Every collector that calls reach is in order.
  Reached-Inv : (p : Policy) (c : Collector) → Reached codec p c → Inv codec p c
  Reached-Inv p c (created _ e) = created-Inv codec p c e
  Reached-Inv p d (replied c _ run body id r e) =
      replied-Inv codec p c d run body id (Reached-Inv p c r) e
  Reached-Inv p d (branched c _ run id found r e) =
      branched-Inv codec p c d run id found (Reached-Inv p c r) e
  Reached-Inv p d (requested c _ run title body id r e) =
      requested-Inv p c d run title body id (Reached-Inv p c r) e
  Reached-Inv p d (recovered c _ metadata patch r e) =
      recovered-Inv p c d metadata patch (Reached-Inv p c r) e

  -- The operations of a snapshot are those of the policy's operation set, all of this run.
  pub data IsSetOf (p : Policy) (run : String) (s : Snapshot) : Type 0 where
    no_operations : p.operation_set ≡ "none" → s.operations ≡ [] → IsSetOf p run s
    reply_only :
        (e : Envelope)
        → s.operations ≡ e ∷ []
        → IsReply codec p e
        → str_eq e.run_id run ≡ true
        → IsSetOf p run s
    branch_and_draft :
        (source : Source) (b e : Envelope)
        → s.operations ≡ b ∷ e ∷ []
        → IsBranch codec p source b
        → IsDraft codec p source b e
        → str_eq b.run_id run ≡ true
        → str_eq e.run_id run ≡ true
        → s.source_bundle ≡ source.bundle
        → IsSetOf p run s

  complete_none : (set run : String) → complete_with set [] run ≡ true → set ≡ "none"
  unfolding complete_with
  complete_none set run h = elim (Bool-cases (str_eq set "none")) [
    | inl e ↦ str_eq-true set "none" e
    | inr e ↦ let impossible : false ≡ true = ground (arith, h, e) in absurd (cc)
  ]

  complete_reply :
      (e : Envelope) (run : String)
      → complete_with "conversation-reply" (e ∷ []) run ≡ true
      → str_eq e.run_id run ≡ true
  unfolding complete_with
  complete_reply e run h = second_true _ _ h

  complete_branch :
      (b e : Envelope) (run : String)
      → complete_with "branch-pr" (b ∷ e ∷ []) run ≡ true
      → (str_eq b.run_id run ≡ true) × (str_eq e.run_id run ≡ true)
  unfolding complete_with
  complete_branch b e run h =
      let staged = both_true _ _ h in (second_true _ _ staged, second_true _ _ (second_true _ _ h))

  incomplete_branch : (b : Envelope) (run : String) → complete_with "branch-pr" (b ∷ []) run ≡ false
  unfolding complete_with
  incomplete_branch b run = refl

  set_of :
      (p : Policy) (run : String) (c : Collector) (s : Snapshot)
      → complete_with p.operation_set c.operations run ≡ true
      → s.operations ≡ c.operations
      → s.source_bundle ≡ c.source.bundle
      → Staged codec p c.operations c.source
      → IsSetOf p run s
  set_of p run c s h ops bundle (nothing empty) =
      no_operations
        (complete_none p.operation_set run
          (ap (λ es. complete_with p.operation_set es run) (sym empty) ∙ h))
        (ops ∙ empty)
  set_of p run c s h ops bundle (one_reply e one r) = reply_only e (ops ∙ one) r (
      complete_reply e run (
        ap (λ set. complete_with set (e ∷ []) run) (sym r.set)
        ∙ ap (λ es. complete_with p.operation_set es run) (sym one)
        ∙ h))
  set_of p run c s h ops bundle (one_branch b one r) = absurd (
      cc (
        incomplete_branch b run,
        ap (λ set. complete_with set (b ∷ []) run) (sym r.set)
            ∙ ap (λ es. complete_with p.operation_set es run) (sym one)
            ∙ h,
      ))
  set_of p run c s h ops bundle (both b e two r d) =
      let (first, second) = complete_branch b e run (
        ap (λ set. complete_with set (b ∷ e ∷ []) run) (sym r.set)
        ∙ ap (λ es. complete_with p.operation_set es run) (sym two)
        ∙ h) in
      branch_and_draft c.source b e (ops ∙ two) r d first second bundle

  -- Whatever calls reached a collector from one that New accepted, the snapshot of a run that
  -- succeeded has the policy's operation set, and exactly its operations, all of that run: none; or
  -- one reply within the policy's bounds; or a branch, of a commit other than the base's, and the
  -- draft pull request of that commit, within the bounds, which depends on the branch. Each field of
  -- an operation but its run, which is that run, is written out: the policy's three digests,
  -- correlation key, repository, origin and base, and the id, which is made of run, kind and payload.
  pub snapshot-IsSetOf :
      (p : Policy) (c : Collector) (run : String) {s : Snapshot}
      → Reached codec p c
      → snapshot c run true ≡ ok s
      → (s.operation_set ≡ p.operation_set) × IsSetOf p run s
  unfolding snapshot
  snapshot-IsSetOf p c run {s} r h =
      let i = Reached-Inv p c r in
      let (complete, taken) = require->> (is_complete c run) incomplete_set _ h in
      let is : (record {
        operation_set = c.policy.operation_set;
        control_json = c.policy.control_json;
        operations = c.operations;
        source_bundle = c.source.bundle;
        recovery_metadata = "";
        recovery_patch = "";
      })
          ≡ s =
        ok-injective taken in
      (
        ap (λ (t : Snapshot). t.operation_set) (sym is)
            ∙ ap (λ (q : Policy). q.operation_set) i.same,
        set_of p run c s
            (ap (λ (q : Policy). complete_with q.operation_set c.operations run) (sym i.same)
              ∙ complete)
            (ap (λ (t : Snapshot). t.operations) (sym is))
            (ap (λ (t : Snapshot). t.source_bundle) (sym is)) i.staged,
      )
