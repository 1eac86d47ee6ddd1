-- ===== src/Publisher/FileRemote/Changes.antt =====
-- What an application to a file changes, and what its preflight then finds
-- (internal/publisher/file_remote.go).
use duto_ai.Prelude.{
  String, true, false, ◌≡◌, refl, sym, ap, subst, str_eq, eq_refl, Result, ok, err, Bool-cases, ◌⊎◌,
  inl, inr,
}
use duto_ai.Prelude.Int.{ℤ}
use duto_ai.Prelude.Keys.{lookup, lookup-insert}
use duto_ai.Publisher.{Failure, rejected, conflict, Operation, unchanged_again}
use duto_ai.Publisher.FileRemote.{
  FileState, Disk, Fault, works, unreadable, unwritable, judge, judge_branch, judge_pr, change,
  put_reply, put_branch, put_pr, or_empty, stored, reply_kind, branch_kind, pr_kind,
}

module _ (print : ℤ → String) (operation : Operation) (state : FileState) where
  -- What is put is found again.
  judge-put_reply :
      str_eq operation.kind reply_kind ≡ true
      → unchanged_again (judge operation (put_reply print operation state)) ≡ true
  unfolding judge unchanged_again
  judge-put_reply e = rw e (
      rw (lookup-insert operation.correlation_key operation.correlation_key _ state.replies)
        (rw (eq_refl operation.correlation_key) (rw (eq_refl operation.payload_sha256) refl)))

  judge-put_branch :
      str_eq operation.kind reply_kind ≡ false
      → str_eq operation.kind branch_kind ≡ true
      → unchanged_again (judge operation (put_branch print operation state)) ≡ true
  unfolding judge unchanged_again
  judge-put_branch r e = rw r (
      rw e (
        rw
          (lookup-insert operation.target_ref operation.target_ref operation.source_commit
            state.branches)
          (rw (eq_refl operation.target_ref) (rw (eq_refl operation.source_commit) refl))))

  judge-put_pr :
      str_eq operation.kind reply_kind ≡ false
      → str_eq operation.kind branch_kind ≡ false
      → str_eq operation.kind pr_kind ≡ true
      → unchanged_again (judge operation (put_pr print operation state)) ≡ true
  unfolding judge unchanged_again
  judge-put_pr r b e = rw r (
      rw b (
        rw e (
          rw (lookup-insert operation.target_ref operation.target_ref _ state.prs) (
            rw (eq_refl operation.target_ref) (
              rw (eq_refl operation.source_commit)
                (rw (eq_refl operation.pr_title) (rw (eq_refl operation.payload_sha256) refl)))))))

  -- What a change is.
  data Changed : FileState → Type 0 where
    replied :
        (out : FileState)
        → str_eq operation.kind reply_kind ≡ true
        → out ≡ put_reply print operation state
        → Changed out
    branched :
        (out : FileState)
        → str_eq operation.kind reply_kind ≡ false
        → str_eq operation.kind branch_kind ≡ true
        → out ≡ put_branch print operation state
        → Changed out
    requested :
        (out : FileState)
        → str_eq operation.kind reply_kind ≡ false
        → str_eq operation.kind branch_kind ≡ false
        → str_eq operation.kind pr_kind ≡ true
        → out ≡ put_pr print operation state
        → Changed out

  change-Changed :
      {resource : String} {out : FileState}
      → change print operation state ≡ ok (resource, out)
      → Changed out
  unfolding change
  change-Changed {resource} {out} h = elim (Bool-cases (str_eq operation.kind reply_kind)) [
    | inl r ↦ replied out r (written (rw r at h))
    | inr r ↦ elim (Bool-cases (str_eq operation.kind branch_kind)) [
      | inl b ↦ branched out r b (written (rw b at (rw r at h)))
      | inr b ↦ elim (Bool-cases (str_eq operation.kind pr_kind)) [
        | inr p ↦
            let refused : ◌≡◌ {A = Result Failure (String × FileState)} (err rejected)
                (ok (resource, out)) =
              rw p at (rw b at (rw r at h)) in
            absurd (cc)
        | inl p ↦
            elim (Bool-cases (
              str_eq (or_empty (lookup operation.target_ref state.branches))
                operation.source_commit)) [
                  | inl s ↦ requested out r b p (written (rw s at (rw p at (rw b at (rw r at h)))))
                  | inr s ↦
                      let refused : ◌≡◌ {A = Result Failure (String × FileState)} (err conflict)
                          (ok (resource, out)) =
                        rw s at (rw p at (rw b at (rw r at h))) in
                      absurd (cc)
                ]
      ]
    ]
  ]
    where
      written :
          {url : String} {new : FileState}
          → ◌≡◌ {A = Result Failure (String × FileState)} (ok (url, new)) (ok (resource, out))
          → out ≡ new
      written e = cc

  pub change-judge :
      {resource : String} {out : FileState}
      → change print operation state ≡ ok (resource, out)
      → unchanged_again (judge operation out) ≡ true
  change-judge h = split (change-Changed h)
    where
      split : {out : FileState} → Changed out → unchanged_again (judge operation out) ≡ true
      split (replied _ r same) =
          subst (λ s. unchanged_again (judge operation s) ≡ true) (sym same) (judge-put_reply r)
      split (branched _ r b same) =
          subst (λ s. unchanged_again (judge operation s) ≡ true) (sym same) (judge-put_branch r b)
      split (requested _ r b p same) =
          subst (λ s. unchanged_again (judge operation s) ≡ true) (sym same) (judge-put_pr r b p)

  -- A change leaves the other maps.
  pub change_branch-prs :
      {resource : String} {out : FileState}
      → operation.kind ≡ branch_kind
      → change print operation state ≡ ok (resource, out)
      → out.prs ≡ state.prs
  change_branch-prs k h = split (change-Changed h)
    where
      split : {out : FileState} → Changed out → out.prs ≡ state.prs
      split (replied _ r same) = ap (λ (s : FileState). s.prs) same
      split (branched _ r b same) = ap (λ (s : FileState). s.prs) same
      split (requested _ r b p same) = absurd (cc (b, ap (λ kind. str_eq kind branch_kind) k))

  pub change_pr-branches :
      {resource : String} {out : FileState}
      → operation.kind ≡ pr_kind
      → change print operation state ≡ ok (resource, out)
      → out.branches ≡ state.branches
  change_pr-branches k h = split (change-Changed h)
    where
      split : {out : FileState} → Changed out → out.branches ≡ state.branches
      split (replied _ r same) = ap (λ (s : FileState). s.branches) same
      split (branched _ r b same) = absurd (cc (b, ap (λ kind. str_eq kind branch_kind) k))
      split (requested _ r b p same) = ap (λ (s : FileState). s.branches) same

pub judge_branch-same :
    (operation : Operation) (s t : FileState)
    → operation.kind ≡ branch_kind
    → s.branches ≡ t.branches
    → judge operation s ≡ judge operation t
unfolding judge
judge_branch-same operation s t k same =
    let r : str_eq operation.kind reply_kind ≡ false = ap (λ kind. str_eq kind reply_kind) k in
    let b : str_eq operation.kind branch_kind ≡ true = ap (λ kind. str_eq kind branch_kind) k in
    rw r (rw b (ap (λ m. ok (judge_branch (lookup operation.target_ref m) operation)) same))

pub judge_pr-same :
    (operation : Operation) (s t : FileState)
    → operation.kind ≡ pr_kind
    → s.prs ≡ t.prs
    → judge operation s ≡ judge operation t
unfolding judge
judge_pr-same operation s t k same =
    let r : str_eq operation.kind reply_kind ≡ false = ap (λ kind. str_eq kind reply_kind) k in
    let b : str_eq operation.kind branch_kind ≡ false = ap (λ kind. str_eq kind branch_kind) k in
    let p : str_eq operation.kind pr_kind ≡ true = ap (λ kind. str_eq kind pr_kind) k in
    rw r (rw b (rw p (ap (λ m. ok (judge_pr (lookup operation.target_ref m) operation)) same)))

-- What a call stores is nothing new, or the change.
pub stored-cases :
    (fault : Fault) (result : Result Failure (String × FileState)) (disk : Disk)
    → ((stored fault result disk).1.state ≡ disk.state)
      ⊎ ((resource : String) × (result ≡ ok (resource, (stored fault result disk).1.state)))
stored-cases (unreadable e) result disk = inl refl
stored-cases works (err e) disk = inl refl
stored-cases works (ok (resource, state)) disk = inr (resource, refl)
stored-cases unwritable (err e) disk = inl refl
stored-cases unwritable (ok (resource, state)) disk = inl refl

pub stored-ok :
    (fault : Fault) (result : Result Failure (String × FileState)) (disk : Disk) {resource : String}
    → (stored fault result disk).0 ≡ ok resource
    → result ≡ ok (resource, (stored fault result disk).1.state)
stored-ok (unreadable e) result disk h = cc
stored-ok works (err e) disk h = cc
stored-ok works (ok (resource, state)) disk h = cc
stored-ok unwritable (err e) disk h = cc
stored-ok unwritable (ok (resource, state)) disk h = cc
