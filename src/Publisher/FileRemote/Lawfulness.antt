-- ===== src/Publisher/FileRemote/Lawfulness.antt =====
-- The remote that is a file has the laws of Publisher/Laws, for the operations of an operation set.
use duto_ai.Prelude.{
  String, Bool, true, List, [], ◌∷◌, ◌≡◌, refl, sym, ap, ◌∙◌, subst, ok, inl, inr,
}
use duto_ai.Prelude.Int.{ℤ}
use duto_ai.Publisher.{Operation, RemoteState, is_unchanged, unchanged_again}
use duto_ai.Publisher.Laws.{Lawful}
use duto_ai.Publisher.FileRemote.{
  FileState, Disk, Fault, works, unreadable, unwritable, head_fault, called, judge, change,
  preflight_call, file_remote, reply_kind, branch_kind, pr_kind,
}
use mathlib.Core.List.{Memᴰ}
use duto_ai.Publisher.FileRemote.Changes.{
  change-judge, change_branch-prs, change_pr-branches, judge_branch-same, judge_pr-same,
  stored-cases, stored-ok,
}

-- A reply, or a branch and a draft pull request.
pub data IsOperationSet : List Operation → Type 0 where
  reply_set : (reply : Operation) → reply.kind ≡ reply_kind → IsOperationSet (reply ∷ [])
  branch_set :
      (branch pr : Operation)
      → branch.kind ≡ branch_kind
      → pr.kind ≡ pr_kind
      → IsOperationSet (branch ∷ pr ∷ [])

abbrev pub holds_file : Operation → Disk → Bool
holds_file operation disk = unchanged_again (judge operation disk.state)

-- Of two operations of a set, the second is the first, or one is the branch and the other the pull
-- request.
data Pair (first second : Operation) : Type 0 where
  twice : second ≡ first → Pair first second
  branch_first : first.kind ≡ branch_kind → second.kind ≡ pr_kind → Pair first second
  pr_first : first.kind ≡ pr_kind → second.kind ≡ branch_kind → Pair first second

of_set :
    (operations : List Operation) (first second : Operation)
    → IsOperationSet operations
    → Memᴰ first operations
    → Memᴰ second operations
    → Pair first second
of_set operations first second (reply_set reply k) (Memᴰ.head e) (Memᴰ.head f) = twice (f ∙ sym e)
of_set operations first second (reply_set reply k) (Memᴰ.head e) (Memᴰ.tail n) = elim n [ ]
of_set operations first second (reply_set reply k) (Memᴰ.tail m) n = elim m [ ]
of_set operations first second (branch_set branch pr k l) (Memᴰ.head e) (Memᴰ.tail (Memᴰ.tail n)) =
    elim n [ ]
of_set operations first second (branch_set branch pr k l) (Memᴰ.tail (Memᴰ.head e))
      (Memᴰ.tail (Memᴰ.tail n)) =
    elim n [ ]
of_set operations first second (branch_set branch pr k l) (Memᴰ.tail (Memᴰ.tail m)) n = elim m [ ]
of_set operations first second (branch_set branch pr k l) (Memᴰ.head e) (Memᴰ.head f) =
    twice (f ∙ sym e)
of_set operations first second (branch_set branch pr k l) (Memᴰ.head e) (Memᴰ.tail (Memᴰ.head f)) =
    branch_first (ap (λ (o : Operation). o.kind) e ∙ k) (ap (λ (o : Operation). o.kind) f ∙ l)
of_set operations first second (branch_set branch pr k l) (Memᴰ.tail (Memᴰ.head e)) (Memᴰ.head f) =
    pr_first (ap (λ (o : Operation). o.kind) e ∙ l) (ap (λ (o : Operation). o.kind) f ∙ k)
of_set operations first second (branch_set branch pr k l) (Memᴰ.tail (Memᴰ.head e))
      (Memᴰ.tail (Memᴰ.head f)) =
    twice (f ∙ sym e)

kept_change :
    (print : ℤ → String) (first second : Operation) (state : FileState) {resource : String}
    {out : FileState}
    → Pair first second
    → change print second state ≡ ok (resource, out)
    → unchanged_again (judge first state) ≡ true
    → unchanged_again (judge first out) ≡ true
kept_change print first second state {out = out} (twice e) c h =
    subst (λ o. unchanged_again (judge o out) ≡ true) e (change-judge print second state c)
kept_change print first second state {out = out} (branch_first k l) c h =
    ap unchanged_again
      (judge_branch-same first out state k (change_pr-branches print second state l c))
    ∙ h
kept_change print first second state {out = out} (pr_first k l) c h =
    ap unchanged_again (judge_pr-same first out state k (change_branch-prs print second state l c))
    ∙ h

module _ (print : ℤ → String) (operations : List Operation) (set : IsOperationSet operations) where
  pub kept_file :
      (operation applied_after : Operation) (disk : Disk)
      → Memᴰ operation operations
      → Memᴰ applied_after operations
      → holds_file operation disk ≡ true
      → holds_file operation ((file_remote print).apply applied_after disk).1 ≡ true
  unfolding file_remote
  kept_file operation applied_after disk m n h =
      elim (stored-cases (head_fault disk.faults) (change print applied_after disk.state)
        (called disk)) [
          | inl same ↦ ap (λ s. unchanged_again (judge operation s)) same ∙ h
          | inr (resource, changed) ↦
              kept_change print operation applied_after disk.state
                (of_set operations operation applied_after set m n) changed h
        ]

  pub applied_file :
      (operation : Operation) (disk : Disk) (resource : String)
      → ((file_remote print).apply operation disk).0 ≡ ok resource
      → holds_file operation ((file_remote print).apply operation disk).1 ≡ true
  unfolding file_remote
  applied_file operation disk resource h =
      change-judge print operation disk.state
        (stored-ok (head_fault disk.faults) (change print operation disk.state) (called disk) h)

  pub answers_file :
      (operation : Operation) (disk : Disk) (state : RemoteState)
      → ((file_remote print).preflight operation disk).0 ≡ ok state
      → is_unchanged state ≡ holds_file operation disk
  unfolding file_remote unchanged_again
  answers_file operation disk state h = split (head_fault disk.faults) h
    where
      judged :
          judge operation disk.state ≡ ok state → is_unchanged state ≡ holds_file operation disk
      judged e = sym (ap unchanged_again e)

      split :
          (fault : Fault)
          → preflight_call fault operation disk.state ≡ ok state
          → is_unchanged state ≡ holds_file operation disk
      split (unreadable e) k = cc
      split works k = judged k
      split unwritable k = judged k

  pub reads_file :
      (operation asked : Operation) (disk : Disk)
      → holds_file operation ((file_remote print).preflight asked disk).1
        ≡ holds_file operation disk
  unfolding file_remote
  reads_file operation asked disk = refl

  abbrev pub file_laws : Lawful (file_remote print) operations
  file_laws = record {
    holds = holds_file;
    reads = reads_file;
    answers = answers_file;
    applied = λ operation disk resource m h. applied_file operation disk resource h;
    kept = kept_file;
  }
