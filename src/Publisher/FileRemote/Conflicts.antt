-- ===== src/Publisher/FileRemote/Conflicts.antt =====
-- What a publication to a file leaves, whatever faults there are (Publish in
-- internal/publisher/publisher.go over internal/publisher/file_remote.go).
use duto_ai.Prelude.{
  ℕ, suc, String, false, List, [], ◌∷◌, ◌≡◌, refl, ap, ◌∙◌, All, str_eq, Result, ok, err,
  Bool-cases, ◌⊎◌, inl, inr,
}
use duto_ai.Prelude.Int.{ℤ}
use duto_ai.Publisher.{
  Failure, Operation, RemoteState, Remote, Receipt, Verified, Preflighted, Published,
  known_disposition, preflight_answer, preflight_from, publish, receipt_of,
}
use duto_ai.Publisher.Holding.{preflight_answer-Passed}
use duto_ai.Publisher.Outcome.{publish_failed}
use duto_ai.Publisher.FileRemote.{
  FileState, Disk, Fault, works, unreadable, unwritable, head_fault, called, judge, preflight_call,
  file_remote,
}

-- The operation is of a known kind, and its entry is free or holds what it asks for.
abbrev pub Free : FileState → Operation → Type 0
Free state operation =
    (found : RemoteState) × (judge operation state ≡ ok found)
    × (str_eq found.disposition "conflict" ≡ false)

preflight_call-ok :
    (fault : Fault) (operation : Operation) (state : FileState) {found : RemoteState}
    → preflight_call fault operation state ≡ ok found
    → judge operation state ≡ ok found
preflight_call-ok (unreadable e) operation state h = cc
preflight_call-ok works operation state h = h
preflight_call-ok unwritable operation state h = h

module _ {R : Type 0} (remote : Remote R) (i : ℕ) (operation : Operation) (receipt : Receipt)
    (r : R) where
  preflight_answer-remote :
      (answer : Result Failure RemoteState) (rest : Preflighted R)
      → ((preflight_answer remote i operation receipt r answer rest).remote ≡ r)
        ⊎ ((preflight_answer remote i operation receipt r answer rest).remote ≡ rest.remote)
  unfolding preflight_answer
  preflight_answer-remote (err e) rest = inl refl
  preflight_answer-remote (ok state) rest =
      elim (Bool-cases (known_disposition state.disposition)) [
        | inr unknown ↦ inl (rw unknown refl)
        | inl known ↦ elim (Bool-cases (str_eq state.disposition "conflict")) [
          | inl conflicts ↦ inl (rw known (rw conflicts refl))
          | inr fine ↦ inr (rw known (rw fine refl))
        ]
      ]

module _ (print : ℤ → String) where
  -- The preflight reads only.
  preflight_from-state :
      (i : ℕ) (operations : List Operation) (receipt : Receipt) (disk : Disk)
      → (preflight_from (file_remote print) i operations receipt disk).remote.state ≡ disk.state
  unfolding preflight_from file_remote
  preflight_from-state i [] receipt disk = refl
  preflight_from-state i (operation ∷ operations) receipt disk =
      let rest = preflight_from (file_remote print) (suc i) operations receipt (called disk) in
      let answer : Result Failure RemoteState =
        preflight_call (head_fault disk.faults) operation disk.state in
      elim (preflight_answer-remote (file_remote print) i operation receipt (called disk) answer
        rest) [
          | inl stopped ↦ ap (λ (d : Disk). d.state) stopped
          | inr went_on ↦
              ap (λ (d : Disk). d.state) went_on
              ∙ preflight_from-state (suc i) operations receipt (called disk)
        ]

  preflight_from-Free :
      (i : ℕ) (operations : List Operation) (receipt : Receipt) (disk : Disk)
      (states : List RemoteState)
      → (preflight_from (file_remote print) i operations receipt disk).states ≡ ok states
      → All (Free disk.state) operations
  unfolding preflight_from file_remote
  preflight_from-Free i [] receipt disk states h = tt
  preflight_from-Free i (operation ∷ operations) receipt disk states h =
      let rest = preflight_from (file_remote print) (suc i) operations receipt (called disk) in
      let answer : Result Failure RemoteState =
        preflight_call (head_fault disk.faults) operation disk.state in
      let p =
        preflight_answer-Passed (file_remote print) i operation receipt (called disk) answer rest
          states h in
      (
        (
          p.state,
          preflight_call-ok (head_fault disk.faults) operation disk.state p.answered,
          p.free,
        ),
        preflight_from-Free (suc i) operations receipt (called disk) p.tail p.others,
      )

  -- Whatever faults there are, a publication to a file leaves its state as it was, unless the entry of
  -- every operation is free or holds what the operation asks for.
  pub publish_on_conflict :
      (run_id : String → String) (v : Verified) (disk : Disk)
      → ((publish (file_remote print) run_id v disk).remote.state ≡ disk.state)
        ⊎ All (Free disk.state) v.operations
  unfolding publish
  publish_on_conflict run_id v disk =
      let p : Preflighted Disk =
        preflight_from (file_remote print) 0 v.operations (receipt_of run_id v) disk in
      split p.states refl
    where
      split :
          (found : Result Failure (List RemoteState))
          → (preflight_from (file_remote print) 0 v.operations (receipt_of run_id v) disk).states
            ≡ found
          → ((publish (file_remote print) run_id v disk).remote.state ≡ disk.state)
            ⊎ All (Free disk.state) v.operations
      split (ok states) same =
          inr (preflight_from-Free 0 v.operations (receipt_of run_id v) disk states same)
      split (err e) same = inl (
          ap (λ (q : Published Disk). q.remote.state)
            (publish_failed (file_remote print) v.operations
              (preflight_from (file_remote print) 0 v.operations (receipt_of run_id v) disk) e same)
          ∙ preflight_from-state 0 v.operations (receipt_of run_id v) disk)
