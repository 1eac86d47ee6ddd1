-- ===== src/Examples/Publications.antt =====
-- Publications at concrete inputs.
use duto_ai.Prelude.{String, true, none, some, [], ◌∷◌, ◌≡◌, refl, All, ◌⊎◌}
use duto_ai.Prelude.Int.{ℤ, pos}
use duto_ai.Publisher.{
  conflict, Operation, Verified, Published, publish, preflight_from, receipt_of,
}
use duto_ai.Publisher.FileRemote.{Disk, works, unwritable, file_remote, branch_kind, pr_kind}
use duto_ai.Publisher.FileRemote.Lawfulness.{IsOperationSet, branch_set, holds_file, file_laws}
use duto_ai.Publisher.FileRemote.Conflicts.{Free, publish_on_conflict}
use duto_ai.Publisher.Outcome.{publish-Holding, publish_again}

abbrev print : ℤ → String
print n = "7"

abbrev run_id : String → String
run_id digest = "publish-0011223344556677"

abbrev branch : Operation
branch = record {
  request_id = "r1";
  correlation_key = "c";
  kind = branch_kind;
  repository_owner = "o";
  repository_name = "n";
  origin_number = pos 7;
  target_ref = "refs/heads/duto/m3/c";
  source_commit = "abc";
  pr_title = "";
  payload_sha256 = "p1";
}

abbrev pull_request : Operation
pull_request = record branch {
  request_id = "r2";
  kind = pr_kind;
  pr_title = "Fix";
  payload_sha256 = "p2";
}

abbrev verified : Verified
verified = record {
  bundle_sha256 = "b";
  plan_sha256 = "p";
  policy_sha256 = "q";
  repository_id = "1";
  operation_set = "branch-pr";
  operations = branch ∷ pull_request ∷ [];
}

verified_set : IsOperationSet verified.operations
verified_set = branch_set branch pull_request refl refl

abbrev empty_disk : Disk
empty_disk = record { state = record { replies = []; branches = []; prs = [] }; faults = [] }

abbrev first_run : Published Disk
first_run = publish (file_remote print) run_id verified empty_disk

first_passes : first_run.failure ≡ none
unfolding publish file_remote
first_passes = refl

publish-Holding_example :
    All (λ operation. holds_file operation first_run.remote ≡ true) verified.operations
publish-Holding_example =
    publish-Holding (file_remote print) run_id verified
      (file_laws print verified.operations verified_set) empty_disk first_passes

-- The branch is stored, and then the pull request cannot be written.
abbrev faulty_disk : Disk
faulty_disk = record empty_disk { faults = works ∷ works ∷ works ∷ unwritable ∷ [] }

faulty_fails : (publish (file_remote print) run_id verified faulty_disk).failure ≡ some conflict
unfolding publish file_remote
faulty_fails = refl

second_passes : (publish (file_remote print) run_id verified first_run.remote).failure ≡ none
unfolding publish file_remote
second_passes = refl

publish_again_example :
    ((publish (file_remote print) run_id verified first_run.remote).receipt.disposition
      ≡ "unchanged")
    × ((publish (file_remote print) run_id verified first_run.remote).remote
        ≡ (preflight_from
            (file_remote print)
            0
            verified.operations
            (receipt_of run_id verified)
            first_run.remote).remote)
publish_again_example =
    publish_again (file_remote print) run_id verified
      (file_laws print verified.operations verified_set) empty_disk first_run.remote first_passes
      (λ operation m h. h) second_passes

-- A branch of another commit is there.
abbrev taken_disk : Disk
taken_disk = record empty_disk {
  state = record { replies = []; branches = ("refs/heads/duto/m3/c", "fff") ∷ []; prs = [] };
}

taken_fails : (publish (file_remote print) run_id verified taken_disk).failure ≡ some conflict
unfolding publish file_remote
taken_fails = refl

publish_on_conflict_example :
    ((publish (file_remote print) run_id verified taken_disk).remote.state ≡ taken_disk.state)
    ⊎ All (Free taken_disk.state) verified.operations
publish_on_conflict_example = publish_on_conflict print run_id verified taken_disk
