-- ===== src/Publisher/Outcome.antt =====
-- What a publication does to a remote, at any remote with the laws of Publisher/Laws (Publish in
-- internal/publisher/publisher.go).
use duto_ai.Prelude.{
  ℕ, suc, String, true, false, Option, none, some, List, [], ◌∷◌, ◌≡◌, refl, sym, ap, ◌∙◌, subst,
  arith, Result, ok, err, All, Bool-cases, inl, inr,
}
use duto_ai.Publisher.{
  Failure, Operation, RemoteState, Remote, Receipt, Verified, Preflighted, Published, receipt_of,
  all_unchanged, preflight_from, apply_from, unchanged_from, unless_failed, finish, publish_states,
  publish,
}
use duto_ai.Publisher.Laws.{Lawful}
use duto_ai.Publisher.Again.{Finished, apply_from-Finished}
use duto_ai.Publisher.Holding.{
  preflight_from-Reading, Matched-Found, Matched-All, All-unchanged, all_unchanged-at,
}
use mathlib.Core.List.{Memᴰ}

unchanged_from-disposition :
    (i : ℕ) (operations : List Operation) (states : List RemoteState) (receipt : Receipt)
    → (unchanged_from i operations states receipt).disposition ≡ receipt.disposition
unfolding unchanged_from
unchanged_from-disposition i [] states receipt = refl
unchanged_from-disposition i (operation ∷ operations) states receipt =
    unchanged_from-disposition (suc i) operations states _

-- The results of a publication by what its preflight found.
module _ {R : Type 0} (remote : Remote R) (operations : List Operation) (p : Preflighted R) where
  pub publish_failed :
      (e : Failure)
      → p.states ≡ err e
      → publish_states remote operations p
        ≡ record { failure = some e; receipt = p.receipt; remote = p.remote }
  unfolding publish_states
  publish_failed e same = rw (same, publish_states) refl

  publish_idle :
      (states : List RemoteState)
      → p.states ≡ ok states
      → all_unchanged states ≡ true
      → publish_states remote operations p ≡ record {
        failure = none;
        receipt =
            unchanged_from 0 operations states (record p.receipt { disposition = "unchanged" });
        remote = p.remote;
      }
  unfolding publish_states
  publish_idle states same u = rw (same, publish_states) (rw u refl)

  publish_busy :
      (states : List RemoteState)
      → p.states ≡ ok states
      → all_unchanged states ≡ false
      → publish_states remote operations p
        ≡ finish (apply_from remote 0 operations states p.receipt p.remote)
  unfolding publish_states
  publish_busy states same u = rw (same, publish_states) (rw u refl)

finish_passed :
    {R : Type 0} (p : Published R)
    → (finish p).failure ≡ none
    → (p.failure ≡ none) × ((finish p).remote ≡ p.remote)
finish_passed {R} p h = split p.failure refl h
  where
    split :
        (o : Option Failure)
        → p.failure ≡ o
        → (unless_failed o p
            (record p { receipt = record p.receipt { disposition = "applied" } })).failure
          ≡ none
        → (p.failure ≡ none) × ((finish p).remote ≡ p.remote)
    split none same f = (
      same,
      ap
          (λ o.
            (unless_failed o p
              (record p { receipt = record p.receipt { disposition = "applied" } })).remote)
          same,
    )
    split (some e) same f = cc

refused {ℓ} : {A : Type ℓ} (e : Failure) → ◌≡◌ {A = Option Failure} (some e) none → A
refused e h = cc

module _ {R : Type 0} (remote : Remote R) (run_id : String → String) (v : Verified)
    (laws : Lawful remote v.operations) where
  abbrev Holding : R → Type 0
  Holding r = All (λ operation. laws.holds operation r ≡ true) v.operations

  abbrev preflight_at : R → Preflighted R
  preflight_at r = preflight_from remote 0 v.operations (receipt_of run_id v) r

  idle-Holding :
      (r : R) (states : List RemoteState)
      → (preflight_at r).states ≡ ok states
      → all_unchanged states ≡ true
      → (publish remote run_id v r).failure ≡ none
      → Holding (publish remote run_id v r).remote
  unfolding publish
  idle-Holding r states same u f =
      let reading =
        preflight_from-Reading remote v.operations laws 0 v.operations (receipt_of run_id v) r
          states same in
      let out : R = (preflight_at r).remote in
      let found =
        Matched-All remote v.operations laws r 0 v.operations states u
          (omega (arith, reading.complete)) reading.matched in
      subst (λ (p : Published R). Holding p.remote)
        (sym (publish_idle remote v.operations (preflight_at r) states same u))
        (still out r reading.reads v.operations found)
    where
      still :
          (out r : R)
          → ((operation : Operation) → laws.holds operation out ≡ laws.holds operation r)
          → (rest : List Operation) → All (λ operation. laws.holds operation r ≡ true) rest
          → All (λ operation. laws.holds operation out ≡ true) rest
      still out r same [] a = tt
      still out r same (operation ∷ rest) (first, a) =
          (same operation ∙ first, still out r same rest a)

  busy-Holding :
      (r : R) (states : List RemoteState)
      → (preflight_at r).states ≡ ok states
      → all_unchanged states ≡ false
      → (publish remote run_id v r).failure ≡ none
      → Holding (publish remote run_id v r).remote
  unfolding publish
  busy-Holding r states same u f =
      let reading =
        preflight_from-Reading remote v.operations laws 0 v.operations (receipt_of run_id v) r
          states same in
      let p : Preflighted R = preflight_at r in
      let busy = publish_busy remote v.operations p states same u in
      let applied : Published R = apply_from remote 0 v.operations states p.receipt p.remote in
      let (passed, at) =
        finish_passed applied (ap (λ (q : Published R). q.failure) (sym busy) ∙ f) in
      let finished : Finished remote v.operations laws v.operations p.remote applied.remote =
        apply_from-Finished remote v.operations laws 0 v.operations states p.receipt p.remote
          (λ o m. m)
          (Matched-Found remote v.operations laws r p.remote 0 v.operations states reading.reads
            reading.matched)
          passed in
      subst Holding (sym (ap (λ (q : Published R). q.remote) busy ∙ at)) finished.each

  -- At a remote with the laws, if a publication ends without a failure, each of its operations holds
  -- at the remote.
  pub publish-Holding :
      (r : R)
      → (publish remote run_id v r).failure ≡ none
      → All
          (λ operation. laws.holds operation (publish remote run_id v r).remote ≡ true)
          v.operations
  unfolding publish
  publish-Holding r f = split (preflight_at r).states refl
    where
      split :
          (found : Result Failure (List RemoteState))
          → (preflight_at r).states ≡ found
          → Holding (publish remote run_id v r).remote
      split (err e) same = refused e (
          sym (
            ap (λ (q : Published R). q.failure)
              (publish_failed remote v.operations (preflight_at r) e same))
          ∙ f)
      split (ok states) same = elim (Bool-cases (all_unchanged states)) [
        | inl u ↦ idle-Holding r states same u f
        | inr u ↦ busy-Holding r states same u f
      ]

  All-later :
      (r later : R) (rest : List Operation)
      → ((operation : Operation)
          → Memᴰ operation rest
          → laws.holds operation r ≡ true
          → laws.holds operation later ≡ true)
      → All (λ operation. laws.holds operation r ≡ true) rest
      → All (λ operation. laws.holds operation later ≡ true) rest
  All-later r later [] still a = tt
  All-later r later (operation ∷ rest) still (first, a) = (
    still operation (Memᴰ.head refl) first,
    All-later r later rest (λ o m. still o (Memᴰ.tail m)) a,
  )

  repeated :
      (later : R) (states : List RemoteState)
      → (preflight_at later).states ≡ ok states
      → Holding later
      → ((publish remote run_id v later).receipt.disposition ≡ "unchanged")
        × ((publish remote run_id v later).remote ≡ (preflight_at later).remote)
  unfolding publish
  repeated later states same a =
      let reading =
        preflight_from-Reading remote v.operations laws 0 v.operations (receipt_of run_id v) later
          states same in
      let u : all_unchanged states ≡ true = all_unchanged-at remote v.operations laws states (λ j h.
        All-unchanged remote v.operations laws later 0 v.operations states a reading.matched j
          (omega arith) (omega (arith, h, reading.complete))) in
      let idle = publish_idle remote v.operations (preflight_at later) states same u in
      (
        ap (λ (q : Published R). q.receipt.disposition) idle
            ∙ unchanged_from-disposition 0 v.operations states _,
        ap (λ (q : Published R). q.remote) idle,
      )

  -- At a remote with the laws, if a publication ends without a failure, and so does another at a state
  -- where each operation holds that held after the first, then the receipt of the second says
  -- `unchanged`, and the second leaves the remote as its preflight does: it applies nothing.
  pub publish_again :
      (first later : R)
      → (publish remote run_id v first).failure ≡ none
      → ((operation : Operation)
          → Memᴰ operation v.operations
          → laws.holds operation (publish remote run_id v first).remote ≡ true
          → laws.holds operation later ≡ true)
      → (publish remote run_id v later).failure ≡ none
      → ((publish remote run_id v later).receipt.disposition ≡ "unchanged")
        × ((publish remote run_id v later).remote
            ≡ (preflight_from remote 0 v.operations (receipt_of run_id v) later).remote)
  unfolding publish
  publish_again first later f still g = split (preflight_at later).states refl
    where
      split :
          (found : Result Failure (List RemoteState))
          → (preflight_at later).states ≡ found
          → ((publish remote run_id v later).receipt.disposition ≡ "unchanged")
            × ((publish remote run_id v later).remote ≡ (preflight_at later).remote)
      split (err e) same = refused e (
          sym (
            ap (λ (q : Published R). q.failure)
              (publish_failed remote v.operations (preflight_at later) e same))
          ∙ g)
      split (ok states) same = repeated later states same (
          All-later (publish remote run_id v first).remote later v.operations still
            (publish-Holding first f))
