-- ===== src/Publisher/Again.antt =====
-- What a publication without a failure leaves, at any remote with the laws of Publisher/Laws (Publish
-- in internal/publisher/publisher.go).
use duto_ai.Prelude.{
  ℕ, suc, String, true, false, Option, none, some, List, [], ◌∷◌, ◌≡◌, refl, sym, ap, ◌∙◌, subst,
  Result, ok, err, All, Bool-cases, ◌⊎◌, inl, inr,
}
use duto_ai.Prelude.Arrays.{get_or}
use duto_ai.Publisher.{
  Failure, Operation, RemoteState, Remote, Receipt, Published, is_unchanged, blank_state,
  unchanged_again, apply_answer, apply_one, apply_from, unless_failed, fmt_remote_error,
}
use duto_ai.Publisher.Laws.{Lawful}
use mathlib.Core.List.{Memᴰ}

unless_failed-none :
    {R : Type 0} (one rest : Published R)
    → (unless_failed one.failure one rest).failure ≡ none
    → (one.failure ≡ none) × (unless_failed one.failure one rest ≡ rest)
unless_failed-none {R} one rest f = split one.failure refl f
  where
    split :
        (o : Option Failure)
        → one.failure ≡ o
        → (unless_failed o one rest).failure ≡ none
        → (one.failure ≡ none) × (unless_failed one.failure one rest ≡ rest)
    split none same h = (same, ap (λ o. unless_failed o one rest) same)
    split (some e) same h = cc

module _ {R : Type 0} (remote : Remote R) (operations : List Operation)
    (laws : Lawful remote operations) where
  abbrev pub Among : List Operation → Type 0
  Among rest = (operation : Operation) → Memᴰ operation rest → Memᴰ operation operations

  -- Each operation that was answered as unchanged holds.
  abbrev pub Found : R → ℕ → List Operation → List RemoteState → Type 0
  Found r i [] states = Unit
  Found r i (operation ∷ rest) states =
      ((is_unchanged (get_or states i blank_state) ≡ false) ⊎ (laws.holds operation r ≡ true))
      × Found r (suc i) rest states

  abbrev pub Kept : R → R → Type 0
  Kept r out =
      (before : Operation)
      → Memᴰ before operations
      → laws.holds before r ≡ true
      → laws.holds before out ≡ true

  unchanged_again-holds :
      (operation : Operation) (r : R)
      → unchanged_again (remote.preflight operation r).0 ≡ true
      → laws.holds operation r ≡ true
  unfolding unchanged_again
  unchanged_again-holds operation r h = split (remote.preflight operation r).0 refl h
    where
      split :
          (answer : Result Failure RemoteState)
          → (remote.preflight operation r).0 ≡ answer
          → unchanged_again answer ≡ true
          → laws.holds operation r ≡ true
      split (err e) same u = cc
      split (ok state) same u = sym (laws.answers operation r state same) ∙ u

  -- One step of the loop of apply, where it does not fail.
  record Applied (operation : Operation) (r out : R) : Type 0 where
    holds : laws.holds operation out ≡ true
    kept : Kept r out

  apply_answer-Applied :
      (i : ℕ) (operation : Operation) (receipt : Receipt) (r : R)
      → Memᴰ operation operations
      → (answer : Result Failure String) → (remote.apply operation r).0 ≡ answer
      → (apply_answer remote i operation receipt (remote.apply operation r).1 answer).failure ≡ none
      → Applied operation r
          (apply_answer remote i operation receipt (remote.apply operation r).1 answer).remote
  unfolding apply_answer
  apply_answer-Applied i operation receipt r m (ok resource) same f = record {
    holds = laws.applied operation r resource m same;
    kept = λ before mb h. laws.kept before operation r mb m h;
  }
  apply_answer-Applied i operation receipt r m (err e) same f =
      elim (Bool-cases
        (unchanged_again (remote.preflight operation (remote.apply operation r).1).0)) [
          | inl again ↦ rw again (record {
            holds =
                laws.reads operation operation (remote.apply operation r).1
                ∙ unchanged_again-holds operation (remote.apply operation r).1 again;
            kept = λ before mb h.
                laws.reads before operation (remote.apply operation r).1
                ∙ laws.kept before operation r mb m h;
          })
          | inr failed ↦
              let refused : ◌≡◌ {A = Option Failure} (some (fmt_remote_error e)) none =
                rw failed at f in
              absurd (cc)
        ]

  apply_one-Applied :
      (i : ℕ) (operation : Operation) (state : RemoteState) (receipt : Receipt) (r : R)
      → Memᴰ operation operations
      → (is_unchanged state ≡ false) ⊎ (laws.holds operation r ≡ true)
      → (apply_one remote i operation state receipt r).failure ≡ none
      → Applied operation r (apply_one remote i operation state receipt r).remote
  unfolding apply_one
  apply_one-Applied i operation state receipt r m found f = elim (Bool-cases (is_unchanged state)) [
    | inl unchanged ↦
        rw unchanged (record { holds = holding unchanged found; kept = λ before mb h. h })
    | inr changed ↦ rw changed (
        apply_answer-Applied i operation receipt r m (remote.apply operation r).0 refl
          (rw changed at f))
  ]
    where
      holding :
          is_unchanged state ≡ true
          → (is_unchanged state ≡ false) ⊎ (laws.holds operation r ≡ true)
          → laws.holds operation r ≡ true
      holding u (inl changed) = cc
      holding u (inr h) = h

  Found-Kept :
      (r out : R) (i : ℕ) (rest : List Operation) (states : List RemoteState)
      → Among rest
      → Kept r out
      → Found r i rest states
      → Found out i rest states
  Found-Kept r out i [] states a k f = tt
  Found-Kept r out i (operation ∷ rest) states a k (first, f) =
      (still first, Found-Kept r out (suc i) rest states (λ o m. a o (Memᴰ.tail m)) k f)
    where
      still :
          (is_unchanged (get_or states i blank_state) ≡ false) ⊎ (laws.holds operation r ≡ true)
          → (is_unchanged (get_or states i blank_state) ≡ false) ⊎ (laws.holds operation out ≡ true)
      still (inl changed) = inl changed
      still (inr h) = inr (k operation (a operation (Memᴰ.head refl)) h)

  pub record Finished (rest : List Operation) (r out : R) : Type 0 where
    pub each : All (λ operation. laws.holds operation out ≡ true) rest
    pub kept : Kept r out

  pub apply_from-Finished :
      (i : ℕ) (rest : List Operation) (states : List RemoteState) (receipt : Receipt) (r : R)
      → Among rest
      → Found r i rest states
      → (apply_from remote i rest states receipt r).failure ≡ none
      → Finished rest r (apply_from remote i rest states receipt r).remote
  unfolding apply_from
  apply_from-Finished i [] states receipt r a found f = record { each = tt; kept = λ before m h. h }
  apply_from-Finished i (operation ∷ rest) states receipt r a (first, found) f =
      let one = apply_one remote i operation (get_or states i blank_state) receipt r in
      let rest_run = apply_from remote (suc i) rest states one.receipt one.remote in
      let (passed, went_on) = unless_failed-none one rest_run f in
      let applied : Applied operation r one.remote =
        apply_one-Applied i operation (get_or states i blank_state) receipt r
          (a operation (Memᴰ.head refl)) first passed in
      let later : Finished rest one.remote rest_run.remote =
        apply_from-Finished (suc i) rest states one.receipt one.remote (λ o m. a o (Memᴰ.tail m))
          (Found-Kept r one.remote (suc i) rest states (λ o m. a o (Memᴰ.tail m)) applied.kept
            found)
          (ap (λ (p : Published R). p.failure) (sym went_on) ∙ f) in
      subst (λ (p : Published R). Finished (operation ∷ rest) r p.remote) (sym went_on)
        (record {
          each = (later.kept operation (a operation (Memᴰ.head refl)) applied.holds, later.each);
          kept = λ before m h. later.kept before m (applied.kept before m h);
        })
