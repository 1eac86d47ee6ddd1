-- ===== src/Publisher/Holding.antt =====
-- The preflight of a publication, and what a publication without a failure leaves (Publish in
-- internal/publisher/publisher.go).
use duto_ai.Prelude.{
  ℕ, zero, suc, ◌+◌, ◌≤◌, ◌<◌, true, false, List, [], ◌∷◌, ◌≡◌, refl, sym, ap, ◌∙◌, subst, arith,
  str_eq, Result, ok, err, any, All, Bool-cases, ◌⊎◌, inl, inr, ok-injective, >>=-eq-ok, length,
}
use duto_ai.Prelude.Arrays.{get_or}
use duto_ai.Publisher.{
  Failure, rejected, conflict, Operation, RemoteState, Remote, Receipt, Preflighted, is_unchanged,
  known_disposition, all_unchanged, blank_state, preflight_answer, preflight_from,
}
use duto_ai.Publisher.Laws.{Lawful}
use duto_ai.Publisher.Again.{Found}

pub record Passed {R : Type 0} (answer : Result Failure RemoteState) (rest out : Preflighted R)
    (states : List RemoteState) : Type 0 where
  pub state : RemoteState
  pub tail : List RemoteState
  pub answered : answer ≡ ok state
  pub free : str_eq state.disposition "conflict" ≡ false
  pub others : rest.states ≡ ok tail
  pub all : states ≡ state ∷ tail
  pub remote : out.remote ≡ rest.remote

pub preflight_answer-Passed :
    {R : Type 0} (remote : Remote R) (i : ℕ) (operation : Operation) (receipt : Receipt) (r : R)
    (answer : Result Failure RemoteState) (rest : Preflighted R) (states : List RemoteState)
    → (preflight_answer remote i operation receipt r answer rest).states ≡ ok states
    → Passed answer rest (preflight_answer remote i operation receipt r answer rest) states
unfolding preflight_answer
preflight_answer-Passed remote i operation receipt r (err e) rest states h = cc
preflight_answer-Passed remote i operation receipt r (ok state) rest states h =
    elim (Bool-cases (known_disposition state.disposition)) [
      | inr unknown ↦
          let refused : ◌≡◌ {A = Result Failure (List RemoteState)} (err rejected) (ok states) =
            rw unknown at h in
          absurd (cc)
      | inl known ↦ elim (Bool-cases (str_eq state.disposition "conflict")) [
        | inl conflicts ↦
            let refused : ◌≡◌ {A = Result Failure (List RemoteState)} (err conflict) (ok states) =
              rw conflicts at (rw known at h) in
            absurd (cc)
        | inr fine ↦
            let (tail, others, same) = >>=-eq-ok rest.states _ (rw fine at (rw known at h)) in
            record {
              state = state;
              tail = tail;
              answered = refl;
              free = fine;
              others = others;
              all = sym (ok-injective same);
              remote = rw known (rw fine refl);
            }
      ]
    ]

module _ {R : Type 0} (remote : Remote R) (operations : List Operation)
    (laws : Lawful remote operations) where
  -- The answers say which operations hold.
  abbrev pub Matched : R → ℕ → List Operation → List RemoteState → Type 0
  Matched r i [] states = Unit
  Matched r i (operation ∷ rest) states =
      (is_unchanged (get_or states i blank_state) ≡ laws.holds operation r)
      × Matched r (suc i) rest states

  Matched-next :
      (r out : R) (i : ℕ) (rest : List Operation) (state : RemoteState) (states : List RemoteState)
      → ((operation : Operation) → laws.holds operation out ≡ laws.holds operation r)
      → Matched out i rest states
      → Matched r (suc i) rest (state ∷ states)
  Matched-next r out i [] state states same m = tt
  Matched-next r out i (operation ∷ rest) state states same (first, m) =
      (first ∙ same operation, Matched-next r out (suc i) rest state states same m)

  pub record Reading (rest : List Operation) (r out : R) (states : List RemoteState) : Type 0 where
    pub matched : Matched r 0 rest states
    pub reads : (operation : Operation) → laws.holds operation out ≡ laws.holds operation r
    pub complete : length states ≡ length rest

  pub preflight_from-Reading :
      (i : ℕ) (rest : List Operation) (receipt : Receipt) (r : R) (states : List RemoteState)
      → (preflight_from remote i rest receipt r).states ≡ ok states
      → Reading rest r (preflight_from remote i rest receipt r).remote states
  unfolding preflight_from
  preflight_from-Reading i [] receipt r states h = record {
    matched = tt;
    reads = λ operation. refl;
    complete = ap (length {A = RemoteState}) (sym (ok-injective h));
  }
  preflight_from-Reading i (operation ∷ rest) receipt r states h =
      let next : R = (remote.preflight operation r).1 in
      let later = preflight_from remote (suc i) rest receipt next in
      let p =
        preflight_answer-Passed remote i operation receipt next (remote.preflight operation r).0
          later states h in
      let ih = preflight_from-Reading (suc i) rest receipt next p.tail p.others in
      let same : (asked : Operation) → laws.holds asked next ≡ laws.holds asked r =
        λ asked. laws.reads asked operation r in
      let matched : Matched r 0 (operation ∷ rest) (p.state ∷ p.tail) = (
        laws.answers operation r p.state p.answered,
        Matched-next r next 0 rest p.state p.tail same ih.matched,
      ) in
      record {
        matched = subst (Matched r 0 (operation ∷ rest)) (sym p.all) matched;
        reads = λ asked. ap (laws.holds asked) p.remote ∙ ih.reads asked ∙ same asked;
        complete = ap (length {A = RemoteState}) p.all ∙ ap suc ih.complete;
      }

  pub Matched-Found :
      (r out : R) (i : ℕ) (rest : List Operation) (states : List RemoteState)
      → ((operation : Operation) → laws.holds operation out ≡ laws.holds operation r)
      → Matched r i rest states
      → Found remote operations laws out i rest states
  Matched-Found r out i [] states same m = tt
  Matched-Found r out i (operation ∷ rest) states same (first, m) = (
    elim (Bool-cases (laws.holds operation r)) [
      | inl h ↦ inr (same operation ∙ h)
      | inr h ↦ inl (first ∙ h)
    ],
    Matched-Found r out (suc i) rest states same m,
  )

  unchanged_at :
      (states : List RemoteState) (i : ℕ)
      → all_unchanged states ≡ true
      → i < length states
      → is_unchanged (get_or states i blank_state) ≡ true
  unfolding all_unchanged any
  unchanged_at [] i u h = absurd (omega arith)
  unchanged_at (state ∷ states) zero u h = ground arith
  unchanged_at (state ∷ states) (suc i) u h =
      unchanged_at states i (ground (arith, u)) (omega (arith, h))

  pub all_unchanged-at :
      (states : List RemoteState)
      → ((i : ℕ) → i < length states → is_unchanged (get_or states i blank_state) ≡ true)
      → all_unchanged states ≡ true
  unfolding all_unchanged any
  all_unchanged-at [] h = refl
  all_unchanged-at (state ∷ states) h =
      ground (arith, h 0, all_unchanged-at states (λ i k. h (suc i) (omega (arith, k))))

  pub Matched-All :
      (r : R) (i : ℕ) (rest : List Operation) (states : List RemoteState)
      → all_unchanged states ≡ true
      → i + length rest ≤ length states
      → Matched r i rest states
      → All (λ operation. laws.holds operation r ≡ true) rest
  Matched-All r i [] states u h m = tt
  Matched-All r i (operation ∷ rest) states u h (first, m) = (
    sym first ∙ unchanged_at states i u (omega (arith, h)),
    Matched-All r (suc i) rest states u (omega (arith, h)) m,
  )

  pub All-unchanged :
      (r : R) (i : ℕ) (rest : List Operation) (states : List RemoteState)
      → All (λ operation. laws.holds operation r ≡ true) rest
      → Matched r i rest states
      → (j : ℕ) → i ≤ j
      → j < i + length rest
      → is_unchanged (get_or states j blank_state) ≡ true
  All-unchanged r i [] states a m j le lt = absurd (omega (arith, le, lt))
  All-unchanged r i (operation ∷ rest) states (first, a) (same, m) j le lt = elim (eq_or i j) [
    | inl e ↦ subst (λ k. is_unchanged (get_or states k blank_state) ≡ true) e (same ∙ first)
    | inr later ↦
        All-unchanged r (suc i) rest states a m j (omega (arith, later)) (omega (arith, lt))
  ]
    where
      eq_or : (a b : ℕ) → (a ≡ b) ⊎ ((a ≤ b) → suc a ≤ b)
      eq_or a b = ground arith
