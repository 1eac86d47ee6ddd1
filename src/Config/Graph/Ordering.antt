-- ===== src/Config/Graph/Ordering.antt =====
-- The order in which the sort returns the steps (TopologicalSort in internal/config/validate.go).
use duto_ai.Prelude.{
  ℕ, zero, suc, ◌≤◌, ◌<◌, String, true, List, [], ◌∷◌, ◌++◌, length, ◌≡◌, refl, sym, ap, ◌∙◌, subst,
  arith, if◌then◌else◌, ◌==◌, ltb, inl, inr, eq_refl, Bool-cases, ok, >>=-eq-ok, require,
  require-eq-ok, ok-injective, All,
}
use duto_ai.Prelude.Keys.{member}
use duto_ai.Prelude.Arrays.{get_or, count}
use duto_ai.Config.Graph.{
  Graph, GraphStep, Sorting, circular_dependency, indices_from, build, drain, start, no_step,
  steps_at, topological_sort,
}
use duto_ai.Config.Graph.Counting.{Once, count_full}
use duto_ai.Config.Graph.Indexed.{step_ids, lookup-Found}
use duto_ai.Config.Graph.Built.{Indices, wanted}
use duto_ai.Config.Graph.Needs.{Whole, Resolved, build-Whole}
use duto_ai.Config.Graph.Rounds.{Inv, Ordered, sorted-Once}
use duto_ai.Config.Graph.Loop.{Ended, start-Inv, drain-Ended}

-- Each step stands behind a step with the id, for each id that it needs.
abbrev pub After : List String → List GraphStep → Type 0
After seen [] = Unit
After seen (step ∷ steps) =
    All (λ need. member need seen ≡ true) step.needs × After (seen ++ step.id ∷ []) steps

-- Each step of the workflow stands in the list once, behind the steps that it needs.
pub record IsOrderOf (steps sorted : List GraphStep) : Type 0 where
  pub order : List ℕ
  pub listed : sorted ≡ steps_at steps order
  pub once : (v : ℕ) → count v order ≡ (if ltb v (length steps) then 1 else 0)
  pub after : After [] sorted

-- A need with an index among those seen is the id of a step seen.
module _ (steps : List GraphStep) where
  indices : Indices
  indices = indices_from 0 steps []

  seen_id :
      (u : ℕ) (seen : List ℕ)
      → 0 < count u seen
      → member (get_or steps u no_step).id (step_ids (steps_at steps seen)) ≡ true
  unfolding member
  seen_id u [] h = absurd (omega arith)
  seen_id u (w ∷ seen) h = elim (Bool-cases (w == u)) [
    | inl e ↦
        let same : w ≡ u = ground arith in
        rw same (ground (arith, eq_refl (get_or steps u no_step).id))
    | inr e ↦ let rest : 0 < count u seen = ground arith in ground (arith, seen_id u seen rest)
  ]

  ids-snoc :
      (v : ℕ) (seen : List ℕ)
      → step_ids (steps_at steps (seen ++ v ∷ []))
        ≡ step_ids (steps_at steps seen) ++ (get_or steps v no_step).id ∷ []
  ids-snoc v [] = refl
  ids-snoc v (w ∷ seen) = ap (λ ids. (get_or steps w no_step).id ∷ ids) (ids-snoc v seen)

  needs_seen :
      (seen : List ℕ) (needs : List String)
      → Resolved indices needs
      → ((u : ℕ) → u < length steps → 0 < wanted indices u needs → 0 < count u seen)
      → All (λ need. member need (step_ids (steps_at steps seen)) ≡ true) needs
  unfolding indices
  needs_seen seen [] resolved h = tt
  needs_seen seen (need ∷ needs) ((u, found), resolved) h =
      let (in_range, same) = lookup-Found need u steps found in
      let edge : 0 < wanted indices u (need ∷ needs) = rw found (ground arith) in
      (
        subst (λ k. member k (step_ids (steps_at steps seen)) ≡ true) same
            (seen_id u seen (h u in_range edge)),
        needs_seen seen needs resolved (λ w k p. h w k (omega (arith, p))),
      )

  Ordered-After :
      (g : Graph) (seen vs : List ℕ)
      → Whole steps g
      → Ordered g.edges seen vs
      → After (step_ids (steps_at steps seen)) (steps_at steps vs)
  unfolding indices
  Ordered-After g seen [] whole ordered = tt
  Ordered-After g seen (v ∷ vs) whole (ready, ordered) = (
    needs_seen seen (get_or steps v no_step).needs (whole.resolved v) (λ u k p.
        ready u (omega (arith, whole.counted.edges, k)) (omega (arith, whole.edge u v, p))),
    subst (λ ids. After ids (steps_at steps vs)) (ids-snoc v seen)
        (Ordered-After g (seen ++ v ∷ []) vs whole ordered),
  )

  no_step_beyond : (xs : List GraphStep) (v : ℕ) → length xs ≤ v → get_or xs v no_step ≡ no_step
  no_step_beyond [] v h = refl
  no_step_beyond (x ∷ xs) zero h = absurd (omega arith)
  no_step_beyond (x ∷ xs) (suc v) h = no_step_beyond xs v (omega (arith, h))

  pub inside_steps :
      (g : Graph) → Whole steps g → (u v : ℕ) → length steps ≤ v → count v (get_or g.edges u []) ≡ 0
  inside_steps g whole u v h =
      whole.edge u v
      ∙ ap (λ step. wanted (indices_from 0 steps []) u step.needs) (no_step_beyond steps v h)

  -- The loop, from the graph of the steps.
  pub sort-Ended :
      (g : Graph) (whole : Whole steps g)
      → Ended g
          (length steps)
          whole.counted.edges
          (inside_steps g whole)
          (suc (length steps))
          (start g)
  sort-Ended g whole =
      drain-Ended g (length steps) whole.counted.edges (inside_steps g whole) (suc (length steps))
        (start g)
        (start-Inv g (length steps) whole.counted.edges (inside_steps g whole) whole.counted.degrees
          whole.counted.agree)
        (omega arith)

  full-IsOrderOf :
      (g : Graph) (whole : Whole steps g) (s : Sorting)
      → Inv g (length steps) whole.counted.edges (inside_steps g whole) [] s
      → length s.sorted ≡ length steps
      → IsOrderOf steps (steps_at steps s.sorted)
  full-IsOrderOf g whole s i e =
      let n = length steps in
      let once : Once n s.sorted =
        sorted-Once g n whole.counted.edges (inside_steps g whole) [] s i in
      record {
        order = s.sorted;
        listed = refl;
        once = λ v. ground (arith, once.inside v, count_full n v s.sorted once e);
        after = Ordered-After g [] s.sorted whole i.ordered;
      }

  -- The steps that a successful sort returns are those of the workflow, each at its position once, and
  -- each stands behind a step with the id, for each id that it needs.
  pub topological_sort-IsOrderOf :
      {sorted : List GraphStep} → topological_sort steps ≡ ok sorted → IsOrderOf steps sorted
  unfolding topological_sort
  topological_sort-IsOrderOf {sorted} e =
      let (g, built, drained) = >>=-eq-ok (build steps) _ e in
      let whole : Whole steps g = build-Whole steps built in
      let ended = sort-Ended g whole in
      let (s, ran, checked) = >>=-eq-ok (drain (suc (length steps)) g (start g)) _ drained in
      let (u, passed, result) =
        >>=-eq-ok (require (length s.sorted == length steps) circular_dependency) _ checked in
      let same : ended.last ≡ s = ok-injective (sym ended.result ∙ ran) in
      subst (IsOrderOf steps) (ok-injective result) (
        full-IsOrderOf g whole s
          (subst (Inv g (length steps) whole.counted.edges (inside_steps g whole) []) same
            ended.inv)
          (ground (arith, require-eq-ok _ circular_dependency passed)))
