-- ===== src/Config/Graph/Exact.antt =====
-- The sort from both sides: an order of the steps is found exactly when there is one (TopologicalSort
-- in internal/config/validate.go).
use duto_ai.Prelude.{
  ℕ, zero, suc, ◌≤◌, ◌<◌, String, true, false, List, [], ◌∷◌, ◌++◌, length, ◌≡◌, refl, sym, ap, ◌∙◌,
  subst, arith, if◌then◌else◌, ◌==◌, ◌⊎◌, inl, inr, ◌||◌, Bool-cases, ok, All, ◌↔◌, str_eq, eq_iff,
  eq_refl, str_eq-true,
}
use mathlib.Core.List.{append_assoc}
use duto_ai.Prelude.Keys.{member, member-append, Distinct}
use duto_ai.Prelude.Arrays.{get_or, count}
use duto_ai.Config.Graph.{GraphStep, no_step, steps_at, topological_sort}
use duto_ai.Config.Graph.Indexed.{step_ids}
use duto_ai.Config.Graph.Acyclic.{Ranked, topological_sort-ok}
use duto_ai.Config.Graph.Ordering.{After, IsOrderOf, topological_sort-IsOrderOf}

-- Where an id stands first.
abbrev position : String → List String → ℕ
position k [] = 0
position k (x ∷ xs) = if str_eq x k then 0 else suc (position k xs)

position-lt :
    (k : String) (seen rest : List String)
    → member k seen ≡ true
    → position k (seen ++ rest) < length seen
unfolding member
position-lt k [] rest h = cc
position-lt k (x ∷ seen) rest h = ground (arith, position-lt k seen rest)

position_new :
    (k : String) (seen rest : List String)
    → member k seen ≡ false
    → position k (seen ++ k ∷ rest) ≡ length seen
unfolding member
position_new k [] rest h = ground (arith, eq_refl k)
position_new k (x ∷ seen) rest h = ground (arith, position_new k seen rest)

Distinct-middle : (k : String) (xs ys : List String) → Distinct (xs ++ k ∷ ys) → member k xs ≡ false
unfolding member
Distinct-middle k [] ys d = refl
Distinct-middle k (x ∷ xs) ys d = ground (
  arith,
  Distinct-middle k xs ys d.1,
  member-append x xs (k ∷ ys),
  eq_iff x k,
  eq_iff k x,
  eq_refl k,
)

id_at :
    (steps : List GraphStep) (u : ℕ)
    → u < length steps
    → member (get_or steps u no_step).id (step_ids steps) ≡ true
unfolding member
id_at [] u h = absurd (omega arith)
id_at (step ∷ steps) zero h = ground (arith, eq_refl step.id)
id_at (step ∷ steps) (suc u) h = ground (arith, id_at steps u (omega (arith, h)))

Distinct-injective :
    (steps : List GraphStep) (u w : ℕ)
    → Distinct (step_ids steps)
    → u < length steps
    → w < length steps
    → (get_or steps u no_step).id ≡ (get_or steps w no_step).id
    → u ≡ w
Distinct-injective [] u w d h k e = absurd (omega arith)
Distinct-injective (step ∷ steps) zero zero d h k e = refl
Distinct-injective (step ∷ steps) zero (suc w) d h k e =
    absurd (cc (d.0, id_at steps w (omega (arith, k))))
Distinct-injective (step ∷ steps) (suc u) zero d h k e =
    absurd (cc (d.0, id_at steps u (omega (arith, h))))
Distinct-injective (step ∷ steps) (suc u) (suc w) d h k e =
    ap suc (Distinct-injective steps u w d.1 (omega (arith, h)) (omega (arith, k)) e)

module _ (steps : List GraphStep) where
  -- An id in an order of the steps is the id at an index.
  member-steps_at :
      (k : String) (order : List ℕ)
      → member k (step_ids (steps_at steps order)) ≡ true
      → (u : ℕ) × (0 < count u order) × ((get_or steps u no_step).id ≡ k)
  unfolding member
  member-steps_at k [] h = cc
  member-steps_at k (u ∷ order) h = elim (Bool-cases (str_eq (get_or steps u no_step).id k)) [
    | inl e ↦ (u, ground arith, str_eq-true _ k e)
    | inr e ↦
        let (w, listed, same) = member-steps_at k order (rw e at h) in
        (w, omega (arith, listed), same)
  ]

  steps_at-Distinct :
      (order : List ℕ)
      → Distinct (step_ids steps)
      → ((v : ℕ) → count v order ≤ 1)
      → ((v : ℕ) → 0 < count v order → v < length steps)
      → Distinct (step_ids (steps_at steps order))
  steps_at-Distinct [] d once inside = tt
  steps_at-Distinct (u ∷ order) d once inside = (
    apart (Bool-cases (member (get_or steps u no_step).id (step_ids (steps_at steps order)))),
    steps_at-Distinct order d (λ v. omega (arith, once v)) (λ v h. inside v (omega (arith, h))),
  )
    where
      counted : (w : ℕ) → 0 < count w order → u ≡ w → ⊥
      counted w h e = ground (arith, once w)

      self : 0 < count u (u ∷ order)
      self = ground arith

      apart :
          ((member (get_or steps u no_step).id (step_ids (steps_at steps order)) ≡ true)
            ⊎ (member (get_or steps u no_step).id (step_ids (steps_at steps order)) ≡ false))
          → member (get_or steps u no_step).id (step_ids (steps_at steps order)) ≡ false
      apart (inr e) = e
      apart (inl e) =
          let (w, listed, same) = member-steps_at (get_or steps u no_step).id order e in
          absurd (
            counted w listed (
              Distinct-injective steps u w d (inside u self) (inside w (omega (arith, listed)))
                (sym same)))

  All-at {κ} :
      (P : GraphStep → Type κ) (order : List ℕ) (v : ℕ)
      → All P (steps_at steps order)
      → 0 < count v order
      → P (get_or steps v no_step)
  All-at P [] v all h = absurd (omega arith)
  All-at P (u ∷ order) v all h = elim (Bool-cases (u == v)) [
    | inl e ↦ let same : u ≡ v = ground arith in subst (λ w. P (get_or steps w no_step)) same all.0
    | inr e ↦ let rest : 0 < count v order = ground (arith, e, h) in All-at P order v all.1 rest
  ]

  abbrev Lower : (String → ℕ) → GraphStep → Type 0
  Lower rank step =
      All (λ need. (member need (step_ids steps) ≡ true) × (rank need < rank step.id)) step.needs

  Lower-Ranked :
      (rank : String → ℕ) (rest : List GraphStep)
      → ((v : ℕ) → v < length rest → Lower rank (get_or rest v no_step))
      → Ranked rank steps rest
  Lower-Ranked rank [] h = tt
  Lower-Ranked rank (step ∷ rest) h =
      (h 0 (omega arith), Lower-Ranked rank rest (λ v k. h (suc v) (omega (arith, k))))

  needs_lower :
      (ids seen rest : List String) (id : String) (needs : List String)
      → ids ≡ seen ++ id ∷ rest
      → Distinct ids
      → ((k : String) → member k ids ≡ true → member k (step_ids steps) ≡ true)
      → All (λ need. member need seen ≡ true) needs
      → All
          (λ need. (member need (step_ids steps) ≡ true) × (position need ids < position id ids))
          needs
  needs_lower ids seen rest id [] e d known all = tt
  needs_lower ids seen rest id (need ∷ needs) e d known (first, all) =
      let here : position id ids ≡ length seen =
        ap (position id) e
        ∙ position_new id seen rest (Distinct-middle id seen rest (subst Distinct e d)) in
      let there : position need ids ≡ position need (seen ++ id ∷ rest) = ap (position need) e in
      let listed : member need ids ≡ true =
        ap (member need) e
        ∙ member-append need seen (id ∷ rest)
        ∙ ap (λ b. b || member need (id ∷ rest)) first in
      (
        (known need listed, omega (arith, here, there, position-lt need seen (id ∷ rest) first)),
        needs_lower ids seen rest id needs e d known all,
      )

  After-Lower :
      (ids seen : List String) (sorted : List GraphStep)
      → ids ≡ seen ++ step_ids sorted
      → Distinct ids
      → ((k : String) → member k ids ≡ true → member k (step_ids steps) ≡ true)
      → After seen sorted
      → All (Lower (λ k. position k ids)) sorted
  After-Lower ids seen [] e d known after = tt
  After-Lower ids seen (step ∷ sorted) e d known (first, after) = (
    needs_lower ids seen (step_ids sorted) step.id step.needs e d known first,
    After-Lower ids (seen ++ step.id ∷ []) sorted
        (e ∙ sym (append_assoc seen (step.id ∷ []) (step_ids sorted))) d known after,
  )

  IsOrderOf-Ranked :
      (sorted : List GraphStep)
      → Distinct (step_ids steps)
      → IsOrderOf steps sorted
      → Ranked (λ k. position k (step_ids sorted)) steps steps
  IsOrderOf-Ranked sorted d o =
      let ids : List String = step_ids (steps_at steps o.order) in
      let same : step_ids sorted ≡ ids = ap step_ids o.listed in
      let inside : (v : ℕ) → 0 < count v o.order → v < length steps =
        λ v h. ground (arith, o.once v) in
      let distinct : Distinct ids =
        steps_at-Distinct o.order d (λ v. ground (arith, o.once v)) inside in
      let known : (k : String) → member k ids ≡ true → member k (step_ids steps) ≡ true = λ k h.
        let (u, listed, named) = member-steps_at k o.order h in
        ap (λ i. member i (step_ids steps)) (sym named) ∙ id_at steps u (inside u listed) in
      let lower : All (Lower (λ k. position k ids)) (steps_at steps o.order) =
        After-Lower ids [] (steps_at steps o.order) refl distinct known
          (subst (After []) o.listed o.after) in
      subst (λ names. Ranked (λ k. position k names) steps steps) (sym same)
        (Lower-Ranked (λ k. position k ids) steps
          (λ v h. All-at (Lower (λ k. position k ids)) o.order v lower (ground (arith, o.once v))))

  -- If the steps' ids are distinct, the sort returns a list exactly when the steps have an order in
  -- which each stands once, behind a step with the id, for each id that it needs.
  pub topological_sort_exact :
      Distinct (step_ids steps)
      → ((sorted : List GraphStep) × (topological_sort steps ≡ ok sorted))
        ↔ ((sorted : List GraphStep) × IsOrderOf steps sorted)
  topological_sort_exact d = (
    (λ (sorted, e). (sorted, topological_sort-IsOrderOf steps e)),
    (λ (sorted, o).
        topological_sort-ok (λ k. position k (step_ids sorted)) steps
          (IsOrderOf-Ranked sorted d o)),
  )
