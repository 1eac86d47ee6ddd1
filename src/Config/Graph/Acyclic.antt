-- ===== src/Config/Graph/Acyclic.antt =====
-- The sort of steps whose needs form no cycle (TopologicalSort in internal/config/validate.go).
use duto_ai.Prelude.{
  ℕ, zero, suc, ◌≤◌, ◌<◌, String, true, List, [], ◌∷◌, length, ◌≡◌, refl, sym, ap, subst, arith,
  ◌==◌, inl, inr, Bool-cases, ok, All,
}
use duto_ai.Prelude.Keys.{member}
use duto_ai.Prelude.Arrays.{get_or, count, count-append}
use duto_ai.Config.Graph.{
  Graph, GraphStep, Sorting, indices_from, build, blank, connect, add_needs, add_steps, no_step,
  steps_at, topological_sort,
}
use duto_ai.Config.Graph.Counting.{Once, total, sent, total-le-sent, le-length_full, length-le_Once}
use duto_ai.Config.Graph.Indexed.{step_ids, lookup-Found, member-lookup}
use duto_ai.Config.Graph.Built.{Indices, wanted}
use duto_ai.Config.Graph.Needs.{Whole, Resolved, build-Whole}
use duto_ai.Config.Graph.Rounds.{Inv, sorted-Once}
use duto_ai.Config.Graph.Ordering.{sort-Ended, inside_steps}

-- Each need is the id of a step, of a lower rank.
abbrev pub Ranked : (String → ℕ) → List GraphStep → List GraphStep → Type 0
Ranked rank steps [] = Unit
Ranked rank steps (step ∷ rest) =
    All (λ need. (member need (step_ids steps) ≡ true) × (rank need < rank step.id)) step.needs
    × Ranked rank steps rest

add_needs-ok :
    (indices : Indices) (i : ℕ) (needs : List String) (g : Graph)
    → Resolved indices needs
    → (out : Graph) × (add_needs indices i needs g ≡ ok out)
unfolding add_needs
add_needs-ok indices i [] g r = (g, refl)
add_needs-ok indices i (need ∷ needs) g ((u, found), r) =
    rw found (add_needs-ok indices i needs (connect u i g) r)

add_steps-ok :
    (indices : Indices) (i : ℕ) (steps : List GraphStep) (g : Graph)
    → All (λ (step : GraphStep). Resolved indices step.needs) steps
    → (out : Graph) × (add_steps indices i steps g ≡ ok out)
unfolding add_steps
add_steps-ok indices i [] g r = (g, refl)
add_steps-ok indices i (step ∷ steps) g (first, r) =
    let (g', added) = add_needs-ok indices i step.needs g first in
    rw added (add_steps-ok indices (suc i) steps g' r)

module _ (rank : String → ℕ) (steps : List GraphStep) where
  needs-Resolved :
      (id : String) (needs : List String)
      → All (λ need. (member need (step_ids steps) ≡ true) × (rank need < rank id)) needs
      → Resolved (indices_from 0 steps []) needs
  needs-Resolved id [] all = tt
  needs-Resolved id (need ∷ needs) ((known, lower), all) =
      (member-lookup need steps known, needs-Resolved id needs all)

  Ranked-Resolved :
      (rest : List GraphStep)
      → Ranked rank steps rest
      → All (λ (step : GraphStep). Resolved (indices_from 0 steps []) step.needs) rest
  Ranked-Resolved [] ranked = tt
  Ranked-Resolved (step ∷ rest) (first, ranked) =
      (needs-Resolved step.id step.needs first, Ranked-Resolved rest ranked)

  build-ok : Ranked rank steps steps → (g : Graph) × (build steps ≡ ok g)
  unfolding build
  build-ok ranked =
      add_steps-ok (indices_from 0 steps []) 0 steps (blank steps) (Ranked-Resolved steps ranked)

  at-Ranked :
      (rest : List GraphStep) (v : ℕ)
      → Ranked rank steps rest
      → All
          (λ need.
            (member need (step_ids steps) ≡ true) × (rank need < rank (get_or rest v no_step).id))
          (get_or rest v no_step).needs
  at-Ranked [] v ranked = tt
  at-Ranked (step ∷ rest) zero (first, ranked) = first
  at-Ranked (step ∷ rest) (suc v) (first, ranked) = at-Ranked rest v ranked

  -- A step that is wanted has a lower rank.
  wanted_lower :
      (u : ℕ) (id : String) (needs : List String)
      → All (λ need. (member need (step_ids steps) ≡ true) × (rank need < rank id)) needs
      → Resolved (indices_from 0 steps []) needs
      → 0 < wanted (indices_from 0 steps []) u needs
      → rank (get_or steps u no_step).id < rank id
  wanted_lower u id [] all resolved h = absurd (omega arith)
  wanted_lower u id (need ∷ needs) ((known, lower), all) ((w, found), resolved) h =
      elim (Bool-cases (w == u)) [
        | inl e ↦
            let same : w ≡ u = ground arith in
            let (in_range, named) = lookup-Found need w steps found in
            subst (λ k. rank (get_or steps k no_step).id < rank id) same
              (subst (λ k. rank k < rank id) (sym named) lower)
        | inr e ↦
            let rest : 0 < wanted (indices_from 0 steps []) u needs = ground (arith, found, e, h) in
            wanted_lower u id needs all resolved rest
      ]

  module _ (ranked : Ranked rank steps steps) (g : Graph) (whole : Whole steps g) (s : Sorting)
      (inv : Inv g (length steps) whole.counted.edges (inside_steps steps g whole) [] s)
      (empty : s.queue ≡ []) where
    once : Once (length steps) s.sorted
    once = sorted-Once g (length steps) whole.counted.edges (inside_steps steps g whole) [] s inv

    lower_edge :
        (u v : ℕ)
        → 0 < count v (get_or g.edges u [])
        → rank (get_or steps u no_step).id < rank (get_or steps v no_step).id
    lower_edge u v p =
        wanted_lower u (get_or steps v no_step).id (get_or steps v no_step).needs
          (at-Ranked steps v ranked) (whole.resolved v) (omega (arith, whole.edge u v, p))

    -- Every step of a rank below a bound is sorted.
    sorted_below :
        (bound v : ℕ)
        → rank (get_or steps v no_step).id < bound
        → v < length steps
        → 0 < count v s.sorted
    sorted_below zero v h k = absurd (omega arith)
    sorted_below (suc bound) v h k =
        let all_sent : total g.edges v ≤ sent g.edges s.sorted v =
          total-le-sent (length steps) g.edges s.sorted v whole.counted.edges once
            (λ u in_range p. sorted_below bound u (omega (arith, lower_edge u v p, h)) in_range) in
        let free : get_or s.degrees v 0 ≡ 0 = omega (arith, inv.left v k, all_sent) in
        ground (arith, inv.free v k, free, count-append v s.sorted s.queue, ap (count v) empty)

    all_sorted : length s.sorted ≡ length steps
    all_sorted = omega (
      arith,
      length-le_Once (length steps) s.sorted once,
      le-length_full (length steps) s.sorted
          (λ v k. sorted_below (suc (rank (get_or steps v no_step).id)) v (omega arith) k),
    )

  -- If each need of each step is the id of a step, of a lower rank, the sort returns a list.
  pub topological_sort-ok :
      Ranked rank steps steps → (sorted : List GraphStep) × (topological_sort steps ≡ ok sorted)
  unfolding topological_sort
  topological_sort-ok ranked =
      let (g, built) = build-ok ranked in
      let whole : Whole steps g = build-Whole steps built in
      let ended = sort-Ended steps g whole in
      let full : (length ended.last.sorted == length steps) ≡ true =
        ground (arith, all_sorted ranked g whole ended.last ended.inv ended.empty) in
      (steps_at steps ended.last.sorted, rw built (rw ended.result (rw full)))
