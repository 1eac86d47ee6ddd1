-- ===== src/Config/Graph.antt =====
-- The graph of a workflow's steps and its topological order (TopologicalSort in
-- internal/config/validate.go). Steps are known by their indices. The loop runs on fuel, one more
-- than there are steps. A degree that the source would take below 0 stays at 0 here: neither is ever
-- 1 before a decrement again, so the queue is the same.
pub mod Built
pub mod Counting
pub mod Exact
pub mod Indexed
pub mod Loop
pub mod Needs
pub mod Acyclic
pub mod Ordering
pub mod Rounds
use duto_ai.Prelude.{
  ℕ, zero, suc, ◌+◌, ◌-◌, String, Bool, true, false, Option, none, some, List, [], ◌∷◌, ◌++◌, map,
  length, if◌then◌else◌, ◌==◌, Result, ok, err, ◌>>=◌, ◌>>◌, require,
}
use duto_ai.Prelude.Keys.{lookup, insert}
use duto_ai.Prelude.Arrays.{get_or, update}

pub data GraphError : Type 0 where
  nil_workflow no_steps duplicate_step_id unknown_dependency circular_dependency : GraphError
  invalid_name unknown_result_step out_of_fuel : GraphError

-- The parts of config.Step that the graphs of steps and agents read.
pub record GraphStep : Type 0 where
  pub id : String
  pub needs : List String
  pub agent : String

-- indices[step.ID] = i, for each step from an index on.
unfoldable pub indices_from : ℕ → List GraphStep → List (String × ℕ) → List (String × ℕ)
unfolding insert
indices_from i [] indices = indices
indices_from i (step ∷ steps) indices = indices_from (suc i) steps (insert step.id i indices)

pub record Graph : Type 0 where
  pub edges : List (List ℕ)
  pub degrees : List ℕ

-- edges[from] = append(edges[from], to); inDegree[to]++
abbrev pub connect : ℕ → ℕ → Graph → Graph
connect from to g = record {
  edges = update g.edges from (λ targets. targets ++ to ∷ []);
  degrees = update g.degrees to (λ d. suc d);
}

abbrev pub or_unknown : Option ℕ → Result GraphError ℕ
or_unknown none = err unknown_dependency
or_unknown (some i) = ok i

-- The loop over the needs of the step at an index.
unfoldable pub add_needs : List (String × ℕ) → ℕ → List String → Graph → Result GraphError Graph
unfolding lookup
add_needs indices i [] g = ok g
add_needs indices i (dependency ∷ needs) g = do
  from ← or_unknown (lookup dependency indices)
  add_needs indices i needs (connect from i g)

unfoldable pub add_steps : List (String × ℕ) → ℕ → List GraphStep → Graph → Result GraphError Graph
unfolding add_needs
add_steps indices i [] g = ok g
add_steps indices i (step ∷ steps) g = do
  g' ← add_needs indices i step.needs g
  add_steps indices (suc i) steps g'

-- The two slices, as made.
abbrev pub blank : List GraphStep → Graph
blank steps = record { edges = map (λ s. []) steps; degrees = map (λ s. 0) steps }

unfoldable pub build : List GraphStep → Result GraphError Graph
unfolding add_steps indices_from
build steps = add_steps (indices_from 0 steps []) 0 steps (blank steps)

-- The indices of degree 0, from an index on.
unfoldable pub free_from : ℕ → List ℕ → List ℕ
free_from i [] = []
free_from i (d ∷ degrees) =
    let rest = free_from (suc i) degrees in if d == 0 then i ∷ rest else rest

pub record Sorting : Type 0 where
  pub degrees : List ℕ
  pub queue : List ℕ
  pub sorted : List ℕ

-- inDegree[neighbor]--, and the neighbor joins the queue if that makes it 0.
abbrev pub release_one : ℕ → Sorting → Sorting
release_one v s = record {
  degrees = update s.degrees v (λ d. d - 1);
  queue = if get_or s.degrees v 0 == 1 then s.queue ++ v ∷ [] else s.queue;
  sorted = s.sorted;
}

unfoldable pub release : List ℕ → Sorting → Sorting
release [] s = s
release (v ∷ vs) s = release vs (release_one v s)

-- One round of the loop, after `current` left the queue.
abbrev pub round : Graph → ℕ → List ℕ → Sorting → Sorting
round g current rest s =
    release (get_or g.edges current [])
      (record { degrees = s.degrees; queue = rest; sorted = s.sorted ++ current ∷ [] })

unfoldable pub drain : ℕ → Graph → Sorting → Result GraphError Sorting
unfolding release
drain zero g s = err out_of_fuel
drain (suc fuel) g s = elim s.queue [
  | [] ↦ ok s
  | current ∷ rest ↦ drain fuel g (round g current rest s)
]

abbrev pub no_step : GraphStep
no_step = record { id = ""; needs = []; agent = "" }

abbrev pub steps_at : List GraphStep → List ℕ → List GraphStep
steps_at steps [] = []
steps_at steps (i ∷ is) = get_or steps i no_step ∷ steps_at steps is

abbrev pub start : Graph → Sorting
start g = record { degrees = g.degrees; queue = free_from 0 g.degrees; sorted = [] }

unfoldable pub topological_sort : List GraphStep → Result GraphError (List GraphStep)
unfolding build drain free_from
topological_sort steps = do
  g ← build steps
  s ← drain (suc (length steps)) g (start g)
  require (length s.sorted == length steps) circular_dependency
  ok (steps_at steps s.sorted)
