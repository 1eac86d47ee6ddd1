-- ===== src/Config/Graph/Needs.antt =====
-- The graph of all the steps: its edges are their needs.
use duto_ai.Prelude.{
  ℕ, zero, suc, String, some, List, [], ◌∷◌, map, length, ◌≡◌, refl, sym, ap, ◌∙◌, arith, ok,
  >>=-eq-ok, All,
}
use duto_ai.Prelude.Keys.{lookup}
use duto_ai.Prelude.Arrays.{get_or, count}
use duto_ai.Config.Graph.{
  Graph, GraphStep, indices_from, or_unknown, connect, add_needs, add_steps, blank, build, no_step,
}
use duto_ai.Config.Graph.Counting.{total}
use duto_ai.Config.Graph.Indexed.{lookup-Found}
use duto_ai.Config.Graph.Built.{
  Indices, Counted, Grown, add_steps-Grown, demand_at, wanted, or_unknown-ok,
}

-- Each need has an index.
abbrev pub Resolved : Indices → List String → Type 0
Resolved indices needs = All (λ need. (u : ℕ) × (lookup need indices ≡ some u)) needs

add_needs-Resolved :
    (indices : Indices) (i : ℕ) (needs : List String) (g : Graph) {out : Graph}
    → add_needs indices i needs g ≡ ok out
    → Resolved indices needs
unfolding add_needs
add_needs-Resolved indices i [] g e = tt
add_needs-Resolved indices i (need ∷ needs) g e =
    let (from, found, rest) = >>=-eq-ok (or_unknown (lookup need indices)) _ e in
    (
      (from, or_unknown-ok (lookup need indices) found),
      add_needs-Resolved indices i needs (connect from i g) rest,
    )

add_steps-Resolved :
    (indices : Indices) (i : ℕ) (steps : List GraphStep) (g : Graph) {out : Graph}
    → add_steps indices i steps g ≡ ok out
    → (j : ℕ) → Resolved indices (get_or steps j no_step).needs
unfolding add_steps
add_steps-Resolved indices i [] g e j = tt
add_steps-Resolved indices i (step ∷ steps) g e zero =
    let (g', added, rest) = >>=-eq-ok (add_needs indices i step.needs g) _ e in
    add_needs-Resolved indices i step.needs g added
add_steps-Resolved indices i (step ∷ steps) g e (suc j) =
    let (g', added, rest) = >>=-eq-ok (add_needs indices i step.needs g) _ e in
    add_steps-Resolved indices (suc i) steps g' rest j

-- The graph of the steps.
pub record Whole (steps : List GraphStep) (g : Graph) : Type 0 where
  pub counted : Counted (length steps) g
  pub edge :
      (u v : ℕ)
      → count v (get_or g.edges u [])
        ≡ wanted (indices_from 0 steps []) u (get_or steps v no_step).needs
  pub resolved : (v : ℕ) → Resolved (indices_from 0 steps []) (get_or steps v no_step).needs

blank_edges : (steps : List GraphStep) (u v : ℕ) → count v (get_or (blank steps).edges u []) ≡ 0
blank_edges [] u v = refl
blank_edges (step ∷ steps) zero v = refl
blank_edges (step ∷ steps) (suc u) v = blank_edges steps u v

total-blank : (steps : List GraphStep) (v : ℕ) → total (blank steps).edges v ≡ 0
total-blank [] v = refl
total-blank (step ∷ steps) v = omega (arith, total-blank steps v)

blank_degrees : (steps : List GraphStep) (v : ℕ) → get_or (blank steps).degrees v 0 ≡ 0
blank_degrees [] v = refl
blank_degrees (step ∷ steps) zero = refl
blank_degrees (step ∷ steps) (suc v) = blank_degrees steps v

length-map {ℓ κ} :
    {A : Type ℓ} {B : Type κ} (f : A → B) (xs : List A) → length (map f xs) ≡ length xs
length-map f [] = refl
length-map f (x ∷ xs) = ap suc (length-map f xs)

blank-Counted : (steps : List GraphStep) → Counted (length steps) (blank steps)
blank-Counted steps = record {
  edges = length-map _ steps;
  degrees = length-map _ steps;
  agree = λ v h. blank_degrees steps v ∙ sym (total-blank steps v);
}

pub build-Whole : (steps : List GraphStep) {g : Graph} → build steps ≡ ok g → Whole steps g
unfolding build
build-Whole steps {g} e =
    let indices : Indices = indices_from 0 steps [] in
    let grown : Grown indices (length steps) (λ k u h. (lookup-Found k u steps h).0) 0 steps
        (blank steps) g =
      add_steps-Grown indices (length steps) (λ k u h. (lookup-Found k u steps h).0) 0 steps
        (blank steps) (omega arith) (blank-Counted steps) e in
    record {
      counted = grown.counted;
      edge = λ u v. omega (
        arith,
        grown.edge u v,
        blank_edges steps u v,
        demand_at indices (length steps) (λ k u h. (lookup-Found k u steps h).0) u 0 v v steps
            (omega arith),
      );
      resolved = add_steps-Resolved indices 0 steps (blank steps) e;
    }
