-- ===== src/Config/Graph/Indexed.antt =====
-- The table from the steps' ids to their indices.
use duto_ai.Prelude.{
  ℕ, suc, ◌+◌, ◌<◌, String, true, some, List, [], ◌∷◌, length, ◌≡◌, refl, ap, ◌∙◌, arith,
  if◌then◌else◌, ◌⊎◌, inl, inr, ◌||◌, Bool-cases, str_eq, str_eq-true,
}
use duto_ai.Prelude.Keys.{lookup, insert, lookup-insert, has_key, has_key-insert, member}
use duto_ai.Prelude.Arrays.{get_or}
use duto_ai.Config.Graph.{GraphStep, indices_from, no_step}

abbrev pub step_ids : List GraphStep → List String
step_ids [] = []
step_ids (step ∷ steps) = step.id ∷ step_ids steps

-- An index that is this far into the steps has the id.
pub record Found (k : String) (u i : ℕ) (steps : List GraphStep) : Type 0 where
  pub at : ℕ
  pub offset : u ≡ i + at
  pub within : at < length steps
  pub id : (get_or steps at no_step).id ≡ k

later :
    (k : String) (u i : ℕ) (step : GraphStep) (steps : List GraphStep)
    → Found k u (suc i) steps
    → Found k u i (step ∷ steps)
later k u i step steps f = record {
  at = suc f.at;
  offset = omega (arith, f.offset);
  within = omega (arith, f.within);
  id = f.id;
}

pub lookup-indices_from :
    (k : String) (u i : ℕ) (steps : List GraphStep) (m : List (String × ℕ))
    → lookup k (indices_from i steps m) ≡ some u
    → (lookup k m ≡ some u) ⊎ Found k u i steps
unfolding indices_from
lookup-indices_from k u i [] m h = inl h
lookup-indices_from k u i (step ∷ steps) m h =
    elim (lookup-indices_from k u (suc i) steps (insert step.id i m) h) [
      | inr f ↦ inr (later k u i step steps f)
      | inl e ↦
          let read : (if str_eq step.id k then some i else lookup k m) ≡ some u =
            rw (lookup-insert step.id k i m) at e in
          elim (Bool-cases (str_eq step.id k)) [
            | inr other ↦ inl (rw other at read)
            | inl same ↦
                let here : some i ≡ some u = rw same at read in
                let index : i ≡ u = cc in
                inr (record {
                  at = 0;
                  offset = omega (arith, index);
                  within = omega arith;
                  id = str_eq-true step.id k same;
                })
          ]
    ]

has_key-indices_from :
    (k : String) (i : ℕ) (steps : List GraphStep) (m : List (String × ℕ))
    → has_key k (indices_from i steps m) ≡ (member k (step_ids steps) || has_key k m)
unfolding indices_from member
has_key-indices_from k i [] m = refl
has_key-indices_from k i (step ∷ steps) m =
    ground (
      arith,
      has_key-indices_from k (suc i) steps (insert step.id i m),
      has_key-insert step.id k i m,
    )

has_key-lookup :
    (k : String) (m : List (String × ℕ)) → has_key k m ≡ true → (u : ℕ) × (lookup k m ≡ some u)
unfolding has_key lookup
has_key-lookup k [] h = cc
has_key-lookup k ((j, v) ∷ m) h = elim (Bool-cases (str_eq j k)) [
  | inl e ↦ (v, rw e)
  | inr e ↦ rw e (has_key-lookup k m (rw e at h))
]

-- The id of a step has an index.
pub member-lookup :
    (k : String) (steps : List GraphStep)
    → member k (step_ids steps) ≡ true
    → (u : ℕ) × (lookup k (indices_from 0 steps []) ≡ some u)
member-lookup k steps h =
    has_key-lookup k (indices_from 0 steps []) (rw (has_key-indices_from k 0 steps []) (rw h))

-- An index that the table gives is one of a step with the id.
pub lookup-Found :
    (k : String) (u : ℕ) (steps : List GraphStep)
    → lookup k (indices_from 0 steps []) ≡ some u
    → (u < length steps) × ((get_or steps u no_step).id ≡ k)
unfolding lookup
lookup-Found k u steps h = elim (lookup-indices_from k u 0 steps [] h) [
  | inl e ↦ cc
  | inr f ↦
      let same : u ≡ f.at = omega (arith, f.offset) in
      (omega (arith, f.within, same), ap (λ j. (get_or steps j no_step).id) same ∙ f.id)
]
