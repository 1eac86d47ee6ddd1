-- ===== src/Config/Agents/Fuel.antt =====
-- The search for a cycle of subagents ends with a result or with the cycle: the fuel of visit_agents
-- is never used up (validateAgentGraph in internal/config/agent.go). Each agent that is opened has
-- no mark before, so the agents without a mark bound the depth of the search.
use duto_ai.Prelude.{
  ℕ, zero, suc, ◌+◌, ◌≤◌, ◌<◌, String, true, false, Option, none, some, List, [], ◌∷◌, length, ◌≡◌,
  refl, sym, ap, ◌∙◌, subst, arith, inl, inr, Bool-cases, str_eq, str_eq-true, eq_iff, Result, ok,
  err, ◌⊎◌,
}
use duto_ai.Prelude.Keys.{lookup, insert, lookup-insert, member, keys}
use duto_ai.Config.Graph.{GraphError, circular_dependency}
use duto_ai.Config.Agents.{
  Agents, Mark, visiting, visited, Marks, subagents_of, visit_each, visit_agent, visit_agents,
}
use duto_ai.Config.Agents.Search.{visit_new, visit_closed, visit_open}

abbrev pub unmarked : Option Mark → ℕ
unmarked none = 1
unmarked (some m) = 0

-- How many of the names have no mark.
abbrev pub left : List String → Marks → ℕ
left [] marks = 0
left (name ∷ names) marks = unmarked (lookup name marks) + left names marks

pub left-insert :
    (names : List String) (k : String) (m : Mark) (marks : Marks)
    → left names (insert k m marks) ≤ left names marks
left-insert [] k m marks = omega arith
left-insert (name ∷ names) k m marks =
    ground (arith, lookup-insert k name m marks, left-insert names k m marks)

pub left-insert_new :
    (names : List String) (k : String) (m : Mark) (marks : Marks)
    → lookup k marks ≡ none
    → member k names ≡ true
    → left names (insert k m marks) < left names marks
unfolding member
left-insert_new [] k m marks new known = cc
left-insert_new (name ∷ names) k m marks new known = elim (Bool-cases (str_eq name k)) [
  | inl e ↦
      let same : name ≡ k = str_eq-true name k e in
      let none_yet : lookup name marks ≡ none = ap (λ j. lookup j marks) same ∙ new in
      ground (
        arith,
        lookup-insert k name m marks,
        left-insert names k m marks,
        none_yet,
        eq_iff k name,
        sym same,
      )
  | inr e ↦ ground (
    arith,
    lookup-insert k name m marks,
    left-insert_new names k m marks new (rw e at known),
    eq_iff k name,
    eq_iff name k,
    e,
  )
]

pub left-nil : (names : List String) → left names [] ≤ length names
unfolding lookup
left-nil [] = omega arith
left-nil (name ∷ names) = omega (arith, left-nil names)

pub length-keys : (agents : Agents) → length (keys agents) ≡ length agents
length-keys [] = refl
length-keys ((name, agent) ∷ agents) = ap suc (length-keys agents)

pub lookup-none :
    (agents : Agents) (k : String) → member k (keys agents) ≡ false → lookup k agents ≡ none
unfolding lookup member
lookup-none [] k h = refl
lookup-none ((name, agent) ∷ agents) k h = ground (arith, lookup-none agents k)

pub no_subagents :
    (agents : Agents) (name : String) → lookup name agents ≡ none → subagents_of agents name ≡ []
no_subagents agents name e = rw e

module _ (agents : Agents) where
  -- The search found a cycle, or returned marks that leave no more agents unmarked than before.
  abbrev Stops : Result GraphError Marks → Marks → Type 0
  Stops run marks =
      (run ≡ err circular_dependency)
      ⊎ ((out : Marks) × (run ≡ ok out) × (left (keys agents) out ≤ left (keys agents) marks))

  abbrev Stopping : ℕ → Type 0
  Stopping fuel =
      (name : String) (marks : Marks)
      → left (keys agents) marks < fuel
      → Stops (visit_agent fuel agents name marks) marks

  visit_each-Stops :
      (fuel : ℕ)
      → Stopping fuel
      → (names : List String) (marks : Marks) → left (keys agents) marks < fuel
      → Stops (visit_each (visit_agent fuel agents) names marks) marks
  unfolding visit_each
  visit_each-Stops fuel stops [] marks h = inr (marks, refl, omega arith)
  visit_each-Stops fuel stops (name ∷ names) marks h = elim (stops name marks h) [
    | inl e ↦ inl (rw e refl)
    | inr (next, e, fewer) ↦
        elim (visit_each-Stops fuel stops names next (omega (arith, fewer, h))) [
          | inl f ↦ inl (rw e f)
          | inr (out, f, fewest) ↦ inr (out, rw e f, omega (arith, fewer, fewest))
        ]
  ]

  -- The loop over the subagents of an agent that is opened.
  children-Stops :
      (fuel : ℕ)
      → Stopping fuel
      → (name : String) (marks : Marks) → left (keys agents) marks < suc fuel
      → lookup name marks ≡ none
      → Stops
          (visit_each
            (visit_agent fuel agents)
            (subagents_of agents name)
            (insert name visiting marks))
          (insert name visiting marks)
  children-Stops fuel stops name marks h new = elim (Bool-cases (member name (keys agents))) [
    | inl known ↦
        visit_each-Stops fuel stops (subagents_of agents name) (insert name visiting marks)
          (omega (arith, left-insert_new (keys agents) name visiting marks new known, h))
    | inr unknown ↦
        subst
          (λ children.
            Stops (visit_each (visit_agent fuel agents) children (insert name visiting marks))
              (insert name visiting marks))
          (sym (no_subagents agents name (lookup-none agents name unknown)))
          (unfold visit_each in inr (insert name visiting marks, refl, omega arith))
  ]

  visit_agent-Stops : (fuel : ℕ) → Stopping fuel
  visit_agent-Stops zero name marks h = absurd (omega arith)
  visit_agent-Stops (suc fuel) name marks h =
      split (visit_agent-Stops fuel) (lookup name marks) refl
    where
      split :
          Stopping fuel
          → (o : Option Mark) → lookup name marks ≡ o
          → Stops (visit_agent (suc fuel) agents name marks) marks
      split stops (some visiting) e = inl (visit_open agents fuel name marks e)
      split stops (some visited) e = inr (marks, visit_closed agents fuel name marks e, omega arith)
      split stops none e = elim (children-Stops fuel stops name marks h e) [
        | inl f ↦ inl (visit_new agents fuel name marks e ∙ rw f refl)
        | inr (out, f, fewer) ↦ inr (
          insert name visited out,
          visit_new agents fuel name marks e ∙ rw f refl,
          omega (
            arith,
            fewer,
            left-insert (keys agents) name visiting marks,
            left-insert (keys agents) name visited out,
          ),
        )
      ]

  -- From no marks the search finds a cycle or returns marks.
  pub visit_agents-Stops :
      (order : List String)
      → (visit_agents agents order ≡ err circular_dependency)
        ⊎ ((out : Marks) × (visit_agents agents order ≡ ok out))
  unfolding visit_agents
  visit_agents-Stops order =
      elim (visit_each-Stops (suc (length agents)) (visit_agent-Stops (suc (length agents))) order
        [] (omega (arith, left-nil (keys agents), length-keys agents))) [
          | inl e ↦ inl e
          | inr (out, e, fewer) ↦ inr (out, e)
        ]
