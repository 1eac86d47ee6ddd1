-- ===== src/Config/Agents/Exact.antt =====
-- The search for a cycle of subagents, from both sides (validateAgentGraph in
-- internal/config/agent.go).
use duto_ai.Prelude.{
  ℕ, zero, suc, ◌≤◌, ◌<◌, String, true, Option, none, some, List, [], ◌∷◌, length, ◌≡◌, refl, sym,
  ap, ◌∙◌, subst, arith, inl, inr, Bool-cases, Result, ok, err, All, ◌↔◌, ◌⊎◌,
}
use duto_ai.Prelude.Keys.{lookup, insert, member, member_self, keys, All-of_member, of_All}
use duto_ai.Config.Graph.{GraphError, circular_dependency}
use duto_ai.Config.Agents.{
  Agents, Mark, visiting, visited, Marks, subagents_of, visit_each, visit_agent, visit_agents,
}
use duto_ai.Config.Agents.Cycles.{
  Edge, Grounded, child-Grounded, Chain, here, snoc-Chain, Grounded-acyclic,
}
use duto_ai.Config.Agents.Fuel.{
  left, left-insert, left-insert_new, left-nil, length-keys, lookup-none, no_subagents,
  visit_agents-Stops,
}
use duto_ai.Config.Agents.Search.{
  insert-new, insert_here, VisitedAll, visit_agent-Visited, visit_each-Visited, visit_new,
  visit_closed,
}

no_mark : (m : Mark) (k : String) → lookup {V = Mark} k [] ≡ some m → ⊥
unfolding lookup
no_mark m k h = cc

module _ (agents : Agents) where
  -- Each open agent delegates to this one, over one or more agents.
  abbrev Opened : Marks → String → Type 0
  Opened marks name =
      (k : String)
      → lookup k marks ≡ some visiting
      → (child : String) × Edge agents k child × Chain agents child name

  abbrev Closed : Marks → Marks → Type 0
  Closed marks out = (k : String) → lookup k out ≡ some visiting → lookup k marks ≡ some visiting

  record Ends (run : Result GraphError Marks) (marks : Marks) : Type 0 where
    out : Marks
    result : run ≡ ok out
    fewer : left (keys agents) out ≤ left (keys agents) marks
    closed : Closed marks out

  -- The result of a loop over names that each end.
  visit_each-Ends :
      (fuel : ℕ)
      → ((name : String) (marks : Marks)
          → left (keys agents) marks < fuel
          → Grounded agents name
          → Opened marks name
          → Ends (visit_agent fuel agents name marks) marks)
      → (names : List String) (marks : Marks) → left (keys agents) marks < fuel
      → ((name : String) → member name names ≡ true → Grounded agents name)
      → ((name : String) → member name names ≡ true → Opened marks name)
      → Ends (visit_each (visit_agent fuel agents) names marks) marks
  unfolding visit_each member
  visit_each-Ends fuel ends [] marks h g o = record {
    out = marks;
    result = refl;
    fewer = omega arith;
    closed = λ k e. e;
  }
  visit_each-Ends fuel ends (name ∷ names) marks h g o =
      let one =
        ends name marks h (g name (member_self name names)) (o name (member_self name names)) in
      let rest =
        visit_each-Ends fuel ends names one.out (omega (arith, one.fewer, h))
          (λ k m. g k (ground (arith, m)))
          (λ k m j e. o k (ground (arith, m)) j (one.closed j e)) in
      record {
        out = rest.out;
        result = rw one.result rest.result;
        fewer = omega (arith, one.fewer, rest.fewer);
        closed = λ k e. one.closed k (rest.closed k e);
      }

  open-Opened :
      (name child : String) (marks : Marks)
      → Opened marks name
      → Edge agents name child
      → Opened (insert name visiting marks) child
  open-Opened name child marks o edge k e = elim (insert-new k name visiting marks e) [
    | inl (same, _) ↦ (child, subst (λ j. Edge agents j child) same edge, here child child refl)
    | inr old ↦
        let (next, first, chain) = o k old in
        (next, first, snoc-Chain agents next name child chain edge)
  ]

  -- The children of an agent that is opened have fuel, since it was not marked before.
  children-Ends :
      (fuel : ℕ) (name : String) (marks : Marks)
      → ((child : String) (at : Marks)
          → left (keys agents) at < fuel
          → Grounded agents child
          → Opened at child
          → Ends (visit_agent fuel agents child at) at)
      → left (keys agents) marks < suc fuel
      → lookup name marks ≡ none
      → Grounded agents name
      → Opened marks name
      → Ends
          (visit_each
            (visit_agent fuel agents)
            (subagents_of agents name)
            (insert name visiting marks))
          (insert name visiting marks)
  children-Ends fuel name marks ends h new g o = elim (Bool-cases (member name (keys agents))) [
    | inl known ↦
        visit_each-Ends fuel ends (subagents_of agents name) (insert name visiting marks)
          (omega (arith, left-insert_new (keys agents) name visiting marks new known, h))
          (λ child edge. child-Grounded agents name child g edge)
          (λ child edge. open-Opened name child marks o edge)
    | inr unknown ↦
        subst
          (λ children.
            Ends (visit_each (visit_agent fuel agents) children (insert name visiting marks))
              (insert name visiting marks))
          (sym (no_subagents agents name (lookup-none agents name unknown)))
          (unfold visit_each in
            record {
              out = insert name visiting marks;
              result = refl;
              fewer = omega arith;
              closed = λ k e. e;
            })
  ]

  visit_agent-Ends :
      (fuel : ℕ) (name : String) (marks : Marks)
      → left (keys agents) marks < fuel
      → Grounded agents name
      → Opened marks name
      → Ends (visit_agent fuel agents name marks) marks
  visit_agent-Ends zero name marks h g o = absurd (omega arith)
  visit_agent-Ends (suc fuel) name marks h g o =
      split (λ child at. visit_agent-Ends fuel child at) (lookup name marks) refl
    where
      split :
          ((child : String) (at : Marks)
            → left (keys agents) at < fuel
            → Grounded agents child
            → Opened at child
            → Ends (visit_agent fuel agents child at) at)
          → (o : Option Mark) → lookup name marks ≡ o
          → Ends (visit_agent (suc fuel) agents name marks) marks
      split ends (some visiting) e =
          let (child, edge, chain) = o name e in
          absurd (Grounded-acyclic agents name child g edge chain)
      split ends (some visited) e = record {
        out = marks;
        result = visit_closed agents fuel name marks e;
        fewer = omega arith;
        closed = λ k f. f;
      }
      split ends none e =
          let below = children-Ends fuel name marks ends h e g o in
          record {
            out = insert name visited below.out;
            result = visit_new agents fuel name marks e ∙ rw below.result;
            fewer = omega (
              arith,
              below.fewer,
              left-insert (keys agents) name visiting marks,
              left-insert (keys agents) name visited below.out,
            );
            closed = λ k f. elim (insert-new k name visited below.out f) [
              | inl (_, differ) ↦ absurd (cc)
              | inr old ↦ elim (insert-new k name visiting marks (below.closed k old)) [
                | inr older ↦ older
                | inl (same, _) ↦ absurd (
                    cc (
                      insert_here name visited below.out,
                      ap (λ j. lookup j (insert name visited below.out)) same,
                    ))
              ]
            ];
          }

  visit_each-Grounded :
      (order : List String) {out : Marks}
      → visit_agents agents order ≡ ok out
      → All (Grounded agents) order
  unfolding visit_agents
  visit_each-Grounded order {out} e =
      let all : VisitedAll agents order [] out =
        visit_each-Visited agents (visit_agent (suc (length agents)) agents)
          (visit_agent-Visited agents (suc (length agents))) order [] out
          (λ k h. absurd (no_mark visited k h)) e in
      All-of_member (Grounded agents) order (λ k m. all.sound k (all.each k m))

  visit_agents-Ends :
      (order : List String)
      → All (Grounded agents) order
      → (out : Marks) × (visit_agents agents order ≡ ok out)
  unfolding visit_agents
  visit_agents-Ends order all =
      let ends =
        visit_each-Ends (suc (length agents)) (visit_agent-Ends (suc (length agents))) order []
          (omega (arith, left-nil (keys agents), length-keys agents))
          (λ name m. of_All (Grounded agents) name order all m)
          (λ name m k e. absurd (no_mark visiting k e)) in
      (ends.out, ends.result)

  -- The search from a list of agents succeeds exactly when every chain of subagents from each of them
  -- ends.
  pub visit_agents-Grounded :
      (order : List String)
      → ((out : Marks) × (visit_agents agents order ≡ ok out)) ↔ All (Grounded agents) order
  visit_agents-Grounded order = ((λ (out, e). visit_each-Grounded order e), visit_agents-Ends order)

  -- The search from a list of agents ends within its fuel, with one of two results: marks, where
  -- every chain of subagents from each agent of the list ends, or a circular dependency, where not
  -- all of these chains end.
  pub visit_agents_exact :
      (order : List String)
      → ((out : Marks) × (visit_agents agents order ≡ ok out) × All (Grounded agents) order)
        ⊎ ((visit_agents agents order ≡ err circular_dependency) × ¬ All (Grounded agents) order)
  visit_agents_exact order = elim (visit_agents-Stops agents order) [
    | inr (out, e) ↦ inl (out, e, visit_each-Grounded order e)
    | inl e ↦ inr (e, λ all. let (out, f) = visit_agents-Ends order all in cc (e, f))
  ]
