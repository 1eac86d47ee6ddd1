-- ===== src/Config/Agents/Checks.antt =====
-- The checks on each agent and on the steps' agents (validateAgentGraph in
-- internal/config/agent.go), from both sides.
use duto_ai.Prelude.{
  String, Bool, true, false, ◌&&◌, not, Option, none, some, List, [], ◌∷◌, ◌≡◌, refl, ap, ◌∙◌,
  arith, str_eq, eq_iff, eq_refl, Bool-cases, Result, ok, ◌>>◌, require, require->>, >>=-eq-ok,
  ok-injective, All, inl, inr,
}
use duto_ai.Prelude.Keys.{lookup, member, add, member-add, Distinct, member_self}
use duto_ai.Pattern.{is_name}
use duto_ai.Config.Graph.{GraphError, duplicate_step_id, unknown_dependency, invalid_name}
use duto_ai.Config.Agents.{Agent, Agents, or_error, check_children, check_agents}

-- The subagent is an agent, and no chat agent.
abbrev pub Usable : Agents → String → Type 0
Usable agents child =
    (definition : Agent) × (lookup child agents ≡ some definition)
    × (str_eq definition.mode "chat" ≡ false)

pub or_error-ok {ℓ} :
    {A : Type ℓ} (o : Option A) (e : GraphError) {a : A} → or_error o e ≡ ok a → o ≡ some a
or_error-ok none e h = cc
or_error-ok (some b) e h = ap some (ok-injective h)

pub not-true : (b : Bool) → not b ≡ true → b ≡ false
not-true false h = refl
not-true true h = cc

-- The subagents are usable, no two are the same, and none is among those seen.
record Delegates (agents : Agents) (seen children : List String) : Type 0 where
  usable : All (Usable agents) children
  distinct : Distinct children
  new : (k : String) → member k children ≡ true → member k seen ≡ false

step-Delegates :
    (agents : Agents) (seen : List String) (child : String) (children : List String)
    → Usable agents child
    → member child seen ≡ false
    → Delegates agents (add child seen) children
    → Delegates agents seen (child ∷ children)
unfolding member
step-Delegates agents seen child children usable new d = record {
  usable = (usable, d.usable);
  distinct = (apart (member child children) refl, d.distinct);
  new = λ k h. elim (Bool-cases (str_eq child k)) [
    | inl e ↦ ground (arith, eq_iff child k, new)
    | inr e ↦ ground (arith, d.new k (rw e at h), member-add k child seen)
  ];
}
  where
    apart : (b : Bool) → member child children ≡ b → member child children ≡ false
    apart false e = e
    apart true e = ground (arith, d.new child e, member-add child child seen, eq_refl child)

check_children-Delegates :
    (agents : Agents) (seen children : List String)
    → check_children agents seen children ≡ ok tt
    → Delegates agents seen children
unfolding check_children
check_children-Delegates agents seen [] e = record {
  usable = tt;
  distinct = tt;
  new = λ k h. unfold member in cc;
}
check_children-Delegates agents seen (child ∷ children) e =
    let (definition, found, e1) =
      >>=-eq-ok (or_error (lookup child agents) unknown_dependency) _ e in
    let (mode, e2) = require->> (not (str_eq definition.mode "chat")) invalid_name _ e1 in
    let (new, e3) = require->> (not (member child seen)) duplicate_step_id _ e2 in
    step-Delegates agents seen child children
      (definition, or_error-ok _ unknown_dependency found, not-true _ mode) (not-true _ new)
      (check_children-Delegates agents (add child seen) children e3)

tail-Delegates :
    (agents : Agents) (seen : List String) (child : String) (children : List String)
    → Delegates agents seen (child ∷ children)
    → Delegates agents (add child seen) children
unfolding member
tail-Delegates agents seen child children d = record {
  usable = d.usable.1;
  distinct = d.distinct.1;
  new = λ k h. ground (arith, d.new k, d.distinct.0, member-add k child seen, eq_iff child k, h);
}

check_children-step :
    (agents : Agents) (seen : List String) (child : String) (children : List String)
    → Usable agents child
    → member child seen ≡ false
    → check_children agents seen (child ∷ children)
      ≡ check_children agents (add child seen) children
unfolding check_children
check_children-step agents seen child children (definition, found, mode) new =
    rw found (rw mode (rw new refl))

Delegates-check_children :
    (agents : Agents) (seen children : List String)
    → Delegates agents seen children
    → check_children agents seen children ≡ ok tt
unfolding check_children
Delegates-check_children agents seen [] d = refl
Delegates-check_children agents seen (child ∷ children) d =
    check_children-step agents seen child children d.usable.0
      (d.new child (member_self child children))
    ∙ Delegates-check_children agents (add child seen) children
        (tail-Delegates agents seen child children d)

-- The agent and its model are named, and its subagents are agents that are no chat agents, no two of
-- them the same.
pub record IsAgent (agents : Agents) (name : String) (definition : Agent) : Type 0 where
  pub named : is_name name ≡ true
  pub model : is_name definition.model ≡ true
  pub usable : All (Usable agents) definition.subagents
  pub distinct : Distinct definition.subagents

abbrev pub AllAgents : Agents → Agents → Type 0
AllAgents agents [] = Unit
AllAgents agents ((name, definition) ∷ rest) =
    IsAgent agents name definition × AllAgents agents rest

pub check_agents-All :
    (agents rest : Agents) → check_agents agents rest ≡ ok tt → AllAgents agents rest
unfolding check_agents
check_agents-All agents [] e = tt
check_agents-All agents ((name, definition) ∷ rest) e =
    let (names, e1) = require->> (is_name name && is_name definition.model) invalid_name _ e in
    let (u, children, e2) = >>=-eq-ok (check_children agents [] definition.subagents) _ e1 in
    let d = check_children-Delegates agents [] definition.subagents children in
    (
      record {
        named = ground (arith, names);
        model = ground (arith, names);
        usable = d.usable;
        distinct = d.distinct;
      },
      check_agents-All agents rest e2,
    )

pub All-check_agents :
    (agents rest : Agents) → AllAgents agents rest → check_agents agents rest ≡ ok tt
unfolding check_agents
All-check_agents agents [] a = refl
All-check_agents agents ((name, definition) ∷ rest) (first, a) =
    let children : check_children agents [] definition.subagents ≡ ok tt =
      Delegates-check_children agents [] definition.subagents (record {
        usable = first.usable;
        distinct = first.distinct;
        new = λ k h. unfold member in refl;
      }) in
    ap
      (λ b.
        require b invalid_name
        >> (check_children agents [] definition.subagents >> check_agents agents rest))
      (named_both first.named first.model)
    ∙ ap (λ (r : Result GraphError (Unit {0})). r >> check_agents agents rest) children
    ∙ All-check_agents agents rest a
  where
    named_both :
        is_name name ≡ true
        → is_name definition.model ≡ true
        → (is_name name && is_name definition.model) ≡ true
    named_both h k = ground (arith, h, k)
