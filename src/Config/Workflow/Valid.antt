-- ===== src/Config/Workflow/Valid.antt =====
-- The workflows that pass (ValidateWorkflow in internal/config/validate.go).
use duto_ai.Prelude.{
  String, true, false, ◌||◌, not, some, List, [], ◌∷◌, length, ◌==◌, is_empty, ◌≡◌, refl, sym, ap,
  ◌∙◌, arith, str_eq, ok, require->>, >>=-eq-ok, All, ◌↔◌,
}
use duto_ai.Prelude.Keys.{member, Distinct}
use duto_ai.Pattern.{is_name}
use duto_ai.Config.Graph.{GraphStep, invalid_name, no_steps, unknown_result_step, topological_sort}
use duto_ai.Config.Graph.Indexed.{step_ids}
use duto_ai.Config.Graph.Ordering.{IsOrderOf, topological_sort-IsOrderOf}
use duto_ai.Config.Graph.Exact.{topological_sort_exact}
use duto_ai.Config.Agents.{Agents, validate_agent_graph, check_agents, visit_agents}
use duto_ai.Config.Agents.Cycles.{Grounded}
use duto_ai.Config.Agents.Exact.{visit_agents-Grounded}
use duto_ai.Config.Agents.Checks.{AllAgents, not-true, check_agents-All, All-check_agents}
use duto_ai.Config.Agents.Steps.{Allowed, check_step_agents-Allowed, Allowed-check_step_agents}
use duto_ai.Config.Workflow.{
  Workflow, Route, collect_ids, check_needs, check_routes, validate_workflow,
}
use duto_ai.Config.Workflow.Loops.{
  collect_ids-Collects, Collects-collect_ids, member-collect_ids, Known, check_needs-Known,
  Known-check_needs, Leads, check_routes-Leads, Leads-check_routes,
}

pub record IsDelegation (agents : Agents) (order : List String) (steps : List GraphStep)
    (result : String) : Type 0 where
  pub agents_valid : AllAgents agents agents
  pub acyclic : All (Grounded agents) order
  pub allowed : All (Allowed agents (length steps == 1) result) steps

validate_agent_graph-IsDelegation :
    (agents : Agents) (order : List String) (steps : List GraphStep) (result : String)
    → validate_agent_graph agents order steps result ≡ ok tt
    → IsDelegation agents order steps result
unfolding validate_agent_graph
validate_agent_graph-IsDelegation agents order steps result e =
    let (u, checked, e1) = >>=-eq-ok (check_agents agents agents) _ e in
    let (marks, visited, e2) = >>=-eq-ok (visit_agents agents order) _ e1 in
    record {
      agents_valid = check_agents-All agents agents checked;
      acyclic = (visit_agents-Grounded agents order).0 (marks, visited);
      allowed = check_step_agents-Allowed agents (length steps == 1) result steps e2;
    }

IsDelegation-validate_agent_graph :
    (agents : Agents) (order : List String) (steps : List GraphStep) (result : String)
    → IsDelegation agents order steps result
    → validate_agent_graph agents order steps result ≡ ok tt
unfolding validate_agent_graph
IsDelegation-validate_agent_graph agents order steps result d =
    let (marks, visited) = (visit_agents-Grounded agents order).1 d.acyclic in
    rw (All-check_agents agents agents d.agents_valid)
      (rw visited (Allowed-check_step_agents agents (length steps == 1) result steps d.allowed))

-- The workflow and its model are named, there are steps, their ids are distinct names, and an order
-- of the steps respects their needs; the result and its routes are of steps; and the agents are valid.
pub record IsWorkflow (workflow : Workflow) : Type 0 where
  pub name : is_name workflow.name ≡ true
  pub model : is_name workflow.model ≡ true
  pub some_step : is_empty workflow.steps ≡ false
  pub delegation :
      IsDelegation workflow.agents workflow.agent_order workflow.steps workflow.result_step
  pub named : All (λ id. is_name id ≡ true) (step_ids workflow.steps)
  pub distinct : Distinct (step_ids workflow.steps)
  pub known : Known (step_ids workflow.steps) workflow.steps
  pub result :
      (str_eq workflow.result_step "" || member workflow.result_step (step_ids workflow.steps))
      ≡ true
  pub routes : Leads (step_ids workflow.steps) workflow.routes
  pub ordered : (sorted : List GraphStep) × IsOrderOf workflow.steps sorted

abbrev Alike : List String → List String → Type 0
Alike ids others = (k : String) → member k ids ≡ member k others

Known-Alike :
    (ids others : List String) (steps : List GraphStep)
    → Alike ids others
    → Known ids steps
    → Known others steps
Known-Alike ids others [] same k = tt
Known-Alike ids others (step ∷ steps) same (first, k) =
    (needs_alike step.needs first, Known-Alike ids others steps same k)
  where
    needs_alike :
        (needs : List String)
        → All (λ need. member need ids ≡ true) needs
        → All (λ need. member need others ≡ true) needs
    needs_alike [] a = tt
    needs_alike (need ∷ needs) (h, a) = (sym (same need) ∙ h, needs_alike needs a)

Leads-Alike :
    (ids others : List String) (routes : List Route)
    → Alike ids others
    → Leads ids routes
    → Leads others routes
Leads-Alike ids others [] same l = tt
Leads-Alike ids others (route ∷ routes) same ((h, k), l) =
    ((h, sym (same route.step) ∙ k), Leads-Alike ids others routes same l)

collected :
    (steps : List GraphStep) {ids : List String}
    → collect_ids [] steps ≡ ok ids
    → Alike ids (step_ids steps)
unfolding member
collected steps e k = ground (arith, member-collect_ids k [] steps e)

sound : (workflow : Workflow) → validate_workflow (some workflow) ≡ ok tt → IsWorkflow workflow
unfolding validate_workflow
sound w e =
    let (name, e1) = require->> (is_name w.name) invalid_name _ e in
    let (model, e2) = require->> (is_name w.model) invalid_name _ e1 in
    let (some_step, e3) = require->> (not (is_empty w.steps)) no_steps _ e2 in
    let (u, delegation, e4) =
      >>=-eq-ok (validate_agent_graph w.agents w.agent_order w.steps w.result_step) _ e3 in
    let (ids, collects, e5) = >>=-eq-ok (collect_ids [] w.steps) _ e4 in
    let (v, needs, e6) = >>=-eq-ok (check_needs ids w.steps) _ e5 in
    let (result, e7) =
      require->> (str_eq w.result_step "" || member w.result_step ids) unknown_result_step _ e6 in
    let (x, routes, e8) = >>=-eq-ok (check_routes ids w.routes) _ e7 in
    let (sorted, ordered, _) = >>=-eq-ok (topological_sort w.steps) _ e8 in
    let c = collect_ids-Collects [] w.steps collects in
    let alike : Alike ids (step_ids w.steps) = collected w.steps collects in
    record {
      name = name;
      model = model;
      some_step = not-true (is_empty w.steps) some_step;
      delegation =
          validate_agent_graph-IsDelegation w.agents w.agent_order w.steps w.result_step delegation;
      named = c.named;
      distinct = c.distinct;
      known =
          Known-Alike ids (step_ids w.steps) w.steps alike (check_needs-Known ids w.steps needs);
      result = ap (λ b. str_eq w.result_step "" || b) (sym (alike w.result_step)) ∙ result;
      routes =
          Leads-Alike ids (step_ids w.steps) w.routes alike
            (check_routes-Leads ids w.routes routes);
      ordered = (sorted, topological_sort-IsOrderOf w.steps ordered);
    }

complete : (workflow : Workflow) → IsWorkflow workflow → validate_workflow (some workflow) ≡ ok tt
unfolding validate_workflow
complete w v =
    let (ids, collects) =
      Collects-collect_ids [] w.steps
        (record { named = v.named; distinct = v.distinct; new = λ k h. unfold member in refl }) in
    let alike : Alike (step_ids w.steps) ids = λ k. sym (collected w.steps collects k) in
    let result : (str_eq w.result_step "" || member w.result_step ids) ≡ true =
      ap (λ b. str_eq w.result_step "" || b) (sym (alike w.result_step)) ∙ v.result in
    let (sorted, ordered) = (topological_sort_exact w.steps v.distinct).1 v.ordered in
    rw v.name (
      rw v.model (
        rw v.some_step (
          rw
            (IsDelegation-validate_agent_graph w.agents w.agent_order w.steps w.result_step
              v.delegation)
            (rw collects (
              rw
                (Known-check_needs ids w.steps
                  (Known-Alike (step_ids w.steps) ids w.steps alike v.known))
                (rw result (
                  rw
                    (Leads-check_routes ids w.routes
                      (Leads-Alike (step_ids w.steps) ids w.routes alike v.routes))
                    (rw ordered))))))))

-- A workflow passes exactly when it and its model are named and it has steps; the ids of the steps
-- are names and distinct, the steps have an order in which each stands once, behind a step with the
-- id, for each id that it needs; every such id, that of the result, if it names one, and that of each
-- route is a step's, and a route asks for the outcome of its own step; each agent and its model are
-- named, and its subagents are distinct agents that are no chat agents; every chain of subagents from
-- an agent of the order ends; and a step's agent, if it names one, is one of the workflow that is no
-- task agent, and chats only where the workflow has that step alone, which needs nothing and gives
-- the result.
pub validate_workflow_exact :
    (workflow : Workflow) → (validate_workflow (some workflow) ≡ ok tt) ↔ IsWorkflow workflow
validate_workflow_exact workflow = (sound workflow, complete workflow)
