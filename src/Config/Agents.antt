-- ===== src/Config/Agents.antt =====
-- The graph of a workflow's agents (validateAgentGraph in internal/config/agent.go): the checks on
-- each agent, the depth-first search for a cycle of subagents, and the checks on the steps' agents.
-- The search runs on fuel, one more than there are agents. A map without an entry is read as an agent
-- without subagents, as Go does.
pub mod Checks
pub mod Cycles
pub mod Exact
pub mod Fuel
pub mod Search
pub mod Steps
use duto_ai.Prelude.{
  ℕ, zero, suc, String, Bool, true, false, ◌&&◌, ◌||◌, not, Option, none, some, List, [], ◌∷◌,
  length, ◌==◌, is_empty, if◌then◌else◌, str_eq, Result, ok, err, ◌>>=◌, ◌>>◌, require,
}
use duto_ai.Prelude.Keys.{lookup, insert, member, add}
use duto_ai.Pattern.{is_name}
use duto_ai.Config.Graph.{
  GraphError, GraphStep, unknown_dependency, duplicate_step_id, circular_dependency, invalid_name,
  out_of_fuel,
}

-- The parts of config.AgentSpec that the graph reads.
pub record Agent : Type 0 where
  pub model : String
  pub mode : String
  pub subagents : List String

abbrev pub Agents : Type 0
Agents = List (String × Agent)

abbrev pub or_error {ℓ} : {A : Type ℓ} → Option A → GraphError → Result GraphError A
or_error none e = err e
or_error (some a) e = ok a

-- The loop over the subagents of an agent; the list holds those seen.
unfoldable pub check_children : Agents → List String → List String → Result GraphError (Unit {0})
unfolding lookup member add
check_children agents seen [] = ok tt
check_children agents seen (child ∷ children) = do
  definition ← or_error (lookup child agents) unknown_dependency
  require (not (str_eq definition.mode "chat")) invalid_name
  require (not (member child seen)) duplicate_step_id
  check_children agents (add child seen) children

-- The loop over the agents.
unfoldable pub check_agents : Agents → Agents → Result GraphError (Unit {0})
unfolding check_children is_name
check_agents agents [] = ok tt
check_agents agents ((name, definition) ∷ rest) = do
  require (is_name name && is_name definition.model) invalid_name
  check_children agents [] definition.subagents
  check_agents agents rest

-- The values 1 and 2 of `state`; a name without an entry has 0.
pub data Mark : Type 0 where
  visiting visited : Mark

abbrev pub Marks : Type 0
Marks = List (String × Mark)

abbrev pub subagents_or_none : Option Agent → List String
subagents_or_none none = []
subagents_or_none (some definition) = definition.subagents

-- workflow.Agents[name].Subagents
abbrev pub subagents_of : Agents → String → List String
subagents_of agents name = subagents_or_none (lookup name agents)

-- A loop that visits each name and stops at an error.
unfoldable pub visit_each :
    (String → Marks → Result GraphError Marks) → List String → Marks → Result GraphError Marks
visit_each f [] marks = ok marks
visit_each f (name ∷ names) marks = do marks' ← f name marks; visit_each f names marks'

unfoldable pub visit_agent : ℕ → Agents → String → Marks → Result GraphError Marks
unfolding visit_each lookup insert
visit_agent zero agents name marks = err out_of_fuel
visit_agent (suc fuel) agents name marks = elim (lookup name marks) [
  | some visiting ↦ err circular_dependency
  | some visited ↦ ok marks
  | none ↦ do
    marks' ←
        visit_each (visit_agent fuel agents) (subagents_of agents name) (insert name visiting marks)
    ok (insert name visited marks')
]

unfoldable pub visit_agents : Agents → List String → Result GraphError Marks
unfolding visit_agent
visit_agents agents order = visit_each (visit_agent (suc (length agents)) agents) order []

-- The loop over the steps; `alone` says whether the workflow has one step.
unfoldable pub check_step_agents :
    Agents → Bool → String → List GraphStep → Result GraphError (Unit {0})
unfolding lookup
check_step_agents agents alone result [] = ok tt
check_step_agents agents alone result (step ∷ steps) =
    let rest = check_step_agents agents alone result steps in
    if str_eq step.agent "" then rest else (do
      definition ← or_error (lookup step.agent agents) invalid_name
      require (not (str_eq definition.mode "task")) invalid_name
      require
          (not (
            str_eq definition.mode "chat"
            && (not alone || not (is_empty step.needs) || not (str_eq result step.id))))
          invalid_name
      rest)

unfoldable pub validate_agent_graph :
    Agents → List String → List GraphStep → String → Result GraphError (Unit {0})
unfolding check_agents visit_agents check_step_agents
validate_agent_graph agents order steps result = do
  check_agents agents agents
  marks ← visit_agents agents order
  check_step_agents agents (length steps == 1) result steps
