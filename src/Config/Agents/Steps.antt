-- ===== src/Config/Agents/Steps.antt =====
-- The checks on the agents that steps name (validateAgentGraph in internal/config/agent.go), from
-- both sides.
use duto_ai.Prelude.{
  String, Bool, true, false, ◌&&◌, ◌||◌, not, some, List, [], ◌∷◌, is_empty, ◌≡◌, refl, arith,
  str_eq, Bool-cases, ok, require->>, >>=-eq-ok, All, ◌⊎◌, inl, inr,
}
use duto_ai.Prelude.Keys.{lookup}
use duto_ai.Config.Graph.{GraphStep, invalid_name}
use duto_ai.Config.Agents.{Agent, Agents, or_error, check_step_agents}
use duto_ai.Config.Agents.Checks.{or_error-ok, not-true}

-- Who chats is the agent of the workflow's one step, which needs nothing and gives the result.
abbrev pub Alone : Bool → String → GraphStep → Type 0
Alone alone result step =
    (alone ≡ true) × (is_empty step.needs ≡ true) × (str_eq result step.id ≡ true)

-- The step names no agent, or one of the workflow that is no task agent, and chats only if alone.
abbrev pub Allowed : Agents → Bool → String → GraphStep → Type 0
Allowed agents alone result step =
    (str_eq step.agent "" ≡ true)
    ⊎ ((definition : Agent) × (lookup step.agent agents ≡ some definition)
        × (str_eq definition.mode "task" ≡ false)
        × ((str_eq definition.mode "chat" ≡ false) ⊎ Alone alone result step))

chat_alone :
    (chat alone empty result : Bool)
    → not (chat && (not alone || not empty || not result)) ≡ true
    → (chat ≡ false) ⊎ ((alone ≡ true) × (empty ≡ true) × (result ≡ true))
chat_alone false alone empty result h = inl refl
chat_alone true true true true h = inr (refl, refl, refl)
chat_alone true true true false h = cc
chat_alone true true false result h = cc
chat_alone true false empty result h = cc

alone_chat :
    (chat alone empty result : Bool)
    → (chat ≡ false) ⊎ ((alone ≡ true) × (empty ≡ true) × (result ≡ true))
    → not (chat && (not alone || not empty || not result)) ≡ true
alone_chat chat alone empty result (inl h) = rw h
alone_chat chat alone empty result (inr (a, e, r)) = ground (arith, a, e, r)

module _ (agents : Agents) (alone : Bool) (result : String) where
  pub check_step_agents-Allowed :
      (steps : List GraphStep)
      → check_step_agents agents alone result steps ≡ ok tt
      → All (Allowed agents alone result) steps
  unfolding check_step_agents
  check_step_agents-Allowed [] e = tt
  check_step_agents-Allowed (step ∷ steps) e = elim (Bool-cases (str_eq step.agent "")) [
    | inl no_agent ↦ (inl no_agent, check_step_agents-Allowed steps (rw no_agent at e))
    | inr named ↦
        let (definition, found, e1) =
          >>=-eq-ok (or_error (lookup step.agent agents) invalid_name) _ (rw named at e) in
        let (task, e2) = require->> (not (str_eq definition.mode "task")) invalid_name _ e1 in
        let (chat, e3) =
          require->>
            (not (
              str_eq definition.mode "chat"
              && (not alone || not (is_empty step.needs) || not (str_eq result step.id))))
            invalid_name _ e2 in
        (
          inr (
            definition,
            or_error-ok _ invalid_name found,
            not-true _ task,
            chat_alone _ alone _ _ chat,
          ),
          check_step_agents-Allowed steps e3,
        )
  ]

  pub Allowed-check_step_agents :
      (steps : List GraphStep)
      → All (Allowed agents alone result) steps
      → check_step_agents agents alone result steps ≡ ok tt
  unfolding check_step_agents
  Allowed-check_step_agents [] a = refl
  Allowed-check_step_agents (step ∷ steps) (inl no_agent, a) =
      rw no_agent (Allowed-check_step_agents steps a)
  Allowed-check_step_agents (step ∷ steps) (inr (definition, found, task, chat), a) =
      elim (Bool-cases (str_eq step.agent "")) [
        | inl no_agent ↦ rw no_agent (Allowed-check_step_agents steps a)
        | inr named ↦ rw named (
            rw found (
              rw task (
                rw (alone_chat _ alone (is_empty step.needs) (str_eq result step.id) chat)
                  (Allowed-check_step_agents steps a))))
      ]
