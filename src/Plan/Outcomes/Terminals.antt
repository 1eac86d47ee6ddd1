-- ===== src/Plan/Outcomes/Terminals.antt =====
-- Which outcomes are terminal.
use duto_ai.Prelude.{
  String, Bool, true, false, not, ◌&&◌, ◌||◌, List, [], ◌∷◌, ◌≡◌, refl, sym, ◌∙◌, ap, ap₂, arith,
  Bool-cases, inl, inr, str_eq, str_eq-true, any, all,
}
use duto_ai.Prelude.Cover.{has}
use duto_ai.Prelude.Keys.{member}
use duto_ai.Plan.Outcomes.{
  Condition, Output, Step, TerminalPair, Terminals, conditions_consume, pair_eq, pairs,
  put_terminal, outcome_consumed, step_terminals, terminals_from, terminals_of,
}
use duto_ai.Plan.Outcomes.Routes.{pair_eq-true}

-- The step needs the pair's step, and has a condition on it that the pair's outcome meets, or no
-- condition on it at all.
abbrev pub consumes : TerminalPair → Step → Bool
consumes k successor =
    member k.step successor.needs
    && (any (λ c. str_eq c.step k.step && member k.outcome c.outcomes) successor.conditions
        || all (λ c. not (str_eq c.step k.step)) successor.conditions)

conditions_consume_exact :
    (id outcome : String) (cs : List Condition) (conditioned : Bool)
    → conditions_consume id outcome cs conditioned ≡ (
        any (λ c. str_eq c.step id && member outcome c.outcomes) cs
        || (not conditioned && all (λ c. not (str_eq c.step id)) cs))
unfolding conditions_consume any all
conditions_consume_exact id outcome [] conditioned = ground arith
conditions_consume_exact id outcome (c ∷ cs) conditioned =
    ground (arith, conditions_consume_exact id outcome cs (str_eq c.step id || conditioned))

outcome_consumed_exact :
    (k : TerminalPair) (steps : List Step)
    → outcome_consumed k.step k.outcome steps ≡ any (consumes k) steps
unfolding outcome_consumed any
outcome_consumed_exact k [] = refl
outcome_consumed_exact k (successor ∷ steps) = ground (
  arith,
  outcome_consumed_exact k steps,
  conditions_consume_exact k.step k.outcome successor.conditions false,
)

put_terminal-has :
    (j k : TerminalPair) (v : Output) (m : Terminals)
    → has pair_eq k (pairs (put_terminal j v m)) ≡ (pair_eq j k || has pair_eq k (pairs m))
unfolding put_terminal has
put_terminal-has j k v [] = refl
put_terminal-has j k v ((i, w) ∷ m) = elim (Bool-cases (pair_eq i j)) [
  | inl e ↦ rw e (same (pair_eq-true i j e))
  | inr e ↦ rw e (rw (put_terminal-has j k v m) (swap (pair_eq i k) (pair_eq j k) _))
]
  where
    swap : (a b c : Bool) → (a || (b || c)) ≡ (b || (a || c))
    swap a b c = ground arith

    same :
        i ≡ j
        → (pair_eq j k || has pair_eq k (pairs m))
          ≡ (pair_eq j k || (pair_eq i k || has pair_eq k (pairs m)))
    same p = rw p (twice (pair_eq j k) _)
      where
        twice : (a b : Bool) → (a || b) ≡ (a || (a || b))
        twice a b = ground arith

skipped :
    (f s o m c : Bool)
    → (s ≡ true → o ≡ true → c ≡ true)
    → (f || (s && m && not c)) ≡ (f || (s && (o || m) && not c))
skipped f false o m c h = refl
skipped f true false m c h = refl
skipped f true true m c h = rw (h refl refl) (ground arith)

kept :
    (f s o m c : Bool)
    → (s ≡ true → o ≡ true → c ≡ false)
    → (((s && o) || f) || (s && m && not c)) ≡ (f || (s && (o || m) && not c))
kept f false o m c h = refl
kept f true false m c h = refl
kept f true true m c h = rw (h refl refl) (ground arith)

-- The step's terminals among these outcomes join those found so far.
step_terminals-has :
    (step : Step) (steps : List Step) (outcomes : List String) (found : Terminals)
    (k : TerminalPair)
    → has pair_eq k (pairs (step_terminals step steps outcomes found)) ≡ (
        has pair_eq k (pairs found)
        || (str_eq step.id k.step
            && member k.outcome outcomes
            && not (outcome_consumed k.step k.outcome steps)))
unfolding step_terminals member
step_terminals-has step steps [] found k = ground arith
step_terminals-has step steps (o ∷ os) found k =
    elim (Bool-cases (outcome_consumed step.id o steps)) [
      | inl e ↦ rw e (
          step_terminals-has step steps os found k
          ∙ skipped (has pair_eq k (pairs found)) (str_eq step.id k.step) (str_eq o k.outcome)
              (member k.outcome os) (outcome_consumed k.step k.outcome steps) (here e))
      | inr e ↦ rw e (
          step_terminals-has step steps os
            (put_terminal (record { step = step.id; outcome = o }) step.output found) k
          ∙ ap
              (λ b.
                b
                || (str_eq step.id k.step
                    && member k.outcome os
                    && not (outcome_consumed k.step k.outcome steps)))
              (put_terminal-has (record { step = step.id; outcome = o }) k step.output found)
          ∙ kept (has pair_eq k (pairs found)) (str_eq step.id k.step) (str_eq o k.outcome)
              (member k.outcome os) (outcome_consumed k.step k.outcome steps) (here e))
    ]
  where
    here :
        {b : Bool}
        → outcome_consumed step.id o steps ≡ b
        → str_eq step.id k.step ≡ true
        → str_eq o k.outcome ≡ true
        → outcome_consumed k.step k.outcome steps ≡ b
    here e s t =
        sym (
          ap₂ (λ x y. outcome_consumed x y steps) (str_eq-true step.id k.step s)
            (str_eq-true o k.outcome t))
        ∙ e

-- The step has the pair's name and outcome, and none of the steps consumes that outcome.
abbrev pub ends : List Step → TerminalPair → Step → Bool
ends steps k step =
    str_eq step.id k.step && member k.outcome step.output.outcomes && not (any (consumes k) steps)

terminals_from-has :
    (rest steps : List Step) (found : Terminals) (k : TerminalPair)
    → has pair_eq k (pairs (terminals_from rest steps found))
      ≡ (has pair_eq k (pairs found) || any (ends steps k) rest)
unfolding terminals_from any
terminals_from-has [] steps found k = ground arith
terminals_from-has (step ∷ rest) steps found k =
    terminals_from-has rest steps (step_terminals step steps step.output.outcomes found) k
    ∙ ap (λ b. b || any (ends steps k) rest)
        (step_terminals-has step steps step.output.outcomes found k
          ∙ ap
              (λ b.
                has pair_eq k (pairs found)
                || (str_eq step.id k.step && member k.outcome step.output.outcomes && not b))
              (outcome_consumed_exact k steps))
    ∙ regroup (has pair_eq k (pairs found)) (ends steps k step) (any (ends steps k) rest)
  where
    regroup : (a b c : Bool) → ((a || b) || c) ≡ (a || (b || c))
    regroup a b c = ground arith

-- The terminals of a workflow are exactly the outcomes of its steps that no step consumes. A step
-- consumes an outcome if it needs the step that has it and either one of its conditions is on that
-- step and lists the outcome, or none of its conditions is on that step.
pub terminals_of_exact :
    (steps : List Step) (k : TerminalPair)
    → has pair_eq k (pairs (terminals_of steps)) ≡ any (ends steps k) steps
unfolding terminals_of has
terminals_of_exact steps k = terminals_from-has steps steps [] k
