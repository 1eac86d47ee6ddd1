-- ===== src/Plan/Limits.antt =====
-- The limits of a workflow, an agent and a step, and a step's retries (compileLimits, compileRetry
-- and their helpers in internal/plan/plan.go). time.ParseDuration and Duration.String are the
-- standard library's and enter as a record; a duration is a number of nanoseconds.
pub mod Narrowing
pub mod Workflow
use duto_ai.Prelude.{
  ℕ, String, Bool, true, false, not, ◌&&◌, ◌||◌, Option, none, some, List, [], ◌∷◌, ◌≡◌,
  if◌then◌else◌, str_eq, all, any, Result, ok, err, ◌>>=◌, ◌>>◌, require,
}
use duto_ai.Prelude.Int.{ℤ, pos, negsuc, ltb_ℤ, is_zero, is_positive, is_negative}
use duto_ai.Plan.Admission.{PlanError, ToolScope, invalid_limits}
use duto_ai.Tool.Catalog.{Definition}

pub record Durations : Type 0 where
  -- time.ParseDuration
  pub parse : String → Option ℤ
  -- time.Duration.String
  pub print : ℤ → String

-- What the documentation of Duration.String promises: the form of a duration parses back to it.
pub record Reparses (d : Durations) : Type 0 where
  pub parse-print : (s : String) (n : ℤ) → d.parse s ≡ some n → d.parse (d.print n) ≡ some n

-- config.Limits and plan.Limits, which have the same fields.
pub record Limits : Type 0 where
  pub timeout : String
  pub max_iterations : ℤ
  pub max_model_calls : ℤ
  pub max_tool_calls : ℤ
  pub max_concurrency : ℤ
  pub max_parallel_calls : ℤ
  pub max_artifact_bytes : ℤ

pub record Retry : Type 0 where
  pub max_attempts : ℤ
  pub initial_delay : String
  pub max_delay : String

abbrev pub no_limits : Limits
no_limits = record {
  timeout = "";
  max_iterations = pos 0;
  max_model_calls = pos 0;
  max_tool_calls = pos 0;
  max_concurrency = pos 0;
  max_parallel_calls = pos 0;
  max_artifact_bytes = pos 0;
}

-- 0 asks for the parent's limit.
unfoldable pub narrowed_limit : ℤ → ℤ → Result PlanError ℤ
narrowed_limit requested parent =
    if is_zero requested
    then ok parent
    else if is_negative requested || ltb_ℤ parent requested
    then err invalid_limits
    else ok requested

-- positive(values...)
unfoldable pub positive : List ℤ → Bool
unfolding all
positive values = all is_positive values

-- The value of `requested, _ := time.ParseDuration(…)`.
abbrev pub or_zero : Option ℤ → ℤ
or_zero none = pos 0
or_zero (some n) = n

-- unsafeToolScope: some tool does more than read.
unfoldable pub unsafe_tool_scope : ToolScope → Bool
unfolding any
unsafe_tool_scope scope =
    any (λ (t : Definition). not (str_eq t.side_effect "read")) scope.definitions

-- The counts that compileWorkflowLimits accepts.
unfoldable pub counts_valid : Limits → Bool
unfolding positive
counts_valid l =
    positive (l.max_iterations ∷ l.max_model_calls ∷ l.max_concurrency ∷ l.max_parallel_calls ∷ [])
    && not (is_negative l.max_tool_calls)
    && not (is_negative l.max_artifact_bytes)

abbrev pub attempts_valid : Retry → Bool
attempts_valid r =
    is_positive r.max_attempts && not (str_eq r.initial_delay "") && not (str_eq r.max_delay "")

module _ (d : Durations) where
  abbrev pub normalize : Option ℤ → Result PlanError String
  normalize none = err invalid_limits
  normalize (some n) = if is_positive n then ok (d.print n) else err invalid_limits

  unfoldable pub normalized_timeout : String → Result PlanError String
  normalized_timeout value = normalize (d.parse value)

  unfoldable pub compile_workflow_limits : Limits → Result PlanError Limits
  unfolding normalized_timeout counts_valid
  compile_workflow_limits source = do
    timeout ← normalized_timeout source.timeout
    require (counts_valid source) invalid_limits
    ok (record source { timeout = timeout })

  -- A step's own timeout, which may not pass its parent's.
  unfoldable pub narrowed_timeout : String → String → Result PlanError String
  unfolding normalized_timeout
  narrowed_timeout requested parent = if str_eq requested "" then ok parent else do
    timeout ← normalized_timeout requested
    require (not (ltb_ℤ (or_zero (d.parse parent)) (or_zero (d.parse timeout)))) invalid_limits
    ok timeout

  unfoldable pub compile_step_limits : Limits → Limits → Result PlanError Limits
  unfolding narrowed_timeout narrowed_limit
  compile_step_limits source parent = do
    timeout ← narrowed_timeout source.timeout parent.timeout
    iterations ← narrowed_limit source.max_iterations parent.max_iterations
    model_calls ← narrowed_limit source.max_model_calls parent.max_model_calls
    tool_calls ← narrowed_limit source.max_tool_calls parent.max_tool_calls
    concurrency ← narrowed_limit source.max_concurrency parent.max_concurrency
    parallel_calls ← narrowed_limit source.max_parallel_calls parent.max_parallel_calls
    artifact_bytes ← narrowed_limit source.max_artifact_bytes parent.max_artifact_bytes
    ok (record {
      timeout = timeout;
      max_iterations = iterations;
      max_model_calls = model_calls;
      max_tool_calls = tool_calls;
      max_concurrency = concurrency;
      max_parallel_calls = parallel_calls;
      max_artifact_bytes = artifact_bytes;
    })

  unfoldable pub compile_limits : Limits → Limits → Result PlanError Limits
  unfolding compile_workflow_limits compile_step_limits
  compile_limits source parent =
      if str_eq parent.timeout ""
      then compile_workflow_limits source
      else compile_step_limits source parent

  unfoldable pub compile_retry : Retry → ToolScope → Result PlanError Retry
  unfolding normalized_timeout unsafe_tool_scope
  compile_retry source tools =
      if is_zero source.max_attempts
      then ok (record { max_attempts = pos 1; initial_delay = ""; max_delay = "" })
      else do
        require (attempts_valid source) invalid_limits
        initial_delay ← normalized_timeout source.initial_delay
        max_delay ← normalized_timeout source.max_delay
        require (not (ltb_ℤ (or_zero (d.parse max_delay)) (or_zero (d.parse initial_delay))))
            invalid_limits
        require (not (ltb_ℤ (pos 1) source.max_attempts && unsafe_tool_scope tools)) invalid_limits
        ok (record {
          max_attempts = source.max_attempts;
          initial_delay = initial_delay;
          max_delay = max_delay;
        })
