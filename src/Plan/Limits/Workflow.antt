-- ===== src/Plan/Limits/Workflow.antt =====
-- The limits at the top, and the retries of a step.
use duto_ai.Prelude.{
  String, Bool, true, false, not, ◌&&◌, ◌≡◌, sym, ◌∙◌, ap, subst, arith, Bool-cases, inl, inr, ok,
  >>=-eq-ok, ok-injective, require, require-eq-ok,
}
use duto_ai.Prelude.Int.{ℤ, pos, ltb_ℤ, is_positive, is_zero}
use duto_ai.Plan.Admission.{ToolScope, invalid_limits}
use duto_ai.Plan.Limits.{
  Durations, Reparses, Limits, Retry, normalized_timeout, compile_workflow_limits, compile_retry,
  counts_valid, attempts_valid, or_zero, unsafe_tool_scope,
}
use duto_ai.Plan.Limits.Narrowing.{IsSound, normalized_positive}

module _ (d : Durations) (r : Reparses d) where
  IsSound-of_counts :
      (source : Limits) (t : String)
      → counts_valid source ≡ true
      → is_positive (or_zero (d.parse t)) ≡ true
      → IsSound d (record source { timeout = t })
  unfolding counts_valid
  IsSound-of_counts source t h p = record {
    timeout = p;
    iterations = ground arith;
    model_calls = ground arith;
    tool_calls = ground arith;
    concurrency = ground arith;
    parallel_calls = ground arith;
    artifact_bytes = ground arith;
  }

  -- Where a duration's printed form parses back, the limits that a workflow compiles to are sound:
  -- a positive timeout, positive counts of iterations, model calls, concurrency and parallel calls,
  -- and counts of tool calls and artifact bytes that are not negative.
  pub compile_workflow_limits-IsSound :
      (source : Limits) {out : Limits} → compile_workflow_limits d source ≡ ok out → IsSound d out
  unfolding compile_workflow_limits
  compile_workflow_limits-IsSound source h =
      let (t, e1, h1) = >>=-eq-ok (normalized_timeout d source.timeout) _ h in
      let (u, e2, h2) = >>=-eq-ok (require (counts_valid source) invalid_limits) _ h1 in
      subst (IsSound d) (ok-injective h2) (
        IsSound-of_counts source t (require-eq-ok (counts_valid source) invalid_limits e2)
          (normalized_positive d r source.timeout e1))

some_attempt : (r : Retry) → attempts_valid r ≡ true → is_positive r.max_attempts ≡ true
some_attempt r h = ground arith

-- If the retries of a step compile and one of its tools does more than read, the step is tried
-- once.
pub compile_retry_unsafe :
    (d : Durations) (source : Retry) (tools : ToolScope) {out : Retry}
    → unsafe_tool_scope tools ≡ true
    → compile_retry d source tools ≡ ok out
    → out.max_attempts ≡ pos 1
unfolding compile_retry
compile_retry_unsafe d source tools {out} unsafe h =
    elim (Bool-cases (is_zero source.max_attempts)) [
      | inl e ↦ sym (ap (λ (x : Retry). x.max_attempts) (ok-injective (rw e at h)))
      | inr e ↦
          let (u1, e1, h1) =
            >>=-eq-ok (require (attempts_valid source) invalid_limits) _ (rw e at h) in
          let (initial, e2, h2) = >>=-eq-ok (normalized_timeout d source.initial_delay) _ h1 in
          let (max, e3, h3) = >>=-eq-ok (normalized_timeout d source.max_delay) _ h2 in
          let (u4, e4, h4) =
            >>=-eq-ok
              (require (not (ltb_ℤ (or_zero (d.parse max)) (or_zero (d.parse initial))))
                invalid_limits)
              _ h3 in
          let (u5, e5, h5) =
            >>=-eq-ok
              (require (not (ltb_ℤ (pos 1) source.max_attempts && unsafe_tool_scope tools))
                invalid_limits)
              _ h4 in
          sym (ap (λ (x : Retry). x.max_attempts) (ok-injective h5))
          ∙ once source.max_attempts
              (some_attempt source (require-eq-ok (attempts_valid source) invalid_limits e1))
              (single (ltb_ℤ (pos 1) source.max_attempts) unsafe (
                require-eq-ok (not (ltb_ℤ (pos 1) source.max_attempts && unsafe_tool_scope tools))
                  invalid_limits e5))
    ]
  where
    once : (n : ℤ) → is_positive n ≡ true → ltb_ℤ (pos 1) n ≡ false → n ≡ pos 1
    once n p q = ground arith

    single : (b : Bool) {u : Bool} → u ≡ true → not (b && u) ≡ true → b ≡ false
    single b p q = ground arith
