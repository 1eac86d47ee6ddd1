-- ===== src/Plan/Limits/Narrowing.antt =====
-- A step's limits against its parent's.
use duto_ai.Prelude.{
  String, Bool, true, false, not, Option, none, some, ◌≡◌, refl, sym, ap, subst, arith, Bool-cases,
  inl, inr, str_eq, ok, >>=-eq-ok, ok-injective, require, require-eq-ok,
}
use duto_ai.Prelude.Int.{ℤ, ◌≤ℤ◌, ltb_ℤ, ltb_ℤ-false, is_positive, is_negative}
use duto_ai.Plan.Admission.{invalid_limits}
use duto_ai.Plan.Limits.{
  Durations, Reparses, Limits, narrowed_limit, normalized_timeout, narrowed_timeout,
  compile_step_limits, or_zero, normalize,
}

-- Each limit of the first is at most that of the second.
pub record Within (d : Durations) (child parent : Limits) : Type 0 where
  pub timeout : or_zero (d.parse child.timeout) ≤ℤ or_zero (d.parse parent.timeout)
  pub iterations : child.max_iterations ≤ℤ parent.max_iterations
  pub model_calls : child.max_model_calls ≤ℤ parent.max_model_calls
  pub tool_calls : child.max_tool_calls ≤ℤ parent.max_tool_calls
  pub concurrency : child.max_concurrency ≤ℤ parent.max_concurrency
  pub parallel_calls : child.max_parallel_calls ≤ℤ parent.max_parallel_calls
  pub artifact_bytes : child.max_artifact_bytes ≤ℤ parent.max_artifact_bytes

-- Limits under which a run can do something: a positive timeout, and positive counts where the
-- program wants them.
pub record IsSound (d : Durations) (l : Limits) : Type 0 where
  pub timeout : is_positive (or_zero (d.parse l.timeout)) ≡ true
  pub iterations : is_positive l.max_iterations ≡ true
  pub model_calls : is_positive l.max_model_calls ≡ true
  pub tool_calls : is_negative l.max_tool_calls ≡ false
  pub concurrency : is_positive l.max_concurrency ≡ true
  pub parallel_calls : is_positive l.max_parallel_calls ≡ true
  pub artifact_bytes : is_negative l.max_artifact_bytes ≡ false

narrowed_limit-le :
    (requested parent : ℤ) {out : ℤ} → narrowed_limit requested parent ≡ ok out → out ≤ℤ parent
unfolding narrowed_limit
narrowed_limit-le requested parent h = ground arith

narrowed_limit_positive :
    (requested parent : ℤ) {out : ℤ}
    → narrowed_limit requested parent ≡ ok out
    → is_positive parent ≡ true
    → is_positive out ≡ true
unfolding narrowed_limit
narrowed_limit_positive requested parent h p = ground arith

narrowed_limit_natural :
    (requested parent : ℤ) {out : ℤ}
    → narrowed_limit requested parent ≡ ok out
    → is_negative parent ≡ false
    → is_negative out ≡ false
unfolding narrowed_limit
narrowed_limit_natural requested parent h p = ground arith

module _ (d : Durations) where
  -- The parts of compile_step_limits that succeeded.
  record Steps (source parent out : Limits) : Type 0 where
    timeout : narrowed_timeout d source.timeout parent.timeout ≡ ok out.timeout
    iterations : narrowed_limit source.max_iterations parent.max_iterations ≡ ok out.max_iterations
    model_calls :
        narrowed_limit source.max_model_calls parent.max_model_calls ≡ ok out.max_model_calls
    tool_calls : narrowed_limit source.max_tool_calls parent.max_tool_calls ≡ ok out.max_tool_calls
    concurrency :
        narrowed_limit source.max_concurrency parent.max_concurrency ≡ ok out.max_concurrency
    parallel_calls :
        narrowed_limit source.max_parallel_calls parent.max_parallel_calls
        ≡ ok out.max_parallel_calls
    artifact_bytes :
        narrowed_limit source.max_artifact_bytes parent.max_artifact_bytes
        ≡ ok out.max_artifact_bytes

  compile_step_limits-Steps :
      (source parent : Limits) {out : Limits}
      → compile_step_limits d source parent ≡ ok out
      → Steps source parent out
  unfolding compile_step_limits
  compile_step_limits-Steps source parent h =
      let (t, e1, h1) = >>=-eq-ok (narrowed_timeout d source.timeout parent.timeout) _ h in
      let (i, e2, h2) =
        >>=-eq-ok (narrowed_limit source.max_iterations parent.max_iterations) _ h1 in
      let (m, e3, h3) =
        >>=-eq-ok (narrowed_limit source.max_model_calls parent.max_model_calls) _ h2 in
      let (c, e4, h4) =
        >>=-eq-ok (narrowed_limit source.max_tool_calls parent.max_tool_calls) _ h3 in
      let (k, e5, h5) =
        >>=-eq-ok (narrowed_limit source.max_concurrency parent.max_concurrency) _ h4 in
      let (p, e6, h6) =
        >>=-eq-ok (narrowed_limit source.max_parallel_calls parent.max_parallel_calls) _ h5 in
      let (a, e7, h7) =
        >>=-eq-ok (narrowed_limit source.max_artifact_bytes parent.max_artifact_bytes) _ h6 in
      subst (Steps source parent) (ok-injective h7) (record {
        timeout = e1;
        iterations = e2;
        model_calls = e3;
        tool_calls = e4;
        concurrency = e5;
        parallel_calls = e6;
        artifact_bytes = e7;
      })

  narrowed_timeout-le :
      (requested parent : String) {out : String}
      → narrowed_timeout d requested parent ≡ ok out
      → or_zero (d.parse out) ≤ℤ or_zero (d.parse parent)
  unfolding narrowed_timeout
  narrowed_timeout-le requested parent {out} h = elim (Bool-cases (str_eq requested "")) [
    | inl e ↦
        let same : parent ≡ out = ok-injective (rw e at h) in
        ap_le (ap (λ t. or_zero (d.parse t)) (sym same))
    | inr e ↦
        let (t, e1, h1) = >>=-eq-ok (normalized_timeout d requested) _ (rw e at h) in
        let (u, e2, h2) =
          >>=-eq-ok
            (require (not (ltb_ℤ (or_zero (d.parse parent)) (or_zero (d.parse t)))) invalid_limits)
            _ h1 in
        subst (λ x. or_zero (d.parse x) ≤ℤ or_zero (d.parse parent)) (ok-injective h2)
          (ltb_ℤ-false (or_zero (d.parse parent)) (or_zero (d.parse t))
            (negated _ (require-eq-ok _ invalid_limits e2)))
  ]
    where
      ap_le : {a b : ℤ} → a ≡ b → a ≤ℤ b
      ap_le e = rw e (omega arith)

      negated : (b : Bool) → not b ≡ true → b ≡ false
      negated b h = ground arith

  -- The limits that a step compiles to are each at most its parent's.
  pub compile_step_limits-Within :
      (source parent : Limits) {out : Limits}
      → compile_step_limits d source parent ≡ ok out
      → Within d out parent
  compile_step_limits-Within source parent {out} h =
      let s : Steps source parent out = compile_step_limits-Steps source parent h in
      record {
        timeout = narrowed_timeout-le source.timeout parent.timeout s.timeout;
        iterations = narrowed_limit-le source.max_iterations parent.max_iterations s.iterations;
        model_calls = narrowed_limit-le source.max_model_calls parent.max_model_calls s.model_calls;
        tool_calls = narrowed_limit-le source.max_tool_calls parent.max_tool_calls s.tool_calls;
        concurrency = narrowed_limit-le source.max_concurrency parent.max_concurrency s.concurrency;
        parallel_calls =
            narrowed_limit-le source.max_parallel_calls parent.max_parallel_calls s.parallel_calls;
        artifact_bytes =
            narrowed_limit-le source.max_artifact_bytes parent.max_artifact_bytes s.artifact_bytes;
      }

  printed_positive :
      Reparses d
      → (value : String) (o : Option ℤ) {t : String} → d.parse value ≡ o
      → normalize d o ≡ ok t
      → is_positive (or_zero (d.parse t)) ≡ true
  printed_positive r value none p h = cc
  printed_positive r value (some n) p h = elim (Bool-cases (is_positive n)) [
    | inl e ↦
        subst (λ x. is_positive (or_zero (d.parse x)) ≡ true) (ok-injective (rw e at h))
          (rw (r.parse-print value n p) e)
    | inr e ↦ absurd (ground (arith, e))
  ]

  pub normalized_positive :
      Reparses d
      → (value : String) {t : String} → normalized_timeout d value ≡ ok t
      → is_positive (or_zero (d.parse t)) ≡ true
  unfolding normalized_timeout
  normalized_positive r value h = printed_positive r value (d.parse value) refl h

  narrowed_timeout_positive :
      Reparses d
      → (requested parent : String) {out : String} → narrowed_timeout d requested parent ≡ ok out
      → is_positive (or_zero (d.parse parent)) ≡ true
      → is_positive (or_zero (d.parse out)) ≡ true
  unfolding narrowed_timeout normalized_timeout
  narrowed_timeout_positive r requested parent {out} h p = elim (Bool-cases (str_eq requested "")) [
    | inl e ↦
        let same : parent ≡ out = ok-injective (rw e at h) in
        subst (λ t. is_positive (or_zero (d.parse t)) ≡ true) same p
    | inr e ↦
        let (t, e1, h1) = >>=-eq-ok (normalize d (d.parse requested)) _ (rw e at h) in
        let (u, e2, h2) =
          >>=-eq-ok
            (require (not (ltb_ℤ (or_zero (d.parse parent)) (or_zero (d.parse t)))) invalid_limits)
            _ h1 in
        subst (λ x. is_positive (or_zero (d.parse x)) ≡ true) (ok-injective h2)
          (printed_positive r requested (d.parse requested) refl e1)
  ]

  -- Where a duration's printed form parses back, the limits that a step of a sound parent compiles
  -- to are sound: a positive timeout, positive counts of iterations, model calls, concurrency and
  -- parallel calls, and counts of tool calls and artifact bytes that are not negative.
  pub compile_step_limits-IsSound :
      Reparses d
      → (source parent : Limits) {out : Limits} → compile_step_limits d source parent ≡ ok out
      → IsSound d parent
      → IsSound d out
  compile_step_limits-IsSound r source parent {out} h p =
      let s : Steps source parent out = compile_step_limits-Steps source parent h in
      record {
        timeout = narrowed_timeout_positive r source.timeout parent.timeout s.timeout p.timeout;
        iterations =
            narrowed_limit_positive source.max_iterations parent.max_iterations s.iterations
              p.iterations;
        model_calls =
            narrowed_limit_positive source.max_model_calls parent.max_model_calls s.model_calls
              p.model_calls;
        tool_calls =
            narrowed_limit_natural source.max_tool_calls parent.max_tool_calls s.tool_calls
              p.tool_calls;
        concurrency =
            narrowed_limit_positive source.max_concurrency parent.max_concurrency s.concurrency
              p.concurrency;
        parallel_calls =
            narrowed_limit_positive source.max_parallel_calls parent.max_parallel_calls
              s.parallel_calls p.parallel_calls;
        artifact_bytes =
            narrowed_limit_natural source.max_artifact_bytes parent.max_artifact_bytes
              s.artifact_bytes p.artifact_bytes;
      }
