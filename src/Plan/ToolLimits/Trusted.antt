-- ===== src/Plan/ToolLimits/Trusted.antt =====
-- The limits of tools that the configuration trusts.
use duto_ai.Prelude.{
  String, Bool, true, false, not, ◌&&◌, some, List, [], ◌∷◌, ◌≡◌, refl, sym, ◌∙◌, ap, subst, arith,
  Bool-cases, inl, inr, str_eq, str_eq-true, ok, >>=-eq-ok, ok-injective, require, require-eq-ok,
  and_true,
}
use duto_ai.Prelude.Int.{is_positive, is_negative}
use duto_ai.Prelude.Keys.{lookup, insert, has_key, lookup-insert}
use duto_ai.Tool.Catalog.{Catalog}
use duto_ai.Plan.Admission.{invalid_limits}
use duto_ai.Plan.Limits.{Durations, Reparses, normalized_timeout, or_zero}
use duto_ai.Plan.Limits.Narrowing.{normalized_positive}
use duto_ai.Plan.ToolLimits.{
  plan, unknown, ToolLimit, ToolLimitSource, plan_error, trusted_limits_from,
  compile_trusted_tool_limits,
}
use duto_ai.Plan.ToolLimits.Narrowed.{plan_error-ok}

-- A limit under its tool's name, of a tool that the catalog has, under which the tool can be called.
pub record Trusted (d : Durations) (c : Catalog) (k : String) (l : ToolLimit) : Type 0 where
  pub name : l.name ≡ k
  pub known : has_key k c.definitions ≡ true
  pub calls : is_positive l.max_calls ≡ true
  pub timeout : is_positive (or_zero (d.parse l.timeout)) ≡ true
  pub request_bytes : is_negative l.max_request_bytes ≡ false
  pub result_bytes : is_positive l.max_result_bytes ≡ true

module _ (d : Durations) (r : Reparses d) (c : Catalog) where
  trusted_limits_from-Trusted :
      (source : List (String × ToolLimitSource)) (limits : List (String × ToolLimit))
      {out : List (String × ToolLimit)}
      → trusted_limits_from d c source limits ≡ ok out
      → ((k : String) (l : ToolLimit) → lookup k limits ≡ some l → Trusted d c k l)
      → (k : String) (l : ToolLimit) → lookup k out ≡ some l
      → Trusted d c k l
  unfolding trusted_limits_from
  trusted_limits_from-Trusted [] limits h before k l found =
      before k l (ap (lookup k) (ok-injective h) ∙ found)
  trusted_limits_from-Trusted ((name, value) ∷ source) limits h before k l found =
      let (u1, e1, h1) = >>=-eq-ok (require (has_key name c.definitions) (unknown name)) _ h in
      let (t, e2, h2) = >>=-eq-ok (plan_error (normalized_timeout d value.timeout)) _ h1 in
      let (u3, e3, h3) =
        >>=-eq-ok
          (require (is_positive value.max_calls && not (is_negative value.max_request_bytes))
            (plan invalid_limits))
          _ h2 in
      let (u4, e4, h4) =
        >>=-eq-ok (require (is_positive value.max_result_bytes) (plan invalid_limits)) _ h3 in
      let (calls, bytes) =
        and_true (is_positive value.max_calls) (not (is_negative value.max_request_bytes))
          (require-eq-ok _ (plan invalid_limits) e3) in
      let added : ToolLimit = record {
        name = name;
        max_calls = value.max_calls;
        timeout = t;
        max_request_bytes = value.max_request_bytes;
        max_result_bytes = value.max_result_bytes;
      } in
      let trusted : Trusted d c name added = record {
        name = refl;
        known = require-eq-ok (has_key name c.definitions) (unknown name) e1;
        calls = calls;
        timeout = normalized_positive d r value.timeout (plan_error-ok _ e2);
        request_bytes = negated bytes;
        result_bytes = require-eq-ok (is_positive value.max_result_bytes) (plan invalid_limits) e4;
      } in
      trusted_limits_from-Trusted source (insert name added limits) h4
        (λ j m at_j. elim (Bool-cases (str_eq name j)) [
          | inl e ↦
              let one : some added ≡ some m =
                rw e at (sym (lookup-insert name j added limits) ∙ at_j) in
              placed (str_eq-true name j e) one trusted
          | inr e ↦ before j m (rw e at (sym (lookup-insert name j added limits) ∙ at_j))
        ])
        k l found
    where
      negated : {b : Bool} → not b ≡ true → b ≡ false
      negated h = ground arith

      placed :
          {i j : String} {a m : ToolLimit}
          → i ≡ j
          → some a ≡ some m
          → Trusted d c i a
          → Trusted d c j m
      placed {i} {j} {a} {m} p q x =
          subst (λ n. Trusted d c n m) p (subst (λ y. Trusted d c i y) (cc) x)

  -- Where a duration's printed form parses back, a trusted limit that compiles stands under its
  -- tool's name, is of a tool of the catalog, and allows a call: a positive number of calls, a
  -- positive timeout, a number of request bytes that is not negative, and result bytes.
  pub compile_trusted_tool_limits-Trusted :
      (source : List (String × ToolLimitSource)) (k : String) (l : ToolLimit)
      {out : List (String × ToolLimit)}
      → compile_trusted_tool_limits d c source ≡ ok out
      → lookup k out ≡ some l
      → Trusted d c k l
  unfolding compile_trusted_tool_limits lookup
  compile_trusted_tool_limits-Trusted source k l h found =
      trusted_limits_from-Trusted source [] h (λ j m none_yet. cc) k l found
