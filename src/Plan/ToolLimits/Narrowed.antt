-- ===== src/Plan/ToolLimits/Narrowed.antt =====
-- The tools of a compiled scope, and their limits, against what stands above it.
use mathlib.Core.List.{Memᴰ}
use duto_ai.Prelude.{
  String, Bool, true, false, not, ◌||◌, Option, none, some, List, [], ◌∷◌, ◌≡◌, refl, ◌∙◌, ap,
  subst, arith, is_empty, Bool-cases, inl, inr, str_eq, str_eq-true, Result, ok, err, >>=-eq-ok,
  ok-injective, require, require-eq-ok,
}
use duto_ai.Prelude.Int.{ℤ, ◌≤ℤ◌, ltb_ℤ, ltb_ℤ-false, is_positive}
use duto_ai.Prelude.Keys.{member, lookup}
use duto_ai.Tool.Catalog.{PolicyError, Catalog, Definition}
use duto_ai.Tool.Scope.{ScopeRequest, resolve_scope}
use duto_ai.Tool.Scope.Bounds.{resolve_scope_within}
use duto_ai.Plan.Admission.{PlanError, invalid_limits}
use duto_ai.Plan.Limits.{Durations, normalized_timeout, or_zero}
use duto_ai.Plan.ToolLimits.{
  plan, ToolLimit, ToolLimitSource, plan_error, policy_error, or_no_request, or_limitless,
  narrowed_bytes, narrowed_calls, check_requested, CompiledScope, narrowed_time, narrow_tool_limit,
  compile_tools, compile_tool_scope,
}

-- Each limit of the first is at most that of the second, for the same tool.
pub record Narrower (d : Durations) (child parent : ToolLimit) : Type 0 where
  pub name : child.name ≡ parent.name
  pub calls : child.max_calls ≤ℤ parent.max_calls
  pub timeout : or_zero (d.parse child.timeout) ≤ℤ or_zero (d.parse parent.timeout)
  pub request_bytes : child.max_request_bytes ≤ℤ parent.max_request_bytes
  pub result_bytes : child.max_result_bytes ≤ℤ parent.max_result_bytes

-- The tool has a limit among these, no wider than its parent's.
pub record Limited (d : Durations) (parents : List (String × ToolLimit)) (limits : List ToolLimit)
    (k : String) : Type 0 where
  pub parent : ToolLimit
  pub parent_is : lookup k parents ≡ some parent
  pub limit : ToolLimit
  pub among : Memᴰ limit limits
  pub narrower : Narrower d limit parent

narrowed_bytes-le :
    (requested parent : ℤ) {out : ℤ} → narrowed_bytes requested parent ≡ ok out → out ≤ℤ parent
unfolding narrowed_bytes
narrowed_bytes-le requested parent h = ground arith

narrowed_calls-le :
    (requested parent : ℤ) {out : ℤ} → narrowed_calls requested parent ≡ ok out → out ≤ℤ parent
unfolding narrowed_calls
narrowed_calls-le requested parent h = ground arith

pub plan_error-ok {ℓ} :
    {A : Type ℓ} (r : Result PlanError A) {a : A} → plan_error r ≡ ok a → r ≡ ok a
plan_error-ok (ok a) h = ap ok (ok-injective h)
plan_error-ok (err e) h = cc

pub policy_error-ok {ℓ} :
    {A : Type ℓ} (r : Result PolicyError A) {a : A} → policy_error r ≡ ok a → r ≡ ok a
policy_error-ok (ok a) h = ap ok (ok-injective h)
policy_error-ok (err e) h = cc

or_limitless-ok : (o : Option ToolLimit) {l : ToolLimit} → or_limitless o ≡ ok l → o ≡ some l
or_limitless-ok none h = cc
or_limitless-ok (some l) h = ap some (ok-injective h)

module _ (d : Durations) where
  narrowed_time-le :
      (requested parent : String) {out : String}
      → narrowed_time d requested parent ≡ ok out
      → or_zero (d.parse out) ≤ℤ or_zero (d.parse parent)
  unfolding narrowed_time
  narrowed_time-le requested parent {out} h = elim (Bool-cases (str_eq requested "")) [
    | inl e ↦
        subst (λ t. or_zero (d.parse t) ≤ℤ or_zero (d.parse parent)) (ok-injective (rw e at h))
          (omega arith)
    | inr e ↦
        let (t, e1, h1) = >>=-eq-ok (normalized_timeout d requested) _ (rw e at h) in
        let (u, e2, h2) =
          >>=-eq-ok
            (require (not (ltb_ℤ (or_zero (d.parse parent)) (or_zero (d.parse t)))) invalid_limits)
            _ h1 in
        subst (λ x. or_zero (d.parse x) ≤ℤ or_zero (d.parse parent)) (ok-injective h2)
          (ltb_ℤ-false (or_zero (d.parse parent)) (or_zero (d.parse t))
            (negated _ (require-eq-ok _ invalid_limits e2)))
  ]
    where
      negated : (b : Bool) → not b ≡ true → b ≡ false
      negated b h = ground arith

  narrow_tool_limit-Narrower :
      (parent : ToolLimit) (requested : ToolLimitSource) {out : ToolLimit}
      → narrow_tool_limit d parent requested ≡ ok out
      → Narrower d out parent
  unfolding narrow_tool_limit
  narrow_tool_limit-Narrower parent requested h =
      let (c, e1, h1) = >>=-eq-ok (narrowed_calls requested.max_calls parent.max_calls) _ h in
      let (t, e2, h2) = >>=-eq-ok (narrowed_time d requested.timeout parent.timeout) _ h1 in
      let (q, e3, h3) =
        >>=-eq-ok (narrowed_bytes requested.max_request_bytes parent.max_request_bytes) _ h2 in
      let (r, e4, h4) =
        >>=-eq-ok (narrowed_bytes requested.max_result_bytes parent.max_result_bytes) _ h3 in
      subst (λ l. Narrower d l parent) (ok-injective h4)
        (record {
          name = refl;
          calls = narrowed_calls-le requested.max_calls parent.max_calls e1;
          timeout = narrowed_time-le requested.timeout parent.timeout e2;
          request_bytes = narrowed_bytes-le requested.max_request_bytes parent.max_request_bytes e3;
          result_bytes = narrowed_bytes-le requested.max_result_bytes parent.max_result_bytes e4;
        })

  compile_tools-Limited :
      (c : Catalog) (requested : List (String × ToolLimitSource))
      (parents : List (String × ToolLimit)) (names : List String) (k : String)
      {out : List Definition × List ToolLimit}
      → compile_tools d c requested parents names ≡ ok out
      → member k names ≡ true
      → Limited d parents out.1 k
  unfolding compile_tools member
  compile_tools-Limited c requested parents [] k h m = cc
  compile_tools-Limited c requested parents (name ∷ names) k {out} h m =
      let (p, e1, h1) = >>=-eq-ok (or_limitless (lookup name parents)) _ h in
      let (l, e2, h2) =
        >>=-eq-ok (plan_error (narrow_tool_limit d p (or_no_request (lookup name requested)))) _
          h1 in
      let (rest, e3, h3) = >>=-eq-ok (compile_tools d c requested parents names) _ h2 in
      subst (λ (o : List Definition × List ToolLimit). Limited d parents o.1 k) (ok-injective h3)
        (elim (Bool-cases (str_eq name k)) [
          | inl e ↦ record {
            parent = p;
            parent_is =
                subst (λ n. lookup n parents ≡ some p) (str_eq-true name k e)
                  (or_limitless-ok (lookup name parents) e1);
            limit = l;
            among = Memᴰ.head refl;
            narrower =
                narrow_tool_limit-Narrower p (or_no_request (lookup name requested))
                  (plan_error-ok _ e2);
          }
          | inr e ↦
              let later : Limited d parents rest.1 k =
                compile_tools-Limited c requested parents names k e3 (rw e at m) in
              record {
                parent = later.parent;
                parent_is = later.parent_is;
                limit = later.limit;
                among = Memᴰ.tail later.among;
                narrower = later.narrower;
              }
        ])

  -- Each tool of a compiled scope is in the ceiling and, unless the scope is the root, in the parent
  -- scope; and it has a limit, each part of which is at most that of the limit above.
  pub compile_tool_scope-Limited :
      (c : Catalog) (request : ScopeRequest) (requested : List (String × ToolLimitSource))
      (parents : List (String × ToolLimit)) (max_tool_calls : ℤ) (k : String) {out : CompiledScope}
      → compile_tool_scope d c request requested parents max_tool_calls ≡ ok out
      → member k out.names ≡ true
      → (member k request.ceiling ≡ true)
        × ((request.root || member k request.parent) ≡ true)
        × Limited d parents out.limits k
  unfolding compile_tool_scope
  compile_tool_scope-Limited c request requested parents max_tool_calls k {out} h m =
      let (s, e1, h1) = >>=-eq-ok (policy_error (resolve_scope c request)) _ h in
      let (u2, e2, h2) =
        >>=-eq-ok (require (is_empty s.names || is_positive max_tool_calls) (plan invalid_limits)) _
          h1 in
      let (u3, e3, h3) = >>=-eq-ok (check_requested c s.names requested) _ h2 in
      let (tools, e4, h4) = >>=-eq-ok (compile_tools d c requested parents s.names) _ h3 in
      let within : member k s.names ≡ true =
        ap (λ (o : CompiledScope). member k o.names) (ok-injective h4) ∙ m in
      let (in_ceiling, in_parent) =
        resolve_scope_within c request k (policy_error-ok (resolve_scope c request) e1) within in
      (
        in_ceiling,
        in_parent,
        subst (λ (o : CompiledScope). Limited d parents o.limits k) (ok-injective h4)
            (compile_tools-Limited c requested parents s.names k e4 within),
      )
