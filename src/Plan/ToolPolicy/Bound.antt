-- ===== src/Plan/ToolPolicy/Bound.antt =====
-- The tools of a workflow's policy: their ceiling, their limits and their bindings.
use duto_ai.Prelude.{
  String, Bool, true, false, not, ◌&&◌, ◌||◌, List, [], ◌∷◌, ◌≡◌, refl, sym, ◌∙◌, ap, subst, arith,
  Bool-cases, inl, inr, str_eq, str_eq-true, any, ok, >>=-eq-ok, ok-injective, require,
  require-eq-ok,
}
use duto_ai.Prelude.Int.{ℤ}
use duto_ai.Prelude.Keys.{member}
use duto_ai.Tool.Scope.{merge_profiles, resolve_ceiling}
use duto_ai.Plan.Limits.{Durations, Reparses}
use duto_ai.Plan.ToolLimits.{policy_error, compile_tool_scope, compile_trusted_tool_limits}
use duto_ai.Plan.ToolLimits.Narrowed.{Limited, policy_error-ok, compile_tool_scope-Limited}
use duto_ai.Plan.ToolLimits.Trusted.{Trusted, compile_trusted_tool_limits-Trusted}
use duto_ai.Plan.ToolPolicy.{
  ToolSettings, ToolSource, ToolPolicy, family, selects, workspace_bound, validate_tool_bindings,
  unsupported, catalog_of, workflow_request, compile_workflow_tool_policy,
}

-- A tool of this family has what it works on.
abbrev pub family_bound : ToolSettings → String → Bool
family_bound cfg f =
    (not (str_eq f "files") || workspace_bound cfg cfg.files)
    && (not (str_eq f "git") || workspace_bound cfg cfg.git)
    && (not (str_eq f "github") || cfg.github)
    && (not (str_eq f "web") || cfg.web)
    && (not (str_eq f "shell") || workspace_bound cfg cfg.shell)

selects-member :
    (names : List String) (k f : String)
    → member k names ≡ true
    → str_eq (family k) f ≡ true
    → selects names f ≡ true
unfolding selects any member
selects-member [] k f m e = cc
selects-member (n ∷ names) k f m e = elim (Bool-cases (str_eq n k)) [
  | inl p ↦
      let here : str_eq (family n) f ≡ true =
        subst (λ x. str_eq (family x) f ≡ true) (sym (str_eq-true n k p)) e in
      rw here refl
  | inr p ↦ with_head (str_eq (family n) f) (selects-member names k f (rw p at m) e)
]
  where
    with_head : (b : Bool) {c : Bool} → c ≡ true → (b || c) ≡ true
    with_head b h = ground arith

bound_if :
    (s selected b : Bool)
    → (s ≡ true → selected ≡ true)
    → not (selected && not b) ≡ true
    → (not s || b) ≡ true
bound_if false selected b h p = refl
bound_if true selected b h p = opened selected (h refl) p
  where
    opened : (c : Bool) → c ≡ true → not (c && not b) ≡ true → b ≡ true
    opened c q r = ground arith

all_five :
    {a b c d e : Bool}
    → a ≡ true
    → b ≡ true
    → c ≡ true
    → d ≡ true
    → e ≡ true
    → (a && b && c && d && e) ≡ true
all_five p q r s t = ground arith

validate_tool_bindings_bound :
    (cfg : ToolSettings) (names : List String) (k : String)
    → validate_tool_bindings cfg names ≡ ok tt
    → member k names ≡ true
    → family_bound cfg (family k) ≡ true
unfolding validate_tool_bindings
validate_tool_bindings_bound cfg names k h m =
    let (u1, e1, h1) = >>=-eq-ok (require _ unsupported) _ h in
    let (u2, e2, h2) = >>=-eq-ok (require _ unsupported) _ h1 in
    let (u3, e3, h3) = >>=-eq-ok (require _ unsupported) _ h2 in
    let (u4, e4, h4) = >>=-eq-ok (require _ unsupported) _ h3 in
    all_five
      (bound_if (str_eq (family k) "files") (selects names "files") (workspace_bound cfg cfg.files)
        (selects-member names k "files" m) (require-eq-ok _ unsupported e1))
      (bound_if (str_eq (family k) "git") (selects names "git") (workspace_bound cfg cfg.git)
        (selects-member names k "git" m) (require-eq-ok _ unsupported e2))
      (bound_if (str_eq (family k) "github") (selects names "github") cfg.github
        (selects-member names k "github" m) (require-eq-ok _ unsupported e3))
      (bound_if (str_eq (family k) "web") (selects names "web") cfg.web
        (selects-member names k "web" m) (require-eq-ok _ unsupported e4))
      (bound_if (str_eq (family k) "shell") (selects names "shell") (workspace_bound cfg cfg.shell)
        (selects-member names k "shell" m) (require-eq-ok _ unsupported h4))

-- What stands behind a tool of a workflow's policy.
pub record Granted (d : Durations) (cfg : ToolSettings) (p : ToolPolicy) (k : String) : Type 0 where
  pub ceiling : resolve_ceiling (catalog_of cfg) cfg.tools ≡ ok p.ceiling
  pub in_ceiling : member k p.ceiling ≡ true
  pub limited : Limited d p.trusted_limits p.scope.limits k
  pub trusted : Trusted d (catalog_of cfg) k limited.parent
  pub bound : family_bound cfg (family k) ≡ true

-- Where a duration's printed form parses back, each tool of a workflow's policy is in the ceiling
-- that the configuration's own selectors resolve to; it is a tool of the catalog and has a limit,
-- each part of which is at most that of a trusted limit under which the tool can be called; and if
-- it is of a family that needs a workspace or a service, the configuration binds one.
pub compile_workflow_tool_policy-Granted :
    (d : Durations) (cfg : ToolSettings) (workflow : ToolSource) (max_tool_calls : ℤ) (k : String)
    {p : ToolPolicy}
    → Reparses d
    → compile_workflow_tool_policy d cfg workflow max_tool_calls ≡ ok p
    → member k p.scope.names ≡ true
    → Granted d cfg p k
unfolding compile_workflow_tool_policy
compile_workflow_tool_policy-Granted d cfg workflow max_tool_calls k {p} r h m =
    let (profiles, e1, h1) =
      >>=-eq-ok (policy_error (merge_profiles cfg.tool_profiles workflow.tool_profiles)) _ h in
    let (ceiling, e2, h2) =
      >>=-eq-ok (policy_error (resolve_ceiling (catalog_of cfg) cfg.tools)) _ h1 in
    let (limits, e3, h3) =
      >>=-eq-ok (compile_trusted_tool_limits d (catalog_of cfg) cfg.tool_limits) _ h2 in
    let (scope, e4, h4) =
      >>=-eq-ok
        (compile_tool_scope d (catalog_of cfg) (workflow_request workflow profiles ceiling)
          workflow.tool_limits limits max_tool_calls)
        _ h3 in
    let (u, e5, h5) = >>=-eq-ok (validate_tool_bindings cfg scope.names) _ h4 in
    let inside : member k scope.names ≡ true =
      ap (λ (q : ToolPolicy). member k q.scope.names) (ok-injective h5) ∙ m in
    let (in_ceiling, in_parent, limited) =
      compile_tool_scope-Limited d (catalog_of cfg) (workflow_request workflow profiles ceiling)
        workflow.tool_limits limits max_tool_calls k e4 inside in
    subst (λ q. Granted d cfg q k) (ok-injective h5)
      (record {
        ceiling = policy_error-ok (resolve_ceiling (catalog_of cfg) cfg.tools) e2;
        in_ceiling = in_ceiling;
        limited = limited;
        trusted =
            compile_trusted_tool_limits-Trusted d r (catalog_of cfg) cfg.tool_limits k
              limited.parent e3 limited.parent_is;
        bound = validate_tool_bindings_bound cfg scope.names k e5 inside;
      })
