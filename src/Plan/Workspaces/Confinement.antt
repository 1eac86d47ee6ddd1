-- ===== src/Plan/Workspaces/Confinement.antt =====
-- The workspaces that tools which change something write to.
use mathlib.Core.List.{Memᴰ}
use duto_ai.Prelude.{
  String, Bool, true, false, not, ◌&&◌, ◌||◌, Option, none, some, List, [], ◌∷◌, ◌≡◌, refl, sym,
  ◌∙◌, ap, subst, arith, Bool-cases, ◌⊎◌, inl, inr, str_eq, str_eq-true, eq_iff, eq_refl, any,
  Result, ok, >>=-eq-ok, ok-injective, require, require-eq-ok, and_true, ◌>>◌,
}
use duto_ai.Prelude.Keys.{member, lookup, Distinct}
use duto_ai.Plan.Admission.{PlanError, unsupported_capability}
use duto_ai.Plan.Workspaces.{
  WorkspaceRef, Workspace, Config, Holder, is_write, known_access, or_unsupported, is_authoring,
  writable, validate_refs, validate_each, own, validate_workspace_requests, has_mutation, same,
  validate_authoring, validate_authoring_scopes, compile_workspaces_from, compile_workspaces,
  root_of,
}

-- The authoring workspace of the policy, which may be written to, and which is the one that these
-- references write to.
pub record Confined (cfg : Config) (refs : List WorkspaceRef) : Type 0 where
  pub name : String
  pub authoring : cfg.authoring ≡ some name
  pub workspace : Workspace
  pub known : lookup name cfg.workspaces ≡ some workspace
  pub writes : str_eq workspace.access "write" ≡ true
  pub requested : any (λ r. is_write r && str_eq r.name name) refs ≡ true

or_unsupported-some : (o : Option Workspace) {w : Workspace} → or_unsupported o ≡ ok w → o ≡ some w
or_unsupported-some none h = cc
or_unsupported-some (some w) h = cc

is_authoring-true : (o : Option String) (name : String) → is_authoring o name ≡ true → o ≡ some name
is_authoring-true none name h = cc
is_authoring-true (some a) name h = ap some (str_eq-true a name h)

-- The parts of a check of references that succeeded.
record First (cfg : Config) (seen : List String) (ref : WorkspaceRef) (refs : List WorkspaceRef)
    : Type 0 where
  workspace : Workspace
  known : lookup ref.name cfg.workspaces ≡ some workspace
  allowed : not (is_write ref && not (writable cfg workspace ref.name)) ≡ true
  rest : validate_refs cfg (ref.name ∷ seen) refs ≡ ok tt

validate_refs-First :
    (cfg : Config) (seen : List String) (ref : WorkspaceRef) (refs : List WorkspaceRef)
    → validate_refs cfg seen (ref ∷ refs) ≡ ok tt
    → First cfg seen ref refs
unfolding validate_refs
validate_refs-First cfg seen ref refs h =
    let (workspace, e1, h1) = >>=-eq-ok (or_unsupported (lookup ref.name cfg.workspaces)) _ h in
    let (u2, e2, h2) = >>=-eq-ok (require (known_access ref) unsupported_capability) _ h1 in
    let (u3, e3, h3) =
      >>=-eq-ok
        (require (not (is_write ref && not (writable cfg workspace ref.name)))
          unsupported_capability)
        _ h2 in
    let (u4, e4, h4) =
      >>=-eq-ok (require (not (member ref.name seen)) unsupported_capability) _ h3 in
    record {
      workspace = workspace;
      known = or_unsupported-some _ e1;
      allowed =
          require-eq-ok (not (is_write ref && not (writable cfg workspace ref.name)))
            unsupported_capability e3;
      rest = h4;
    }

validate_refs-Confined :
    (cfg : Config) (seen : List String) (refs : List WorkspaceRef)
    → validate_refs cfg seen refs ≡ ok tt
    → any is_write refs ≡ true
    → Confined cfg refs
unfolding any
validate_refs-Confined cfg seen [] h w = cc
validate_refs-Confined cfg seen (ref ∷ refs) h w =
    let f : First cfg seen ref refs = validate_refs-First cfg seen ref refs h in
    elim (Bool-cases (is_write ref)) [
      | inl e ↦
          let (writes, authoring) =
            and_true (str_eq f.workspace.access "write") (is_authoring cfg.authoring ref.name)
              (opened e f.allowed) in
          record {
            name = ref.name;
            authoring = is_authoring-true cfg.authoring ref.name authoring;
            workspace = f.workspace;
            known = f.known;
            writes = writes;
            requested = rw e (rw ((eq_iff ref.name ref.name).1 refl) refl);
          }
      | inr e ↦ later ref e (validate_refs-Confined cfg (ref.name ∷ seen) refs f.rest (rw e at w))
    ]
  where
    opened : {a b : Bool} → a ≡ true → not (a && not b) ≡ true → b ≡ true
    opened p q = ground arith

    later : (r : WorkspaceRef) → is_write r ≡ false → Confined cfg refs → Confined cfg (r ∷ refs)
    later r e c = record {
      name = c.name;
      authoring = c.authoring;
      workspace = c.workspace;
      known = c.known;
      writes = c.writes;
      requested = rw e c.requested;
    }

validate_each-member :
    (check : Holder → Result PlanError (Unit {0})) (holders : List Holder) (h : Holder)
    → validate_each check holders ≡ ok tt
    → Memᴰ h holders
    → check h ≡ ok tt
unfolding validate_each
validate_each-member check [] h checked m = elim m [ ]
validate_each-member check (x ∷ xs) h checked (Memᴰ.head e) =
    let (u, e1, h1) = >>=-eq-ok (check x) _ checked in ap check e ∙ e1
validate_each-member check (x ∷ xs) h checked (Memᴰ.tail m) =
    let (u, e1, h1) = >>=-eq-ok (check x) _ checked in validate_each-member check xs h h1 m

-- An agent, or a step that uses no agent.
abbrev pub Checked : List Holder → List Holder → Holder → Type 0
Checked agents steps h = Memᴰ h agents ⊎ (Memᴰ h steps × (str_eq h.agent "" ≡ true))

both_member :
    (check : Holder → Result PlanError (Unit {0})) (agents steps : List Holder) (h : Holder)
    → (validate_each check agents >> validate_each (own check) steps) ≡ ok tt
    → Checked agents steps h
    → check h ≡ ok tt
both_member check agents steps h checked (inl m) =
    let (u, e1, h1) = >>=-eq-ok (validate_each check agents) _ checked in
    validate_each-member check agents h e1 m
both_member check agents steps h checked (inr (m, alone)) =
    let (u, e1, h1) = >>=-eq-ok (validate_each check agents) _ checked in
    let run : own check h ≡ ok tt = validate_each-member (own check) steps h h1 m in rw alone at run

writes_of : (w m : Bool) → same w m ≡ true → m ≡ true → w ≡ true
writes_of w m s h = ground arith

-- If the workspaces and the authoring scopes of a plan pass their checks, an agent, or a step that
-- uses no agent, with a tool that changes the workspace or the git repository writes to the
-- authoring workspace of the policy, and that workspace may be written to.
pub authoring-Confined :
    (cfg : Config) (agents steps : List Holder) (h : Holder)
    → validate_workspace_requests cfg agents steps ≡ ok tt
    → validate_authoring_scopes agents steps ≡ ok tt
    → Checked agents steps h
    → has_mutation h.tools ≡ true
    → Confined cfg h.workspaces
unfolding validate_workspace_requests validate_authoring_scopes validate_authoring
authoring-Confined cfg agents steps h requests scopes checked m =
    let scoped : validate_authoring h ≡ ok tt =
      both_member validate_authoring agents steps h scopes checked in
    validate_refs-Confined cfg [] h.workspaces
      (both_member (λ holder. validate_refs cfg [] holder.workspaces) agents steps h requests
        checked)
      (writes_of (any is_write h.workspaces) (has_mutation h.tools)
        (require-eq-ok (same (any is_write h.workspaces) (has_mutation h.tools))
          unsupported_capability scoped)
        m)

abbrev pub names_of : List WorkspaceRef → List String
names_of [] = []
names_of (ref ∷ refs) = ref.name ∷ names_of refs

still_absent :
    (a k : String) (seen rest : List String)
    → not (member a seen) ≡ true
    → member k seen ≡ true
    → member k rest ≡ false
    → (str_eq a k || member k rest) ≡ false
still_absent a k seen rest new old absent = elim (Bool-cases (str_eq a k)) [
  | inl e ↦
      let there : member a seen ≡ true =
        subst (λ j. member j seen ≡ true) (sym (str_eq-true a k e)) old in
      absurd (ground (arith, there))
  | inr e ↦ rw e absent
]

compile_workspaces_from-Distinct :
    (roots : List (String × String)) (seen : List String) (source : List WorkspaceRef)
    {out : List WorkspaceRef}
    → compile_workspaces_from roots seen source ≡ ok out
    → (out ≡ source)
      × Distinct (names_of source)
      × ((k : String) → member k seen ≡ true → member k (names_of source) ≡ false)
unfolding compile_workspaces_from member
compile_workspaces_from-Distinct roots seen [] h = (sym (ok-injective h), tt, λ k m. refl)
compile_workspaces_from-Distinct roots seen (ref ∷ refs) h =
    let (u1, e1, h1) =
      >>=-eq-ok
        (require (known_access ref && not (str_eq (root_of (lookup ref.name roots)) ""))
          unsupported_capability)
        _ h in
    let (u2, e2, h2) =
      >>=-eq-ok (require (not (member ref.name seen)) unsupported_capability) _ h1 in
    let (rest, e3, h3) = >>=-eq-ok (compile_workspaces_from roots (ref.name ∷ seen) refs) _ h2 in
    let (same_rest, distinct, apart) =
      compile_workspaces_from-Distinct roots (ref.name ∷ seen) refs e3 in
    let new : not (member ref.name seen) ≡ true =
      require-eq-ok (not (member ref.name seen)) unsupported_capability e2 in
    (
      sym (ok-injective h3) ∙ ap (λ r. ref ∷ r) same_rest,
      (apart ref.name (rw (eq_refl ref.name) refl), distinct),
      λ k m. still_absent ref.name k seen (names_of refs) new m (apart k (rw m (ground arith))),
    )

-- The workspaces that compileWorkspaces accepts are those requested, and none stands twice.
compile_workspaces-Distinct :
    (roots : List (String × String)) (source : List WorkspaceRef) {out : List WorkspaceRef}
    → compile_workspaces roots source ≡ ok out
    → (out ≡ source) × Distinct (names_of source)
unfolding compile_workspaces
compile_workspaces-Distinct roots source h =
    let (same_list, distinct, apart) = compile_workspaces_from-Distinct roots [] source h in
    (same_list, distinct)
