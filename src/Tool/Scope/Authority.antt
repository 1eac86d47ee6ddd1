-- ===== src/Tool/Scope/Authority.antt =====
-- What a resolved scope may use: the theorems of ResolveScope.
use duto_ai.Prelude.{
  String, Bool, true, false, not, ◌&&◌, ◌||◌, List, [], ◌∷◌, ◌≡◌, sym, ◌∙◌, arith, if◌then◌else◌,
  Bool-cases, inl, inr, str_eq, str_eq-true, eq_iff, ok, >>=-eq-ok, ok-injective, ap,
}
use duto_ai.Prelude.Keys.{member}
use duto_ai.Prelude.Order.{sort, member-sort}
use duto_ai.Tool.Catalog.{Catalog, Code, refuse, invalid_tool_parent}
use duto_ai.Tool.Catalog.Built.{IsCatalog}
use duto_ai.Tool.Scope.{
  Scope, ScopeRequest, ProfileExpansion, apply_selectors, apply_profiles, normalized_parent,
  or_empty, rejected, inherited, select, check_authority, require_subset, resolve_scope,
}
use duto_ai.Tool.Scope.Expansion.{hits}
use duto_ai.Tool.Scope.Selection.{
  add_names-member, apply_selectors-member, apply_profiles-member, profile_hits,
}

pub require_subset-member :
    (k : String) (names allowed : List String) (code : Code) {u : Unit {0}}
    → require_subset names allowed code ≡ ok u
    → member k names ≡ true
    → member k allowed ≡ true
unfolding require_subset member
require_subset-member k [] allowed code h m = cc
require_subset-member k (name ∷ names) allowed code h m =
    ground (arith, require_subset-member k names allowed code, eq_iff name k)

-- The parts of a successful resolution.
pub record Resolved (c : Catalog) (request : ScopeRequest) (s : Scope) : Type 0 where
  pub from : String
  pub selected : List String
  pub expansions : List ProfileExpansion
  pub parent_ok : normalized_parent request.expression.from request.root ≡ ok from
  pub select_ok : select c request (inherited from request.parent) ≡ ok (selected, expansions)
  pub allowed : check_authority (sort selected) request ≡ ok tt
  pub result :
      record {
        expression = record request.expression { from = from };
        profiles = expansions;
        names = sort selected;
        parent = request.parent;
      }
      ≡ s

pub resolve_scope-Resolved :
    (c : Catalog) (request : ScopeRequest) {s : Scope}
    → resolve_scope c request ≡ ok s
    → Resolved c request s
unfolding resolve_scope
resolve_scope-Resolved c request h =
    let (from, e1, h1) = >>=-eq-ok (normalized_parent request.expression.from request.root) _ h in
    let (found, e2, h2) = >>=-eq-ok (select c request (inherited from request.parent)) _ h1 in
    let (u, e3, h3) = >>=-eq-ok (check_authority (sort found.0) request) _ h2 in
    record {
      from = from;
      selected = found.0;
      expansions = found.1;
      parent_ok = e1;
      select_ok = e2;
      allowed = e3;
      result = ok-injective h3;
    }

-- The set that `select` computes.
abbrev pub wanted : Catalog → ScopeRequest → Bool → String → Bool
wanted c request start k =
    (start || profile_hits c request.profiles e.add_profiles k || hits c e.adds k)
    && not (profile_hits c request.profiles e.remove_profiles k)
    && not (hits c e.removes k)
  where
    open request use {expression as e}

select-member :
    (c : Catalog) (request : ScopeRequest) (k : String) (start : List String)
    {out : List String × List ProfileExpansion}
    → IsCatalog c
    → select c request start ≡ ok out
    → member k out.0 ≡ wanted c request (member k start) k
unfolding select
select-member c request k start v h =
    let (a, e1, h1) =
      >>=-eq-ok (apply_profiles c start e.add_profiles request.profiles false) _ h in
    let (s2, e2, h2) = >>=-eq-ok (apply_selectors c a.0 e.adds false) _ h1 in
    let (r, e3, h3) =
      >>=-eq-ok (apply_profiles c s2 e.remove_profiles request.profiles true) _ h2 in
    let (s4, e4, h4) = >>=-eq-ok (apply_selectors c r.0 e.removes true) _ h3 in
    ground (
      arith,
      h4,
      apply_profiles-member c k start e.add_profiles request.profiles false v e1,
      apply_selectors-member c k a.0 e.adds false v e2,
      apply_profiles-member c k s2 e.remove_profiles request.profiles true v e3,
      apply_selectors-member c k r.0 e.removes true v e4,
    )
  where
    open request use {expression as e}

inherited-member :
    (from k : String) (parent : List String)
    → member k (inherited from parent) ≡ (str_eq from "parent" && member k parent)
unfolding inherited member
inherited-member from k parent = ground (arith, add_names-member k [] parent)

or_empty-parent : (from : String) → str_eq (or_empty from) "parent" ≡ str_eq from "parent"
unfolding or_empty
or_empty-parent from = elim (Bool-cases (str_eq from "")) [
  | inl e ↦ rw (str_eq-true from "" e)
  | inr e ↦ rw e
]

normalized_parent-or_empty :
    (from : String) (root : Bool) {out : String}
    → normalized_parent from root ≡ ok out
    → out ≡ or_empty from
unfolding normalized_parent
normalized_parent-or_empty from root h = normal (rejected (or_empty from) root) (or_empty from) h
  where
    normal :
        (b : Bool) (t : String) {u : String}
        → (if b then refuse invalid_tool_parent t else ok t) ≡ ok u
        → u ≡ t
    normal true t k = cc
    normal false t k = cc

normalized_parent-eq :
    (from : String) (root : Bool) {out : String}
    → normalized_parent from root ≡ ok out
    → str_eq out "parent" ≡ str_eq from "parent"
normalized_parent-eq from root h =
    rw (normalized_parent-or_empty from root h) (or_empty-parent from)

-- Under a catalog as NewCatalog leaves it, a resolved scope has exactly the tools that its parent
-- (where it inherits), its added profiles or its added selectors give, and that none of its removed
-- profiles and selectors match.
pub resolve_scope-member :
    (c : Catalog) (request : ScopeRequest) (k : String) {s : Scope}
    → IsCatalog c
    → resolve_scope c request ≡ ok s
    → member k s.names
      ≡ wanted c request (str_eq request.expression.from "parent" && member k request.parent) k
resolve_scope-member c request k v h =
    let r : Resolved c request _ = resolve_scope-Resolved c request h in
    ap (λ (t : Scope). member k t.names) (sym r.result)
    ∙ member-sort k r.selected
    ∙ select-member c request k (inherited r.from request.parent) v r.select_ok
    ∙ ap (λ b. wanted c request b k)
        (inherited-member r.from k request.parent
          ∙ ap (λ b. b && member k request.parent)
              (normalized_parent-eq request.expression.from request.root r.parent_ok))
