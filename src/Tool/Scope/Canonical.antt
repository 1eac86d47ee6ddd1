-- ===== src/Tool/Scope/Canonical.antt =====
-- The order of the names of a resolved scope.
use duto_ai.Prelude.{
  String, Bool, true, false, List, [], ◌≡◌, sym, ◌∙◌, subst, ◌&&◌, str_eq, ok, >>=-eq-ok,
  Bool-cases, inl, inr,
}
use duto_ai.Prelude.Keys.{member, Distinct}
use duto_ai.Prelude.Order.{sort-IsSorted, sort-Distinct, IsSorted, sorted_ext}
use duto_ai.Tool.Catalog.{Catalog}
use duto_ai.Tool.Catalog.Built.{IsCatalog}
use duto_ai.Tool.Scope.{
  Scope, ScopeRequest, ProfileExpansion, inherited, select, resolve_scope, apply_profiles,
  apply_selectors,
}
use duto_ai.Tool.Scope.Authority.{Resolved, resolve_scope-Resolved, resolve_scope-member, wanted}
use duto_ai.Tool.Scope.Bounds.{
  add_names-Distinct, apply_selectors-Distinct, apply_profiles-Distinct,
}

inherited-Distinct : (from : String) (parent : List String) → Distinct (inherited from parent)
unfolding inherited
inherited-Distinct from parent = elim (Bool-cases (str_eq from "parent")) [
  | inl e ↦ rw e (add_names-Distinct [] parent tt)
  | inr e ↦ rw e tt
]

select-Distinct :
    (c : Catalog) (request : ScopeRequest) (start : List String)
    {out : List String × List ProfileExpansion}
    → Distinct start
    → select c request start ≡ ok out
    → Distinct out.0
unfolding select
select-Distinct c request start d h =
    let (a, e1, h1) =
      >>=-eq-ok (apply_profiles c start e.add_profiles request.profiles false) _ h in
    let (s2, e2, h2) = >>=-eq-ok (apply_selectors c a.0 e.adds false) _ h1 in
    let (r, e3, h3) =
      >>=-eq-ok (apply_profiles c s2 e.remove_profiles request.profiles true) _ h2 in
    let (s4, e4, h4) = >>=-eq-ok (apply_selectors c r.0 e.removes true) _ h3 in
    subst Distinct (cc h4) (
      apply_selectors-Distinct c r.0 e.removes true
        (apply_profiles-Distinct c s2 e.remove_profiles request.profiles true
          (apply_selectors-Distinct c a.0 e.adds false
            (apply_profiles-Distinct c start e.add_profiles request.profiles false d e1) e2)
          e3)
        e4)
  where
    open request use {expression as e}

-- The names of a resolved scope are in order, and none stands twice.
pub resolve_scope_ordered :
    (c : Catalog) (request : ScopeRequest) {s : Scope}
    → resolve_scope c request ≡ ok s
    → IsSorted s.names × Distinct s.names
resolve_scope_ordered c request h =
    let r : Resolved c request _ = resolve_scope-Resolved c request h in
    let d : Distinct r.selected =
      select-Distinct c request (inherited r.from request.parent)
        (inherited-Distinct r.from request.parent) r.select_ok in
    subst (λ (t : Scope). IsSorted t.names × Distinct t.names) r.result
      (sort-IsSorted r.selected, sort-Distinct r.selected d)

-- What a request asks for, of one tool.
abbrev pub asks : Catalog → ScopeRequest → String → Bool
asks c request k =
    wanted c request (str_eq request.expression.from "parent" && member k request.parent) k

-- Under a catalog as NewCatalog leaves it, two requests that ask for the same tools, in whatever
-- order or by whatever profiles, resolve, where both do, to the same list of names.
pub resolve_scope_canonical :
    (c : Catalog) (q r : ScopeRequest) {s t : Scope}
    → IsCatalog c
    → ((k : String) → asks c q k ≡ asks c r k)
    → resolve_scope c q ≡ ok s
    → resolve_scope c r ≡ ok t
    → s.names ≡ t.names
resolve_scope_canonical c q r {s} {t} v same h g =
    let (s_sorted, s_distinct) = resolve_scope_ordered c q h in
    let (t_sorted, t_distinct) = resolve_scope_ordered c r g in
    sorted_ext s.names t.names s_sorted t_sorted s_distinct t_distinct
      (λ k. resolve_scope-member c q k v h ∙ same k ∙ sym (resolve_scope-member c r k v g))
