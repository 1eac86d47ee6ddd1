-- ===== src/Tool/Scope/Bounds.antt =====
-- The bounds of a resolved scope: the ceiling, the parent, and every scope above it.
use duto_ai.Prelude.{
  String, Bool, true, false, List, [], ◌∷◌, ◌≡◌, ◌∙◌, ap, subst, arith, ◌||◌, if◌then◌else◌,
  Bool-cases, inl, inr, ok, >>=-eq-ok, ◌++◌,
}
use duto_ai.Prelude.Keys.{member, Distinct, add-Distinct, remove-Distinct, add, remove}
use duto_ai.Prelude.Order.{sort}
use duto_ai.Tool.Catalog.{Catalog, expand, tool_authority_widening, tool_ceiling_exceeded}
use duto_ai.Tool.Scope.{
  Scope, ScopeRequest, ProfileExpansion, Profiles, add_names, remove_each, remove_names, change,
  apply_selectors, apply_profile, apply_profiles, or_unknown, check_authority, require_subset,
  resolve_scope, lookup,
}
use duto_ai.Tool.Scope.Authority.{Resolved, resolve_scope-Resolved, require_subset-member}

check_authority-member :
    (k : String) (names : List String) (request : ScopeRequest)
    → check_authority names request ≡ ok tt
    → member k names ≡ true
    → (member k request.ceiling ≡ true) × (request.root ≡ false → member k request.parent ≡ true)
unfolding check_authority
check_authority-member k names request h m =
    let (u, e1, h1) = >>=-eq-ok (require_subset names request.ceiling tool_ceiling_exceeded) _ h in
    (
      require_subset-member k names request.ceiling tool_ceiling_exceeded e1 m,
      λ below.
          require_subset-member k names request.parent tool_authority_widening {u = tt}
            (ground (arith, below)) m,
    )

-- Every tool of a resolved scope is in the ceiling and, unless the scope is the root, in the parent
-- scope.
pub resolve_scope_within :
    (c : Catalog) (request : ScopeRequest) (k : String) {s : Scope}
    → resolve_scope c request ≡ ok s
    → member k s.names ≡ true
    → (member k request.ceiling ≡ true) × ((request.root || member k request.parent) ≡ true)
resolve_scope_within c request k h m =
    let r : Resolved c request _ = resolve_scope-Resolved c request h in
    let (in_ceiling, in_parent) =
      check_authority-member k (sort r.selected) request r.allowed
        (ap (λ (t : Scope). member k t.names) r.result ∙ m) in
    (
      in_ceiling,
      elim (Bool-cases request.root) [
        | inl top ↦ ground (arith, top)
        | inr below ↦ ground (arith, in_parent below)
      ],
    )

-- A scope below another, any number of resolutions down.
pub data Below (c : Catalog) (top : List String) : List String → Type 0 where
  here : Below c top top
  narrow :
      {middle : List String} {s : Scope}
      → Below c top middle
      → (request : ScopeRequest) → request.root ≡ false
      → request.parent ≡ middle
      → resolve_scope c request ≡ ok s
      → Below c top s.names

-- However deep scopes are nested, none has a tool that the scope at the top lacks.
pub Below-member :
    (c : Catalog) (k : String) {top names : List String}
    → Below c top names
    → member k names ≡ true
    → member k top ≡ true
Below-member c k here m = m
Below-member c k (narrow b request below parent h) m =
    Below-member c k b (rw (← parent) (inside (resolve_scope_within c request k h m).1))
  where
    inside : (request.root || member k request.parent) ≡ true → member k request.parent ≡ true
    inside p = ground arith

pub add_names-Distinct :
    (selected names : List String) → Distinct selected → Distinct (add_names selected names)
unfolding add_names
add_names-Distinct selected [] d = d
add_names-Distinct selected (name ∷ names) d =
    add_names-Distinct (add name selected) names (add-Distinct name selected d)

remove_each-Distinct :
    (selected names : List String) (removed : Bool)
    → Distinct selected
    → Distinct (remove_each selected removed names).0
unfolding remove_each
remove_each-Distinct selected [] removed d = d
remove_each-Distinct selected (name ∷ names) removed d =
    remove_each-Distinct (if member name selected then remove name selected else selected) names
      (if member name selected then true else removed) (kept (member name selected))
  where
    kept : (b : Bool) → Distinct (if b then remove name selected else selected)
    kept true = remove-Distinct name selected d
    kept false = d

change-Distinct :
    (removing : Bool) (selected names : List String) (selector : String) {out : List String}
    → Distinct selected
    → change removing selected names selector ≡ ok out
    → Distinct out
unfolding change remove_names
change-Distinct true selected names selector d h =
    ground (arith, remove_each-Distinct selected names false d)
change-Distinct false selected names selector d h =
    subst Distinct (cc) (add_names-Distinct selected names d)

pub apply_selectors-Distinct :
    (c : Catalog) (selected selectors : List String) (removing : Bool) {out : List String}
    → Distinct selected
    → apply_selectors c selected selectors removing ≡ ok out
    → Distinct out
unfolding apply_selectors
apply_selectors-Distinct c selected [] removing d h = subst Distinct (cc) d
apply_selectors-Distinct c selected (s ∷ selectors) removing d h =
    let (names, e1, h1) = >>=-eq-ok (expand c s false) _ h in
    let (next, e2, h2) = >>=-eq-ok (change removing selected names s) _ h1 in
    apply_selectors-Distinct c next selectors removing
      (change-Distinct removing selected names s d e2) h2

apply_profile-Distinct :
    (c : Catalog) (selected expanded selectors : List String) (removing : Bool)
    {out : List String × List String}
    → Distinct selected
    → apply_profile c selected expanded selectors removing ≡ ok out
    → Distinct out.0
unfolding apply_profile
apply_profile-Distinct c selected expanded [] removing d h = subst Distinct (cc) d
apply_profile-Distinct c selected expanded (s ∷ selectors) removing d h =
    let (names, e1, h1) = >>=-eq-ok (expand c s false) _ h in
    let (next, e2, h2) = >>=-eq-ok (change removing selected names s) _ h1 in
    apply_profile-Distinct c next (expanded ++ names) selectors removing
      (change-Distinct removing selected names s d e2) h2

pub apply_profiles-Distinct :
    (c : Catalog) (selected names : List String) (profiles : Profiles) (removing : Bool)
    {out : List String × List ProfileExpansion}
    → Distinct selected
    → apply_profiles c selected names profiles removing ≡ ok out
    → Distinct out.0
unfolding apply_profiles
apply_profiles-Distinct c selected [] profiles removing d h = subst Distinct (cc) d
apply_profiles-Distinct c selected (name ∷ names) profiles removing d h =
    let (selectors, e1, h1) = >>=-eq-ok (or_unknown name (lookup name profiles)) _ h in
    let (first, e2, h2) = >>=-eq-ok (apply_profile c selected [] selectors removing) _ h1 in
    let (rest, e3, h3) = >>=-eq-ok (apply_profiles c first.0 names profiles removing) _ h2 in
    subst Distinct (cc) (
      apply_profiles-Distinct c first.0 names profiles removing
        (apply_profile-Distinct c selected [] selectors removing d e2) e3)
