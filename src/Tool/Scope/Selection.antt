-- ===== src/Tool/Scope/Selection.antt =====
-- The set that a scope's expression selects, as one condition on each tool.
use duto_ai.Prelude.{
  String, Bool, true, false, not, ◌&&◌, ◌||◌, Option, none, some, List, [], ◌∷◌, ◌++◌, ◌≡◌, ap,
  arith, if◌then◌else◌, eq_iff, ok, any, >>=-eq-ok,
}
use duto_ai.Prelude.Keys.{add, remove, member, member-add, member-remove, lookup}
use duto_ai.Tool.Catalog.{Catalog, expand}
use duto_ai.Tool.Catalog.Built.{IsCatalog}
use duto_ai.Tool.Scope.{
  Profiles, add_names, remove_each, remove_names, change, apply_selectors, apply_profile,
  apply_profiles, or_unknown, ProfileExpansion,
}
use duto_ai.Tool.Scope.Expansion.{matches, hits, expand-member}

-- Adding, or taking away.
abbrev pub blend : Bool → Bool → Bool → Bool
blend true old change = old && not change
blend false old change = old || change

pub add_names-member :
    (k : String) (selected names : List String)
    → member k (add_names selected names) ≡ (member k selected || member k names)
unfolding add_names member
add_names-member k selected [] = ground arith
add_names-member k selected (name ∷ names) =
    ground (arith, add_names-member k (add name selected) names, member-add k name selected)

remove_each-member :
    (k : String) (selected names : List String) (removed : Bool)
    → member k (remove_each selected removed names).0 ≡ (member k selected && not (member k names))
unfolding remove_each member
remove_each-member k selected [] removed = ground arith
remove_each-member k selected (name ∷ names) removed = ground (
  arith,
  remove_each-member k (if member name selected then remove name selected else selected) names
      (if member name selected then true else removed),
  member-remove k name selected,
  eq_iff name k,
)

change-member :
    (removing : Bool) (k selector : String) (selected names : List String) {out : List String}
    → change removing selected names selector ≡ ok out
    → member k out ≡ blend removing (member k selected) (member k names)
unfolding change remove_names
change-member true k selector selected names h =
    ground (arith, remove_each-member k selected names false)
change-member false k selector selected names h = ground (arith, add_names-member k selected names)

blend-blend :
    (removing old first rest : Bool)
    → blend removing (blend removing old first) rest ≡ blend removing old (first || rest)
blend-blend removing old first rest = ground arith

blend_nothing : (removing old : Bool) → blend removing old false ≡ old
blend_nothing removing old = ground arith

-- A list of selectors adds, or takes away, what one of them matches.
pub apply_selectors-member :
    (c : Catalog) (k : String) (selected selectors : List String) (removing : Bool)
    {out : List String}
    → IsCatalog c
    → apply_selectors c selected selectors removing ≡ ok out
    → member k out ≡ blend removing (member k selected) (hits c selectors k)
unfolding apply_selectors any
apply_selectors-member c k selected [] removing v h =
    cc (blend_nothing removing (member k selected))
apply_selectors-member c k selected (s ∷ selectors) removing v h =
    let (names, e1, h1) = >>=-eq-ok (expand c s false) _ h in
    let (next, e2, h2) = >>=-eq-ok (change removing selected names s) _ h1 in
    cc (
      apply_selectors-member c k next selectors removing v h2,
      change-member removing k s selected names e2,
      expand-member c s k v e1,
      blend-blend removing (member k selected) (matches c s k) (hits c selectors k),
    )

apply_profile-member :
    (c : Catalog) (k : String) (selected expanded selectors : List String) (removing : Bool)
    {out : List String × List String}
    → IsCatalog c
    → apply_profile c selected expanded selectors removing ≡ ok out
    → member k out.0 ≡ blend removing (member k selected) (hits c selectors k)
unfolding apply_profile any
apply_profile-member c k selected expanded [] removing v h =
    cc (blend_nothing removing (member k selected))
apply_profile-member c k selected expanded (s ∷ selectors) removing v h =
    let (names, e1, h1) = >>=-eq-ok (expand c s false) _ h in
    let (next, e2, h2) = >>=-eq-ok (change removing selected names s) _ h1 in
    cc (
      apply_profile-member c k next (expanded ++ names) selectors removing v h2,
      change-member removing k s selected names e2,
      expand-member c s k v e1,
      blend-blend removing (member k selected) (matches c s k) (hits c selectors k),
    )

abbrev pub selectors_of : Option (List String) → List String
selectors_of none = []
selectors_of (some selectors) = selectors

-- One of the named profiles has a selector that matches.
abbrev pub profile_hits : Catalog → Profiles → List String → String → Bool
profile_hits c profiles names k = any (λ name. hits c (selectors_of (lookup name profiles)) k) names

or_unknown-selectors_of :
    (name : String) (found : Option (List String)) {selectors : List String}
    → or_unknown name found ≡ ok selectors
    → selectors ≡ selectors_of found
or_unknown-selectors_of name none h = cc
or_unknown-selectors_of name (some s) h = cc

pub apply_profiles-member :
    (c : Catalog) (k : String) (selected names : List String) (profiles : Profiles)
    (removing : Bool) {out : List String × List ProfileExpansion}
    → IsCatalog c
    → apply_profiles c selected names profiles removing ≡ ok out
    → member k out.0 ≡ blend removing (member k selected) (profile_hits c profiles names k)
unfolding apply_profiles any
apply_profiles-member c k selected [] profiles removing v h =
    cc (blend_nothing removing (member k selected))
apply_profiles-member c k selected (name ∷ names) profiles removing v h =
    let (selectors, e1, h1) = >>=-eq-ok (or_unknown name (lookup name profiles)) _ h in
    let (first, e2, h2) = >>=-eq-ok (apply_profile c selected [] selectors removing) _ h1 in
    let (rest, e3, h3) = >>=-eq-ok (apply_profiles c first.0 names profiles removing) _ h2 in
    let same : selectors ≡ selectors_of (lookup name profiles) =
      or_unknown-selectors_of name (lookup name profiles) e1 in
    cc (
      apply_profiles-member c k first.0 names profiles removing v e3,
      apply_profile-member c k selected [] selectors removing v e2,
      ap (λ s. hits c s k) same,
      blend-blend removing (member k selected) (hits c (selectors_of (lookup name profiles)) k)
          (profile_hits c profiles names k),
    )
