-- ===== src/Tool/Scope.antt =====
-- The tools of a scope (internal/tool/resolve.go): profiles and selectors add to and remove from
-- an inherited set, and the result must lie within the ceiling and within the parent scope.
pub mod Expansion
pub mod Selection
pub mod Authority
pub mod Bounds
pub mod Removal
pub mod Canonical
use duto_ai.Prelude.{
  String, Bool, true, false, not, ◌||◌, ◌&&◌, Option, none, some, List, [], ◌∷◌, ◌++◌,
  if◌then◌else◌, str_eq, Result, ok, err, ◌>>=◌, ◌>>◌, require,
}
use duto_ai.Prelude.Keys.{member, add, remove, lookup, insert, has_key}
use duto_ai.Prelude.Order.{sort}
use duto_ai.Tool.Catalog.{
  Catalog, Code, PolicyError, refuse, expand, duplicate_tool_profile, unknown_tool_profile,
  tool_ceiling_exceeded, tool_authority_widening, invalid_tool_removal, invalid_tool_parent,
}

pub record Expression : Type 0 where
  pub from : String
  pub add_profiles : List String
  pub adds : List String
  pub remove_profiles : List String
  pub removes : List String

pub record ProfileExpansion : Type 0 where
  pub operation : String
  pub name : String
  pub tools : List String

abbrev pub Profiles : Type 0
Profiles = List (String × List String)

pub record ScopeRequest : Type 0 where
  pub expression : Expression
  pub profiles : Profiles
  pub ceiling : List String
  pub parent : List String
  pub root : Bool

pub record Scope : Type 0 where
  pub expression : Expression
  pub profiles : List ProfileExpansion
  pub names : List String
  pub parent : List String

-- The portable profiles join the trusted ones; a name that both declare is refused.
unfoldable pub merge_profiles : Profiles → Profiles → Result PolicyError Profiles
unfolding has_key insert
merge_profiles merged [] = ok merged
merge_profiles merged ((name, selectors) ∷ portable) =
    let rest = merge_profiles (insert name selectors merged) portable in
    if has_key name merged then refuse duplicate_tool_profile name else rest

unfoldable pub add_names : List String → List String → List String
add_names selected [] = selected
add_names selected (name ∷ names) = add_names (add name selected) names

-- The loop of removeNames, with its flag.
unfoldable pub remove_each : List String → Bool → List String → List String × Bool
remove_each selected removed [] = (selected, removed)
remove_each selected removed (name ∷ names) =
    remove_each (if member name selected then remove name selected else selected)
      (if member name selected then true else removed) names

unfoldable pub remove_names : List String → List String → String → Result PolicyError (List String)
unfolding remove_each
remove_names selected names selector =
    let (left, removed) = remove_each selected false names in
    if removed then ok left else refuse invalid_tool_removal selector

-- One selector's matches, added or removed.
unfoldable pub change : Bool → List String → List String → String → Result PolicyError (List String)
unfolding add_names remove_names
change true selected names selector = remove_names selected names selector
change false selected names selector = ok (add_names selected names)

unfoldable pub apply_selectors :
    Catalog → List String → List String → Bool → Result PolicyError (List String)
apply_selectors c selected [] removing = ok selected
apply_selectors c selected (selector ∷ selectors) removing = do
  names ← expand c selector false
  selected' ← change removing selected names selector
  apply_selectors c selected' selectors removing

-- The inner loop of applyProfiles: the set, and the tools that the profile expanded to.
unfoldable pub apply_profile :
    Catalog
    → List String
    → List String
    → List String
    → Bool
    → Result PolicyError (List String × List String)
apply_profile c selected expanded [] removing = ok (selected, expanded)
apply_profile c selected expanded (selector ∷ selectors) removing = do
  names ← expand c selector false
  selected' ← change removing selected names selector
  apply_profile c selected' (expanded ++ names) selectors removing

abbrev pub or_unknown : String → Option (List String) → Result PolicyError (List String)
or_unknown name none = refuse unknown_tool_profile name
or_unknown name (some selectors) = ok selectors

abbrev pub operation_of : Bool → String
operation_of true = "remove"
operation_of false = "add"

unfoldable pub apply_profiles :
    Catalog
    → List String
    → List String
    → Profiles
    → Bool
    → Result PolicyError (List String × List ProfileExpansion)
unfolding apply_profile lookup
apply_profiles c selected [] profiles removing = ok (selected, [])
apply_profiles c selected (name ∷ names) profiles removing = do
  selectors ← or_unknown name (lookup name profiles)
  (selected', expanded) ← apply_profile c selected [] selectors removing
  (selected'', expansions) ← apply_profiles c selected' names profiles removing
  ok (
    selected'',
    record { operation = operation_of removing; name = name; tools = expanded } ∷ expansions,
  )

unfoldable pub require_subset : List String → List String → Code → Result PolicyError (Unit {0})
unfolding member
require_subset [] allowed code = ok tt
require_subset (name ∷ names) allowed code =
    let rest = require_subset names allowed code in
    if member name allowed then rest else refuse code name

unfoldable pub or_empty : String → String
or_empty from = if str_eq from "" then "empty" else from

-- The guard of normalizedParent, on a name that is not empty.
abbrev pub rejected : String → Bool → Bool
rejected from root =
    (not (str_eq from "empty") && not (str_eq from "parent")) || (root && str_eq from "parent")

unfoldable pub normalized_parent : String → Bool → Result PolicyError String
normalized_parent from root =
    if rejected (or_empty from) root
    then refuse invalid_tool_parent (or_empty from)
    else ok (or_empty from)

-- The set that a scope begins with.
unfoldable pub inherited : String → List String → List String
unfolding add_names
inherited from parent = if str_eq from "parent" then add_names [] parent else []

-- The checks of a resolved set against the ceiling and, below the root, against the parent.
unfoldable pub check_authority : List String → ScopeRequest → Result PolicyError (Unit {0})
unfolding require_subset
check_authority names request = do
  require_subset names request.ceiling tool_ceiling_exceeded
  if request.root then ok tt else require_subset names request.parent tool_authority_widening

unfoldable pub resolve_ceiling_from :
    Catalog → List String → List String → Result PolicyError (List String)
unfolding add_names
resolve_ceiling_from c selected [] = ok selected
resolve_ceiling_from c selected (selector ∷ selectors) = do
  names ← expand c selector true
  resolve_ceiling_from c (add_names selected names) selectors

unfoldable pub resolve_ceiling : Catalog → List String → Result PolicyError (List String)
unfolding resolve_ceiling_from
resolve_ceiling c selectors = do selected ← resolve_ceiling_from c [] selectors; ok (sort selected)

-- The additions and removals of an expression, over the set that it begins with.
unfoldable pub select :
    Catalog → ScopeRequest → List String → Result PolicyError (List String × List ProfileExpansion)
unfolding apply_profiles apply_selectors
select c request selected = do
  (s1, added) ← apply_profiles c selected e.add_profiles request.profiles false
  s2 ← apply_selectors c s1 e.adds false
  (s3, removed) ← apply_profiles c s2 e.remove_profiles request.profiles true
  s4 ← apply_selectors c s3 e.removes true
  ok (s4, added ++ removed)
  where
    open request use {expression as e}

unfoldable pub resolve_scope : Catalog → ScopeRequest → Result PolicyError Scope
unfolding normalized_parent inherited select check_authority sort
resolve_scope c request = do
  from ← normalized_parent request.expression.from request.root
  (selected, expansions) ← select c request (inherited from request.parent)
  check_authority (sort selected) request
  ok (record {
    expression = record request.expression { from = from };
    profiles = expansions;
    names = sort selected;
    parent = request.parent;
  })
