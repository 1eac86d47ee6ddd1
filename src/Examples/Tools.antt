-- ===== src/Examples/Tools.antt =====
-- The tool policy at concrete inputs: the catalog with the authoring tools, a root scope, and a
-- scope below it.
use duto_ai.Prelude.{
  String, Bool, true, false, List, [], ◌∷◌, ◌≡◌, refl, arith, ok, any, ◌||◌, ◌&&◌,
}
use duto_ai.Prelude.Keys.{member, add, remove, Distinct}
use duto_ai.Prelude.Order.{IsSorted}
use duto_ai.Tool.Catalog.{expand, new_catalog, refuse, unknown_tool_profile, invalid_tool_parent}
use duto_ai.Tool.Catalog.Built.{IsCatalog, new_catalog-IsCatalog}
use duto_ai.Tool.Catalog.Standard.{builtin_definitions, builtin_catalog, m3_definitions, m3_catalog}
use duto_ai.Tool.Scope.{ScopeRequest, Scope, resolve_scope, change, or_empty}
use duto_ai.Tool.Scope.Expansion.{matches}
use duto_ai.Tool.Scope.Authority.{resolve_scope-member, wanted}
use duto_ai.Tool.Scope.Bounds.{here, narrow, Below-member, resolve_scope_within}
use duto_ai.Tool.Scope.Canonical.{resolve_scope_canonical, resolve_scope_ordered, asks}

m3_accepted : new_catalog m3_definitions ≡ ok m3_catalog
unfolding new_catalog m3_catalog
m3_accepted = refl

builtin_accepted : new_catalog builtin_definitions ≡ ok builtin_catalog
unfolding new_catalog builtin_catalog
builtin_accepted = refl

new_catalog-IsCatalog_example : IsCatalog m3_catalog
new_catalog-IsCatalog_example = new_catalog-IsCatalog m3_definitions m3_accepted

m3_valid : IsCatalog m3_catalog
m3_valid = new_catalog-IsCatalog m3_definitions m3_accepted

abbrev readers : List String
readers = "files.find" ∷ "files.grep" ∷ "files.read" ∷ []

-- The workflow: the files family, without writing.
abbrev workflow_request : ScopeRequest
workflow_request = record {
  expression = record {
    from = "";
    add_profiles = [];
    adds = "files.*" ∷ [];
    remove_profiles = [];
    removes = "files.write" ∷ [];
  };
  profiles = [];
  ceiling = "files.find" ∷ "files.grep" ∷ "files.read" ∷ "shell.run" ∷ [];
  parent = [];
  root = true;
}

-- The same tools, by a profile that lists them in another order.
abbrev profile_request : ScopeRequest
profile_request = record {
  expression = record {
    from = "empty";
    add_profiles = "search" ∷ [];
    adds = [];
    remove_profiles = [];
    removes = [];
  };
  profiles = ("search", "files.read" ∷ "files.grep" ∷ "files.find" ∷ []) ∷ [];
  ceiling = readers;
  parent = [];
  root = true;
}

-- A step: the parent's tools, without grep.
abbrev step_request : ScopeRequest
step_request = record {
  expression = record {
    from = "parent";
    add_profiles = [];
    adds = [];
    remove_profiles = [];
    removes = "files.grep" ∷ [];
  };
  profiles = [];
  ceiling = readers;
  parent = readers;
  root = false;
}

abbrev workflow_scope : Scope
workflow_scope = record {
  expression = record workflow_request.expression { from = "empty" };
  profiles = [];
  names = readers;
  parent = [];
}

workflow_resolved : resolve_scope m3_catalog workflow_request ≡ ok workflow_scope
unfolding resolve_scope expand change m3_catalog or_empty add remove
workflow_resolved = refl

abbrev profile_scope : Scope
profile_scope = record {
  expression = profile_request.expression;
  profiles =
      record {
        operation = "add";
        name = "search";
        tools = "files.read" ∷ "files.grep" ∷ "files.find" ∷ [];
      }
      ∷ [];
  names = readers;
  parent = [];
}

profile_resolved : resolve_scope m3_catalog profile_request ≡ ok profile_scope
unfolding resolve_scope expand change m3_catalog or_empty add remove
profile_resolved = refl

abbrev step_scope : Scope
step_scope = record {
  expression = step_request.expression;
  profiles = [];
  names = "files.find" ∷ "files.read" ∷ [];
  parent = readers;
}

step_resolved : resolve_scope m3_catalog step_request ≡ ok step_scope
unfolding resolve_scope expand change m3_catalog or_empty add remove
step_resolved = refl

-- A profile that the request does not know, and a root that asks for a parent.
unknown_profile_refused :
    (resolve_scope m3_catalog (record profile_request { profiles = [] })
      ≡ refuse unknown_tool_profile "search")
    × (resolve_scope m3_catalog (record step_request { root = true })
        ≡ refuse invalid_tool_parent "parent")
unfolding resolve_scope expand change m3_catalog or_empty add remove
unknown_profile_refused = (refl, refl)

resolve_scope_within_example :
    (member "files.read" readers ≡ true) × ((false || member "files.read" readers) ≡ true)
unfolding member
resolve_scope_within_example =
    resolve_scope_within m3_catalog step_request "files.read" step_resolved refl

resolve_scope-member_example :
    member "files.grep" step_scope.names ≡ wanted m3_catalog step_request true "files.grep"
unfolding member
resolve_scope-member_example =
    resolve_scope-member m3_catalog step_request "files.grep" m3_valid step_resolved

Below-member_example : member "files.read" readers ≡ true
unfolding member
Below-member_example =
    Below-member m3_catalog "files.read" (narrow here step_request refl refl step_resolved) refl

resolve_scope_ordered_example : IsSorted step_scope.names × Distinct step_scope.names
resolve_scope_ordered_example = resolve_scope_ordered m3_catalog step_request step_resolved

-- Two tools by name, in either order.
abbrev named : String → String → ScopeRequest
named a b = record {
  expression = record {
    from = "empty";
    add_profiles = [];
    adds = a ∷ b ∷ [];
    remove_profiles = [];
    removes = [];
  };
  profiles = [];
  ceiling = readers;
  parent = [];
  root = true;
}

abbrev named_scope : String → String → Scope
named_scope a b = record {
  expression = (named a b).expression;
  profiles = [];
  names = "files.grep" ∷ "files.read" ∷ [];
  parent = [];
}

named_resolved :
    (resolve_scope m3_catalog (named "files.read" "files.grep")
      ≡ ok (named_scope "files.read" "files.grep"))
    × (resolve_scope m3_catalog (named "files.grep" "files.read")
        ≡ ok (named_scope "files.grep" "files.read"))
unfolding resolve_scope expand change m3_catalog or_empty add remove
named_resolved = (refl, refl)

either_order : (a b k : String) → asks m3_catalog (named a b) k ≡ asks m3_catalog (named b a) k
unfolding any
either_order a b k = swapped (matches m3_catalog a k) (matches m3_catalog b k) false
  where
    swapped :
        (x y s : Bool)
        → ((((s || false) || (x || (y || false))) && true) && true)
          ≡ ((((s || false) || (y || (x || false))) && true) && true)
    swapped x y s = ground arith

resolve_scope_canonical_example :
    (named_scope "files.read" "files.grep").names ≡ (named_scope "files.grep" "files.read").names
resolve_scope_canonical_example =
    resolve_scope_canonical m3_catalog (named "files.read" "files.grep")
      (named "files.grep" "files.read") m3_valid (either_order "files.read" "files.grep")
      named_resolved.0 named_resolved.1
