-- ===== src/Tool/Scope/Expansion.antt =====
-- What a selector stands for, described without the code's case distinctions.
use duto_ai.Prelude.{
  String, Bool, false, ◌&&◌, List, ◌≡◌, arith, if◌then◌else◌, str_eq, eq_iff, codes, begins_with,
  ok, any,
}
use duto_ai.Prelude.Keys.{member, member-filter}
use duto_ai.Tool.Catalog.{Catalog, has_star, trim_star, expand_family, expand_name, expand}
use duto_ai.Tool.Catalog.Built.{IsCatalog}

-- A tool of the catalog that the selector names, or whose name its family's prefix begins.
abbrev pub matches : Catalog → String → String → Bool
matches c selector k =
    member k c.names
    && (if has_star selector
        then begins_with (trim_star (codes selector)) (codes k)
        else str_eq selector k)

-- One of the selectors matches.
abbrev pub hits : Catalog → List String → String → Bool
hits c selectors k = any (λ s. matches c s k) selectors

expand_family-member :
    (c : Catalog) (selector k : String) {names : List String}
    → expand_family c selector ≡ ok names
    → member k names ≡ (begins_with (trim_star (codes selector)) (codes k) && member k c.names)
unfolding expand_family
expand_family-member c selector k h =
    ground
      (arith, member-filter (λ n. begins_with (trim_star (codes selector)) (codes n)) k c.names)

expand_name-member :
    (c : Catalog) (selector k : String) {names : List String}
    → IsCatalog c
    → expand_name c selector ≡ ok names
    → member k names ≡ (str_eq selector k && member k c.names)
unfolding expand_name member
expand_name-member c selector k v h = ground (arith, eq_iff selector k, v.listed selector)

-- A portable selector that expands yields exactly the tools of the catalog that it matches.
pub expand-member :
    (c : Catalog) (selector k : String) {names : List String}
    → IsCatalog c
    → expand c selector false ≡ ok names
    → member k names ≡ matches c selector k
unfolding expand
expand-member c selector k {names} v h = ground (
  arith,
  expand_family-member c selector k {names = names},
  expand_name-member c selector k {names = names} v,
)
