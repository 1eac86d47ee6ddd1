-- ===== src/Tool/Catalog.antt =====
-- The tool catalog (internal/tool/catalog.go) and the expansion of a selector over it
-- (internal/tool/resolve.go). A Go map is an association list, a typed string is its text.
pub mod Built
pub mod Standard
use duto_ai.Prelude.{
  ℕ, String, Bool, true, false, not, ◌&&◌, ◌||◌, Option, List, [], ◌∷◌, ltb, leb, ◌==◌,
  if◌then◌else◌, length, is_empty, any, all, filter, str_eq, codes, begins_with, Result, ok, err,
  ◌>>=◌, ◌++◌,
}
use duto_ai.Prelude.Keys.{member, lookup, insert, has_key}
use duto_ai.Prelude.Order.{sort}

-- The `Code…` constants of resolve.go, and `ErrInvalidCatalog` of catalog.go.
pub data Code : Type 0 where
  duplicate_tool_profile unknown_tool_profile unknown_tool invalid_tool_selector : Code
  unmatched_tool_selector tool_ceiling_exceeded tool_authority_widening : Code
  invalid_tool_removal invalid_tool_parent invalid_catalog : Code

pub record PolicyError : Type 0 where
  pub code : Code
  pub name : String

abbrev pub refuse {ℓ} : {A : Type ℓ} → Code → String → Result PolicyError A
refuse c n = err (record { code = c; name = n })

pub record Definition : Type 0 where
  pub name : String
  pub capabilities : List String
  pub side_effect : String

pub record Catalog : Type 0 where
  pub definitions : List (String × Definition)
  pub names : List String

lengthen : ℕ → List (List ℕ) → List (List ℕ)
lengthen c [] = (c ∷ []) ∷ []
lengthen c (part ∷ parts) = (c ∷ part) ∷ parts

-- strings.Split(name, "."), over code points.
split_dot : List ℕ → List (List ℕ)
unfolding lengthen
split_dot [] = [] ∷ []
split_dot (c ∷ cs) = let rest = split_dot cs in if c == b'.' then [] ∷ rest else lengthen c rest

is_lower : ℕ → Bool
is_lower c = leb b'a' c && leb c b'z'

is_part_character : ℕ → Bool
unfolding is_lower
is_part_character c = is_lower c || (leb b'0' c && leb c b'9') || c == b'-'

valid_part : List ℕ → Bool
unfolding is_lower is_part_character all
valid_part [] = false
valid_part (c ∷ cs) = is_lower c && all is_part_character cs

unfoldable pub valid_tool_name : String → Bool
unfolding split_dot valid_part all
valid_tool_name name =
    let parts = split_dot (codes name) in not (ltb (length parts) 2) && all valid_part parts

abbrev pub empty : Catalog
empty = record { definitions = []; names = [] }

-- The test that NewCatalog makes of one definition.
unfoldable pub admissible : Catalog → Definition → Bool
unfolding valid_tool_name has_key
admissible c d =
    valid_tool_name d.name
    && not (is_empty d.capabilities)
    && not (str_eq d.side_effect "")
    && not (has_key d.name c.definitions)

-- The loop of NewCatalog.
unfoldable pub register : Catalog → List Definition → Result PolicyError Catalog
unfolding admissible insert
register c [] = ok c
register c (d ∷ ds) =
    let rest =
      register
        (record { definitions = insert d.name d c.definitions; names = c.names ++ d.name ∷ [] })
        ds in
    if admissible c d then rest else refuse invalid_catalog ""

unfoldable pub new_catalog : List Definition → Result PolicyError Catalog
unfolding register sort
new_catalog ds = do c ← register empty ds; ok (record c { names = sort c.names })

pub definition : Catalog → String → Option Definition
unfolding lookup
definition c name = lookup name c.definitions

-- The families that a portable selector may name.
abbrev pub families : List String
families = "files.*" ∷ "git.read.*" ∷ "github.read.*" ∷ []

-- strings.Contains(selector, "*")
unfoldable pub has_star : String → Bool
unfolding any
has_star s = any (λ c. c == b'*') (codes s)

-- strings.TrimSuffix(selector, "*"), over code points.
unfoldable pub trim_star : List ℕ → List ℕ
trim_star [] = []
trim_star (c ∷ []) = if c == b'*' then [] else c ∷ []
trim_star (c ∷ d ∷ cs) = c ∷ trim_star (d ∷ cs)

-- The names of the catalog that a family's prefix begins.
unfoldable pub family_members : Catalog → String → List String
unfolding filter trim_star
family_members c selector =
    filter (λ name. begins_with (trim_star (codes selector)) (codes name)) c.names

unfoldable pub expand_family : Catalog → String → Result PolicyError (List String)
unfolding family_members member
expand_family c selector =
    if not (member selector families)
    then refuse invalid_tool_selector selector
    else if is_empty (family_members c selector)
    then refuse unmatched_tool_selector selector
    else ok (family_members c selector)

unfoldable pub expand_name : Catalog → String → Result PolicyError (List String)
unfolding valid_tool_name has_key
expand_name c selector =
    if not (valid_tool_name selector)
    then refuse invalid_tool_selector selector
    else if has_key selector c.definitions
    then ok (selector ∷ [])
    else refuse unknown_tool selector

unfoldable pub expand : Catalog → String → Bool → Result PolicyError (List String)
unfolding expand_family expand_name has_star
expand c selector trusted =
    if str_eq selector "*"
    then (if trusted then ok c.names else refuse invalid_tool_selector selector)
    else if has_star selector
    then expand_family c selector
    else expand_name c selector
