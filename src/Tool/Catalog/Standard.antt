-- ===== src/Tool/Catalog/Standard.antt =====
-- The catalogs that the program ships (BuiltinCatalog and M3Catalog of internal/tool/catalog.go).
-- A catalog that NewCatalog refuses is a panic in the source; here it would be the empty one, and
-- the tests show that neither is refused.
use duto_ai.Prelude.{String, List, [], ◌∷◌, ◌++◌, Option, none, some, Result, ok, err}
use duto_ai.Prelude.Keys.{lookup}
use duto_ai.Tool.Catalog.{Catalog, Definition, PolicyError, empty, new_catalog}

abbrev define : String → String → String → Definition
define name capability side_effect = record {
  name = name;
  capabilities = capability ∷ [];
  side_effect = side_effect;
}

abbrev pub builtin_definitions : List Definition
builtin_definitions =
    define "files.find" "workspace.read" "read"
    ∷ define "files.grep" "workspace.read" "read"
    ∷ define "files.read" "workspace.read" "read"
    ∷ define "git.read.blame" "git.read" "read"
    ∷ define "git.read.diff" "git.read" "read"
    ∷ define "git.read.log" "git.read" "read"
    ∷ define "git.read.show" "git.read" "read"
    ∷ define "github.read.changed-files" "github.read" "read"
    ∷ define "github.read.checks" "github.read" "read"
    ∷ define "github.read.comments" "github.read" "read"
    ∷ define "github.read.diff" "github.read" "read"
    ∷ define "github.read.issue" "github.read" "read"
    ∷ define "github.read.pr" "github.read" "read"
    ∷ define "github.read.reviews" "github.read" "read"
    ∷ define "github.read.search-issues" "github.read" "read"
    ∷ define "shell.run" "process.exec" "process"
    ∷ define "web.fetch" "network.read" "read"
    ∷ []

abbrev pub authoring_definitions : List Definition
authoring_definitions =
    define "files.write" "workspace.mutate" "local_mutation"
    ∷ define "git.write.commit" "git.mutate" "local_mutation"
    ∷ define "safe-output.branch" "git.publish" "staged"
    ∷ define "safe-output.conversation-reply" "github.mutate" "staged"
    ∷ define "safe-output.draft-pr" "github.mutate" "staged"
    ∷ []

abbrev accepted : Result PolicyError Catalog → Catalog
accepted (ok c) = c
accepted (err e) = empty

unfoldable pub builtin_catalog : Catalog
unfolding new_catalog
builtin_catalog = accepted (new_catalog builtin_definitions)

abbrev with_definition : Option Definition → List Definition → List Definition
with_definition none ds = ds
with_definition (some d) ds = d ∷ ds

-- The definitions of a catalog in the order of its names.
unfoldable pub definitions_in_order : Catalog → List String → List Definition
unfolding lookup
definitions_in_order c [] = []
definitions_in_order c (name ∷ names) =
    with_definition (lookup name c.definitions) (definitions_in_order c names)

unfoldable pub m3_definitions : List Definition
unfolding builtin_catalog definitions_in_order
m3_definitions = definitions_in_order builtin_catalog builtin_catalog.names ++ authoring_definitions

unfoldable pub m3_catalog : Catalog
unfolding new_catalog m3_definitions
m3_catalog = accepted (new_catalog m3_definitions)
