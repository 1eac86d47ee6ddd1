-- ===== src/Tool/Scope/Removal.antt =====
-- When a removal is refused, and what a refused authority check reports.
use duto_ai.Prelude.{
  String, true, false, List, [], ◌∷◌, ◌≡◌, refl, ◌↔◌, arith, Bool-cases, inl, inr, if◌then◌else◌,
  err, any, eq_iff,
}
use duto_ai.Prelude.Keys.{member, remove}
use duto_ai.Tool.Catalog.{Code, PolicyError, refuse, invalid_tool_removal}
use duto_ai.Tool.Scope.{remove_each, remove_names, require_subset}

remove_each_flag_set : (selected names : List String) → (remove_each selected true names).1 ≡ true
unfolding remove_each
remove_each_flag_set selected [] = refl
remove_each_flag_set selected (name ∷ names) = ground (
  arith,
  remove_each_flag_set (if member name selected then remove name selected else selected) names,
)

-- The flag tells whether one of the names was selected.
remove_each_flag :
    (selected names : List String)
    → (remove_each selected false names).1 ≡ any (λ n. member n selected) names
unfolding remove_each any
remove_each_flag selected [] = refl
remove_each_flag selected (name ∷ names) =
    ground
      (arith, remove_each_flag selected names, remove_each_flag_set (remove name selected) names)

-- Removing a selector's matches is refused exactly when none of them is selected.
remove_names_refused :
    (selected names : List String) (selector : String)
    → (remove_names selected names selector ≡ refuse invalid_tool_removal selector)
      ↔ (any (λ n. member n selected) names ≡ false)
unfolding remove_names
remove_names_refused selected names selector = (
  λ h. ground (arith, remove_each_flag selected names),
  λ h. ground (arith, remove_each_flag selected names),
)

-- A refused subset check names a tool that was asked for and is not allowed.
require_subset_refused :
    (names allowed : List String) (code : Code) {e : PolicyError}
    → require_subset names allowed code ≡ err e
    → (e.code ≡ code) × (member e.name names ≡ true) × (member e.name allowed ≡ false)
unfolding require_subset member
require_subset_refused [] allowed code h = cc
require_subset_refused (name ∷ names) allowed code {e} h = elim (Bool-cases (member name allowed)) [
  | inl t ↦
      let (a, b, c) = require_subset_refused names allowed code (passed t) in
      (a, ground (arith, b), c)
  | inr f ↦ ground (arith, f, eq_iff name name)
]
  where
    passed : member name allowed ≡ true → require_subset names allowed code ≡ err e
    passed t = ground (arith, t)
