-- ===== src/Plan/Outcomes/Conflict.antt =====
-- The test whether two terminals exclude one another.
use duto_ai.Prelude.{String, Bool, true, false, Option, none, some, List, [], ◌∷◌, ◌≡◌, arith, any}
use duto_ai.Prelude.Keys.{lookup}
use duto_ai.Plan.Outcomes.{Constraints, constraints_conflict, disjoint}

abbrev pub excluded_by : Option (List String) → List String → Bool
excluded_by none values = false
excluded_by (some others) values = disjoint values others

-- Some step must have an outcome of one list for the left, and of a disjoint list for the right.
abbrev pub excluded : Constraints → Constraints → Bool
excluded left right = any (λ (c : String × List String). excluded_by (lookup c.0 right) c.1) left

-- A conflict that is reported is real: some step's outcomes exclude one another.
pub constraints_conflict_sound :
    (left right : Constraints) → constraints_conflict left right ≡ true → excluded left right ≡ true
unfolding constraints_conflict any
constraints_conflict_sound [] right h = cc
constraints_conflict_sound ((step, values) ∷ left) right h =
    ground (arith, constraints_conflict_sound left right)

-- The answer depends on the order in which the map is visited: with one shared step whose
-- outcomes overlap and one whose outcomes exclude one another, a visit to the former first misses
-- the conflict that a visit to the latter first reports.
pub constraints_conflict_order :
    (a b : String) (xs ys us vs : List String) (left right : Constraints)
    → lookup a right ≡ some us
    → lookup b right ≡ some vs
    → disjoint xs us ≡ false
    → disjoint ys vs ≡ true
    → (constraints_conflict ((a, xs) ∷ (b, ys) ∷ left) right ≡ false)
      × (constraints_conflict ((b, ys) ∷ (a, xs) ∷ left) right ≡ true)
unfolding constraints_conflict
constraints_conflict_order a b xs ys us vs left right ra rb overlap apart =
    (rw (ra, constraints_conflict) overlap, rw (rb, constraints_conflict) apart)
