-- ===== src/Plan/Concurrency/Ordered.antt =====
-- The order among steps that change something.
use duto_ai.Prelude.{
  ℕ, zero, suc, String, Bool, true, false, not, ◌||◌, List, [], ◌∷◌, ◌++◌, Option, none, some, ◌≡◌,
  refl, subst, arith, length, inl, inr, ◌⊎◌, ok, >>=-eq-ok, require, require-eq-ok,
}
use duto_ai.Prelude.Keys.{member, member_self, lookup}
use duto_ai.Plan.Admission.{invalid_limits}
use duto_ai.Plan.Limits.{unsafe_tool_scope}
use duto_ai.Plan.Concurrency.{
  ToolStep, Needs, needs_from, or_nil, visit, found_of, is_plan_ancestor, may_overlap, check_right,
  check_pairs, check_parallel, validate_tool_concurrency,
}
use duto_ai.Plan.Concurrency.Search.{
  Before, needed, through, Look, Looked, nothing, hit, deeper, next, Visited, again, first, no_fuel,
  visit-Visited,
}

module _ (needs : Needs) (candidate : String) where
  Looked-Before :
      (id : String) (look : Look)
      → ((n : String) (s out : List String)
          → look n s ≡ some (true, out)
          → Before needs candidate n)
      → (ns s : List String) (r : Bool × List String) → Looked look candidate ns s r
      → r.0 ≡ true
      → ((k : String) → member k ns ≡ true → member k (or_nil (lookup id needs)) ≡ true)
      → Before needs candidate id
  Looked-Before id look sound _ _ _ (nothing s) found within = cc
  Looked-Before id look sound _ _ _ (hit need ns s e) found within = needed (
      subst (λ k. member k (or_nil (lookup id needs)) ≡ true) e (within need (member_self need ns)))
  Looked-Before id look sound _ _ _ (deeper need ns s out e f) found within =
      through (within need (member_self need ns)) (sound need s out f)
  Looked-Before id look sound _ _ _ (next need ns s between r e f l) found within =
      Looked-Before id look sound ns between r l found
        (λ k m. within k (unfold member in ground (arith, m)))

  Visited-Before :
      (fuel : ℕ)
      → ((n : String) (s out : List String)
          → visit fuel needs candidate n s ≡ some (true, out)
          → Before needs candidate n)
      → (id : String) (s : List String) (r : Bool × List String)
      → Visited fuel needs candidate id s r
      → r.0 ≡ true
      → Before needs candidate id
  Visited-Before fuel sound id s _ (again e) found = cc
  Visited-Before fuel sound id s _ (first r e l) found =
      Looked-Before id (visit fuel needs candidate) sound _ (id ∷ s) r l found (λ k m. m)

  pub visit-Before :
      (fuel : ℕ) (id : String) (s out : List String)
      → visit fuel needs candidate id s ≡ some (true, out)
      → Before needs candidate id
  visit-Before zero id s out h = absurd (no_fuel needs candidate id s (true, out) h)
  visit-Before (suc fuel) id s out h =
      Visited-Before fuel (visit-Before fuel) id s (true, out)
        (visit-Visited needs candidate fuel id s (true, out) h) refl

pub is_plan_ancestor-Before :
    (candidate step_id : String) (steps : List ToolStep)
    → is_plan_ancestor candidate step_id steps ≡ true
    → Before (needs_from steps []) candidate step_id
unfolding is_plan_ancestor
is_plan_ancestor-Before candidate step_id steps h =
    split (visit (suc (length steps)) (needs_from steps []) candidate step_id []) refl h
  where
    split :
        (o : Option (Bool × List String))
        → visit (suc (length steps)) (needs_from steps []) candidate step_id [] ≡ o
        → found_of o ≡ true
        → Before (needs_from steps []) candidate step_id
    split none e f = cc
    split (some (false, out)) e f = cc
    split (some (true, out)) e f =
        visit-Before (needs_from steps []) candidate (suc (length steps)) step_id [] out e

check_right-member :
    (left right : ToolStep) (between after steps : List ToolStep)
    → check_right left (between ++ right ∷ after) steps ≡ ok tt
    → may_overlap left right steps ≡ true
unfolding check_right
check_right-member left right [] after steps h =
    let (u, e, h1) = >>=-eq-ok (require (may_overlap left right steps) invalid_limits) _ h in
    require-eq-ok (may_overlap left right steps) invalid_limits e
check_right-member left right (x ∷ between) after steps h =
    let (u, e, h1) = >>=-eq-ok (require (may_overlap left x steps) invalid_limits) _ h in
    check_right-member left right between after steps h1

check_pairs-member :
    (before : List ToolStep) (left : ToolStep) (rest steps : List ToolStep)
    → check_pairs (before ++ left ∷ rest) steps ≡ ok tt
    → check_right left rest steps ≡ ok tt
unfolding check_pairs
check_pairs-member [] left rest steps h =
    let (u, e, h1) = >>=-eq-ok (check_right left rest steps) _ h in e
check_pairs-member (x ∷ before) left rest steps h =
    let (u, e, h1) = >>=-eq-ok (check_right x (before ++ left ∷ rest) steps) _ h in
    check_pairs-member before left rest steps h1

may_overlap-Before :
    (left right : ToolStep) (steps : List ToolStep)
    → may_overlap left right steps ≡ true
    → (unsafe_tool_scope left.tools || unsafe_tool_scope right.tools) ≡ true
    → Before (needs_from steps []) left.id right.id ⊎ Before (needs_from steps []) right.id left.id
unfolding may_overlap
may_overlap-Before left right steps h unsafe = elim (either _ _ _ h unsafe) [
  | inl a ↦ inl (is_plan_ancestor-Before left.id right.id steps a)
  | inr b ↦ inr (is_plan_ancestor-Before right.id left.id steps b)
]
  where
    either : (a b u : Bool) → ((a || b) || not u) ≡ true → u ≡ true → (a ≡ true) ⊎ (b ≡ true)
    either true b u p q = inl refl
    either false true u p q = inr refl
    either false false u p q = absurd (ground (arith, p, q))

-- If a workflow passes the check, then of two steps of which one has a tool that does more than
-- read, one comes before the other: it is reached from the other by needs.
pub validate_tool_concurrency-Before :
    (before between after : List ToolStep) (left right : ToolStep)
    → validate_tool_concurrency (before ++ left ∷ (between ++ right ∷ after)) ≡ ok tt
    → (unsafe_tool_scope left.tools || unsafe_tool_scope right.tools) ≡ true
    → Before (needs_from (before ++ left ∷ (between ++ right ∷ after)) []) left.id right.id
      ⊎ Before (needs_from (before ++ left ∷ (between ++ right ∷ after)) []) right.id left.id
unfolding validate_tool_concurrency
validate_tool_concurrency-Before before between after left right h unsafe =
    let steps = before ++ left ∷ (between ++ right ∷ after) in
    let (u, e, h1) = >>=-eq-ok (check_parallel steps) _ h in
    may_overlap-Before left right steps
      (check_right-member left right between after steps
        (check_pairs-member before left (between ++ right ∷ after) steps h1))
      unsafe
