-- ===== src/Config/Workflow/Loops.antt =====
-- The loops of ValidateWorkflow (internal/config/validate.go), each from both sides.
use duto_ai.Prelude.{
  String, Bool, true, false, ◌||◌, not, List, [], ◌∷◌, all, ◌≡◌, refl, sym, ap, ◌∙◌, arith, str_eq,
  eq_iff, eq_refl, Bool-cases, ok, ◌>>◌, require, require->>, ok-injective, All, inl, inr,
}
use duto_ai.Prelude.Keys.{member, add, member-add, Distinct}
use duto_ai.Pattern.{is_name}
use duto_ai.Config.Graph.{
  GraphStep, duplicate_step_id, unknown_dependency, invalid_name, unknown_result_step,
}
use duto_ai.Config.Graph.Indexed.{step_ids}
use duto_ai.Config.Workflow.{Route, collect_ids, check_needs, check_routes}

-- The ids of the steps are names, no two of them are the same, and none is among those seen.
pub record Collects (ids : List String) (steps : List GraphStep) : Type 0 where
  pub named : All (λ id. is_name id ≡ true) (step_ids steps)
  pub distinct : Distinct (step_ids steps)
  pub new : (k : String) → member k (step_ids steps) ≡ true → member k ids ≡ false

step-Collects :
    (ids : List String) (step : GraphStep) (steps : List GraphStep)
    → is_name step.id ≡ true
    → member step.id ids ≡ false
    → Collects (add step.id ids) steps
    → Collects ids (step ∷ steps)
unfolding member
step-Collects ids step steps name new c = record {
  named = (name, c.named);
  distinct = (apart (member step.id (step_ids steps)) refl, c.distinct);
  new = λ k h. elim (Bool-cases (str_eq step.id k)) [
    | inl e ↦ ground (arith, eq_iff step.id k, new)
    | inr e ↦ ground (arith, c.new k (rw e at h), member-add k step.id ids)
  ];
}
  where
    apart :
        (b : Bool) → member step.id (step_ids steps) ≡ b → member step.id (step_ids steps) ≡ false
    apart false e = e
    apart true e = ground (arith, c.new step.id e, member-add step.id step.id ids, eq_refl step.id)

pub collect_ids-Collects :
    (ids : List String) (steps : List GraphStep) {out : List String}
    → collect_ids ids steps ≡ ok out
    → Collects ids steps
unfolding collect_ids
collect_ids-Collects ids [] e = record {
  named = tt;
  distinct = tt;
  new = λ k h. unfold member in cc;
}
collect_ids-Collects ids (step ∷ steps) e =
    let (name, e1) = require->> (is_name step.id) invalid_name _ e in
    let (new, e2) = require->> (not (member step.id ids)) duplicate_step_id _ e1 in
    step-Collects ids step steps name (ground (arith, new))
      (collect_ids-Collects (add step.id ids) steps e2)

tail-Collects :
    (ids : List String) (step : GraphStep) (steps : List GraphStep)
    → Collects ids (step ∷ steps)
    → Collects (add step.id ids) steps
unfolding member
tail-Collects ids step steps c = record {
  named = c.named.1;
  distinct = c.distinct.1;
  new = λ k h. ground (arith, c.new k, c.distinct.0, member-add k step.id ids, eq_iff step.id k, h);
}

collect_ids-step :
    (ids : List String) (step : GraphStep) (steps : List GraphStep)
    → is_name step.id ≡ true
    → member step.id ids ≡ false
    → collect_ids ids (step ∷ steps) ≡ collect_ids (add step.id ids) steps
unfolding collect_ids
collect_ids-step ids step steps name new = rw name (rw new refl)

pub Collects-collect_ids :
    (ids : List String) (steps : List GraphStep)
    → Collects ids steps
    → (out : List String) × (collect_ids ids steps ≡ ok out)
unfolding collect_ids
Collects-collect_ids ids [] c = (ids, refl)
Collects-collect_ids ids (step ∷ steps) c =
    let new : member step.id ids ≡ false =
      c.new step.id (unfold member in ground (arith, eq_refl step.id)) in
    let (out, e) = Collects-collect_ids (add step.id ids) steps (tail-Collects ids step steps c) in
    (out, collect_ids-step ids step steps c.named.0 new ∙ e)

-- What is collected.
pub member-collect_ids :
    (k : String) (ids : List String) (steps : List GraphStep) {out : List String}
    → collect_ids ids steps ≡ ok out
    → member k out ≡ (member k (step_ids steps) || member k ids)
unfolding collect_ids member
member-collect_ids k ids [] e = ap (member k) (sym (ok-injective e))
member-collect_ids k ids (step ∷ steps) e =
    let (name, e1) = require->> (is_name step.id) invalid_name _ e in
    let (new, e2) = require->> (not (member step.id ids)) duplicate_step_id _ e1 in
    ground (arith, member-collect_ids k (add step.id ids) steps e2, member-add k step.id ids)

-- Each need is a member of the list.
abbrev pub Known : List String → List GraphStep → Type 0
Known ids [] = Unit
Known ids (step ∷ steps) = All (λ need. member need ids ≡ true) step.needs × Known ids steps

all-All : (p : String → Bool) (xs : List String) → all p xs ≡ true → All (λ x. p x ≡ true) xs
unfolding all
all-All p [] h = tt
all-All p (x ∷ xs) h = (ground arith, all-All p xs (ground (arith, h)))

All-all : (p : String → Bool) (xs : List String) → All (λ x. p x ≡ true) xs → all p xs ≡ true
unfolding all
All-all p [] h = refl
All-all p (x ∷ xs) (first, h) = rw first (All-all p xs h)

pub check_needs-Known :
    (ids : List String) (steps : List GraphStep) → check_needs ids steps ≡ ok tt → Known ids steps
unfolding check_needs
check_needs-Known ids [] e = tt
check_needs-Known ids (step ∷ steps) e =
    let (known, rest) =
      require->> (all (λ need. member need ids) step.needs) unknown_dependency
        (check_needs ids steps) e in
    (all-All (λ need. member need ids) step.needs known, check_needs-Known ids steps rest)

pub Known-check_needs :
    (ids : List String) (steps : List GraphStep) → Known ids steps → check_needs ids steps ≡ ok tt
unfolding check_needs
Known-check_needs ids [] k = refl
Known-check_needs ids (step ∷ steps) (first, k) =
    ap (λ b. require b unknown_dependency >> check_needs ids steps)
      (All-all (λ need. member need ids) step.needs first)
    ∙ Known-check_needs ids steps k

-- Each route leads to a step that is a member of the list, and asks for that step's outcome.
abbrev pub Leads : List String → List Route → Type 0
Leads ids routes =
    All
      (λ (route : Route).
        (str_eq route.step route.when_step ≡ true) × (member route.step ids ≡ true))
      routes

pub check_routes-Leads :
    (ids : List String) (routes : List Route) → check_routes ids routes ≡ ok tt → Leads ids routes
unfolding check_routes
check_routes-Leads ids [] e = tt
check_routes-Leads ids (route ∷ routes) e =
    let (same, e1) = require->> (str_eq route.step route.when_step) unknown_result_step _ e in
    let (known, rest) =
      require->> (member route.step ids) unknown_result_step (check_routes ids routes) e1 in
    ((same, known), check_routes-Leads ids routes rest)

pub Leads-check_routes :
    (ids : List String) (routes : List Route) → Leads ids routes → check_routes ids routes ≡ ok tt
unfolding check_routes
Leads-check_routes ids [] l = refl
Leads-check_routes ids (route ∷ routes) ((same, known), l) =
    rw same (rw known (Leads-check_routes ids routes l))
