-- ===== src/Plan/Outcomes/Direct.antt =====
-- A result that is one step's, against the terminals.
use duto_ai.Prelude.{
  suc, ◌≤◌, String, Bool, true, false, ◌&&◌, ◌||◌, some, List, [], ◌∷◌, ◌≡◌, refl, sym, ◌∙◌, ap,
  subst, arith, Bool-cases, Bool-ext, inl, inr, length, ◌==◌, ==_iff, str_eq, str_eq-true, eq_refl,
  and_true, all, ok, require, require-eq-ok, >>=-eq-ok,
}
use duto_ai.Prelude.Cover.{has, Unique, Unique-covers}
use duto_ai.Prelude.Keys.{member, lookup, Distinct}
use duto_ai.Plan.Admission.{invalid_result}
use duto_ai.Plan.Outcomes.{
  Output, TerminalPair, WorkflowResult, Terminals, pair_eq, pairs, or_invalid, is_terminal,
  compile_direct_result,
}
use duto_ai.Plan.Outcomes.Routes.{pair_eq-true, pair_eq_refl, length-pairs, or_invalid-some}

at_step : String → List String → List TerminalPair
at_step step [] = []
at_step step (o ∷ os) = record { step = step; outcome = o } ∷ at_step step os

has-at_step :
    (step : String) (os : List String) (k : TerminalPair)
    → has pair_eq k (at_step step os) ≡ (str_eq step k.step && member k.outcome os)
unfolding at_step has member
has-at_step step [] k = ground arith
has-at_step step (o ∷ os) k = rw (has-at_step step os k) (distribute (str_eq step k.step) _ _)
  where
    distribute : (a b c : Bool) → ((a && b) || (a && c)) ≡ (a && (b || c))
    distribute a b c = ground arith

at_step-Unique : (step : String) (os : List String) → Distinct os → Unique pair_eq (at_step step os)
unfolding at_step
at_step-Unique step [] d = tt
at_step-Unique step (o ∷ os) d = (
  rw (has-at_step step os (record { step = step; outcome = o }))
      (rw d.0 (none_left (str_eq step step))),
  at_step-Unique step os d.1,
)
  where
    none_left : (b : Bool) → (b && false) ≡ false
    none_left b = ground arith

length-at_step : (step : String) (os : List String) → length (at_step step os) ≡ length os
unfolding at_step
length-at_step step [] = refl
length-at_step step (o ∷ os) = ap suc (length-at_step step os)

all-member :
    (p : String → Bool) (os : List String) (x : String)
    → all p os ≡ true
    → member x os ≡ true
    → p x ≡ true
unfolding all member
all-member p [] x h m = cc
all-member p (o ∷ os) x h m =
    let (first, others) = and_true (p o) (all p os) h in
    elim (Bool-cases (str_eq o x)) [
      | inl e ↦ subst (λ y. p y ≡ true) (str_eq-true o x e) first
      | inr e ↦ all-member p os x others (rw e at m)
    ]

-- The parts of a direct result that was accepted.
record Direct (step : String) (outputs : List (String × Output)) (terminals : Terminals)
    : Type 0 where
  output : Output
  found : lookup step outputs ≡ some output
  as_many : length terminals ≡ length output.outcomes
  terminal : all (is_terminal terminals step) output.outcomes ≡ true

compile_direct_result-Direct :
    (step : String) (outputs : List (String × Output)) (terminals : Terminals) {r : WorkflowResult}
    → compile_direct_result step outputs terminals ≡ ok r
    → Direct step outputs terminals
unfolding compile_direct_result
compile_direct_result-Direct step outputs terminals h =
    let (output, e1, h1) = >>=-eq-ok (or_invalid (lookup step outputs)) _ h in
    let (u2, e2, h2) =
      >>=-eq-ok (require (length terminals == length output.outcomes) invalid_result) _ h1 in
    let (u3, e3, h3) =
      >>=-eq-ok (require (all (is_terminal terminals step) output.outcomes) invalid_result) _ h2 in
    record {
      output = output;
      found = or_invalid-some _ e1;
      as_many =
          (==_iff _ _).0
            (require-eq-ok (length terminals == length output.outcomes) invalid_result e2);
      terminal = require-eq-ok (all (is_terminal terminals step) output.outcomes) invalid_result e3;
    }

-- Where a step's outcomes are all different, a direct result to it is accepted only if the
-- terminals are exactly those outcomes of that step.
pub compile_direct_result_covers :
    (step : String) (outputs : List (String × Output)) (terminals : Terminals) (o : Output)
    (k : TerminalPair) {r : WorkflowResult}
    → lookup step outputs ≡ some o
    → Distinct o.outcomes
    → compile_direct_result step outputs terminals ≡ ok r
    → has pair_eq k (pairs terminals) ≡ (str_eq step k.step && member k.outcome o.outcomes)
compile_direct_result_covers step outputs terminals o k known distinct h =
    let d : Direct step outputs terminals = compile_direct_result-Direct step outputs terminals h in
    let same : d.output ≡ o = some-eq (sym d.found ∙ known) in
    let inside : (j : TerminalPair)
        → has pair_eq j (at_step step o.outcomes) ≡ true
        → has pair_eq j (pairs terminals) ≡ true =
      λ j m.
        let (s, n) =
          and_true (str_eq step j.step) (member j.outcome o.outcomes)
            (sym (has-at_step step o.outcomes j) ∙ m) in
        subst (λ x. has pair_eq (record { step = x; outcome = j.outcome }) (pairs terminals) ≡ true)
          (str_eq-true step j.step s)
          (all-member (is_terminal terminals step) o.outcomes j.outcome
            (ap (λ (x : Output). all (is_terminal terminals step) x.outcomes) (sym same)
              ∙ d.terminal)
            n) in
    let short : length (pairs terminals) ≤ length (at_step step o.outcomes) = omega (
      arith,
      length-pairs terminals,
      length-at_step step o.outcomes,
      d.as_many,
      ap (λ (x : Output). length x.outcomes) same,
    ) in
    Bool-ext _ _
      (Unique-covers pair_eq pair_eq-true pair_eq_refl (at_step step o.outcomes) (pairs terminals)
        (at_step-Unique step o.outcomes distinct) inside short k)
      (inside k)
    ∙ has-at_step step o.outcomes k
  where
    some-eq : {a b : Output} → some a ≡ some b → a ≡ b
    some-eq p = cc

-- Where a step repeats an outcome, a direct result to it is accepted beside a terminal of another
-- step, which the result then does not account for.
pub compile_direct_result_repeated :
    (a b x y : String) (o p : Output)
    → o.outcomes ≡ x ∷ x ∷ []
    → (r : WorkflowResult) × (compile_direct_result a
          ((a, o) ∷ (b, p) ∷ [])
          ((record { step = a; outcome = x }, o) ∷ (record { step = b; outcome = y }, p) ∷ [])
        ≡ ok r)
      × (r.step ≡ a)
unfolding compile_direct_result lookup all has
compile_direct_result_repeated a b x y o p twice = (
  record { step = a; outcomes = o.outcomes; routes = []; schema = some o },
  rw (eq_refl, twice) (rw eq_refl (rw eq_refl)),
  refl,
)
