-- ===== src/Plan/Outcomes/Routes.antt =====
-- The routes of a routed result against the terminals.
use duto_ai.Prelude.{
  suc, Bool, true, false, not, ◌||◌, Option, none, some, List, [], ◌∷◌, ◌++◌, ◌≡◌, refl, sym, ◌∙◌,
  ap, subst, arith, Bool-cases, Bool-ext, length-append, inl, inr, length, ◌==◌, ==_iff, str_eq,
  str_eq-true, eq_refl, and_true, ok, require, require-eq-ok, >>=-eq-ok, ok-injective, map,
}
use duto_ai.Prelude.Cover.{has, Unique, Unique-covers}
use duto_ai.Prelude.Keys.{lookup}
use duto_ai.Plan.Admission.{invalid_result}
use duto_ai.Plan.Outcomes.{
  Output, TerminalPair, ResultRoute, RouteSource, WorkflowResult, Terminals, pair_eq, pairs,
  find_terminal, Routing, start, agrees, or_invalid, key_of, extend, add_route, add_routes,
  compile_routed_result,
}

pub pair_eq-true : (a b : TerminalPair) → pair_eq a b ≡ true → a ≡ b
pair_eq-true a b h =
    let (s, o) = and_true (str_eq a.step b.step) (str_eq a.outcome b.outcome) h in
    let p : a.step ≡ b.step = str_eq-true a.step b.step s in
    let q : a.outcome ≡ b.outcome = str_eq-true a.outcome b.outcome o in
    λ i. record { step = p i; outcome = q i }

pub pair_eq_refl : (a : TerminalPair) → pair_eq a a ≡ true
pair_eq_refl a = rw eq_refl (rw eq_refl refl)

pub find_terminal-has :
    (k : TerminalPair) (m : Terminals) {o : Output}
    → find_terminal k m ≡ some o
    → has pair_eq k (pairs m) ≡ true
unfolding find_terminal has
find_terminal-has k [] h = cc
find_terminal-has k ((j, v) ∷ m) h = elim (Bool-cases (pair_eq j k)) [
  | inl e ↦ rw e refl
  | inr e ↦ rw e (find_terminal-has k m (rw e at h))
]

abbrev pub route_pair : ResultRoute → TerminalPair
route_pair r = record { step = r.step; outcome = r.outcome }

-- What the loop over the routes keeps.
record Routed (terminals : Terminals) (s : Routing) : Type 0 where
  unique : Unique pair_eq s.covered
  terminal :
      (k : TerminalPair) → has pair_eq k s.covered ≡ true → has pair_eq k (pairs terminals) ≡ true
  listed : (k : TerminalPair) → has pair_eq k s.covered ≡ has pair_eq k (map route_pair s.routes)
  counted : length s.routes ≡ length s.covered

start-Routed : (terminals : Terminals) → Routed terminals start
unfolding has
start-Routed terminals = record {
  unique = tt;
  terminal = λ k h. cc;
  listed = λ k. refl;
  counted = refl;
}

has-snoc :
    (k : TerminalPair) (rs : List ResultRoute) (r : ResultRoute)
    → has pair_eq k (map route_pair (rs ++ r ∷ []))
      ≡ (pair_eq (route_pair r) k || has pair_eq k (map route_pair rs))
unfolding has
has-snoc k [] r = refl
has-snoc k (q ∷ rs) r =
    ap (λ b. pair_eq (route_pair q) k || b) (has-snoc k rs r)
    ∙ swap (pair_eq (route_pair q) k) (pair_eq (route_pair r) k) _
  where
    swap : (a b c : Bool) → (a || (b || c)) ≡ (b || (a || c))
    swap a b c = ground arith

pub or_invalid-some : (o : Option Output) {x : Output} → or_invalid o ≡ ok x → o ≡ some x
or_invalid-some none h = cc
or_invalid-some (some y) h = cc

extend-Routed :
    (terminals : Terminals) (s : Routing) (r : RouteSource) (output : Output)
    → Routed terminals s
    → has pair_eq (key_of r) (pairs terminals) ≡ true
    → has pair_eq (key_of r) s.covered ≡ false
    → Routed terminals (extend s r output)
unfolding has
extend-Routed terminals s r output i known new = record {
  unique = (new, i.unique);
  terminal = λ k h. elim (Bool-cases (pair_eq (key_of r) k)) [
    | inl e ↦
        subst (λ j. has pair_eq j (pairs terminals) ≡ true) (pair_eq-true (key_of r) k e) known
    | inr e ↦ i.terminal k (rw e at h)
  ];
  listed = λ k.
      ap (λ b. pair_eq (key_of r) k || b) (i.listed k)
      ∙ sym (
          has-snoc k s.routes
            (record { step = r.step; outcome = r.when_outcome; schema = output }));
  counted = length-append s.routes _ ∙ omega (arith, i.counted);
}

add_route-Routed :
    (terminals : Terminals) (s : Routing) (r : RouteSource) {out : Routing}
    → Routed terminals s
    → add_route terminals s r ≡ ok out
    → Routed terminals out
unfolding add_route
add_route-Routed terminals s r {out} i h =
    let (output, e1, h1) = >>=-eq-ok (or_invalid (find_terminal (key_of r) terminals)) _ h in
    let (u2, e2, h2) = >>=-eq-ok (require (str_eq r.step r.when_step) invalid_result) _ h1 in
    let (u3, e3, h3) =
      >>=-eq-ok (require (not (has pair_eq (key_of r) s.covered)) invalid_result) _ h2 in
    let (u4, e4, h4) =
      >>=-eq-ok (require (agrees (lookup r.when_outcome s.outcome_schemas) output) invalid_result) _
        h3 in
    subst (Routed terminals) (ok-injective h4) (
      extend-Routed terminals s r output i
        (find_terminal-has (key_of r) terminals (or_invalid-some _ e1))
        (negated (require-eq-ok (not (has pair_eq (key_of r) s.covered)) invalid_result e3)))
  where
    negated : {b : Bool} → not b ≡ true → b ≡ false
    negated p = ground arith

add_routes-Routed :
    (terminals : Terminals) (s : Routing) (rs : List RouteSource) {out : Routing}
    → Routed terminals s
    → add_routes terminals s rs ≡ ok out
    → Routed terminals out
unfolding add_routes
add_routes-Routed terminals s [] i h = subst (Routed terminals) (ok-injective h) i
add_routes-Routed terminals s (r ∷ rs) i h =
    let (s', e, h1) = >>=-eq-ok (add_route terminals s r) _ h in
    add_routes-Routed terminals s' rs (add_route-Routed terminals s r i e) h1

pub length-pairs : (m : Terminals) → length (pairs m) ≡ length m
length-pairs [] = refl
length-pairs ((k, v) ∷ m) = ap suc (length-pairs m)

-- The routes of a routed result lead to the terminals, to each of them, and there are as many
-- routes as terminals.
pub compile_routed_result_covers :
    (source : List RouteSource) (terminals : Terminals) (k : TerminalPair) {r : WorkflowResult}
    → compile_routed_result source terminals ≡ ok r
    → (has pair_eq k (map route_pair r.routes) ≡ has pair_eq k (pairs terminals))
      × (length r.routes ≡ length terminals)
unfolding compile_routed_result
compile_routed_result_covers source terminals k h =
    let (s, e1, h1) = >>=-eq-ok (add_routes terminals start source) _ h in
    let (u, e2, h2) =
      >>=-eq-ok (require (length s.covered == length terminals) invalid_result) _ h1 in
    let routed : Routed terminals s =
      add_routes-Routed terminals start source (start-Routed terminals) e1 in
    let as_many : length s.covered ≡ length terminals =
      (==_iff _ _).0 (require-eq-ok (length s.covered == length terminals) invalid_result e2) in
    let back : has pair_eq k (pairs terminals) ≡ true → has pair_eq k s.covered ≡ true =
      Unique-covers pair_eq pair_eq-true pair_eq_refl s.covered (pairs terminals) routed.unique
        routed.terminal (omega (arith, as_many, length-pairs terminals)) k in
    subst
      (λ (x : WorkflowResult).
        (has pair_eq k (map route_pair x.routes) ≡ has pair_eq k (pairs terminals))
        × (length x.routes ≡ length terminals))
      (ok-injective h2)
      (sym (routed.listed k) ∙ Bool-ext _ _ (routed.terminal k) back, routed.counted ∙ as_many)
