-- ===== src/Tool/Guard/Calls.antt =====
-- The three budgets of the guards that NewGuards builds: the run's, a scope's, and a tool's within
-- a scope.
use duto_ai.Prelude.{
  ℕ, suc, ◌≤◌, ◌<◌, String, true, false, ◌&&◌, Option, none, some, List, ◌≡◌, refl, sym, subst, ap,
  ap₂, ◌∙◌, ◌⊎◌, inl, inr, arith, Bool-cases, str_eq, str_eq-true, ok, eq_refl, and_true,
}
use duto_ai.Prelude.Int.{pos, pos_part, ltb_ℤ}
use duto_ai.Prelude.Keys.{lookup, keys, Distinct}
use duto_ai.Tool.Guard.{
  Guard, Counters, ScopeLimit, RuntimeLimit, before, over, tick, increment, count_of, tool_key,
  granted, is_ok, limit_of, fresh,
}
use duto_ai.Tool.Guard.Budget.{increment-count_of, granted_within}
use duto_ai.Tool.Guard.Build.{new_guards, new_guards_at, new_guards_limit}

before_counters :
    (g : Guard) (name : String) (c : Counters)
    → ((before (some g) name c).1 ≡ c) ⊎ ((before (some g) name c).1 ≡ tick c g name)
unfolding before
before_counters g name c = ground arith

before_granted :
    (g : Guard) (name : String) (c : Counters)
    → is_ok (before (some g) name c).0 ≡ true
    → ((before (some g) name c).1 ≡ tick c g name) × (over (tick c g name) g name ≡ false)
unfolding before
before_granted g name c h = ground arith

under : (n : ℕ) (limit : _) → ltb_ℤ limit (pos n) ≡ false → n ≤ pos_part limit
under n limit h = ground arith

-- What a granted call leaves in the counters.
record Spent (g : Guard) (name : String) (c : Counters) : Type 0 where
  run_under : suc c.run_calls ≤ pos_part g.run_limit.max_calls
  scope_under : count_of g.scope (tick c g name).scope_calls ≤ pos_part g.scope_limit.max_calls
  tool_under :
      count_of (tool_key g.scope name) (tick c g name).tool_calls
      ≤ pos_part (limit_of g.scope_limit.tools name).max_calls

over-Spent :
    (g : Guard) (name : String) (c : Counters)
    → over (tick c g name) g name ≡ false
    → Spent g name c
unfolding over
over-Spent g name c h = record {
  run_under = under _ g.run_limit.max_calls (ground arith);
  scope_under = under _ g.scope_limit.max_calls (ground arith);
  tool_under = under _ (limit_of g.scope_limit.tools name).max_calls (ground arith);
}

count_of_grows : (k j : String) (m : List (String × ℕ)) → count_of j m ≤ count_of j (increment k m)
count_of_grows k j m = elim (Bool-cases (str_eq k j)) [
  | inl e ↦ rw (increment-count_of, e) (rw (str_eq-true k j e) (omega arith))
  | inr e ↦ rw (increment-count_of, e) (omega arith)
]

count_of-suc :
    (k : String) (m : List (String × ℕ)) → count_of k (increment k m) ≡ suc (count_of k m)
count_of-suc k m = rw (increment-count_of, eq_refl) refl

-- Counters only grow.
record Grows (c c' : Counters) : Type 0 where
  run : c.run_calls ≤ c'.run_calls
  scope : (s : String) → count_of s c.scope_calls ≤ count_of s c'.scope_calls
  tool : (k : String) → count_of k c.tool_calls ≤ count_of k c'.tool_calls

same-Grows : (c : Counters) → Grows c c
same-Grows c = record { run = omega arith; scope = λ s. omega arith; tool = λ k. omega arith }

tick-Grows : (g : Guard) (name : String) (c : Counters) → Grows c (tick c g name)
tick-Grows g name c = record {
  run = omega arith;
  scope = λ s. count_of_grows g.scope s c.scope_calls;
  tool = λ k. count_of_grows (tool_key g.scope name) k c.tool_calls;
}

before-Grows : (o : Option Guard) (name : String) (c : Counters) → Grows c (before o name c).1
unfolding before
before-Grows none name c = same-Grows c
before-Grows (some g) name c = elim (before_counters g name c) [
  | inl e ↦ subst (Grows c) (sym e) (same-Grows c)
  | inr e ↦ subst (Grows c) (sym e) (tick-Grows g name c)
]

-- A call that is granted has a guard, and the counters after it are within that guard's limits.
record Granted (o : Option Guard) (name : String) (c : Counters) : Type 0 where
  guard : Guard
  found : o ≡ some guard
  after : (before o name c).1 ≡ tick c guard name
  spent : Spent guard name c

before-Granted :
    (o : Option Guard) (name : String) (c : Counters)
    → is_ok (before o name c).0 ≡ true
    → Granted o name c
unfolding before
before-Granted none name c h = cc
before-Granted (some g) name c h = record {
  guard = g;
  found = refl;
  after = (before_granted g name c h).0;
  spent = over-Spent g name c (before_granted g name c h).1;
}

module _ (run : RuntimeLimit) (scopes : List (String × ScopeLimit)) (started : ℕ)
    {guards : List (String × Guard)} (built : new_guards run scopes started ≡ ok guards)
    (calls : List (String × String)) where
  -- Over a sequence of calls by any scopes and for any tools, the guards that NewGuards builds grant
  -- at most as many calls as the run's limit.
  pub granted_run_budget : granted guards (λ scope name. true) fresh calls ≤ pos_part run.max_calls
  granted_run_budget =
      granted_within guards (λ scope name. true) (λ (c : Counters). c.run_calls)
        (pos_part run.max_calls) (λ s n c. (before-Grows (lookup s guards) n c).run) spends fresh
        calls
    where
      spends :
          (s n : String) (c : Counters)
          → true ≡ true
          → is_ok (before (lookup s guards) n c).0 ≡ true
          → (c.run_calls < (before (lookup s guards) n c).1.run_calls)
            × ((before (lookup s guards) n c).1.run_calls ≤ pos_part run.max_calls)
      spends s n c t h =
          let r : Granted (lookup s guards) n c = before-Granted (lookup s guards) n c h in
          let (name_is, run_is) = new_guards_at run scopes started built s r.guard r.found in
          rw r.after (ground (arith, r.spent.run_under, run_is))

  module _ (s : String) (l : ScopeLimit) (distinct : Distinct (keys scopes))
      (given : lookup s scopes ≡ some l) where
    -- The guard by which a call of the scope is granted is the scope's.
    at_scope :
        (s' n : String) (c : Counters)
        → str_eq s' s ≡ true
        → (r : Granted (lookup s' guards) n c) → (r.guard.scope ≡ s) × (r.guard.scope_limit ≡ l)
    at_scope s' n c t r =
        let same : s' ≡ s = str_eq-true s' s t in
        let (name_is, run_is) = new_guards_at run scopes started built s' r.guard r.found in
        (
          name_is ∙ same,
          new_guards_limit run scopes started built s r.guard l distinct
              (ap (λ k. lookup k guards) (sym same) ∙ r.found) given,
        )

    -- Over a sequence of calls by any scopes and for any tools, where the scopes have different
    -- names, the guards that NewGuards builds grant one scope at most as many calls as its limit.
    pub granted_scope_budget :
        granted guards (λ scope name. str_eq scope s) fresh calls ≤ pos_part l.max_calls
    granted_scope_budget =
        granted_within guards (λ scope name. str_eq scope s)
          (λ (c : Counters). count_of s c.scope_calls) (pos_part l.max_calls)
          (λ s' n c. (before-Grows (lookup s' guards) n c).scope s) spends fresh calls
      where
        spends :
            (s' n : String) (c : Counters)
            → str_eq s' s ≡ true
            → is_ok (before (lookup s' guards) n c).0 ≡ true
            → (count_of s c.scope_calls < count_of s (before (lookup s' guards) n c).1.scope_calls)
              × (count_of s (before (lookup s' guards) n c).1.scope_calls ≤ pos_part l.max_calls)
        spends s' n c t h =
            let r : Granted (lookup s' guards) n c = before-Granted (lookup s' guards) n c h in
            let (scope_is, limit_is) = at_scope s' n c t r in
            rw r.after (
              subst
                (λ k.
                  (count_of k c.scope_calls < count_of k (increment r.guard.scope c.scope_calls))
                  × (count_of k (increment r.guard.scope c.scope_calls) ≤ pos_part l.max_calls))
                scope_is
                (omega (
                  arith,
                  count_of-suc r.guard.scope c.scope_calls,
                  r.spent.scope_under,
                  ap (λ (m : ScopeLimit). pos_part m.max_calls) limit_is,
                )))

    -- Over a sequence of calls by any scopes and for any tools, where the scopes have different
    -- names, the guards that NewGuards builds grant one scope at most as many calls of one tool as
    -- the scope's limit for that tool.
    pub granted_tool_budget :
        (tool : String)
        → granted guards (λ scope name. str_eq scope s && str_eq name tool) fresh calls
          ≤ pos_part (limit_of l.tools tool).max_calls
    granted_tool_budget tool =
        granted_within guards (λ scope name. str_eq scope s && str_eq name tool)
          (λ (c : Counters). count_of (tool_key s tool) c.tool_calls)
          (pos_part (limit_of l.tools tool).max_calls)
          (λ s' n c. (before-Grows (lookup s' guards) n c).tool (tool_key s tool)) spends fresh
          calls
      where
        spends :
            (s' n : String) (c : Counters)
            → (str_eq s' s && str_eq n tool) ≡ true
            → is_ok (before (lookup s' guards) n c).0 ≡ true
            → (count_of (tool_key s tool) c.tool_calls
                < count_of (tool_key s tool) (before (lookup s' guards) n c).1.tool_calls)
              × (count_of (tool_key s tool) (before (lookup s' guards) n c).1.tool_calls
                  ≤ pos_part (limit_of l.tools tool).max_calls)
        spends s' n c t h =
            let (ts, tn) = and_true (str_eq s' s) (str_eq n tool) t in
            let r : Granted (lookup s' guards) n c = before-Granted (lookup s' guards) n c h in
            let (scope_is, limit_is) = at_scope s' n c ts r in
            let key_is : tool_key r.guard.scope n ≡ tool_key s tool =
              ap₂ tool_key scope_is (str_eq-true n tool tn) in
            rw r.after (
              subst
                (λ k.
                  (count_of k c.tool_calls
                    < count_of k (increment (tool_key r.guard.scope n) c.tool_calls))
                  × (count_of k (increment (tool_key r.guard.scope n) c.tool_calls)
                      ≤ pos_part (limit_of l.tools tool).max_calls))
                key_is
                (omega (
                  arith,
                  count_of-suc (tool_key r.guard.scope n) c.tool_calls,
                  r.spent.tool_under,
                  ap₂ (λ (m : ScopeLimit) (k : String). pos_part (limit_of m.tools k).max_calls)
                      limit_is (str_eq-true n tool tn),
                )))
