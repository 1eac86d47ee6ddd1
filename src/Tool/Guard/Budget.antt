-- ===== src/Tool/Guard/Budget.antt =====
-- Counters that pay for the calls that guards grant.
use duto_ai.Prelude.{
  ℕ, suc, ◌-◌, ◌≤◌, ◌<◌, String, Bool, true, List, [], ◌∷◌, ◌≡◌, arith, if◌then◌else◌, str_eq,
}
use duto_ai.Prelude.Keys.{lookup, lookup-insert}
use duto_ai.Tool.Guard.{Guard, Counters, before, increment, count_of, granted, is_ok}

pub increment-count_of :
    (k j : String) (m : List (String × ℕ))
    → count_of j (increment k m) ≡ (if str_eq k j then suc (count_of k m) else count_of j m)
unfolding increment
increment-count_of k j m = rw lookup-insert (ground (arith))

-- One budget: what is used of it only grows, and a chosen call that is granted uses it within the
-- limit.
module _ (guards : List (String × Guard)) (chosen : String → String → Bool) (used : Counters → ℕ)
    (limit : ℕ)
    (grows : (scope name : String) (c : Counters)
      → used c ≤ used (before (lookup scope guards) name c).1)
    (spends : (scope name : String) (c : Counters)
      → chosen scope name ≡ true
      → is_ok (before (lookup scope guards) name c).0 ≡ true
      → (used c < used (before (lookup scope guards) name c).1)
        × (used (before (lookup scope guards) name c).1 ≤ limit)) where
  pub granted_budget :
      (c : Counters) (calls : List (String × String))
      → granted guards chosen c calls ≤ limit - used c
  unfolding granted
  granted_budget c [] = omega arith
  granted_budget c ((scope, name) ∷ calls) = ground (
    arith,
    grows scope name c,
    spends scope name c,
    granted_budget (before (lookup scope guards) name c).1 calls,
  )

  pub granted_within :
      (c : Counters) (calls : List (String × String)) → granted guards chosen c calls ≤ limit
  granted_within c calls = omega (arith, granted_budget c calls)
