-- ===== src/Tool/Guard/Build.antt =====
-- The construction of the guards of a run (NewGuards and newGuard of internal/tool/guard.go).
use duto_ai.Prelude.{
  ℕ, String, Bool, true, false, not, ◌&&◌, ◌||◌, Option, none, some, List, [], ◌∷◌, ◌≡◌, refl, sym,
  ◌∙◌, arith, if◌then◌else◌, Bool-cases, inl, inr, str_eq, str_eq-true, eq_iff, is_empty, Result,
  ok, err, ◌>>=◌, ◌>>◌, require, >>=-eq-ok, ok-injective, subst, ap,
}
use duto_ai.Prelude.Int.{is_zero, is_positive, is_negative}
use duto_ai.Prelude.Keys.{member, lookup, lookup-insert, insert, add, keys, Distinct}
use duto_ai.Tool.Guard.{
  Guard, GuardError, ToolLimit, RuntimeLimit, ScopeLimit, invalid_guard, after,
}

-- The test of one tool's limits in newGuard.
abbrev pub bad_limit : Option ToolLimit → Bool
bad_limit none = true
bad_limit (some l) =
    not (is_positive l.max_calls)
    || not (is_positive l.timeout)
    || is_negative l.max_request_bytes
    || is_negative l.max_result_bytes

unfoldable pub collect_allowed :
    List (String × ToolLimit) → List String → List String → Result GuardError (List String)
unfolding lookup add
collect_allowed tools allowed [] = ok allowed
collect_allowed tools allowed (name ∷ names) =
    let rest = collect_allowed tools (add name allowed) names in
    if bad_limit (lookup name tools) then err invalid_guard else rest

-- Every tool that has a limit is allowed.
unfoldable pub all_allowed : List String → List (String × ToolLimit) → Bool
unfolding member
all_allowed allowed [] = true
all_allowed allowed ((name, l) ∷ tools) = member name allowed && all_allowed allowed tools

-- Tools are allowed, and the scope or the run has no call to spend on them.
abbrev pub starved : RuntimeLimit → ScopeLimit → List String → Bool
starved run scope allowed =
    not (is_empty allowed) && (is_zero scope.max_calls || is_zero run.max_calls)

unfoldable pub new_guard : RuntimeLimit → String → ScopeLimit → ℕ → Result GuardError Guard
unfolding collect_allowed all_allowed
new_guard run scope_name scope started = do
  require (not (str_eq scope_name "" || is_negative scope.max_calls)) invalid_guard
  require (is_positive scope.timeout) invalid_guard
  allowed ← collect_allowed scope.tools [] scope.names
  require (not (starved run scope allowed)) invalid_guard
  require (all_allowed allowed scope.tools) invalid_guard
  ok (record {
    scope = scope_name;
    allowed = allowed;
    run_limit = run;
    scope_limit = scope;
    run_deadline = after started run.timeout;
    deadline = after started scope.timeout;
  })

-- The loop of NewGuards over the scopes.
unfoldable pub build_guards :
    RuntimeLimit
    → ℕ
    → List (String × ScopeLimit)
    → List (String × Guard)
    → Result GuardError (List (String × Guard))
unfolding new_guard insert
build_guards run started [] guards = ok guards
build_guards run started ((name, scope) ∷ scopes) guards = do
  g ← new_guard run name scope started
  build_guards run started scopes (insert name g guards)

unfoldable pub new_guards :
    RuntimeLimit → List (String × ScopeLimit) → ℕ → Result GuardError (List (String × Guard))
unfolding build_guards
new_guards run scopes started = do
  require (not (is_negative run.max_calls) && is_positive run.timeout) invalid_guard
  build_guards run started scopes []

-- A guard that is built holds the limits that it was built from.
pub record Holds (run : RuntimeLimit) (name : String) (scope : ScopeLimit) (g : Guard)
    : Type 0 where
  pub scope_is : g.scope ≡ name
  pub run_is : g.run_limit ≡ run
  pub limit_is : g.scope_limit ≡ scope

new_guard-Holds :
    (run : RuntimeLimit) (name : String) (scope : ScopeLimit) (started : ℕ) {g : Guard}
    → new_guard run name scope started ≡ ok g
    → Holds run name scope g
unfolding new_guard
new_guard-Holds run name scope started h =
    let (u1, e1, h1) =
      >>=-eq-ok (require (not (str_eq name "" || is_negative scope.max_calls)) invalid_guard) _ h in
    let (u2, e2, h2) = >>=-eq-ok (require (is_positive scope.timeout) invalid_guard) _ h1 in
    let (allowed, e3, h3) = >>=-eq-ok (collect_allowed scope.tools [] scope.names) _ h2 in
    let (u4, e4, h4) = >>=-eq-ok (require (not (starved run scope allowed)) invalid_guard) _ h3 in
    let (u5, e5, h5) = >>=-eq-ok (require (all_allowed allowed scope.tools) invalid_guard) _ h4 in
    subst (Holds run name scope) (ok-injective h5)
      (record { scope_is = refl; run_is = refl; limit_is = refl })

-- The guards built so far hold the run's limit and their scope's name.
record Built (run : RuntimeLimit) (guards : List (String × Guard)) : Type 0 where
  at : (s : String) (g : Guard) → lookup s guards ≡ some g → (g.scope ≡ s) × (g.run_limit ≡ run)

insert-Built :
    (run : RuntimeLimit) (guards : List (String × Guard)) (name : String) (scope : ScopeLimit)
    (g : Guard)
    → Built run guards
    → Holds run name scope g
    → Built run (insert name g guards)
insert-Built run guards name scope g b holds = record {
  at = λ s f h.
      ground (
        arith,
        lookup-insert name s g guards,
        eq_iff name s,
        b.at s f,
        holds.scope_is,
        holds.run_is,
      );
}

build_guards-Built :
    (run : RuntimeLimit) (started : ℕ) (scopes : List (String × ScopeLimit))
    (guards : List (String × Guard)) {out : List (String × Guard)}
    → Built run guards
    → build_guards run started scopes guards ≡ ok out
    → Built run out
unfolding build_guards
build_guards-Built run started [] guards b h = subst (Built run) (ok-injective h) b
build_guards-Built run started ((name, scope) ∷ scopes) guards b h =
    let (g, e, h1) = >>=-eq-ok (new_guard run name scope started) _ h in
    build_guards-Built run started scopes (insert name g guards)
      (insert-Built run guards name scope g b (new_guard-Holds run name scope started e)) h1

-- A scope that is not built again keeps its guard.
build_guards-lookup_old :
    (run : RuntimeLimit) (started : ℕ) (scopes : List (String × ScopeLimit))
    (guards : List (String × Guard)) (s : String) {out : List (String × Guard)}
    → member s (keys scopes) ≡ false
    → build_guards run started scopes guards ≡ ok out
    → lookup s out ≡ lookup s guards
unfolding build_guards member
build_guards-lookup_old run started [] guards s m h = ap (lookup s) (sym (ok-injective h))
build_guards-lookup_old run started ((name, scope) ∷ scopes) guards s m h =
    let (g, e, h1) = >>=-eq-ok (new_guard run name scope started) _ h in
    build_guards-lookup_old run started scopes (insert name g guards) s (ground arith) h1
    ∙ ground (arith, lookup-insert name s g guards)

-- The guard of a scope holds the limits that the scope was given.
build_guards-limit :
    (run : RuntimeLimit) (started : ℕ) (scopes : List (String × ScopeLimit))
    (guards : List (String × Guard)) (s : String) (g : Guard) (l : ScopeLimit)
    {out : List (String × Guard)}
    → Distinct (keys scopes)
    → build_guards run started scopes guards ≡ ok out
    → lookup s out ≡ some g
    → lookup s scopes ≡ some l
    → g.scope_limit ≡ l
unfolding build_guards
build_guards-limit run started [] guards s g l d h found given = unfold lookup in cc given
build_guards-limit run started ((name, scope) ∷ scopes) guards s g l d h found given =
    let (f, e, h1) = >>=-eq-ok (new_guard run name scope started) _ h in
    let holds : Holds run name scope f = new_guard-Holds run name scope started e in
    elim (Bool-cases (str_eq name s)) [
      | inl t ↦
          let same : name ≡ s = str_eq-true name s t in
          let old : lookup s _ ≡ lookup s (insert name f guards) =
            build_guards-lookup_old run started scopes (insert name f guards) s (rw (← same) d.0)
              h1 in
          let this : lookup s (insert name f guards) ≡ some f = rw lookup-insert (rw t refl) in
          unfold lookup in ground (arith, t, old, this, holds.limit_is)
      | inr n ↦
          build_guards-limit run started scopes (insert name f guards) s g l d.1 h1 found
            (unfold lookup in ground (arith, n))
    ]

module _ (run : RuntimeLimit) (scopes : List (String × ScopeLimit)) (started : ℕ)
    {guards : List (String × Guard)} (built : new_guards run scopes started ≡ ok guards) where
  loop : build_guards run started scopes [] ≡ ok guards
  unfolding new_guards
  loop =
      (>>=-eq-ok
        (require (not (is_negative run.max_calls) && is_positive run.timeout) invalid_guard) _
        built).2

  -- A guard is found under its scope's name, and holds the limit of the run.
  pub new_guards_at :
      (s : String) (g : Guard) → lookup s guards ≡ some g → (g.scope ≡ s) × (g.run_limit ≡ run)
  unfolding lookup
  new_guards_at = (build_guards-Built run started scopes [] (record { at = λ s g h. cc }) loop).at

  pub new_guards_limit :
      (s : String) (g : Guard) (l : ScopeLimit)
      → Distinct (keys scopes)
      → lookup s guards ≡ some g
      → lookup s scopes ≡ some l
      → g.scope_limit ≡ l
  new_guards_limit s g l d found given =
      build_guards-limit run started scopes [] s g l d loop found given
