-- ===== src/Tool/Guard.antt =====
-- The run-time guard (internal/tool/guard.go). The guards of one run share their counters, and a
-- mutex makes each call of Before one step, so a run is a sequence of calls in any order. Deadlines
-- are numbers; a counter grows by one for each call and is left unbounded.
pub mod Budget
pub mod Build
pub mod Calls
use duto_ai.Prelude.{
  ℕ, suc, ◌+◌, String, Bool, true, false, not, ◌&&◌, ◌||◌, Option, none, some, List, [], ◌∷◌,
  if◌then◌else◌, ltb, leb, Result, ok, err, ◌>>=◌, ◌>>◌, codes, is_empty, str_eq, min,
}
use duto_ai.Prelude.Int.{ℤ, pos, negsuc, ltb_ℤ, is_zero}
use duto_ai.Prelude.Keys.{member, lookup, insert}
use Prim.Native.Char.{nul}
use Prim.Native.String.{◌++◌ as append}

pub data GuardError : Type 0 where
  invalid_guard tool_not_allowed tool_call_limit tool_request_limit tool_result_limit : GuardError
  context_done encoding_failed : GuardError

pub record ToolLimit : Type 0 where
  pub max_calls : ℤ
  pub timeout : ℤ
  pub max_request_bytes : ℤ
  pub max_result_bytes : ℤ

pub record RuntimeLimit : Type 0 where
  pub max_calls : ℤ
  pub timeout : ℤ

pub record ScopeLimit : Type 0 where
  pub names : List String
  pub max_calls : ℤ
  pub timeout : ℤ
  pub tools : List (String × ToolLimit)

-- What the guards of a run share: the calls made so far, by the run, by scope, and by scope and
-- tool.
pub record Counters : Type 0 where
  pub run_calls : ℕ
  pub scope_calls : List (String × ℕ)
  pub tool_calls : List (String × ℕ)

pub record Guard : Type 0 where
  pub scope : String
  pub allowed : List String
  pub run_limit : RuntimeLimit
  pub scope_limit : ScopeLimit
  pub run_deadline : ℕ
  pub deadline : ℕ

abbrev pub fresh : Counters
fresh = record { run_calls = 0; scope_calls = []; tool_calls = [] }

abbrev pub no_limit : ToolLimit
no_limit = record {
  max_calls = pos 0;
  timeout = pos 0;
  max_request_bytes = pos 0;
  max_result_bytes = pos 0;
}

abbrev pub or_zero : Option ToolLimit → ToolLimit
or_zero none = no_limit
or_zero (some l) = l

-- scope.Tools[name]: the zero value for a missing name.
abbrev pub limit_of : List (String × ToolLimit) → String → ToolLimit
limit_of tools name = or_zero (lookup name tools)

abbrev pub or_none : Option ℕ → ℕ
or_none none = 0
or_none (some n) = n

abbrev pub count_of : String → List (String × ℕ) → ℕ
count_of k m = or_none (lookup k m)

-- m[k]++
unfoldable pub increment : String → List (String × ℕ) → List (String × ℕ)
unfolding lookup insert
increment k m = insert k (suc (count_of k m)) m

-- g.scope + "\x00" + name
unfoldable pub tool_key : String → String → String
tool_key scope name = append scope (String.◌∷◌ nul name)

abbrev pub tick : Counters → Guard → String → Counters
tick c g name = record {
  run_calls = suc c.run_calls;
  scope_calls = increment g.scope c.scope_calls;
  tool_calls = increment (tool_key g.scope name) c.tool_calls;
}

-- One of the three counters has passed its limit.
unfoldable pub over : Counters → Guard → String → Bool
unfolding lookup
over c g name =
    ltb_ℤ g.run_limit.max_calls (pos c.run_calls)
    || ltb_ℤ g.scope_limit.max_calls (pos (count_of g.scope c.scope_calls))
    || ltb_ℤ (limit_of g.scope_limit.tools name).max_calls
        (pos (count_of (tool_key g.scope name) c.tool_calls))

-- (*Guard).Before, on a guard that may be nil. A call that is refused for a limit stays counted.
unfoldable pub before : Option Guard → String → Counters → Result GuardError (Unit {0}) × Counters
unfolding over increment tool_key member
before none name c = (err invalid_guard, c)
before (some g) name c =
    if not (member name g.allowed)
    then (err tool_not_allowed, c)
    else if over (tick c g name) g name
    then (err tool_call_limit, tick c g name)
    else (ok tt, tick c g name)

-- (*Guard).Allows
unfoldable pub allows : Option Guard → String → Bool
unfolding member
allows none name = false
allows (some g) name = member name g.allowed

-- The size test of checkBytes, on the length of an encoding that may have failed.
abbrev pub within : ℤ → GuardError → Option ℕ → Result GuardError (Unit {0})
within limit limit_err none = err encoding_failed
within limit limit_err (some n) = if ltb_ℤ limit (pos n) then err limit_err else ok tt

-- checkBytes: the argument is the length of the JSON encoding, `none` where encoding fails.
unfoldable pub check_bytes : Option ℕ → ℤ → GuardError → Result GuardError (Unit {0})
check_bytes encoded limit limit_err =
    if is_zero limit then ok tt else within limit limit_err encoded

abbrev pub tools_of : Option Guard → List (String × ToolLimit)
tools_of none = []
tools_of (some g) = g.scope_limit.tools

-- The callback before a tool call: `done` is whether the call's context has ended.
unfoldable pub before_tool :
    Option Guard → String → Bool → Option ℕ → Counters → Result GuardError (Unit {0}) × Counters
unfolding before allows check_bytes lookup
before_tool g name done encoded c =
    let (admitted, c') = before g name c in
    let checked =
      check_bytes encoded (limit_of (tools_of g) name).max_request_bytes tool_request_limit in
    if not (allows g name)
    then (ok tt, c)
    else if done
    then (err context_done, c)
    else (admitted >> checked, c')

unfoldable pub after_tool : Option Guard → String → Option ℕ → Result GuardError (Unit {0})
unfolding allows check_bytes lookup
after_tool g name encoded =
    if not (allows g name)
    then ok tt
    else check_bytes encoded (limit_of (tools_of g) name).max_result_bytes tool_result_limit

-- minTime, of a first time and the others.
unfoldable pub min_time : ℕ → List ℕ → ℕ
min_time minimum [] = minimum
min_time minimum (value ∷ values) = min_time (if ltb value minimum then value else minimum) values

-- time.Time.Add of a duration that is not negative.
abbrev pub after : ℕ → ℤ → ℕ
after t (pos n) = t + n
after t (negsuc n) = t

abbrev pub deadline_of : Guard → ℕ → Option ToolLimit → Result GuardError ℕ
deadline_of g now none = err tool_not_allowed
deadline_of g now (some l) = ok (min_time g.run_deadline (g.deadline ∷ after now l.timeout ∷ []))

-- (*Guard).Context: the deadline of one tool call.
unfoldable pub call_deadline : Option Guard → String → ℕ → Result GuardError ℕ
unfolding min_time lookup
call_deadline none name now = err invalid_guard
call_deadline (some g) name now = deadline_of g now (lookup name g.scope_limit.tools)

abbrev pub is_ok : Result GuardError (Unit {0}) → Bool
is_ok (ok x) = true
is_ok (err e) = false

-- The calls of a run, each by a scope and for a tool, in the order in which the mutex lets them
-- through: how many that `chosen` picks are granted.
unfoldable pub granted :
    List (String × Guard) → (String → String → Bool) → Counters → List (String × String) → ℕ
unfolding before lookup
granted guards chosen c [] = 0
granted guards chosen c ((scope, name) ∷ calls) =
    let (r, c') = before (lookup scope guards) name c in
    (if chosen scope name && is_ok r then 1 else 0) + granted guards chosen c' calls
