-- ===== src/Examples/Limits.antt =====
-- Limits and retries at concrete inputs, with durations written in unary.
use Prim.Native.Char.{Char, code}
use duto_ai.Prelude.{
  ℕ, zero, suc, String, ◌≡◌, refl, ap, ok, err, Option, none, some, if◌then◌else◌, ◌==◌,
}
use duto_ai.Prelude.Int.{ℤ, pos, negsuc}
use duto_ai.Plan.Admission.{invalid_limits}
use duto_ai.Plan.Limits.{
  Durations, Reparses, Limits, Retry, no_limits, compile_workflow_limits, compile_step_limits,
  compile_retry, unsafe_tool_scope,
}
use duto_ai.Plan.Limits.Narrowing.{
  Within, IsSound, compile_step_limits-Within, compile_step_limits-IsSound,
}
use duto_ai.Plan.Limits.Workflow.{compile_workflow_limits-IsSound, compile_retry_unsafe}
use duto_ai.Examples.Plans.{writing}

abbrev plus : Char
plus = "+"

abbrev minus : Char
minus = "-"

abbrev mark : Char
mark = "i"

abbrev marks : ℕ → String
marks zero = String.[]
marks (suc n) = String.◌∷◌ mark (marks n)

abbrev count_marks : String → ℕ
count_marks String.[] = 0
count_marks (String.◌∷◌ c s) = suc (count_marks s)

-- A sign and as many marks as the number has units.
abbrev print : ℤ → String
print (pos n) = String.◌∷◌ plus (marks n)
print (negsuc n) = String.◌∷◌ minus (marks n)

-- A text that begins with a minus is negative; another text counts the marks behind its sign.
abbrev parse : String → Option ℤ
parse String.[] = none
parse (String.◌∷◌ c s) =
    some (if code c == code minus then negsuc (count_marks s) else pos (count_marks s))

abbrev pub unary : Durations
unary = record { parse = parse; print = print }

count_marks-marks : (n : ℕ) → count_marks (marks n) ≡ n
count_marks-marks zero = refl
count_marks-marks (suc n) = ap suc (count_marks-marks n)

parse-print : (n : ℤ) → parse (print n) ≡ some n
parse-print (pos n) = ap (λ k. some (pos k)) (count_marks-marks n)
parse-print (negsuc n) = ap (λ k. some (negsuc k)) (count_marks-marks n)

pub unary-Reparses : Reparses unary
unary-Reparses = record { parse-print = λ s n h. parse-print n }

abbrev workflow : Limits
workflow = record {
  timeout = "+iiii";
  max_iterations = pos 9;
  max_model_calls = pos 9;
  max_tool_calls = pos 9;
  max_concurrency = pos 2;
  max_parallel_calls = pos 2;
  max_artifact_bytes = pos 100;
}

abbrev step : Limits
step = record no_limits { timeout = "+ii"; max_model_calls = pos 3 }

abbrev narrowed : Limits
narrowed = record workflow { timeout = "+ii"; max_model_calls = pos 3 }

workflow_compiled : compile_workflow_limits unary workflow ≡ ok workflow
unfolding compile_workflow_limits
workflow_compiled = refl

step_compiled : compile_step_limits unary step workflow ≡ ok narrowed
unfolding compile_step_limits
step_compiled = refl

abbrev longer : Limits
longer = record no_limits { timeout = "+iiiii" }

too_long : compile_step_limits unary longer workflow ≡ err invalid_limits
unfolding compile_step_limits
too_long = refl

compile_step_limits-Within_example : Within unary narrowed workflow
compile_step_limits-Within_example = compile_step_limits-Within unary step workflow step_compiled

compile_workflow_limits-IsSound_example : IsSound unary workflow
compile_workflow_limits-IsSound_example =
    compile_workflow_limits-IsSound unary unary-Reparses workflow workflow_compiled

workflow-IsSound : IsSound unary workflow
workflow-IsSound = record {
  timeout = refl;
  iterations = refl;
  model_calls = refl;
  tool_calls = refl;
  concurrency = refl;
  parallel_calls = refl;
  artifact_bytes = refl;
}

compile_step_limits-IsSound_example : IsSound unary narrowed
compile_step_limits-IsSound_example =
    compile_step_limits-IsSound unary unary-Reparses step workflow step_compiled workflow-IsSound

abbrev once : Retry
once = record { max_attempts = pos 1; initial_delay = "+i"; max_delay = "+ii" }

once_compiled : compile_retry unary once writing ≡ ok once
unfolding compile_retry
once_compiled = refl

compile_retry_unsafe_example : once.max_attempts ≡ pos 1
unfolding unsafe_tool_scope
compile_retry_unsafe_example = compile_retry_unsafe unary once writing refl once_compiled
