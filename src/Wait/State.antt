-- ===== src/Wait/State.antt =====
-- The condition functions of pkg/wait/wait.go: `Succeed`, `Failed`, `FailedWithReason`,
-- `FailedWithMessage`, `Running` and their aliases.
use release_tests_ginkgo.Prelude.{String, true, false, ◌&&◌, ◌||◌, Option, none, some}
use text.Mathlib.TextEquality.{eq_iff}
use release_tests_ginkgo.Prelude.{◌≢◌, arith}
use release_tests_ginkgo.Prelude.{◌==◌, string_eq, if◌then◌else◌}
use release_tests_ginkgo.Prelude.Texts.{Text, contains}
use release_tests_ginkgo.Poll.{Verdict}

-- `apis.Condition`, with the fields that the program reads. A status is a string of the API.
pub record Condition : Type 0 where
  pub type : String
  pub status : String
  pub reason : String
  pub message : Text

abbrev pub condition_true : String
condition_true = "True"

abbrev pub condition_false : String
condition_false = "False"

abbrev pub condition_unknown : String
condition_unknown = "Unknown"

pub condition_false-ne-true : condition_false ≢ condition_true
condition_false-ne-true = ground (arith, eq_iff "False" "True")

-- What a call of the API server reports.
pub data ApiError : Type 0 where
  not_found : ApiError
  other : String → ApiError

-- The errors of this package: those of the API, of the context, and one for each `fmt.Errorf`.
pub data WaitError : Type 0 where
  api : ApiError → WaitError
  context : WaitError
  has_failed has_succeeded already_finished : String → WaitError
  wrong_reason : String → String → String → WaitError
  wrong_message : String → Text → WaitError
  unexpected_success : String → WaitError

-- `apis.ConditionAccessor`: `GetCondition` of a status.
abbrev pub Accessor : Type 0
Accessor = String → Option Condition

abbrev pub ConditionAccessorFn : Type 0
ConditionAccessorFn = Accessor → Verdict WaitError

abbrev pub condition_succeeded : String
condition_succeeded = "Succeeded"

-- The `switch c.Status` of the condition functions, with the verdicts of its cases.
abbrev pub switch_status : String → Verdict WaitError → Verdict WaitError → Verdict WaitError
switch_status status on_true on_false =
    if status == condition_true
    then on_true
    else if status == condition_false
    then on_false
    else (false, none)

-- The test `c != nil` around a condition function.
abbrev pub on_condition : Option Condition → (Condition → Verdict WaitError) → Verdict WaitError
on_condition none f = (false, none)
on_condition (some c) f = f c

unfoldable pub succeed : String → ConditionAccessorFn
succeed name ca =
    on_condition (ca condition_succeeded)
      λ c. switch_status c.status (true, none) (true, some (has_failed name))

unfoldable pub failed : String → ConditionAccessorFn
failed name ca =
    on_condition (ca condition_succeeded)
      λ c. switch_status c.status (true, some (has_succeeded name)) (true, none)

unfoldable pub failed_with_reason : String → String → ConditionAccessorFn
failed_with_reason reason name ca = on_condition (ca condition_succeeded) λ c.
    switch_status c.status (true, some (unexpected_success name))
      (if c.reason == reason
        then (true, none)
        else (true, some (wrong_reason name c.reason reason)))

unfoldable pub failed_with_message : Text → String → ConditionAccessorFn
failed_with_message message name ca = on_condition (ca condition_succeeded) λ c.
    switch_status c.status (true, some (unexpected_success name))
      (if contains c.message message
        then (true, none)
        else (true, some (wrong_message name c.message)))

unfoldable pub running : String → ConditionAccessorFn
running name ca = on_condition (ca condition_succeeded) λ c.
    if c.status == condition_true || c.status == condition_false
    then (true, some (already_finished name))
    else if c.status == condition_unknown && (c.reason == "Running" || c.reason == "Pending")
    then (true, none)
    else (false, none)

unfoldable pub task_run_succeed : String → ConditionAccessorFn
unfolding succeed
task_run_succeed name = succeed name

unfoldable pub task_run_failed : String → ConditionAccessorFn
unfolding failed
task_run_failed name = failed name

unfoldable pub pipeline_run_succeed : String → ConditionAccessorFn
unfolding succeed
pipeline_run_succeed name = succeed name

unfoldable pub pipeline_run_failed : String → ConditionAccessorFn
unfolding failed
pipeline_run_failed name = failed name
