-- ===== src/Kueue/Completion.antt =====
-- The end of a PipelineRun: `waitForCompletion`, the waits that it calls, and
-- `waitForExecutionObjectsGone`, of pkg/tektonkueue/workload.go, with `conditionTrue` of
-- environment.go. The texts that only go into an error message are not kept.
pub mod Success
pub mod Gone
mod Tests
use release_tests_ginkgo.Prelude.{
  ℕ, suc, String, Bool, true, false, Option, none, some, List, [], ◌∷◌,
}
use release_tests_ginkgo.Prelude.{not, ◌&&◌, ◌||◌, ◌==◌, string_eq, if◌then◌else◌, elem}
use release_tests_ginkgo.Prelude.Texts.{Text, codes, ltb, null, contains}
use release_tests_ginkgo.Poll.{Verdict, Condition, Outcome, success, stopped, timed_out, Poller}
use release_tests_ginkgo.Wait.State
use release_tests_ginkgo.Wait.State.{condition_true, condition_false}
use release_tests_ginkgo.Kueue.Validation.{Cluster}
use release_tests_ginkgo.Kueue.Frameworks.{Item, mapping, scalar, Value, has_text}
use release_tests_ginkgo.Kueue.Spokes.{Lookup, found, missing, broken, Listed, items, unlisted}
use release_tests_ginkgo.Kueue.Spokes.{WorkloadError, api, worker_failed, hub_failed, record_spokes}
use release_tests_ginkgo.Kueue.Spokes.{Result, ok, err, after_poll, check_hub}

abbrev pub workload_log_marker : Text
workload_log_marker = codes "multi-cluster-execution-ok"

-- `GetCondition(apis.ConditionSucceeded)` of the PipelineRun's status.
abbrev pub Run : Type 0
Run = Option State.Condition

pub record RunState : Type 0 where
  pub terminal : Bool
  pub succeeded : Bool
  -- the reason and the message; nothing where the condition is not reported
  pub detail : Option (String × Text)

unfoldable pub pipeline_run_state : Run → RunState
pipeline_run_state none = record { terminal = false; succeeded = false; detail = none }
pipeline_run_state (some c) =
    let detail = some (c.reason, c.message) in
    if c.status == condition_true
    then record { terminal = true; succeeded = true; detail = detail }
    else if c.status == condition_false
    then record { terminal = true; succeeded = false; detail = detail }
    else record { terminal = false; succeeded = false; detail = detail }

-- The answers of the clusters, at each evaluation of the condition.
pub record Answers : Type 0 where
  pub spoke_run : ℕ → Cluster → Lookup Run
  pub pods : ℕ → Lookup (List String)
  pub pod_logs : ℕ → String → Lookup Text
  pub worker_run : ℕ → Lookup Run
  pub hub_run : ℕ → Lookup Run

-- `pipelineRunLogs`: the logs of the only pod, or nothing where it returns an error.
unfoldable pub pipeline_run_logs : Lookup (List String) → (String → Lookup Text) → Option Text
pipeline_run_logs (found (pod ∷ [])) get_logs = elim (get_logs pod) [
  | found logs ↦ some logs
  | missing ↦ none
  | broken e ↦ none
]
pipeline_run_logs listed get_logs = none

-- The variables of the closure.
pub record Progress : Type 0 where
  pub round : ℕ
  pub seen : List String
  pub logs : Text
  pub worker_succeeded : Bool

-- `if logs == "" { … }`
unfoldable pub capture : Option Text → Text → Text
capture none logs = logs
capture (some candidate) logs =
    if null logs then (if contains candidate workload_log_marker then candidate else logs) else logs

-- The hub's part: the last lines of the closure.
unfoldable pub judge_hub : Lookup Run → Bool → Text → Verdict WorkloadError
judge_hub missing worker logs = (false, some (api "not found"))
judge_hub (broken e) worker logs = (false, some (api e))
judge_hub (found run) worker logs =
    let state = pipeline_run_state run in
    if state.terminal && not state.succeeded
    then (false, some hub_failed)
    else (state.succeeded && (worker && not (null logs)), none)

-- The worker's part, which goes on with the hub: the verdict and `workerObservedSuccess`.
unfoldable pub judge_worker : Lookup Run → Lookup Run → Bool → Text → Verdict WorkloadError × Bool
judge_worker missing hub worker logs = (judge_hub hub worker logs, worker)
judge_worker (broken e) hub worker logs = ((false, some (api e)), worker)
judge_worker (found run) hub worker logs =
    let state = pipeline_run_state run in
    if state.terminal && not state.succeeded
    then ((false, some worker_failed), worker)
    else (judge_hub hub (worker || state.succeeded) logs, worker || state.succeeded)

module _ (answers : Answers) (spokes : List Cluster) where
  open answers use {spoke_run, pods, pod_logs, worker_run, hub_run}

  unfoldable pub completion_condition : Condition Progress WorkloadError
  completion_condition s =
      let (error, seen') = record_spokes (spoke_run s.round) spokes s.seen in
      elim error [
        | some e ↦ ((false, some e), record s { round = suc s.round; seen = seen' })
        | none ↦
            let logs = capture (pipeline_run_logs (pods s.round) (pod_logs s.round)) s.logs in
            let (verdict, worker) =
              judge_worker (worker_run s.round) (hub_run s.round) s.worker_succeeded logs in
            (
              verdict,
              record { round = suc s.round; seen = seen'; logs = logs; worker_succeeded = worker },
            )
      ]

-- `condition["type"] == conditionType`, the loop and its result: the status is "True", and the
-- reason and the message where the condition is reported.
unfoldable pub condition_is_true : List Item → String → Bool × Option (Option Value × Option Value)
condition_is_true [] type = (false, none)
condition_is_true (scalar ∷ conditions) type = condition_is_true conditions type
condition_is_true (mapping c ∷ conditions) type =
    let rest = condition_is_true conditions type in
    if has_text (c "type") type
    then (has_text (c "status") "True", some (c "reason", c "message"))
    else rest

-- The variables of the two closures below.
pub record Watch : Type 0 where
  pub round : ℕ
  pub seen : List String

-- The call of `recordSpokes` that opens a closure, and what follows where it returns no error.
unfoldable pub while_exclusive :
    (ℕ → Cluster → Lookup Run)
    → List Cluster
    → (ℕ → Verdict WorkloadError)
    → Condition Watch WorkloadError
while_exclusive spoke_run spokes rest s =
    let (error, seen') = record_spokes (spoke_run s.round) spokes s.seen in
    (
      elim error [ some e ↦ (false, some e) | none ↦ rest s.round ],
      record { round = suc s.round; seen = seen' },
    )

-- An error of `Get` makes the poll go on. The second component of `conditionTrue` is a text.
unfoldable pub finished : Lookup (List Item) → Verdict WorkloadError
finished (found conditions) = ((condition_is_true conditions "Finished").0, none)
finished missing = (false, none)
finished (broken e) = (false, none)

abbrev pub is_missing : {A : Type 0} → Lookup A → Bool
is_missing (found a) = false
is_missing missing = true
is_missing (broken e) = false

-- The answers after the PipelineRun is complete.
pub record Aftermath : Type 0 where
  pub spoke_run : ℕ → Cluster → Lookup Run
  pub workload : ℕ → Lookup (List Item)
  pub cleanup_spoke_run : ℕ → Cluster → Lookup Run
  pub worker_run : ℕ → Lookup Run
  pub worker_workload : ℕ → Lookup (List Item)
  pub hub_task_runs : Listed

module _ (after : Aftermath) (spokes : List Cluster) (p : Poller Watch WorkloadError) where
  -- The result of these two is nil or an error; they add to `seen`.
  unfoldable pub wait_for_workload_finished : List String → Result (List String)
  wait_for_workload_finished seen =
      after_poll
        (p.poll (while_exclusive after.spoke_run spokes λ n. finished (after.workload n))
          (record { round = 0; seen = seen }))
        λ s. ok s.seen

  unfoldable pub wait_for_worker_cleanup : List String → Result (List String)
  wait_for_worker_cleanup seen =
      after_poll
        (p.poll
          (while_exclusive after.cleanup_spoke_run spokes
            λ n. (is_missing (after.worker_run n) && is_missing (after.worker_workload n), none))
          (record { round = 0; seen = seen }))
        λ s. ok s.seen

infixl 5 ◌>>=◌
abbrev pub ◌>>=◌ : {A B : Type 0} → Result A → (A → Result B) → Result B
ok a >>= f = f a
err e >>= f = err e

unfoldable pub wait_for_completion :
    Poller Progress WorkloadError
    → Poller Watch WorkloadError
    → Answers
    → Aftermath
    → List Cluster
    → Cluster
    → Result Text
wait_for_completion p q answers after spokes spoke = do
  done ←
      after_poll
        (p.poll (completion_condition answers spokes)
          (record { round = 0; seen = spoke.name ∷ []; logs = []; worker_succeeded = false }))
        ok
  seen ← wait_for_workload_finished after spokes q done.seen
  seen' ← wait_for_worker_cleanup after spokes q seen
  check_hub after.hub_task_runs done.logs

-- `ignoreNotFound(err)` after a `Get`: the error to return, if any.
abbrev pub ignore_not_found : {A : Type 0} → Lookup A → Option WorkloadError
ignore_not_found (found a) = none
ignore_not_found missing = none
ignore_not_found (broken e) = some (api e)

-- `if _, err := …Get(…); !IsNotFound(err) { return false, ignoreNotFound(err) }`, then the rest.
abbrev pub gone_then : {A : Type 0} → Lookup A → Verdict WorkloadError → Verdict WorkloadError
gone_then l rest = if is_missing l then rest else (false, ignore_not_found l)

-- `if e.workloadName != ""` around such a test of the Workload.
abbrev pub workload_gone_then :
    String → (String → Lookup (List Item)) → Verdict WorkloadError → Verdict WorkloadError
workload_gone_then name get rest = if name == "" then rest else gone_then (get name) rest

module _ (workload_name : String) (spoke_run : Cluster → Lookup Run)
    (spoke_workload : Cluster → String → Lookup (List Item)) where
  unfoldable pub spokes_gone : List Cluster → Verdict WorkloadError
  spokes_gone [] = (true, none)
  spokes_gone (spoke ∷ spokes) =
      let rest = spokes_gone spokes in
      gone_then (spoke_run spoke) (workload_gone_then workload_name (spoke_workload spoke) rest)

  -- The closure of `waitForExecutionObjectsGone`, at one set of answers.
  unfoldable pub execution_objects_gone :
      Lookup Run → (String → Lookup (List Item)) → List Cluster → Verdict WorkloadError
  execution_objects_gone hub_run hub_workload spokes =
      gone_then hub_run (workload_gone_then workload_name hub_workload (spokes_gone spokes))
