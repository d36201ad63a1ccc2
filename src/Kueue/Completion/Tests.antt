-- ===== src/Kueue/Completion/Tests.antt =====
-- A PipelineRun that succeeds on the spoke one evaluation before the hub reports it.
use release_tests_ginkgo.Prelude.{◌-◌, nat_eq, ℕ, zero, suc, String, none, some, List, [], ◌∷◌}
use release_tests_ginkgo.Prelude.{◌≡◌, refl, ◌==◌, string_eq, if◌then◌else◌}
use release_tests_ginkgo.Poll.{Poller, Pending, success}
use release_tests_ginkgo.Poll.Bounded.{run, bounded}
use release_tests_ginkgo.Kueue.Validation.{Cluster}
use release_tests_ginkgo.Kueue.Frameworks.{Item, mapping, text}
use release_tests_ginkgo.Kueue.Spokes.{
  Lookup, found, missing, items, WorkloadError, scan_spokes, ok,
}
use release_tests_ginkgo.Kueue.Spokes.{record_spokes}
use release_tests_ginkgo.Kueue.Completion.{
  Run, Answers, Aftermath, Progress, Watch, workload_log_marker,
}
use release_tests_ginkgo.Kueue.Completion.{wait_for_completion, completion_condition, capture}
use release_tests_ginkgo.Kueue.Completion.{judge_worker, judge_hub, pipeline_run_state}
use release_tests_ginkgo.Kueue.Completion.{
  pipeline_run_logs, wait_for_workload_finished, while_exclusive,
}
use release_tests_ginkgo.Kueue.Completion.{wait_for_worker_cleanup, finished, condition_is_true}
use release_tests_ginkgo.Kueue.Completion.Success.{Completed, wait_for_completion-Completed}
use release_tests_ginkgo.Kueue.Completion.Gone.{
  Objects, AllGone, gone_condition, wait_for_execution_objects_gone,
  wait_for_execution_objects_gone-AllGone,
}

abbrev spoke : Cluster
spoke = record { name = "spoke-1"; clients = none }

abbrev succeeded : Run
succeeded =
    some (record { type = "Succeeded"; status = "True"; reason = "Succeeded"; message = [] })

abbrev hub_answer : ℕ → Lookup Run
hub_answer zero = found none
hub_answer (suc n) = found succeeded

abbrev answers : Answers
answers = record {
  spoke_run = λ n c. found none;
  pods = λ n. found ("pod" ∷ []);
  pod_logs = λ n pod. found workload_log_marker;
  worker_run = λ n. found succeeded;
  hub_run = hub_answer;
}

abbrev finished_condition : Item
finished_condition = mapping λ key.
    if key == "type"
    then some (text "Finished")
    else if key == "status"
    then some (text "True")
    else none

abbrev aftermath : Aftermath
aftermath = record {
  spoke_run = λ n c. missing;
  workload = λ n. found (finished_condition ∷ []);
  cleanup_spoke_run = λ n c. missing;
  worker_run = λ n. missing;
  worker_workload = λ n. missing;
  hub_task_runs = items 0;
}

abbrev poller : Poller Progress WorkloadError
poller = bounded 3

abbrev watcher : Poller Watch WorkloadError
watcher = bounded 3

completes :
    wait_for_completion poller watcher answers aftermath (spoke ∷ []) spoke ≡ ok workload_log_marker
unfolding wait_for_completion completion_condition capture judge_worker judge_hub pipeline_run_state
    pipeline_run_logs record_spokes scan_spokes wait_for_workload_finished wait_for_worker_cleanup
    while_exclusive finished condition_is_true run string_eq
completes = refl

wait_for_completion-Completed_example :
    Completed answers (spoke ∷ []) "spoke-1" workload_log_marker × (items 0 ≡ items 0)
wait_for_completion-Completed_example =
    wait_for_completion-Completed poller watcher answers aftermath (spoke ∷ []) spoke
      workload_log_marker completes

abbrev no_run : Cluster → Lookup Run
no_run c = missing

abbrev no_workload : Cluster → String → Lookup (List Item)
no_workload c name = missing

-- The hub loses the PipelineRun after two evaluations; the workload is nowhere.
abbrev fading : Objects ℕ
fading = record {
  hub_run = λ n. if n == 0 then missing else found none;
  hub_workload = λ n name. missing;
  spoke_run = λ n. no_run;
  spoke_workload = λ n. no_workload;
  pause = λ n. n - 1;
}

wait_for_execution_objects_gone-AllGone_example :
    let c = gone_condition fading (bounded 5) "wl" (spoke ∷ []) in
    let x = wait_for_execution_objects_gone fading (bounded 5) "wl" (spoke ∷ []) 2 in
    (x.0 ≡ success
      → (v : ℕ) × Pending c 2 v × AllGone fading (bounded 5) "wl" (spoke ∷ []) v × (v - 1 ≡ x.1))
    × ((u v : ℕ) → Pending c u v → AllGone fading (bounded 5) "wl" (spoke ∷ []) u → u ≡ v)
    × (AllGone fading (bounded 5) "wl" (spoke ∷ []) 2 → x.0 ≡ success)
wait_for_execution_objects_gone-AllGone_example =
    wait_for_execution_objects_gone-AllGone fading (bounded 5) "wl" (spoke ∷ []) 2
