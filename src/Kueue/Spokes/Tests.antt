-- ===== src/Kueue/Spokes/Tests.antt =====
-- A PipelineRun that shows up on the second of two spokes.
use release_tests_ginkgo.Prelude.{ℕ, zero, suc, String, none, List, [], ◌∷◌}
use release_tests_ginkgo.Prelude.{◌≡◌, refl, ◌==◌, string_eq, if◌then◌else◌}
use release_tests_ginkgo.Poll.{Poller}
use release_tests_ginkgo.Poll.Bounded.{run, bounded}
use release_tests_ginkgo.Kueue.Validation.{Cluster}
use release_tests_ginkgo.Kueue.Spokes.{Lookup, found, missing, Listed, items, WorkloadError, Search}
use release_tests_ginkgo.Kueue.Spokes.{wait_for_spoke_execution, spoke_condition, scan_spokes, ok}
use release_tests_ginkgo.Kueue.Spokes.{judge_spokes}
use release_tests_ginkgo.Kueue.Spokes.Exclusive.{Executes, wait_for_spoke_execution-Executes}

abbrev spoke : String → Cluster
spoke name = record { name = name; clients = none }

abbrev spokes : List Cluster
spokes = spoke "spoke-1" ∷ spoke "spoke-2" ∷ []

abbrev answer : ℕ → Cluster → Lookup Unit
answer zero c = missing
answer (suc n) c = if c.name == "spoke-2" then found tt else missing

abbrev task_runs : ℕ → Cluster → Listed
task_runs n c = items n

abbrev poller : Poller Search WorkloadError
poller = bounded 4

found_second :
    wait_for_spoke_execution poller answer task_runs (items 0) spokes ≡ ok (spoke "spoke-2")
unfolding wait_for_spoke_execution spoke_condition scan_spokes judge_spokes run string_eq
found_second = refl

wait_for_spoke_execution-Executes_example :
    Executes answer task_runs spokes (spoke "spoke-2") × (items 0 ≡ items 0)
wait_for_spoke_execution-Executes_example =
    wait_for_spoke_execution-Executes poller answer task_runs (items 0) spokes (spoke "spoke-2")
      found_second
