-- ===== src/Wait/Tests.antt =====
-- The theorems on pkg/wait/wait.go at a small cluster.
use release_tests_ginkgo.Prelude.{ℕ, zero, suc, String, ◌≡◌, refl, true}
use release_tests_ginkgo.Prelude.{Option, none, some, List, [], ◌∷◌, arith, string_eq, ◌==◌}
use release_tests_ginkgo.Prelude.{if◌then◌else◌}
use release_tests_ginkgo.Prelude.Lists.{Any}
use release_tests_ginkgo.Poll.{success, stopped, Poller}
use release_tests_ginkgo.Poll.Bounded.{run, bounded}
use release_tests_ginkgo.Wait.State.{Condition, not_found, WaitError, has_failed, Accessor}
use release_tests_ginkgo.Wait.State.{succeed}
use release_tests_ginkgo.Wait.Resources.{Answer, object, error, Cluster, wait_for_task_run_state}
use release_tests_ginkgo.Wait.Resources.{wait_for_pipeline_run_state}
use release_tests_ginkgo.Wait.Probes.{event_listener_ready}
use release_tests_ginkgo.Wait.Verdicts.{Shows}
use release_tests_ginkgo.Wait.Traces.{Reached, wait_for_task_run_state-succeed}
use release_tests_ginkgo.Wait.Readiness.{IsTrue}
use release_tests_ginkgo.Wait.Readiness.{event_listener_ready-available}

abbrev condition : String → String → Condition
condition type status = record { type = type; status = status; reason = "Completed"; message = [] }

abbrev done_with : String → Accessor
done_with status type = some (condition "Succeeded" status)

abbrev not_started : Accessor
not_started type = none

-- The first answer has no condition yet, the second one has.
abbrev later : String → ℕ → Answer Accessor
later status zero = object not_started
later status (suc n) = object (done_with status)

abbrev cluster : Cluster
cluster = record {
  Deployment = Unit;
  Pod = Unit;
  Service = Unit;
  task_run = λ name. later "True";
  pipeline_run = λ name. later "False";
  deployment = λ ns name n. error not_found;
  pod = λ ns name n. error not_found;
  service = λ ns name n. error not_found;
  context_error = λ n. none;
}

abbrev poller : Poller ℕ WaitError
poller = bounded 3

task_run_returns : (wait_for_task_run_state poller cluster "build" (succeed "build") 0).0 ≡ success
unfolding wait_for_task_run_state succeed run string_eq
task_run_returns = refl

pipeline_run_fails :
    (wait_for_pipeline_run_state poller cluster "ci" (succeed "ci") 0).0 ≡ stopped (has_failed "ci")
unfolding wait_for_pipeline_run_state succeed run string_eq
pipeline_run_fails = refl

wait_for_task_run_state-succeed_example :
    (k : ℕ) × (r : Accessor) × (later "True" k ≡ object r)
    × Shows r (λ d. d.status ≡ "True")
    × Reached (λ n. none) (later "True") (succeed "build") 0 k
wait_for_task_run_state-succeed_example =
    wait_for_task_run_state-succeed poller cluster "build" 0 task_run_returns

-- GetCondition of knative: the first condition of the type.
abbrev first_of_type : List Condition → String → Option Condition
first_of_type [] type = none
first_of_type (c ∷ cs) type = if c.type == type then some c else first_of_type cs type

first_of_type-found :
    (cs : List Condition) (type : String) (c : Condition)
    → first_of_type cs type ≡ some c
    → Any (λ d. d.type ≡ type) cs
first_of_type-found [] type c h = cc
first_of_type-found (d ∷ cs) type c h = ground (arith, first_of_type-found cs type c)

abbrev listener : List Condition
listener = condition "Available" "True" ∷ condition "Progressing" "True" ∷ []

listener_ready : event_listener_ready first_of_type (listener, none) ≡ (true, none)
unfolding event_listener_ready string_eq
listener_ready = refl

event_listener_ready-available_example : Any (λ d. IsTrue d × (d.type ≡ "Available")) listener
event_listener_ready-available_example =
    event_listener_ready-available first_of_type first_of_type-found listener none listener_ready
