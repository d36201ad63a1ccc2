-- ===== src/Wait/Readiness.antt =====
-- What the probes of pkg/wait/wait.go accept.
use release_tests_ginkgo.Prelude.{ℕ, String, ◌≡◌, ◌≢◌, ◌↔◌, true, false, Option, none, some}
use release_tests_ginkgo.Prelude.{List, [], ◌∷◌, arith, inl, inr, refl, string_eq, Option-cases}
use release_tests_ginkgo.Prelude.Lists.{All, Any, All-Any, length}
use release_tests_ginkgo.Wait.State.{Condition, ApiError, not_found, api}
use release_tests_ginkgo.Wait.Probes.{all_true, event_listener_ready, all_running}
use release_tests_ginkgo.Wait.Probes.{wait_for_pods_with_labels, deployment_not_exist}
use release_tests_ginkgo.Wait.Probes.{service_not_exist, route_not_exist, pipeline_run_exist}

abbrev pub IsTrue : Condition → Type 0
IsTrue c = c.status ≡ "True"

all_true_iff : (cs : List Condition) → (all_true cs ≡ true) ↔ All IsTrue cs
unfolding all_true
all_true_iff [] = (λ h. tt, λ h. refl)
all_true_iff (c ∷ cs) = ground (arith, all_true_iff cs)

module _ (get_condition : List Condition → String → Option Condition) where
  -- `EventListenerReady` never fails, and it accepts exactly when the call did not answer "not
  -- found", there are conditions, GetCondition finds "Available", and every condition is true.
  pub event_listener_ready_iff :
      (cs : List Condition) (err : Option ApiError)
      → ((event_listener_ready get_condition (cs, err)).1 ≡ none)
        × ((event_listener_ready get_condition (cs, err) ≡ (true, none)) ↔ (
            (err ≢ some not_found)
            × (cs ≢ [])
            × (get_condition cs "Available" ≢ none)
            × All IsTrue cs))
  unfolding event_listener_ready
  event_listener_ready_iff cs err = ground (arith, all_true_iff cs)

  -- If GetCondition returns only conditions of the list that have the type asked for, a ready
  -- EventListener has an Available condition that is true.
  pub event_listener_ready-available :
      ((ds : List Condition) (type : String) (c : Condition)
        → get_condition ds type ≡ some c
        → Any (λ d. d.type ≡ type) ds)
      → (cs : List Condition) (err : Option ApiError)
      → event_listener_ready get_condition (cs, err) ≡ (true, none)
      → Any (λ d. IsTrue d × (d.type ≡ "Available")) cs
  event_listener_ready-available lawful cs err h =
      let (fresh, some_there, available, holds) = (event_listener_ready_iff cs err).1.0 h in
      elim (Option-cases (get_condition cs "Available")) [
        | inl absent ↦ absurd (available absent)
        | inr (c, found) ↦
            All-Any IsTrue (λ d. d.type ≡ "Available") cs holds (lawful cs "Available" c found)
      ]

all_running_iff : (ps : List String) → (all_running ps ≡ true) ↔ All (λ p. p ≡ "Running") ps
unfolding all_running
all_running_iff [] = (λ h. tt, λ h. refl)
all_running_iff (p ∷ ps) = ground (arith, all_running_iff ps)

-- `WaitForPodsWithLabels` never fails: it accepts exactly when the list was read, is not empty and
-- holds only running pods, and it remembers the number of pods of the last list that was read.
pub wait_for_pods_with_labels_iff :
    (phases : List String) (err : Option ApiError) (last : Option ℕ)
    → ((wait_for_pods_with_labels (phases, err) last).0.1 ≡ none)
      × (((wait_for_pods_with_labels (phases, err) last).0.0 ≡ true)
          ↔ ((err ≡ none) × (phases ≢ []) × All (λ p. p ≡ "Running") phases))
      × (err ≡ none → (wait_for_pods_with_labels (phases, err) last).1 ≡ some (length phases))
      × (err ≢ none → (wait_for_pods_with_labels (phases, err) last).1 ≡ last)
unfolding wait_for_pods_with_labels
wait_for_pods_with_labels_iff [] none last = ground arith
wait_for_pods_with_labels_iff (p ∷ ps) none last = ground (arith, all_running_iff (p ∷ ps))
wait_for_pods_with_labels_iff phases (some e) last = ground arith

-- The deletion probes accept exactly the answer "not found" and keep waiting through every other
-- answer; `PipelineRunExist` waits exactly through "not found", and passes any other error on.
pub existence_probes :
    (err : Option ApiError)
    → ((deployment_not_exist err ≡ (true, none)) ↔ (err ≡ some not_found))
      × ((service_not_exist err ≡ (true, none)) ↔ (err ≡ some not_found))
      × ((route_not_exist err ≡ (true, none)) ↔ (err ≡ some not_found))
      × ((pipeline_run_exist err ≡ (false, none)) ↔ (err ≡ some not_found))
      × ((e : ApiError)
          → (pipeline_run_exist err ≡ (true, some (api e))) ↔ ((err ≡ some e) × (e ≢ not_found)))
      × ((deployment_not_exist err).1 ≡ none)
unfolding deployment_not_exist service_not_exist route_not_exist pipeline_run_exist
existence_probes err = ground arith
