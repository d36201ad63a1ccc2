-- ===== src/Wait/Probes.antt =====
-- The condition functions of the Triggers part of pkg/wait/wait.go, over one answer of the API.
use release_tests_ginkgo.Prelude.{ℕ, String, Bool, true, false, Option, none, some, List, [], ◌∷◌}
use release_tests_ginkgo.Prelude.{◌==◌, string_eq, if◌then◌else◌}
use release_tests_ginkgo.Prelude.Texts.{null}
use release_tests_ginkgo.Prelude.Lists.{length}
use release_tests_ginkgo.Poll.{Verdict, Condition, Outcome, Poller}
use release_tests_ginkgo.Wait.State.{ApiError, not_found, WaitError, api, condition_true}
use release_tests_ginkgo.Wait.State
use release_tests_ginkgo.Wait.Resources.{poll_immediate_with_context}

unfoldable pub wait_for :
    {S : Type 0}
    → Poller S WaitError
    → (S → Option WaitError)
    → Condition S WaitError
    → S
    → Outcome WaitError × S
unfolding poll_immediate_with_context
wait_for p done fn = poll_immediate_with_context p done fn

-- `err != nil && errors.IsNotFound(err)`
abbrev pub is_not_found : Option ApiError → Bool
is_not_found none = false
is_not_found (some not_found) = true
is_not_found (some _) = false

-- The loop over the conditions of the status.
unfoldable pub all_true : List State.Condition → Bool
all_true [] = true
all_true (c ∷ cs) = if c.status == condition_true then all_true cs else false

-- `Status.GetCondition` is knative's, so it is a parameter. `Get` returns an object beside its
-- error, and the body reads it unless the error is "not found".
unfoldable pub event_listener_ready :
    (List State.Condition → String → Option State.Condition)
    → List State.Condition × Option ApiError
    → Verdict WaitError
unfolding all_true
event_listener_ready get_condition (conditions, err) =
    if is_not_found err
    then (false, none)
    else if null conditions
    then (false, none)
    else elim (get_condition conditions "Available") [
      | none ↦ (false, none)
      | some _ ↦ if all_true conditions then (true, none) else (false, none)
    ]

-- `pod.Status.Phase` of each pod.
unfoldable pub all_running : List String → Bool
all_running [] = true
all_running (phase ∷ phases) = if phase == "Running" then all_running phases else false

-- The closure's `lastKnownPodNumber` goes in and out; `none` is its initial -1.
unfoldable pub wait_for_pods_with_labels :
    List String × Option ApiError → Option ℕ → Verdict WaitError × Option ℕ
unfolding all_running
wait_for_pods_with_labels (phases, some err) last_known = ((false, none), last_known)
wait_for_pods_with_labels ([], none) last_known = ((false, none), some 0)
wait_for_pods_with_labels (phase ∷ phases, none) last_known = (
  if all_running (phase ∷ phases) then (true, none) else (false, none),
  some (length (phase ∷ phases)),
)

-- `err != nil && errors.IsNotFound(err)` is what the three functions below wait for.
unfoldable pub deployment_not_exist : Option ApiError → Verdict WaitError
deployment_not_exist err = if is_not_found err then (true, none) else (false, none)

unfoldable pub service_not_exist : Option ApiError → Verdict WaitError
service_not_exist err = if is_not_found err then (true, none) else (false, none)

unfoldable pub route_not_exist : Option ApiError → Verdict WaitError
route_not_exist err = if is_not_found err then (true, none) else (false, none)

-- `return true, err`
abbrev pub with_error : Option ApiError → Option WaitError
with_error none = none
with_error (some e) = some (api e)

unfoldable pub pipeline_run_exist : Option ApiError → Verdict WaitError
pipeline_run_exist err = if is_not_found err then (false, none) else (true, with_error err)
