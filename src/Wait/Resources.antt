-- ===== src/Wait/Resources.antt =====
-- The `WaitFor…State` functions of pkg/wait/wait.go. The cluster is seen through the calls of the
-- clients; the n-th evaluation of a condition gets the n-th answer.
use release_tests_ginkgo.Prelude.{ℕ, suc, String, true, Option, none, some}
use release_tests_ginkgo.Poll.{Verdict, Condition, Outcome, Poller}
use release_tests_ginkgo.Wait.State.{ApiError, WaitError, api, Accessor, ConditionAccessorFn}

-- The object that `Get` returns, or its error.
pub data Answer (A : Type 0) : Type 0 where
  object : A → Answer A
  error : ApiError → Answer A

-- The calls of the clients, at each evaluation of a condition. `Deployment`, `Pod` and `Service`
-- are types of the Kubernetes API.
pub record Cluster : Type 1 where
  pub Deployment : Type 0
  pub Pod : Type 0
  pub Service : Type 0
  pub task_run : String → ℕ → Answer Accessor
  pub pipeline_run : String → ℕ → Answer Accessor
  pub deployment : String → String → ℕ → Answer Deployment
  pub pod : String → String → ℕ → Answer Pod
  pub service : String → String → ℕ → Answer Service
  -- `ctx.Err()` once `ctx.Done()` is closed.
  pub context_error : ℕ → Option WaitError

-- `pollImmediateWithContext` hands the poll this condition: the context first, then `fn`.
unfoldable pub with_context :
    {S : Type 0} → (S → Option WaitError) → Condition S WaitError → Condition S WaitError
with_context done fn s = elim (done s) [ some e ↦ ((true, some e), s) | none ↦ fn s ]

unfoldable pub poll_immediate_with_context :
    {S : Type 0}
    → Poller S WaitError
    → (S → Option WaitError)
    → Condition S WaitError
    → S
    → Outcome WaitError × S
unfolding with_context
poll_immediate_with_context p done fn = p.poll (with_context done fn)

-- The closure that the functions below poll: an error of `Get` ends it, an object is judged.
unfoldable pub observe :
    {A : Type 0} → (ℕ → Answer A) → (A → Verdict WaitError) → Condition ℕ WaitError
observe get in_state n = elim (get n) [
  | error e ↦ ((true, some (api e)), suc n)
  | object r ↦ (in_state r, suc n)
]

module _ (p : Poller ℕ WaitError) (c : Cluster) where
  open c use {Deployment, Pod, Service, task_run, pipeline_run, deployment, pod, service}
  open c use {context_error}

  unfoldable pub wait_for_task_run_state : String → ConditionAccessorFn → ℕ → Outcome WaitError × ℕ
  unfolding poll_immediate_with_context observe
  wait_for_task_run_state name in_state =
      poll_immediate_with_context p context_error (observe (task_run name) in_state)

  unfoldable pub wait_for_pipeline_run_state :
      String → ConditionAccessorFn → ℕ → Outcome WaitError × ℕ
  unfolding poll_immediate_with_context observe
  wait_for_pipeline_run_state name in_state =
      poll_immediate_with_context p context_error (observe (pipeline_run name) in_state)

  unfoldable pub wait_for_deployment_state :
      String → String → (Deployment → Verdict WaitError) → ℕ → Outcome WaitError × ℕ
  unfolding poll_immediate_with_context observe
  wait_for_deployment_state name namespace in_state =
      poll_immediate_with_context p context_error (observe (deployment namespace name) in_state)

  unfoldable pub wait_for_pod_state :
      String → String → (Pod → Verdict WaitError) → ℕ → Outcome WaitError × ℕ
  unfolding poll_immediate_with_context observe
  wait_for_pod_state name namespace in_state =
      poll_immediate_with_context p context_error (observe (pod namespace name) in_state)

  unfoldable pub wait_for_service_external_ip_state :
      String → String → (Service → Verdict WaitError) → ℕ → Outcome WaitError × ℕ
  unfolding poll_immediate_with_context observe
  wait_for_service_external_ip_state namespace name in_state =
      poll_immediate_with_context p context_error (observe (service namespace name) in_state)
