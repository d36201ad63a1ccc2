-- ===== src/Kueue/Ready/Operator.antt =====
-- When `waitForTektonConfig` ends.
use release_tests_ginkgo.Prelude.{
  Bool, true, false, Option, none, some, List, [], ◌∷◌, ◌≡◌, ◌≢◌, ◌↔◌, ◌⊎◌,
}
use release_tests_ginkgo.Prelude.{arith}
use release_tests_ginkgo.Prelude.Texts.{codes, has_prefix}
use release_tests_ginkgo.Prelude.Lists.{Any}
use release_tests_ginkgo.Kueue.Ready.{Waiting, Pod, TektonConfig, stuck, stuck_container, stuck_pod}
use release_tests_ginkgo.Kueue.Ready.{
  scheduler_terminal_error, ready_verdict, tekton_config_condition,
}

-- The container waits with an executable that cannot be found.
abbrev pub IsStuck : Option Waiting → Type 0
IsStuck none = ⊥
IsStuck (some w) = stuck w ≡ true

-- A pod of the scheduler with such a container.
abbrev pub HasStuck : Pod → Type 0
HasStuck pod = (has_prefix pod.name (codes "tekton-kueue-") ≡ true) × Any IsStuck pod.waiting

stuck_container_iff : (ws : List (Option Waiting)) → (stuck_container ws ≢ none) ↔ Any IsStuck ws
unfolding stuck_container
stuck_container_iff [] = ground arith
stuck_container_iff (none ∷ ws) = ground (arith, stuck_container_iff ws)
stuck_container_iff (some w ∷ ws) = ground (arith, stuck_container_iff ws)

stuck_pod_iff : (pods : List Pod) → (stuck_pod pods ≢ none) ↔ Any HasStuck pods
unfolding stuck_pod
stuck_pod_iff [] = ground arith
stuck_pod_iff (pod ∷ pods) = ground (arith, stuck_container_iff pod.waiting, stuck_pod_iff pods)

-- Once the TektonConfig and the pods are read, an evaluation of `waitForTektonConfig` fails exactly
-- if the scheduler is enabled and one of its pods has a container whose executable is not found. It
-- accepts exactly if the TektonConfig is ready and, unless the scheduler is disabled, no pod is
-- stuck in that way and the TektonScheduler was read and is ready.
pub tekton_config_condition_iff :
    (config : TektonConfig) (pods : List Pod) (scheduler_ready : Option Bool)
    → (((tekton_config_condition (some config) (some pods) scheduler_ready).1 ≢ none)
        ↔ ((config.disabled ≡ false) × Any HasStuck pods))
      × ((tekton_config_condition (some config) (some pods) scheduler_ready ≡ (true, none)) ↔ (
          (config.ready ≡ true)
          × ((config.disabled ≡ true) ⊎ ((Any HasStuck pods → ⊥) × (scheduler_ready ≡ some true)))))
unfolding tekton_config_condition scheduler_terminal_error ready_verdict
tekton_config_condition_iff config pods scheduler_ready = ground (arith, stuck_pod_iff pods)
