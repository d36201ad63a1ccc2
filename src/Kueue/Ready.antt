-- ===== src/Kueue/Ready.antt =====
-- The conditions of the polls that wait for the operator: `waitForKueue`, `waitForTektonConfig` and
-- `schedulerTerminalError` of pkg/tektonkueue/environment.go, and of `waitForHubWorkload` of
-- workload.go, on the answers of one evaluation. The texts of error messages are not kept.
pub mod Operator
mod Tests
use release_tests_ginkgo.Prelude.{
  String, Bool, true, false, ◌&&◌, ◌||◌, Option, none, some, List, [], ◌∷◌,
}
use release_tests_ginkgo.Prelude.{◌==◌, string_eq, elem, if◌then◌else◌}
use release_tests_ginkgo.Prelude.Texts.{Text, codes, has_prefix, contains}
use release_tests_ginkgo.Poll.{Verdict}
use release_tests_ginkgo.Kueue.Frameworks.{Item}
use release_tests_ginkgo.Kueue.Completion.{condition_is_true}

-- `status.State.Waiting` of a container, where it waits.
pub record Waiting : Type 0 where
  pub reason : String
  pub message : Text

pub record Pod : Type 0 where
  pub name : Text
  pub waiting : List (Option Waiting)

-- `Spec.Scheduler.IsDisabled()` and `Status.IsReady()` are methods of the operator's types.
pub record TektonConfig : Type 0 where
  pub disabled : Bool
  pub ready : Bool

-- The test of a container, and the message of the first one that cannot start.
unfoldable pub stuck : Waiting → Bool
stuck w = w.reason == "CreateContainerError" && contains w.message (codes "executable file")

unfoldable pub stuck_container : List (Option Waiting) → Option Text
stuck_container [] = none
stuck_container (none ∷ ws) = stuck_container ws
stuck_container (some w ∷ ws) =
    let rest = stuck_container ws in if stuck w then some w.message else rest

unfoldable pub stuck_pod : List Pod → Option Text
stuck_pod [] = none
stuck_pod (pod ∷ pods) =
    let rest = stuck_pod pods in
    if has_prefix pod.name (codes "tekton-kueue-")
    then (elim (stuck_container pod.waiting) [ some message ↦ some message | none ↦ rest ])
    else rest

-- `none` is an error of the API.
unfoldable pub scheduler_terminal_error : Option (List Pod) → Option Text
scheduler_terminal_error none = none
scheduler_terminal_error (some pods) = stuck_pod pods

-- What follows the test for a terminal error.
unfoldable pub ready_verdict : TektonConfig → Option Bool → Verdict Text
ready_verdict config scheduler_ready =
    if config.ready
    then (if config.disabled
        then (true, none)
        else elim scheduler_ready [ none ↦ (false, none) | some ready ↦ (ready, none) ])
    else (false, none)

-- The closure of `waitForTektonConfig`: the answers for the TektonConfig, for the pods, and whether
-- the TektonScheduler is ready.
unfoldable pub tekton_config_condition :
    Option TektonConfig → Option (List Pod) → Option Bool → Verdict Text
tekton_config_condition none pods scheduler_ready = (false, none)
tekton_config_condition (some config) pods scheduler_ready =
    if config.disabled
    then ready_verdict config scheduler_ready
    else elim (scheduler_terminal_error pods) [
      | some message ↦ (false, some message)
      | none ↦ ready_verdict config scheduler_ready
    ]

-- The closure of `waitForKueue`, on the conditions of the Kueue resource.
unfoldable pub kueue_condition : {E : Type 0} → Option (List Item) → Verdict E
kueue_condition none = (false, none)
kueue_condition (some conditions) = ((condition_is_true conditions "Available").0, none)

-- A Workload with the UIDs of its owners.
pub record Workload : Type 0 where
  pub name : String
  pub owners : List String

-- The two loops of the closure of `waitForHubWorkload`.
unfoldable pub owned_workload : String → List Workload → Option String
owned_workload uid [] = none
owned_workload uid (w ∷ ws) =
    let rest = owned_workload uid ws in if elem uid w.owners then some w.name else rest

-- `name` goes in and out.
unfoldable pub hub_workload_condition :
    {E : Type 0} → String → Option (List Workload) → String → Verdict E × String
hub_workload_condition uid none name = ((false, none), name)
hub_workload_condition uid (some ws) name = elim (owned_workload uid ws) [
  | some found ↦ ((true, none), found)
  | none ↦ ((false, none), name)
]
