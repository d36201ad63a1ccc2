-- ===== src/Kueue/Ready/Tests.antt =====
-- A cluster whose scheduler pod cannot start.
use release_tests_ginkgo.Prelude.{true, false, none, some, List, [], ◌∷◌, ◌≡◌, ◌≢◌, ◌↔◌, ◌⊎◌}
use release_tests_ginkgo.Prelude.Texts.{codes}
use release_tests_ginkgo.Prelude.Lists.{Any}
use release_tests_ginkgo.Kueue.Ready.{Pod, TektonConfig, tekton_config_condition}
use release_tests_ginkgo.Kueue.Ready.Operator.{HasStuck, tekton_config_condition_iff}

abbrev config : TektonConfig
config = record { disabled = false; ready = true }

abbrev pods : List Pod
pods =
    record {
      name = codes "tekton-kueue-webhook-6f";
      waiting =
          none
          ∷ some (record {
            reason = "CreateContainerError";
            message = codes "executable file not found";
          })
          ∷ [];
    }
    ∷ []

tekton_config_condition_iff_example :
    (((tekton_config_condition (some config) (some pods) (some true)).1 ≢ none)
      ↔ ((config.disabled ≡ false) × Any HasStuck pods))
    × ((tekton_config_condition (some config) (some pods) (some true) ≡ (true, none)) ↔ (
        (config.ready ≡ true)
        × ((config.disabled ≡ true) ⊎ ((Any HasStuck pods → ⊥) × (some true ≡ some true)))))
tekton_config_condition_iff_example = tekton_config_condition_iff config pods (some true)
