-- ===== src/Kueue/Validation/Tests.antt =====
-- An environment with a hub and a spoke.
use release_tests_ginkgo.Prelude.{String, Bool, true, none, some, List, [], ◌∷◌, ◌≡◌, ◌≢◌, ◌↔◌}
use release_tests_ginkgo.Prelude.Texts.{Text, codes}
use release_tests_ginkgo.Kueue.Validation.{Cluster, Environment, clusters, validate}
use release_tests_ginkgo.Kueue.Validation.Accepts.{Servers, Apart, validate_iff}

abbrev cluster : String → String → Cluster
cluster name host = record {
  name = name;
  clients = some (record { kube_config = some (record { host = codes host }) });
}

abbrev environment : Environment
environment = record {
  hub = cluster "hub" "https://hub:6443/";
  spokes = cluster "spoke-1" "https://s1:6443" ∷ [];
  prefix = codes "e2e";
}

abbrev any_label : Text → Bool
any_label t = true

validate_iff_example : (validate any_label environment ≡ none) ↔ (
    (true ≡ true)
    × (environment.spokes ≢ [])
    × (hs : List Text) × Servers (clusters environment) hs
    × Apart hs)
validate_iff_example = validate_iff any_label environment
