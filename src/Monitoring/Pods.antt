-- ===== src/Monitoring/Pods.antt =====
-- The checks of pkg/monitoring/mtls.go on pods and on installer sets: `findPodsForService`,
-- `checkPodMTLSEnabled`, `checkPodMTLSDisabled` and `checkNoStuckInstallerSets`.
use release_tests_ginkgo.Prelude.{
  ℕ, String, Bool, false, ◌||◌, Option, none, some, List, [], ◌∷◌, ◌==◌, text_eq, if◌then◌else◌,
}
use release_tests_ginkgo.Prelude.Texts.{Text, codes, null, eqb, has_prefix, contains}
use release_tests_ginkgo.Kube.{Reply, reply, refused}
use release_tests_ginkgo.ApprovalGate.GroupName.{is_space, trim}
use release_tests_ginkgo.EnvLoader.{split}
use release_tests_ginkgo.Monitoring.{
  Service, Volume, secret, config_map, Container, Pod, MtlsError, api, no_selector, no_pods, no_env,
  unexpected_env, no_cert_volume, no_ca_volume, stuck_sets,
}

unfoldable pub running_pods : List Pod → List Pod
running_pods [] = []
running_pods (p ∷ ps) = let rest = running_pods ps in if p.running then p ∷ rest else rest

-- `findPodsForService`: the pods that run, where `list` answers for the selector.
pub data PodsFound : Type 0 where
  found : List Pod → PodsFound
  failed : MtlsError → PodsFound

unfoldable pub listed_pods : Reply (List Pod) → PodsFound
listed_pods (refused e) = failed (api e)
listed_pods (reply pods) = found (running_pods pods)

unfoldable pub find_pods_for_service :
    (List (String × Text) → Reply (List Pod)) → Reply Service → PodsFound
find_pods_for_service list (refused e) = failed (api e)
find_pods_for_service list (reply svc) =
    if null svc.selector then failed no_selector else listed_pods (list svc.selector)

-- The first `METRICS_PROMETHEUS_TLS_*` variable of a container.
unfoldable pub tls_env : List Text → Option Text
tls_env [] = none
tls_env (name ∷ env) =
    let rest = tls_env env in
    if has_prefix name (codes "METRICS_PROMETHEUS_TLS_") then some name else rest

unfoldable pub is_cert_volume : Volume → Bool
is_cert_volume (secret name) = contains name (codes "metrics")
is_cert_volume v = false

unfoldable pub is_ca_volume : Volume → Bool
is_ca_volume (config_map name) = name == codes "metrics-client-ca"
is_ca_volume v = false

unfoldable pub any_volume : (Volume → Bool) → List Volume → Bool
any_volume test [] = false
any_volume test (v ∷ vs) = test v || any_volume test vs

-- The body of the loop for a pod with a container.
unfoldable pub check_volumes : List Volume → Option MtlsError
check_volumes vs =
    if any_volume is_cert_volume vs
    then (if any_volume is_ca_volume vs then none else some no_ca_volume)
    else some no_cert_volume

unfoldable pub check_enabled_pod : Pod → List Container → Option MtlsError
check_enabled_pod pod [] = none
check_enabled_pod pod (c ∷ cs) = elim (tls_env c.env) [
  | some name ↦ check_volumes pod.volumes
  | none ↦ some no_env
]

unfoldable pub check_disabled_pod : List Container → Option MtlsError
check_disabled_pod [] = none
check_disabled_pod (c ∷ cs) = elim (tls_env c.env) [
  | some name ↦ some (unexpected_env name)
  | none ↦ none
]

-- The loop returns the first error.
unfoldable pub first_error : (Pod → Option MtlsError) → List Pod → Option MtlsError
first_error check [] = none
first_error check (p ∷ ps) =
    let rest = first_error check ps in elim (check p) [ some e ↦ some e | none ↦ rest ]

unfoldable pub check_pods : (Pod → Option MtlsError) → PodsFound → Option MtlsError
check_pods check (failed e) = some e
check_pods check (found pods) = if null pods then some no_pods else first_error check pods

unfoldable pub check_pod_mtls_enabled : PodsFound → Option MtlsError
check_pod_mtls_enabled = check_pods λ p. check_enabled_pod p p.containers

unfoldable pub check_pod_mtls_disabled : PodsFound → Option MtlsError
check_pod_mtls_disabled = check_pods λ p. check_disabled_pod p.containers

abbrev pub onto : ℕ → List Text → List Text
onto c [] = (c ∷ []) ∷ []
onto c (l ∷ ls) = (c ∷ l) ∷ ls

-- `strings.Split(s, "\n")`
unfoldable pub split_lines : Text → List Text
split_lines [] = [] ∷ []
split_lines (c ∷ s) = let rest = split_lines s in if eqb c 10 then [] ∷ rest else onto c rest

-- A line without an equals sign is passed over.
unfoldable pub stuck_line : Option (Text × Text) → List (Text × Text) → List (Text × Text)
stuck_line none stuck = stuck
stuck_line (some (name, status)) stuck =
    if status == codes "True" then stuck else (name, status) ∷ stuck

unfoldable pub collect_stuck : List Text → List (Text × Text)
collect_stuck [] = []
collect_stuck (line ∷ lines) = stuck_line (split line) (collect_stuck lines)

unfoldable pub stuck_error : List (Text × Text) → Option MtlsError
stuck_error [] = none
stuck_error (s ∷ ss) = some (stuck_sets (s ∷ ss))

unfoldable pub check_no_stuck_installer_sets : Reply Text → Option MtlsError
check_no_stuck_installer_sets (refused e) = some (api e)
check_no_stuck_installer_sets (reply out) =
    stuck_error (collect_stuck (split_lines (trim is_space out)))
