-- ===== src/Monitoring/Tests.antt =====
-- The checks of pkg/monitoring/mtls.go on concrete answers.
use release_tests_ginkgo.Prelude.{true, false, ◌≡◌, ◌≢◌, ◌↔◌, none, some, [], ◌∷◌, text_eq}
use release_tests_ginkgo.Prelude.Texts.{codes}
use release_tests_ginkgo.Kube.{reply, Value, field, item, empty, text}
use release_tests_ginkgo.Monitoring.{
  Component, Service, Pod, secret, config_map, check_service_mtls_enabled,
  check_service_mtls_disabled, check_service_monitor_mtls_enabled,
  check_service_monitor_mtls_disabled,
}
use release_tests_ginkgo.Monitoring.Pods.{found, check_pod_mtls_enabled, check_pod_mtls_disabled}
use release_tests_ginkgo.Monitoring.Pruner.{Switches, restored, Exclusive, restored_iff}
use release_tests_ginkgo.Monitoring.Verdicts.{check_service-exclusive}
use release_tests_ginkgo.Monitoring.Accepted.{Equipped, Plain, AllPods, check_pod_mtls_iff}

abbrev component : Component
component = record {
  service_name = codes "svc";
  namespace = codes "ns";
  http_port_name = "http-metrics";
  https_port_name = "https-metrics";
}

abbrev service : Service
service = record {
  ports = record { name = "https-metrics"; port = 9090 } ∷ [];
  annotations = ("service.beta.openshift.io/serving-cert-secret-name", codes "cert") ∷ [];
  selector = [];
}

abbrev monitor : Value
monitor =
    field "spec"
      (field "endpoints" (item (field "scheme" (text (codes "https")) empty) empty) empty) empty

check_service-exclusive_example :
    (check_service_mtls_enabled component (λ s. reply 2) (reply service) ≡ none
      → check_service_mtls_disabled component (reply service) ≢ none)
    × (check_service_monitor_mtls_enabled component (reply monitor) ≡ none
        → check_service_monitor_mtls_disabled (reply monitor) ≢ none)
check_service-exclusive_example =
    check_service-exclusive component (λ s. reply 2) (reply service) (reply monitor)

abbrev equipped_pod : Pod
equipped_pod = record {
  running = true;
  containers = record { env = codes "METRICS_PROMETHEUS_TLS_CERT" ∷ [] } ∷ [];
  volumes = secret (codes "metrics-cert") ∷ config_map (codes "metrics-client-ca") ∷ [];
}

check_pod_mtls_iff_example :
    let x = found (equipped_pod ∷ []) in
    ((check_pod_mtls_enabled x ≡ none) ↔ AllPods (λ p. Equipped p.containers p.volumes) x)
    × ((check_pod_mtls_disabled x ≡ none) ↔ AllPods (λ p. Plain p.containers) x)
check_pod_mtls_iff_example = check_pod_mtls_iff (found (equipped_pod ∷ []))

abbrev cron_job : Switches
cron_job = record {
  enable_metrics_mtls = none;
  tektonpruner_disabled = some true;
  pruner_disabled = some false;
}

restored_iff_example :
    let t = restored cron_job true in
    (((t.tektonpruner_disabled ≡ cron_job.tektonpruner_disabled)
        × (t.pruner_disabled ≡ cron_job.pruner_disabled))
      ↔ Exclusive cron_job)
    × Exclusive t
restored_iff_example = restored_iff cron_job true
