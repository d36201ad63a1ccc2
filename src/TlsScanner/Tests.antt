-- ===== src/TlsScanner/Tests.antt =====
-- A scan of two pods, the second of which serves TLS.
use release_tests_ginkgo.Prelude.{String, true, false, some, List, [], ◌∷◌, ◌≡◌, ◌↔◌}
use release_tests_ginkgo.Prelude.Texts.{Text, codes}
use release_tests_ginkgo.Ginkgo.{passed}
use release_tests_ginkgo.TlsScanner.Results.{PortResult, IpResult, ScanResults}
use release_tests_ginkgo.TlsScanner.Results.{assert_component_pqc_compliant}
use release_tests_ginkgo.TlsScanner.Compliance.{Complies, assert_component_pqc_compliant_iff}

abbrev port : String → PortResult
port status = record {
  port = 8443;
  status = status;
  tls13_supported = true;
  ml_kem_supported = true;
  api_server_compliance =
      some (record { configured_profile = "Modern"; version = true; ciphers = true });
  tls_readiness = record {
    tls13_offered = true;
    tls12_only = false;
    pqc_capable = true;
    notes = "";
  };
}

abbrev pod : String → List PortResult → IpResult
pod name ports = record {
  ip = "10.0.0.1";
  status = "scanned";
  open_ports = [];
  port_results = ports;
  component = "pipelines";
  pod = codes name;
}

abbrev results : ScanResults
results = record {
  total_ips = 2;
  scanned_ips = 2;
  ip_results =
      pod "tekton-results-api-7c" (port "NO_PORTS" ∷ [])
      ∷ pod "tekton-pipelines-webhook-5d" (port "NO_TLS" ∷ port "OK" ∷ [])
      ∷ [];
  api_server = record { profile_type = "Modern"; min_tls_version = "VersionTLS13" };
}

abbrev webhook : Text
webhook = codes "tekton-pipelines-webhook"

assert_component_pqc_compliant_iff_example :
    (assert_component_pqc_compliant results webhook ≡ passed) ↔ Complies results webhook
assert_component_pqc_compliant_iff_example = assert_component_pqc_compliant_iff results webhook
