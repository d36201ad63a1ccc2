-- ===== src/TlsScanner/Results.antt =====
-- The decoded results.json and the assertions of pkg/tlsscanner/results.go.
use release_tests_ginkgo.Prelude.{ℕ, String, Bool, false, not, Option, none, some, List, [], ◌∷◌}
use release_tests_ginkgo.Prelude.{◌==◌, elem, string_eq, if◌then◌else◌}
use release_tests_ginkgo.Prelude.Texts.{Text, has_prefix}
use release_tests_ginkgo.Ginkgo.{Outcome, passed, skipped, failed, expect}

pub record ApiServerCompliance : Type 0 where
  pub configured_profile : String
  pub version : Bool
  pub ciphers : Bool

pub record TlsReadiness : Type 0 where
  pub tls13_offered : Bool
  pub tls12_only : Bool
  pub pqc_capable : Bool
  pub notes : String

pub record PortResult : Type 0 where
  pub port : ℕ
  pub status : String
  pub tls13_supported : Bool
  pub ml_kem_supported : Bool
  pub api_server_compliance : Option ApiServerCompliance
  pub tls_readiness : TlsReadiness

-- The name of the pod stands for `PodInfo`, that of the component for `ComponentInfo`.
pub record IpResult : Type 0 where
  pub ip : String
  pub status : String
  pub open_ports : List ℕ
  pub port_results : List PortResult
  pub component : String
  pub pod : Text

-- `api_server` stands for the struct of that name in `TLSSecurityConfig`.
pub record ApiServer : Type 0 where
  pub profile_type : String
  pub min_tls_version : String

pub record ScanResults : Type 0 where
  pub total_ips : ℕ
  pub scanned_ips : ℕ
  pub ip_results : List IpResult
  pub api_server : ApiServer

-- What an assertion found.
pub data Failure : Type 0 where
  profile_not_accepted : String → Failure
  no_pod : List Text → Failure
  no_ok_port : List (ℕ × String) → Failure
  no_tls13 : Failure
  no_ml_kem : Failure
  no_compliance : Failure
  version_not_honored : Failure
  ciphers_not_honored : Failure
  tls12_only : Failure
  not_plain : ℕ → String → Failure

unfoldable pub assert_cluster_tls_security_config : ScanResults → List String → Outcome Failure
assert_cluster_tls_security_config results acceptable_profiles =
    let actual = results.api_server.profile_type in
    expect (elem actual acceptable_profiles) (profile_not_accepted actual) passed

-- The loop of `findIPResultByPodPrefix`.
unfoldable pub find_ip_result_by_pod_prefix : List IpResult → Text → Option IpResult
find_ip_result_by_pod_prefix [] deployment_name = none
find_ip_result_by_pod_prefix (r ∷ rs) deployment_name =
    let rest = find_ip_result_by_pod_prefix rs deployment_name in
    if has_prefix r.pod deployment_name then some r else rest

-- The pods that its error names.
unfoldable pub scanned_pods : List IpResult → List Text
scanned_pods [] = []
scanned_pods (r ∷ rs) = r.pod ∷ scanned_pods rs

-- The loop of `findTLSServingPort`.
unfoldable pub find_tls_serving_port : List PortResult → Option PortResult
find_tls_serving_port [] = none
find_tls_serving_port (p ∷ ps) =
    let rest = find_tls_serving_port ps in if p.status == "OK" then some p else rest

-- The ports that its error names.
unfoldable pub statuses : List PortResult → List (ℕ × String)
statuses [] = []
statuses (p ∷ ps) = (p.port, p.status) ∷ statuses ps

-- The assertions on a port that serves TLS, the same in both of the functions that have them.
unfoldable pub expect_compliant : PortResult → Outcome Failure
expect_compliant port = expect port.tls13_supported no_tls13 (
    expect port.ml_kem_supported no_ml_kem (elim port.api_server_compliance [
      | none ↦ failed no_compliance
      | some c ↦ expect c.version version_not_honored (
          expect c.ciphers ciphers_not_honored
            (expect (not port.tls_readiness.tls12_only) tls12_only passed))
    ]))

-- From the search of the port to the end.
unfoldable pub assert_port : IpResult → Outcome Failure
assert_port r = elim (find_tls_serving_port r.port_results) [
  | none ↦ failed (no_ok_port (statuses r.port_results))
  | some port ↦ expect_compliant port
]

unfoldable pub assert_component_pqc_compliant : ScanResults → Text → Outcome Failure
assert_component_pqc_compliant results deployment_name =
    elim (find_ip_result_by_pod_prefix results.ip_results deployment_name) [
      | none ↦ failed (no_pod (scanned_pods results.ip_results))
      | some r ↦ assert_port r
    ]

-- The loop of `AssertComponentEdgeTerminated`.
unfoldable pub expect_plain : List PortResult → Outcome Failure
expect_plain [] = passed
expect_plain (p ∷ ps) =
    let rest = expect_plain ps in expect (p.status == "NO_TLS") (not_plain p.port p.status) rest

unfoldable pub assert_component_edge_terminated : ScanResults → Text → Outcome Failure
assert_component_edge_terminated results deployment_name =
    elim (find_ip_result_by_pod_prefix results.ip_results deployment_name) [
      | none ↦ failed (no_pod (scanned_pods results.ip_results))
      | some r ↦ expect_plain r.port_results
    ]

-- `len(ip.PortResults) == 1 && ip.PortResults[0].Status == "NO_PORTS"`
unfoldable pub has_no_ports : List PortResult → Bool
has_no_ports [] = false
has_no_ports (p ∷ []) = p.status == "NO_PORTS"
has_no_ports (p ∷ q ∷ ps) = false

unfoldable pub assert_component_pqc_compliant_or_no_port : ScanResults → Text → Outcome Failure
assert_component_pqc_compliant_or_no_port results deployment_name =
    elim (find_ip_result_by_pod_prefix results.ip_results deployment_name) [
      | none ↦ failed (no_pod (scanned_pods results.ip_results))
      | some r ↦ if has_no_ports r.port_results then skipped else assert_port r
    ]
