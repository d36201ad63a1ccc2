-- ===== src/TlsScanner/Compliance.antt =====
-- What the assertions of pkg/tlsscanner/results.go accept.
use mathlib.Core.Path.{subst}
use text.Mathlib.TextEquality.{eq_iff}
use release_tests_ginkgo.Prelude.{String, true, false, none, some, List, [], ◌∷◌}
use release_tests_ginkgo.Prelude.{◌≡◌, ◌≢◌, ◌↔◌, inl, inr, refl, arith, string_eq}
use release_tests_ginkgo.Prelude.{Bool-cases, Option-cases}
use release_tests_ginkgo.Prelude.Texts.{Text}
use release_tests_ginkgo.Prelude.Lists.{All}
use release_tests_ginkgo.Ginkgo.{passed, skipped}
use release_tests_ginkgo.TlsScanner.Search.{First, named, serves_tls, find_ip_iff, find_port_iff}
use release_tests_ginkgo.TlsScanner.Results.{ApiServerCompliance, PortResult, IpResult, ScanResults}
use release_tests_ginkgo.TlsScanner.Results.{find_ip_result_by_pod_prefix, find_tls_serving_port}
use release_tests_ginkgo.TlsScanner.Results.{
  expect_compliant, assert_port, expect_plain, has_no_ports,
}
use release_tests_ginkgo.TlsScanner.Results.{
  assert_component_pqc_compliant, assert_component_edge_terminated,
}
use release_tests_ginkgo.TlsScanner.Results.{assert_component_pqc_compliant_or_no_port}

-- The five dimensions of compliance.
pub record IsCompliant (p : PortResult) : Type 0 where
  pub tls13 : p.tls13_supported ≡ true
  pub ml_kem : p.ml_kem_supported ≡ true
  pub honors :
      (c : ApiServerCompliance) × (p.api_server_compliance ≡ some c)
      × (c.version ≡ true)
      × (c.ciphers ≡ true)
  pub no_downgrade : p.tls_readiness.tls12_only ≡ false

expect_compliant_iff : (p : PortResult) → (expect_compliant p ≡ passed) ↔ IsCompliant p
unfolding expect_compliant
expect_compliant_iff p = elim (Option-cases p.api_server_compliance) [
  | inl absent ↦
      (λ h. absurd (ground arith), λ v. let (c, there, _, _) = v.honors in absurd (ground arith))
  | inr (c, there) ↦ (
    λ h. record {
      tls13 = ground arith;
      ml_kem = ground arith;
      honors = (c, there, ground arith, ground arith);
      no_downgrade = ground arith;
    },
    λ v.
        let (c', there', honored, honored') = v.honors in
        let same : c' ≡ c = ground arith in
        let tls13 = v.tls13 in
        let ml_kem = v.ml_kem in let no_downgrade = v.no_downgrade in ground arith,
  )
]

-- The first pod of the deployment serves TLS, and the first port that does complies.
abbrev pub Complies : ScanResults → Text → Type 0
Complies results deployment_name =
    (r : IpResult) × First (named deployment_name) results.ip_results r
    × (p : PortResult) × First serves_tls r.port_results p
    × IsCompliant p

assert_port_iff :
    (r : IpResult)
    → (assert_port r ≡ passed)
      ↔ ((p : PortResult) × First serves_tls r.port_results p × IsCompliant p)
unfolding assert_port
assert_port_iff r = elim (Option-cases (find_tls_serving_port r.port_results)) [
  | inl absent ↦ (
    λ h. absurd (ground arith),
    λ (p, first, c). let there = (find_port_iff r.port_results p).1 first in absurd (ground arith),
  )
  | inr (p, there) ↦
      let (go, back) = expect_compliant_iff p in
      (
        λ h. (p, (find_port_iff r.port_results p).0 there, go (ground arith)),
        λ (p', first, c).
            let there' = (find_port_iff r.port_results p').1 first in
            let same : p' ≡ p = ground arith in
            let accepted = back (subst IsCompliant same c) in ground arith,
      )
]

-- `AssertComponentPQCCompliant` passes exactly when the first pod whose name starts with that of
-- the deployment has a port of status OK, and the first such port offers TLS 1.3 and ML-KEM,
-- honors the cluster's version and ciphers, and does not serve TLS 1.2 only.
pub assert_component_pqc_compliant_iff :
    (results : ScanResults) (deployment_name : Text)
    → (assert_component_pqc_compliant results deployment_name ≡ passed)
      ↔ Complies results deployment_name
unfolding assert_component_pqc_compliant
assert_component_pqc_compliant_iff results deployment_name =
    elim (Option-cases (find_ip_result_by_pod_prefix results.ip_results deployment_name)) [
      | inl absent ↦ (
        λ h. absurd (ground arith),
        λ (r, first, _, _, _).
            let there = (find_ip_iff results.ip_results deployment_name r).1 first in
            absurd (ground arith),
      )
      | inr (r, there) ↦
          let (go, back) = assert_port_iff r in
          (
            λ h.
                let (p, first, c) = go (ground arith) in
                (r, (find_ip_iff results.ip_results deployment_name r).0 there, p, first, c),
            λ (r', first, p, f, c).
                let there' = (find_ip_iff results.ip_results deployment_name r').1 first in
                let same : r' ≡ r = ground arith in
                let accepted = back (
                  subst (λ x. (p : PortResult) × First serves_tls x.port_results p × IsCompliant p)
                    same (p, f, c)) in
                ground arith,
          )
    ]

expect_plain_iff :
    (ps : List PortResult) → (expect_plain ps ≡ passed) ↔ All (λ p. p.status ≡ "NO_TLS") ps
unfolding expect_plain
expect_plain_iff [] = (λ h. tt, λ h. refl)
expect_plain_iff (p ∷ ps) = ground (arith, expect_plain_iff ps)

-- `AssertComponentEdgeTerminated` passes exactly when the first pod of the deployment has no port
-- of another status than NO_TLS.
pub assert_component_edge_terminated_iff :
    (results : ScanResults) (deployment_name : Text)
    → (assert_component_edge_terminated results deployment_name ≡ passed) ↔ (
        (r : IpResult) × First (named deployment_name) results.ip_results r
        × All (λ p. p.status ≡ "NO_TLS") r.port_results)
unfolding assert_component_edge_terminated
assert_component_edge_terminated_iff results deployment_name =
    elim (Option-cases (find_ip_result_by_pod_prefix results.ip_results deployment_name)) [
      | inl absent ↦ (
        λ h. absurd (ground arith),
        λ (r, first, _).
            let there = (find_ip_iff results.ip_results deployment_name r).1 first in
            absurd (ground arith),
      )
      | inr (r, there) ↦
          let (go, back) = expect_plain_iff r.port_results in
          (
            λ h. (r, (find_ip_iff results.ip_results deployment_name r).0 there, go (ground arith)),
            λ (r', first, plain).
                let there' = (find_ip_iff results.ip_results deployment_name r').1 first in
                let same : r' ≡ r = ground arith in
                let accepted =
                  back (subst (λ x. All (λ p. p.status ≡ "NO_TLS") x.port_results) same plain) in
                ground arith,
          )
    ]

no_ports-ne-ok : (s : String) → s ≡ "NO_PORTS" → s ≢ "OK"
no_ports-ne-ok s = ground (arith, eq_iff "NO_PORTS" "OK")

no_ports-no_tls : (ps : List PortResult) → has_no_ports ps ≡ true → find_tls_serving_port ps ≡ none
unfolding has_no_ports find_tls_serving_port
no_ports-no_tls [] h = absurd (ground arith)
no_ports-no_tls (p ∷ []) h = ground (arith, no_ports-ne-ok p.status)
no_ports-no_tls (p ∷ q ∷ ps) h = absurd (ground arith)

assert_port-ne-skipped : (r : IpResult) → assert_port r ≢ skipped
unfolding assert_port expect_compliant
assert_port-ne-skipped r = ground arith

no_ports-fails : (r : IpResult) → has_no_ports r.port_results ≡ true → assert_port r ≢ passed
unfolding assert_port
no_ports-fails r alone = ground (arith, no_ports-no_tls r.port_results alone)

-- Of the two assertions, `AssertComponentPQCCompliantOrNoPort` passes exactly when
-- `AssertComponentPQCCompliant` does, and it skips exactly where the first pod of the deployment
-- has a single port result and that has the status NO_PORTS.
pub assert_component_pqc_compliant_or_no_port_iff :
    (results : ScanResults) (deployment_name : Text)
    → ((assert_component_pqc_compliant_or_no_port results deployment_name ≡ passed)
        ↔ (assert_component_pqc_compliant results deployment_name ≡ passed))
      × ((assert_component_pqc_compliant_or_no_port results deployment_name ≡ skipped) ↔ (
          (r : IpResult) × First (named deployment_name) results.ip_results r
          × (has_no_ports r.port_results ≡ true)))
unfolding assert_component_pqc_compliant_or_no_port assert_component_pqc_compliant
assert_component_pqc_compliant_or_no_port_iff results deployment_name =
    elim (Option-cases (find_ip_result_by_pod_prefix results.ip_results deployment_name)) [
      | inl absent ↦ (
        (λ h. absurd (ground arith), λ h. absurd (ground arith)),
        (
          λ h. absurd (ground arith),
          λ (r, first, _).
              let there = (find_ip_iff results.ip_results deployment_name r).1 first in
              absurd (ground arith),
        ),
      )
      | inr (r, there) ↦
          let first = (find_ip_iff results.ip_results deployment_name r).0 there in
          (
            (
              λ h. elim (Bool-cases (has_no_ports r.port_results)) [
                | inl alone ↦ absurd (ground arith)
                | inr open_port ↦ ground arith
              ],
              λ h. elim (Bool-cases (has_no_ports r.port_results)) [
                | inl alone ↦ absurd (no_ports-fails r alone (ground arith))
                | inr open_port ↦ ground arith
              ],
            ),
            (
              λ h. elim (Bool-cases (has_no_ports r.port_results)) [
                | inl alone ↦ (r, first, alone)
                | inr open_port ↦ absurd (assert_port-ne-skipped r (ground arith))
              ],
              λ (r', first', alone).
                  let there' = (find_ip_iff results.ip_results deployment_name r').1 first' in
                  let same : r' ≡ r = ground arith in
                  let alone' = subst (λ x. has_no_ports x.port_results ≡ true) same alone in
                  ground arith,
            ),
          )
    ]
