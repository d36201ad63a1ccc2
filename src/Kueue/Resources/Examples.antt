-- ===== src/Kueue/Resources/Examples.antt =====
-- The credential of a worker and the peers of the egress policy, on concrete answers.
use native.Mathlib.Decide
use release_tests_ginkgo.Prelude.{
  ℕ, Bool, true, false, ◌≡◌, ◌↔◌, refl, Option, none, some, List, [], ◌∷◌,
}
use release_tests_ginkgo.Prelude.{text_eq, string_eq, if◌then◌else◌, ◌==◌, nat_eq}
use release_tests_ginkgo.Prelude.Texts.{Text, codes}
use release_tests_ginkgo.Prelude.Lists.{All, Any}
use release_tests_ginkgo.Poll.{Pending}
use release_tests_ginkgo.Poll.Bounded.{bounded, run}
use release_tests_ginkgo.Kube.{reply}
use release_tests_ginkgo.Kube.Memory.{Memory, memory}
use release_tests_ginkgo.Kube.Retry.{bounded_retry}
use release_tests_ginkgo.Kueue.Resources.{Failure, is_conflict}
use release_tests_ginkgo.Kueue.Resources.Create.{Session}
use release_tests_ginkgo.Kueue.Resources.Scope.{
  Access, Attributes, scope_condition, scope_excess, after_scope, verify_worker_credential_scope,
}
use release_tests_ginkgo.Kueue.Resources.Peers.{
  Ip, Net, Endpoint, Peers, cidr, add_cidrs, collect_peers, endpoint_of, port_of, addresses_of,
  spoke_api_peers,
}
use release_tests_ginkgo.Kueue.Resources.Credential.{Scoped, verify_worker_credential_scope-Scoped}
use release_tests_ginkgo.Kueue.Resources.Allowed.{In}
use release_tests_ginkgo.Kueue.Resources.Permits.{
  Resolves, HasRange, HasPort, spoke_api_peers-Resolves,
}

-- A credential that may create in the namespace `t`, and read Secrets if `leaks`.
abbrev allowed : Bool → Attributes → Bool
allowed leaks a = if a.verb == "create" then a.namespace == codes "t" else leaks

abbrev access : Bool → Access memory
access leaks = record {
  create_token = λ cluster namespace name w. (reply (codes "token"), w);
  token_stored = λ cluster namespace name k w. unfold memory in refl;
  write = λ host token ca. some token;
  connect = λ kubeconfig. true;
  review = λ kubeconfig a w. reply (allowed leaks a);
  ca_poller = bounded 3;
}

abbrev session : Session Memory memory
session = record {
  prefix = codes "t";
  namespace = codes "t";
  poller = bounded 3;
  retrier = bounded_retry memory.pause is_conflict 3;
}

abbrev nothing : Memory
nothing k = none

abbrev verified : Bool → Option Failure × Memory
verified leaks =
    verify_worker_credential_scope memory (access leaks) (bounded 3) (codes "k") (codes "t") nothing

verify_worker_credential_scope-Scoped_example :
    (v : Memory) × Pending (scope_condition memory (access false) (codes "k") (codes "t")) nothing v
    × (memory.pause v ≡ memory.pause nothing)
    × Scoped (access false) (codes "k") (codes "t") v (memory.pause nothing)
unfolding verify_worker_credential_scope after_scope scope_excess scope_condition run string_eq
    text_eq native.Mathlib.Decide.ℕ_discrete
verify_worker_credential_scope-Scoped_example =
    verify_worker_credential_scope-Scoped (access false) (codes "k") (codes "t") (bounded 3) nothing
      (memory.pause nothing) refl

-- Every host is an address, and its port is 6443.
abbrev net : Net
net = record {
  parse_url = λ host. some (host, codes "6443");
  atoi = λ s. some 6443;
  parse_ip = λ s. some (record { address = s; is_v4 = true });
  lookup_ip = λ s. none;
}

abbrev spokes : List Endpoint
spokes =
    record { spoke = "a"; host = codes "10.0.0.1" }
    ∷ record { spoke = "b"; host = codes "10.0.0.2" }
    ∷ record { spoke = "c"; host = codes "10.0.0.1" }
    ∷ []

abbrev peers : Peers
peers = record { cidrs = codes "10.0.0.1/32" ∷ codes "10.0.0.2/32" ∷ []; ports = 6443 ∷ [] }

spoke_api_peers-Resolves_example :
    ((c : Text) → In c peers.cidrs ↔ Any (HasRange net c) spokes)
    × ((p : ℕ) → In p peers.ports ↔ Any (HasPort net p) spokes)
    × All (λ e. (n : ℕ) × (ips : List Ip) × Resolves net e n ips) spokes
unfolding spoke_api_peers collect_peers endpoint_of port_of addresses_of add_cidrs cidr text_eq
    nat_eq native.Mathlib.Decide.ℕ_discrete
spoke_api_peers-Resolves_example = spoke_api_peers-Resolves net spokes peers refl
