-- ===== src/Kueue/Validation.antt =====
-- `validate` of pkg/tektonkueue/environment.go.
pub mod Accepts
mod Tests
use release_tests_ginkgo.Prelude.{
  String, Bool, true, false, Option, none, some, List, [], ◌∷◌, ◌++◌,
}
use release_tests_ginkgo.Prelude.{◌==◌, string_eq, text_eq, if◌then◌else◌}
use release_tests_ginkgo.Prelude.Texts.{Text, codes, null, eqb}

pub record RestConfig : Type 0 where
  pub host : Text

pub record Clients : Type 0 where
  pub kube_config : Option RestConfig

pub record Cluster : Type 0 where
  pub name : String
  pub clients : Option Clients

pub record Environment : Type 0 where
  pub hub : Cluster
  pub spokes : List Cluster
  pub prefix : Text

pub data Invalid : Type 0 where
  invalid_prefix : Invalid
  no_spoke : Invalid
  incomplete_cluster : Invalid
  same_api_server : String → String → Invalid

unfoldable pub clusters : Environment → List Cluster
clusters e = e.hub ∷ e.spokes

-- `strings.TrimSuffix(s, "/")`
unfoldable pub trim_slash : Text → Text
trim_slash [] = []
trim_slash (c ∷ s) =
    let rest = trim_slash s in if null s then (if eqb c b'/' then [] else c ∷ []) else c ∷ rest

-- `cluster.Clients.KubeConfig.Host`, where the guard of the loop lets the program read it.
unfoldable pub host_of : Cluster → Option Text
host_of cluster = if cluster.name == "" then none else elim cluster.clients [
  | none ↦ none
  | some c ↦ elim c.kube_config [ none ↦ none | some k ↦ some k.host ]
]

-- `hosts[host]`
unfoldable pub previous : Text → List (Text × String) → Option String
previous host [] = none
previous host ((h, name) ∷ hosts) = if h == host then some name else previous host hosts

-- The loop over the clusters, with the map of the hosts so far.
unfoldable pub check_hosts : List Cluster → List (Text × String) → Option Invalid
check_hosts [] hosts = none
check_hosts (cluster ∷ rest) hosts = elim (host_of cluster) [
  | none ↦ some incomplete_cluster
  | some h ↦
      let host = trim_slash h in
      elim (previous host hosts) [
        | some name ↦ some (same_api_server name cluster.name)
        | none ↦ check_hosts rest ((host, cluster.name) ∷ hosts)
      ]
]

-- `validation.IsDNS1123Label` is of k8s.io/apimachinery: whether it reports no error.
unfoldable pub validate : (Text → Bool) → Environment → Option Invalid
validate is_dns_label e =
    if is_dns_label e.prefix
    then (if null e.spokes then some no_spoke else check_hosts (clusters e) [])
    else some invalid_prefix
