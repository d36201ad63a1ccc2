-- ===== src/Kueue/Resources/Tests.antt =====
-- The creations of pkg/tektonkueue on servers that answer from a map, with one spoke.
use native.Mathlib.Decide
use release_tests_ginkgo.Prelude.{
  String, Bool, true, false, inr, ◌≡◌, refl, Option, none, some, List, [], ◌∷◌,
}
use release_tests_ginkgo.Prelude.{text_eq, string_eq, if◌then◌else◌, ◌==◌}
use release_tests_ginkgo.Prelude.Texts.{codes}
use release_tests_ginkgo.Poll.Bounded.{bounded, run}
use release_tests_ginkgo.Kube.{namespace_of, Key, key, Object, reply, key_eq, Gone, empty}
use release_tests_ginkgo.Kube.Memory.{Memory, memory, put, is_root_ca}
use release_tests_ginkgo.Kube.Laws.{inside}
use release_tests_ginkgo.Kube.Retry.{bounded_retry, retry_bounded}
use release_tests_ginkgo.Kueue.Validation.{Cluster}
use release_tests_ginkgo.Kueue.Cleanup.{
  CleanupFunc, add_cleanup, settle, round, cleanup_loop, cleanup,
}
use release_tests_ginkgo.Kueue.Resources.{
  is_conflict, Failure, owned_labels, worker_name, label, owns, is_foreign, ignore_not_found,
  drop_subjects, gone_verdict, without_subjects, if_owned, gone_condition, wait_for_not_found,
  delete_object, delete_owned, remove_owned, delete_updated, unbind_once, unbind,
}
use release_tests_ginkgo.Kueue.Resources.Create.{
  Run, Session, and_then, each, track, go_on, if_absent, create_tracked, create_guarded,
  create_plain, owned, create_namespace, create_dynamic, create_cluster_role,
  create_cluster_role_binding, create_role, create_role_binding,
}
use release_tests_ginkgo.Kueue.Resources.Scope.{
  Access, Attributes, value_at, text_of, ca_of, scoped_kubeconfig, ca_verdict, ca_condition,
  scope_condition, scope_excess, after_scope, verify_worker_credential_scope,
}
use release_tests_ginkgo.Kueue.Resources.Build.{
  kube_config, create_kueue_controller_rbac, create_queues, create_worker_account,
  create_hub_secret, store_credential, check_credential, after_ca, after_token,
  create_worker_credential,
}
use release_tests_ginkgo.Kueue.Resources.Peers.{
  Net, collect_peers, endpoint_of, port_of, addresses_of, spoke_api_peers,
}
use release_tests_ginkgo.Kueue.Resources.Hub.{
  endpoint, create_multi_kueue_cluster, create_hub_multi_kueue_resources, create_policy,
  create_kueue_egress_policy, prepare_cluster, prepare_spoke, create_resources,
}
use release_tests_ginkgo.Kueue.Resources.Foreign.{Alien, Abroad, Spares}
use release_tests_ginkgo.Prelude.Lists.{All}
use release_tests_ginkgo.Kueue.Resources.Removed.{Leaves, create_resources-removed}
use release_tests_ginkgo.Kueue.Resources.Unharmed.{create_resources-cleanup}

abbrev session : Session Memory memory
session = record {
  prefix = codes "t";
  namespace = codes "t";
  poller = bounded 3;
  retrier = bounded_retry memory.pause is_conflict 3;
}

abbrev allowed : Attributes → Bool
allowed a = if a.namespace == codes "default" then false else a.verb == "create"

abbrev access : Access memory
access = record {
  create_token = λ cluster namespace name w. (reply (codes "token"), w);
  token_stored = λ cluster namespace name k w. unfold memory in refl;
  write = λ host token ca. some token;
  connect = λ kubeconfig. true;
  review = λ kubeconfig a w. reply (allowed a);
  ca_poller = bounded 3;
}

abbrev net : Net
net = record {
  parse_url = λ host. some (host, []);
  atoi = λ s. none;
  parse_ip = λ s. some (record { address = s; is_v4 = true });
  lookup_ip = λ s. none;
}

abbrev cluster : String → Cluster
cluster name = record {
  name = name;
  clients = some (record { kube_config = some (record { host = codes name }) });
}

-- A namespace of others with a ConfigMap, before the run.
abbrev others : Object
others = record { labels = []; uid = codes "9"; deleting = false; body = empty }

abbrev home_key : Key
home_key = key "s" "namespaces" [] (codes "others")

abbrev others_key : Key
others_key = key "s" "configmaps" (codes "others") (codes "settings")

abbrev start : Run Memory
start = record {
  world = put others_key (some others) (put home_key (some others) (λ k. none));
  cleanups = [];
}

abbrev finished : Option Failure × Run Memory
finished = create_resources session access net (cluster "h") (cluster "s" ∷ []) start

abbrev left : Option Failure × List (CleanupFunc Memory Failure) × Memory
left = let s = finished.1 in cleanup s.cleanups s.world

setup_succeeds : finished.0 ≡ none
unfolding create_resources and_then each prepare_cluster prepare_spoke create_namespace
    create_guarded create_tracked track go_on create_plain if_absent owned owned_labels memory put
    key key_eq text_eq native.Mathlib.Decide.ℕ_discrete create_kueue_controller_rbac
    create_cluster_role create_cluster_role_binding create_queues create_dynamic
    create_worker_credential create_worker_account create_role create_role_binding after_token
    after_ca check_credential store_credential create_hub_secret create_hub_multi_kueue_resources
    create_multi_kueue_cluster create_kueue_egress_policy create_policy spoke_api_peers
    collect_peers endpoint_of port_of addresses_of endpoint kube_config ca_condition ca_verdict
    ca_of value_at text_of string_eq scoped_kubeconfig verify_worker_credential_scope after_scope
    scope_excess scope_condition worker_name add_cleanup run namespace_of is_root_ca
setup_succeeds = refl

cleanup_succeeds : left.0 ≡ none
unfolding create_resources and_then each prepare_cluster prepare_spoke create_namespace
    create_guarded create_tracked track go_on create_plain if_absent owned owned_labels memory put
    key key_eq text_eq native.Mathlib.Decide.ℕ_discrete create_kueue_controller_rbac
    create_cluster_role create_cluster_role_binding create_queues create_dynamic
    create_worker_credential create_worker_account create_role create_role_binding after_token
    after_ca check_credential store_credential create_hub_secret create_hub_multi_kueue_resources
    create_multi_kueue_cluster create_kueue_egress_policy create_policy spoke_api_peers
    collect_peers endpoint_of port_of addresses_of endpoint kube_config ca_condition ca_verdict
    ca_of value_at text_of string_eq scoped_kubeconfig verify_worker_credential_scope after_scope
    scope_excess scope_condition worker_name add_cleanup run cleanup cleanup_loop round settle
    if_owned is_foreign owns label delete_owned remove_owned delete_object ignore_not_found
    wait_for_not_found gone_condition gone_verdict unbind unbind_once delete_updated
    without_subjects drop_subjects retry_bounded namespace_of is_root_ca
cleanup_succeeds = refl

abbrev namespace_key : Key
namespace_key = key "s" "namespaces" [] (codes "t")

abbrev account_key : Key
account_key = key "s" "serviceaccounts" (codes "t") (codes "t-s")

-- The service account of the worker has no cleanup; its namespace has one.
create_resources-removed_example : (Gone (left.2 namespace_key)) × Leaves memory account_key left.2
unfolding memory put key key_eq namespace_of is_root_ca text_eq native.Mathlib.Decide.ℕ_discrete
    string_eq
create_resources-removed_example =
    create_resources-removed session access net (cluster "h") (cluster "s" ∷ []) account_key
      namespace_key start left.1 left.2 (inr refl) refl refl refl tt
      (λ i. (cleanup_succeeds i, left.1, left.2))

stranger : Alien session.prefix others
unfolding owns label string_eq text_eq native.Mathlib.Decide.ℕ_discrete
stranger = record { unowned = refl; alive = refl }

abroad : Abroad session.prefix others_key
unfolding namespace_of key
abroad = inside home_key others refl stranger refl

create_resources-cleanup_example :
    (finished.1.world others_key ≡ some others)
    × (left.2 others_key ≡ some others)
    × All (Spares memory session.prefix others_key others stranger abroad) left.1
unfolding memory put key key_eq abroad text_eq native.Mathlib.Decide.ℕ_discrete
create_resources-cleanup_example =
    create_resources-cleanup session access net (cluster "h") (cluster "s" ∷ []) others_key others
      stranger abroad start (refl, refl) tt
