-- ===== src/Kueue/Resources/Build.antt =====
-- The functions of pkg/tektonkueue/resources.go that create several objects:
-- `createKueueControllerRBAC`, `createQueues` and `createWorkerCredential`.
use release_tests_ginkgo.Prelude.{String, Bool, Option, none, some, [], ◌∷◌, ◌++◌}
use release_tests_ginkgo.Prelude.Texts.{Text, codes}
use release_tests_ginkgo.Poll.{Outcome, success}
use release_tests_ginkgo.Kube.{key, ApiError, Reply, reply, refused, Server, Value, text}
use release_tests_ginkgo.Kueue.Validation.{Cluster, RestConfig}
use release_tests_ginkgo.Kueue.Resources.{Failure, api, rejected, poll_failure}
use release_tests_ginkgo.Kueue.Resources.{worker_name, delete_owned}
use release_tests_ginkgo.Kueue.Resources.Bodies.{
  fields, word, controller_role, worker_read_cluster_role, worker_write_role, binding, object,
  cluster_queue_spec,
}
use release_tests_ginkgo.Kueue.Resources.Create.{
  Step, and_then, Session, kueue_namespace, owned, create_plain, create_tracked, create_dynamic,
  create_cluster_role, create_cluster_role_binding, create_role, create_role_binding,
}
use release_tests_ginkgo.Kueue.Resources.Scope.{
  Access, ca_condition, scoped_kubeconfig, verify_worker_credential_scope,
}

-- `cluster.Clients.KubeConfig`
unfoldable pub kube_config : Cluster → Option RestConfig
kube_config cluster = elim cluster.clients [ some c ↦ c.kube_config | none ↦ none ]

module _ {W : Type 0} {server : Server W} (e : Session W server) where
  unfoldable pub create_kueue_controller_rbac : String → Step W
  create_kueue_controller_rbac cluster r =
      let name = e.prefix ++ codes "-kueue-controller" in
      let account = codes "kueue-controller-manager" in
      and_then (create_cluster_role e cluster name controller_role r) (
        create_cluster_role_binding e cluster name
          (binding "ClusterRole" name account kueue_namespace))

  unfoldable pub create_queues : Bool → String → Step W
  create_queues hub cluster r =
      let flavor = object "ResourceFlavor" e.prefix [] none in
      let cluster_queue =
        object "ClusterQueue" e.prefix [] (some (cluster_queue_spec e.prefix hub)) in
      let local_queue =
        object "LocalQueue" e.prefix e.namespace
          (some (fields (("clusterQueue", text e.prefix) ∷ []))) in
      and_then (create_dynamic e cluster "resourceflavors" [] e.prefix flavor r) λ r1.
        and_then (create_dynamic e cluster "clusterqueues" [] e.prefix cluster_queue r1)
          (create_dynamic e cluster "localqueues" e.namespace e.prefix local_queue)

  -- The service account of a worker and its permissions.
  unfoldable pub create_worker_account : Text → String → Step W
  create_worker_account name cluster r =
      let account = key cluster "serviceaccounts" e.namespace name in
      let read = binding "ClusterRole" name name e.namespace in
      let write = binding "Role" name name e.namespace in
      and_then (create_plain server account (owned e Value.empty) r) λ r1.
        and_then (create_cluster_role e cluster name worker_read_cluster_role r1) λ r2.
          and_then (create_cluster_role_binding e cluster name read r2) λ r3.
            and_then (create_role e cluster name worker_write_role r3)
              (create_role_binding e cluster name write)

  -- The Secret on the hub.
  unfoldable pub create_hub_secret : String → Text → Text → Step W
  create_hub_secret hub name kubeconfig =
      let k = key hub "secrets" kueue_namespace name in
      let data_fields = fields (("kubeconfig", text kubeconfig) ∷ []) in
      create_tracked server (delete_owned server e.prefix k) k
        (owned e (fields (("type", word "Opaque") ∷ ("data", data_fields) ∷ [])))

  -- From the verdict on the kubeconfig to the Secret.
  unfoldable pub store_credential : String → Text → Text → Option Failure × W → Step W
  store_credential hub name kubeconfig (some x, w) r =
      (some x, record { world = w; cleanups = r.cleanups })
  store_credential hub name kubeconfig (none, w) r =
      create_hub_secret hub name kubeconfig (record { world = w; cleanups = r.cleanups })

  module _ (access : Access server) where
    unfoldable pub check_credential : String → Text → Option Text → Step W
    check_credential hub name none r =
        (some (rejected "REST config, token, and CA are required"), r)
    check_credential hub name (some kubeconfig) r =
        store_credential hub name kubeconfig
          (verify_worker_credential_scope server access e.poller kubeconfig e.namespace r.world) r

    unfoldable pub after_ca :
        String → Text → Option RestConfig → Text → Outcome ApiError × (W × Text) → Step W
    after_ca hub name config token (success, (w, ca)) r =
        check_credential hub name (scoped_kubeconfig access.write config token ca)
          (record { world = w; cleanups = r.cleanups })
    after_ca hub name config token (outcome, (w, ca)) r =
        (poll_failure outcome, record { world = w; cleanups = r.cleanups })

    unfoldable pub after_token : String → Text → Cluster → Reply Text × W → Step W
    after_token hub name spoke (refused x, w) r =
        (some (api x), record { world = w; cleanups = r.cleanups })
    after_token hub name spoke (reply token, w) r =
        after_ca hub name (kube_config spoke) token
          (access.ca_poller.poll (ca_condition server access spoke.name e.namespace) (w, [])) r

    unfoldable pub create_worker_credential : String → Cluster → Step W
    create_worker_credential hub spoke r =
        let name = worker_name e.prefix spoke.name in
        and_then (create_worker_account name spoke.name r) λ r1.
          after_token hub name spoke (access.create_token spoke.name e.namespace name r1.world) r1
