-- ===== src/Multicluster/Register.antt =====
-- `ensureKueueCR` and `ensureSelfWorkerCluster` of pkg/multicluster/multicluster.go, composed from
-- what they create, and the polls that they end with.
use release_tests_ginkgo.Prelude.{
  String, Bool, false, Option, none, some, List, [], ◌∷◌, if◌then◌else◌,
}
use release_tests_ginkgo.Prelude.Texts.{Text, codes, null}
use release_tests_ginkgo.Poll.{Verdict, Condition, Poller}
use release_tests_ginkgo.Kube.{
  Key, key, Object, ApiError, not_found, Reply, reply, refused, Server, Value, text,
}
use release_tests_ginkgo.Kueue.Frameworks.{Item}
use release_tests_ginkgo.Kueue.Resources.{api, rejected, poll_failure}
use release_tests_ginkgo.Kueue.Resources.Bodies.{fields, word, words, multi_kueue_cluster_spec}
use release_tests_ginkgo.Kueue.Resources.Scope.{Access, ca_of}
use release_tests_ginkgo.Multicluster.Ensure.{
  Step, moved, and_then, owned, has_condition, ensure_worker_namespace, ensure_worker_account,
  with_kueue, ensure_secret, ensure_cluster,
}

unfoldable pub kueue_body : Value
kueue_body = fields (
    (
      "spec",
      fields (
          (
            "config",
            fields (("integrations", fields (("frameworks", words ("Deployment" ∷ [])) ∷ [])) ∷ []),
          )
          ∷ ("managementState", word "Managed")
          ∷ []),
    )
    ∷ [])

abbrev pub kueue_key : Key
kueue_key = key "" "kueues" [] (codes "cluster")

unfoldable pub kueue_created : {W : Type 0} → Reply Object × W → Step W
kueue_created (refused x, w) r = (some (api x), moved r w)
kueue_created (reply o, w) r = (none, with_kueue r w o.uid)

-- A Kueue CR that exists is left untouched.
unfoldable pub create_kueue : {W : Type 0} → Server W → Reply Object → Step W
create_kueue server (reply o) r = (none, r)
create_kueue server (refused not_found) r =
    kueue_created (server.create kueue_key (owned r.env kueue_body) r.world) r
create_kueue server (refused x) r = (some (api x), r)

-- `status.conditions`, and whether the kueue.x-k8s.io resources can be listed, as the libraries
-- answer.
pub record Watch (W : Type 0) : Type 0 where
  pub conditions : Object → List Item
  pub listed : W → Bool
  pub poller : Poller W ApiError

module _ {W : Type 0} (server : Server W) (watch : Watch W) where
  unfoldable pub has_verdict : String → Reply Object → Verdict ApiError
  has_verdict type (refused x) = (false, none)
  has_verdict type (reply o) = (has_condition type (watch.conditions o), none)

  unfoldable pub condition_of : String → Key → Condition W ApiError
  condition_of type k w = (has_verdict type (server.get k w), server.pause w)

  unfoldable pub listed_condition : Condition W ApiError
  listed_condition w = ((watch.listed w, none), server.pause w)

  unfoldable pub await : Condition W ApiError → Step W
  await c r = let (outcome, w) = watch.poller.poll c r.world in (poll_failure outcome, moved r w)

  unfoldable pub ensure_kueue_cr : Step W
  ensure_kueue_cr r =
      and_then (create_kueue server (server.get kueue_key r.world) r)
        λ r1. and_then (await (condition_of "Available" kueue_key) r1) (await listed_condition)

  -- The Secret, the MultiKueueCluster, and the wait until it is active.
  unfoldable pub register_worker : Option Text → Step W
  register_worker none r = (some (rejected "serialize the self worker kubeconfig"), r)
  register_worker (some kubeconfig) r =
      let body = fields (("spec", multi_kueue_cluster_spec r.env.worker_name) ∷ []) in
      and_then (ensure_secret server (fields (("kubeconfig", text kubeconfig) ∷ [])) r) λ r1.
        and_then (ensure_cluster server body r1)
          λ r2. await (condition_of "Active" (key "" "multikueueclusters" [] r2.env.worker_name)) r2

  module _ (access : Access server) where
    unfoldable pub with_token : Text → Reply Text × W → Step W
    with_token ca (refused x, w) r = (some (api x), moved r w)
    with_token ca (reply token, w) r =
        let register =
          register_worker (access.write (codes "https://kubernetes.default.svc:443") token ca)
            (moved r w) in
        if null token then (some (rejected "worker token is empty"), moved r w) else register

    -- The namespace, the account and its token.
    unfoldable pub with_ca : Text → Step W
    with_ca ca r = and_then (ensure_worker_namespace server r) λ r1.
        and_then (ensure_worker_account server r1.env.worker_name r1) λ r2.
          let name = r2.env.worker_name in
          with_token ca (access.create_token "" name name r2.world) r2

    unfoldable pub read_ca : Reply Object → Step W
    read_ca (refused x) r = (some (api x), r)
    read_ca (reply o) r =
        let rest = with_ca (ca_of o) r in
        if null (ca_of o) then (some (rejected "kube-root-ca.crt has no ca.crt"), r) else rest

    unfoldable pub ensure_self_worker_cluster : Step W
    ensure_self_worker_cluster r =
        let k = key "" "configmaps" r.env.kueue_namespace (codes "kube-root-ca.crt") in
        read_ca (server.get k r.world) r

    -- `Setup`, after the operators are installed and the TektonConfig is snapshotted.
    unfoldable pub set_up_worker : Step W
    set_up_worker r = and_then (ensure_kueue_cr r) ensure_self_worker_cluster
