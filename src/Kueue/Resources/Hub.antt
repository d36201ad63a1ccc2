-- ===== src/Kueue/Resources/Hub.antt =====
-- What pkg/tektonkueue/resources.go creates on the hub and waits for
-- (`createHubMultiKueueResources`, `createKueueEgressPolicy`, `waitForActive`,
-- `waitForKueueResources`), and the part of `Setup` of environment.go, from the namespaces to the
-- egress policy, that creates objects.
use release_tests_ginkgo.Prelude.{
  ℕ, ◌-◌, if◌then◌else◌, String, true, false, Option, none, some, List, [], ◌∷◌, map,
}
use release_tests_ginkgo.Prelude.Texts.{Text, ltb}
use Prim.Native.Nat.{◌%◌, ◌^◌}
use release_tests_ginkgo.Poll.{Verdict, Condition}
use release_tests_ginkgo.Kube.{
  Key, key, Object, ApiError, Reply, reply, refused, Server, Value, text, number, negative,
}
use release_tests_ginkgo.Kueue.Validation.{Cluster}
use release_tests_ginkgo.Kueue.Frameworks.{Item}
use release_tests_ginkgo.Kueue.Completion.{condition_is_true}
use release_tests_ginkgo.Kueue.Resources.{
  Failure, rejected, poll_failure, after, worker_name, delete_owned,
}
use release_tests_ginkgo.Kueue.Resources.Bodies.{
  fields, items, word, words, object, multi_kueue_cluster_spec, admission_check_spec,
}
use release_tests_ginkgo.Kueue.Resources.Create.{
  Step, and_then, each, Session, kueue_namespace, owned, create_tracked, create_namespace,
  create_dynamic,
}
use release_tests_ginkgo.Kueue.Resources.Scope.{Access}
use release_tests_ginkgo.Kueue.Resources.Build.{
  kube_config, create_kueue_controller_rbac, create_queues, create_worker_credential,
}
use release_tests_ginkgo.Kueue.Resources.Peers.{
  Net, Endpoint, Peers, Found, found, failed, spoke_api_peers,
}

unfoldable pub endpoint : Cluster → Endpoint
unfolding kube_config
endpoint spoke = record {
  spoke = spoke.name;
  host = elim (kube_config spoke) [ some c ↦ c.host | none ↦ [] ];
}

-- `intPort`: `intstr.FromInt` converts to 32 bits with a sign.
unfoldable pub int_port : ℕ → Value
int_port port =
    let low = port % 2 ^ 32 in if ltb low (2 ^ 31) then number low else negative (2 ^ 32 - low)

-- `networkPolicySpec` of the egress policy.
unfoldable pub egress_spec : Peers → Value
egress_spec peers =
    let to = map (λ c. fields (("ipBlock", fields (("cidr", text c) ∷ [])) ∷ [])) peers.cidrs in
    let ports =
      map (λ p. fields (("protocol", word "TCP") ∷ ("port", int_port p) ∷ [])) peers.ports in
    let selector =
      fields (("matchLabels", fields (("app.openshift.io/name", word "kueue") ∷ [])) ∷ []) in
    fields (
      ("podSelector", selector)
      ∷ ("policyTypes", words ("Egress" ∷ []))
      ∷ ("egress", items (fields (("to", items to) ∷ ("ports", items ports) ∷ []) ∷ []))
      ∷ [])

module _ {W : Type 0} {server : Server W} (e : Session W server) where
  unfoldable pub create_multi_kueue_cluster : String → Cluster → Step W
  create_multi_kueue_cluster hub spoke =
      let name = worker_name e.prefix spoke.name in
      create_dynamic e hub "multikueueclusters" [] name
        (object "MultiKueueCluster" name [] (some (multi_kueue_cluster_spec name)))

  unfoldable pub create_hub_multi_kueue_resources : String → List Cluster → Step W
  create_hub_multi_kueue_resources hub spokes r =
      let names = map (λ s. text (worker_name e.prefix s.name)) spokes in
      let config = fields (("clusters", items names) ∷ []) in
      and_then (each (create_multi_kueue_cluster hub) spokes r) λ r1.
        and_then
          (create_dynamic e hub "multikueueconfigs" [] e.prefix
            (object "MultiKueueConfig" e.prefix [] (some config)) r1)
          (create_dynamic e hub "admissionchecks" [] e.prefix
            (object "AdmissionCheck" e.prefix [] (some (admission_check_spec e.prefix))))

  unfoldable pub create_policy : String → Found Peers → Step W
  create_policy hub (failed x) r = (some (rejected "invalid API endpoint"), r)
  create_policy hub (found peers) r =
      let k = key hub "networkpolicies" kueue_namespace e.prefix in
      create_tracked server (delete_owned server e.prefix k) k
        (owned e (fields (("spec", egress_spec peers) ∷ []))) r

  unfoldable pub create_kueue_egress_policy : Net → String → List Cluster → Step W
  create_kueue_egress_policy net hub spokes =
      create_policy hub (spoke_api_peers net (map endpoint spokes))

  -- A cluster gets its namespace and the permissions of the controller.
  unfoldable pub prepare_cluster : Cluster → Step W
  prepare_cluster cluster r =
      and_then (create_namespace e cluster.name r) (create_kueue_controller_rbac e cluster.name)

  unfoldable pub prepare_spoke : Access server → String → Cluster → Step W
  prepare_spoke access hub spoke r =
      and_then (create_queues e false spoke.name r) (create_worker_credential e access hub spoke)

  -- `Setup`, from the namespaces to the egress policy.
  unfoldable pub create_resources : Access server → Net → Cluster → List Cluster → Step W
  create_resources access net hub spokes r = and_then (each prepare_cluster (hub ∷ spokes) r) λ r1.
      and_then (each (prepare_spoke access hub.name) spokes r1) λ r2.
        and_then (create_hub_multi_kueue_resources hub.name spokes r2) λ r3.
          and_then (create_queues e true hub.name r3)
            (create_kueue_egress_policy net hub.name spokes)

-- `conditions` reads `status.conditions` as `unstructured.NestedSlice` does.
module _ {W : Type 0} {server : Server W} (e : Session W server)
    (conditions : Object → List Item) where
  unfoldable pub active_verdict : Reply Object → Verdict ApiError
  active_verdict (refused x) = (false, none)
  active_verdict (reply o) = ((condition_is_true (conditions o) "Active").0, none)

  unfoldable pub active_condition : Key → Condition W ApiError
  active_condition k w = (active_verdict (server.get k w), server.pause w)

  unfoldable pub wait_for_active : String → String → Text → W → Option Failure × W
  wait_for_active cluster resource name w =
      let (outcome, v) = e.poller.poll (active_condition (key cluster resource [] name)) w in
      (poll_failure outcome, v)

  unfoldable pub wait_for_each :
      {A : Type 0} → (A → W → Option Failure × W) → List A → W → Option Failure × W
  wait_for_each wait [] w = (none, w)
  wait_for_each wait (x ∷ xs) w = after (wait x w) (wait_for_each wait xs)

  unfoldable pub wait_for_kueue_resources : Cluster → List Cluster → W → Option Failure × W
  wait_for_kueue_resources hub spokes w =
      after (wait_for_each (λ c. wait_for_active c.name "clusterqueues" e.prefix) (hub ∷ spokes) w)
        λ w1. after (wait_for_active hub.name "admissionchecks" e.prefix w1) (
          wait_for_each
            (λ s. wait_for_active hub.name "multikueueclusters" (worker_name e.prefix s.name))
            spokes)
