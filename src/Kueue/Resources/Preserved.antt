-- ===== src/Kueue/Resources/Preserved.antt =====
-- An invariant of the calls of the servers holds after the part of `Setup` of pkg/tektonkueue that
-- creates objects.
use mathlib.Core.Path.{subst}
use release_tests_ginkgo.Prelude.{
  String, Bool, true, false, ◌≡◌, refl, sym, Option, none, some, List, [], ◌∷◌, inl, inr,
  Bool-cases, text_eq,
}
use release_tests_ginkgo.Prelude.Texts.{Text}
use release_tests_ginkgo.Poll.{Outcome, success, stopped, timed_out, Poller, Polls-keeps}
use release_tests_ginkgo.Kube.{ApiError, Reply, reply, refused, Server}
use release_tests_ginkgo.Kueue.Validation.{Cluster, RestConfig}
use release_tests_ginkgo.Kueue.Resources.{Failure, worker_name}
use release_tests_ginkgo.Kueue.Resources.Create.{Run, Session, owned}
use release_tests_ginkgo.Kueue.Resources.Scope.{
  Access, ca_condition, scope_condition, after_scope, verify_worker_credential_scope,
}
use release_tests_ginkgo.Kueue.Resources.Build.{
  kube_config, create_hub_secret, store_credential, check_credential, after_ca, after_token,
  create_worker_credential,
}
use release_tests_ginkgo.Kueue.Resources.Peers.{Net, Peers, Found, found, failed}
use release_tests_ginkgo.Kueue.Resources.Hub.{
  create_multi_kueue_cluster, create_hub_multi_kueue_resources, create_policy,
  create_kueue_egress_policy, prepare_cluster, prepare_spoke, create_resources,
}
use release_tests_ginkgo.Kueue.Resources.Stable.{
  Stable, at, Keeps, and_then-Keeps, each-Keeps, create_namespace-Keeps, create_dynamic-Keeps,
  create_kueue_controller_rbac-Keeps, create_queues-Keeps, create_worker_account-Keeps,
}

module _ {W : Type 0} {server : Server W} (e : Session W server) (access : Access server)
    (I : Run W → Type 0) (stable : Stable e access I) where
  create_hub_secret-Keeps :
      (hub : String) (name kubeconfig : Text)
      → Keeps e access I stable (create_hub_secret e hub name kubeconfig)
  unfolding create_hub_secret
  create_hub_secret-Keeps hub name kubeconfig r h = stable.deleted _ _ r (unfold owned in refl) h

  -- What a poll leaves of the clusters.
  polled :
      {S E : Type 0} (r : Run W) (world : S → W) (c : S → (Bool × Option E) × S)
      (poller : Poller S E) (s : S)
      → ((s : S) → world (c s).1 ≡ server.pause (world s))
      → I (at r (world s))
      → I (at r (world (poller.poll c s).1))
  polled r world c poller s step h =
      Polls-keeps (λ t. I (at r (world t)))
        (λ t k. subst (λ w. I (at r w)) (sym (step t)) (stable.paused r (world t) k))
        (poller.poll_polls c s) h

  after_scope-world :
      (kubeconfig namespace : Text) (x : Outcome ApiError × W)
      → (after_scope server access kubeconfig namespace x).1 ≡ x.1
  unfolding after_scope
  after_scope-world kubeconfig namespace (success, w) = refl
  after_scope-world kubeconfig namespace (stopped x, w) = refl
  after_scope-world kubeconfig namespace (timed_out, w) = refl

  verify-Keeps :
      (r : Run W) (kubeconfig : Text)
      → I r
      → I (
          at r
            (verify_worker_credential_scope server access e.poller kubeconfig e.namespace
              r.world).1)
  unfolding verify_worker_credential_scope
  verify-Keeps r kubeconfig h = elim (Bool-cases (access.connect kubeconfig)) [
    | inl ok ↦
        let c = scope_condition server access kubeconfig e.namespace in
        rw ok (
          subst (λ w. I (at r w))
            (sym (after_scope-world kubeconfig e.namespace (e.poller.poll c r.world)))
            (polled r (λ w. w) c e.poller r.world (λ w. unfold scope_condition in refl) h))
    | inr bad ↦ rw bad h
  ]

  store_credential-Keeps :
      (hub : String) (name kubeconfig : Text) (x : Option Failure × W) (r : Run W)
      → I (at r x.1)
      → I (store_credential e hub name kubeconfig x r).1
  unfolding store_credential
  store_credential-Keeps hub name kubeconfig (some x, w) r h = h
  store_credential-Keeps hub name kubeconfig (none, w) r h =
      create_hub_secret-Keeps hub name kubeconfig (at r w) h

  check_credential-Keeps :
      (hub : String) (name : Text) (kubeconfig : Option Text)
      → Keeps e access I stable (check_credential e access hub name kubeconfig)
  unfolding check_credential
  check_credential-Keeps hub name none r h = h
  check_credential-Keeps hub name (some kubeconfig) r h =
      store_credential-Keeps hub name kubeconfig _ r (verify-Keeps r kubeconfig h)

  after_ca-Keeps :
      (hub : String) (name : Text) (config : Option RestConfig) (token : Text)
      (x : Outcome ApiError × (W × Text)) (r : Run W)
      → I (at r (x.1).0)
      → I (after_ca e access hub name config token x r).1
  unfolding after_ca
  after_ca-Keeps hub name config token (success, (w, ca)) r h =
      check_credential-Keeps hub name _ (at r w) h
  after_ca-Keeps hub name config token (stopped x, (w, ca)) r h = h
  after_ca-Keeps hub name config token (timed_out, (w, ca)) r h = h

  after_token-Keeps :
      (hub : String) (name : Text) (spoke : Cluster) (x : Reply Text × W) (r : Run W)
      → I (at r x.1)
      → I (after_token e access hub name spoke x r).1
  unfolding after_token
  after_token-Keeps hub name spoke (refused x, w) r h = h
  after_token-Keeps hub name spoke (reply token, w) r h =
      let c = ca_condition server access spoke.name e.namespace in
      after_ca-Keeps hub name (kube_config spoke) token (access.ca_poller.poll c (w, [])) r
        (polled r (λ s. s.0) c access.ca_poller (w, []) (λ s. unfold ca_condition in refl) h)

  create_worker_credential-Keeps :
      (hub : String) (spoke : Cluster)
      → Keeps e access I stable (create_worker_credential e access hub spoke)
  unfolding create_worker_credential
  create_worker_credential-Keeps hub spoke r h =
      let name = worker_name e.prefix spoke.name in
      and_then-Keeps e access I stable _ _
        (create_worker_account-Keeps e access I stable name spoke.name r h)
        λ r1 h1.
          after_token-Keeps hub name spoke _ r1 (stable.token r1 spoke.name e.namespace name h1)

  create_hub_multi_kueue_resources-Keeps :
      (hub : String) (spokes : List Cluster)
      → Keeps e access I stable (create_hub_multi_kueue_resources e hub spokes)
  unfolding create_hub_multi_kueue_resources create_multi_kueue_cluster
  create_hub_multi_kueue_resources-Keeps hub spokes r h =
      and_then-Keeps e access I stable _ _
        (each-Keeps e access I stable (create_multi_kueue_cluster e hub) spokes
          (λ s. create_dynamic-Keeps e access I stable hub _ _ _ _) r h)
        λ r1 h1.
          and_then-Keeps e access I stable _ _
            (create_dynamic-Keeps e access I stable hub _ _ _ _ r1 h1)
            (create_dynamic-Keeps e access I stable hub _ _ _ _)

  create_policy-Keeps :
      (hub : String) (x : Found Peers) → Keeps e access I stable (create_policy e hub x)
  unfolding create_policy
  create_policy-Keeps hub (failed x) r h = h
  create_policy-Keeps hub (found peers) r h = stable.deleted _ _ r (unfold owned in refl) h

  prepare_cluster-Keeps : (cluster : Cluster) → Keeps e access I stable (prepare_cluster e cluster)
  unfolding prepare_cluster
  prepare_cluster-Keeps cluster r h =
      and_then-Keeps e access I stable _ _
        (create_namespace-Keeps e access I stable cluster.name r h)
        (create_kueue_controller_rbac-Keeps e access I stable cluster.name)

  prepare_spoke-Keeps :
      (hub : String) (spoke : Cluster) → Keeps e access I stable (prepare_spoke e access hub spoke)
  unfolding prepare_spoke
  prepare_spoke-Keeps hub spoke r h =
      and_then-Keeps e access I stable _ _
        (create_queues-Keeps e access I stable false spoke.name r h)
        (create_worker_credential-Keeps hub spoke)

  -- An invariant of the calls holds after the part of `Setup` that creates objects, at whichever
  -- step this stops.
  pub create_resources-Keeps :
      (net : Net) (hub : Cluster) (spokes : List Cluster)
      → Keeps e access I stable (create_resources e access net hub spokes)
  unfolding create_resources create_kueue_egress_policy
  create_resources-Keeps net hub spokes r h =
      and_then-Keeps e access I stable _ _
        (each-Keeps e access I stable (prepare_cluster e) (hub ∷ spokes) prepare_cluster-Keeps r h)
        λ r1 h1.
          and_then-Keeps e access I stable _ _
            (each-Keeps e access I stable (prepare_spoke e access hub.name) spokes
              (prepare_spoke-Keeps hub.name) r1 h1)
            λ r2 h2.
              and_then-Keeps e access I stable _ _
                (create_hub_multi_kueue_resources-Keeps hub.name spokes r2 h2)
                λ r3 h3.
                  and_then-Keeps e access I stable _ _
                    (create_queues-Keeps e access I stable true hub.name r3 h3)
                    (create_policy-Keeps hub.name _)
