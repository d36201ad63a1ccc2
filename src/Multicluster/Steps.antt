-- ===== src/Multicluster/Steps.antt =====
-- What the set-up of the worker of a Hub-mode test run of pkg/multicluster keeps.
use mathlib.Core.Path.{subst}
use release_tests_ginkgo.Prelude.{ap, ◌≡◌, refl, sym, Option, none, some, [], inl, inr, Bool-cases}
use release_tests_ginkgo.Prelude.{text_eq}
use release_tests_ginkgo.Prelude.Texts.{Text, null}
use release_tests_ginkgo.Poll.{Condition, Polls-keeps}
use release_tests_ginkgo.Kube.{
  key, key_eq, Object, ApiError, not_found, already_exists, conflict, other, Reply, reply, refused,
  Server,
}
use release_tests_ginkgo.Kueue.Resources.Scope.{Access, ca_of}
use release_tests_ginkgo.Multicluster.{Environment}
use release_tests_ginkgo.Multicluster.Ensure.{Run, moved, ensure_worker_namespace}
use release_tests_ginkgo.Multicluster.Register.{
  Watch, condition_of, listed_condition, await, kueue_created, create_kueue, ensure_kueue_cr,
  kueue_key, register_worker, with_token, with_ca, read_ca, ensure_self_worker_cluster,
  set_up_worker,
}
use release_tests_ginkgo.Multicluster.Stable.{
  Stable, Same, Spared, Keeps, and_then-Spared, create_or_adopt-Spared,
  ensure_worker_account-Spared, ensure_secret-Spared, ensure_cluster-Spared,
}

module _ {W : Type 0} (server : Server W) (P : W → Type 0) (start : Environment)
    (stable : Stable server P start) (watch : Watch W) where
  await-Spared :
      (c : Condition W ApiError)
      → ((w : W) → (c w).1 ≡ server.pause w)
      → Keeps server P start stable (await server watch c)
  unfolding await
  await-Spared c step r (h, p) = (
    Polls-keeps {c = c} P (λ w s. subst P (sym (step w)) (stable.paused w s))
        (watch.poller.poll_polls c r.world) h,
    p,
  )

  kueue_created-Spared :
      (x : Reply Object × W) (r : Run W)
      → P x.1
      → Same start r.env
      → Spared server P start stable (kueue_created x r).1
  unfolding kueue_created
  kueue_created-Spared (refused x, w) r s p = (s, p)
  kueue_created-Spared (reply c, w) r s p = (s, p)

  create_kueue-Spared : (x : Reply Object) → Keeps server P start stable (create_kueue server x)
  unfolding create_kueue
  create_kueue-Spared (reply c) r h = h
  create_kueue-Spared (refused already_exists) r h = h
  create_kueue-Spared (refused conflict) r h = h
  create_kueue-Spared (refused (other e)) r h = h
  create_kueue-Spared (refused not_found) r (h, p) =
      kueue_created-Spared (server.create _ _ r.world) r (stable.created _ _ r.world (inl refl) h) p

  ensure_kueue_cr-Spared : Keeps server P start stable (ensure_kueue_cr server watch)
  unfolding ensure_kueue_cr
  ensure_kueue_cr-Spared r h =
      and_then-Spared server P start stable _ _ (create_kueue-Spared _ r h) λ r1 h1.
        and_then-Spared server P start stable _ _
          (await-Spared (condition_of server watch "Available" kueue_key)
            (λ w. unfold condition_of in refl) r1 h1)
          (await-Spared (listed_condition server watch) (λ w. unfold listed_condition in refl))

  register_worker-Spared :
      (x : Option Text) → Keeps server P start stable (register_worker server watch x)
  unfolding register_worker
  register_worker-Spared none r h = h
  register_worker-Spared (some kubeconfig) r h =
      and_then-Spared server P start stable _ _ (ensure_secret-Spared server P start stable _ r h)
        λ r1 h1.
          and_then-Spared server P start stable _ _
            (ensure_cluster-Spared server P start stable _ r1 h1)
            λ r2 h2.
              let k2 = key "" "multikueueclusters" [] r2.env.worker_name in
              await-Spared (condition_of server watch "Active" k2)
                (λ w. unfold condition_of in refl) r2 h2

  module _ (access : Access server) where
    with_token-Spared :
        (ca : Text) (x : Reply Text × W) (r : Run W)
        → P x.1
        → Same start r.env
        → Spared server P start stable (with_token server watch access ca x r).1
    unfolding with_token
    with_token-Spared ca (refused x, w) r s p = (s, p)
    with_token-Spared ca (reply token, w) r s p = elim (Bool-cases (null token)) [
      | inl no_token ↦ rw no_token (s, p)
      | inr token ↦ rw token (register_worker-Spared _ (moved r w) (s, p))
    ]

    with_ca-Spared : (ca : Text) → Keeps server P start stable (with_ca server watch access ca)
    unfolding with_ca ensure_worker_namespace
    with_ca-Spared ca r (h, p) =
        and_then-Spared server P start stable _ _
          (create_or_adopt-Spared server P start stable _ _
            (inr (inl (ap (key "" "namespaces" []) p.1))) r (h, p))
          λ r1 (h1, p1).
            and_then-Spared server P start stable _ _
              (ensure_worker_account-Spared server P start stable _ p1.1 r1 (h1, p1))
              λ r2 (h2, p2).
                let name = r2.env.worker_name in
                with_token-Spared ca _ r2
                  (stable.token (access.create_token "" name name r2.world).1 r2.world
                    (λ i. access.token_stored "" name name i r2.world) h2)
                  p2

    read_ca-Spared :
        (x : Reply Object) → Keeps server P start stable (read_ca server watch access x)
    unfolding read_ca
    read_ca-Spared (refused x) r h = h
    read_ca-Spared (reply c) r h = elim (Bool-cases (null (ca_of c))) [
      | inl no_ca ↦ rw no_ca h
      | inr ca ↦ rw ca (with_ca-Spared (ca_of c) r h)
    ]

    pub set_up_worker-Spared : Keeps server P start stable (set_up_worker server watch access)
    unfolding set_up_worker ensure_self_worker_cluster
    set_up_worker-Spared r h =
        and_then-Spared server P start stable _ _ (ensure_kueue_cr-Spared r h)
          λ r1 h1. read_ca-Spared _ r1 h1
