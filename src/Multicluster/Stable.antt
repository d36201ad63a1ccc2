-- ===== src/Multicluster/Stable.antt =====
-- What the steps of a Hub-mode test run of pkg/multicluster keep, by the calls that they are made of.
use mathlib.Core.Path.{subst}
use release_tests_ginkgo.Prelude.{
  ap, true, ◌≡◌, refl, Option, none, some, List, [], ◌∷◌, inl, inr, ap, Bool-cases,
}
use release_tests_ginkgo.Prelude.{text_eq}
use release_tests_ginkgo.Prelude.Texts.{Text, codes}
use release_tests_ginkgo.Prelude.Lists.{Any}
use release_tests_ginkgo.Kube.{
  Key, key, Manifest, key_eq, Object, not_found, already_exists, conflict, other, Reply, reply,
  refused, Server, Value,
}
use release_tests_ginkgo.Kueue.Resources.{Failure}
use release_tests_ginkgo.Multicluster.{Environment, owns}
use release_tests_ginkgo.Multicluster.Ensure.{
  Run, Step, moved, and_then, owned, adopt, or_adopt, create_or_adopt, if_new, create_if_new,
  ensure_worker_account, refreshed, after_refresh, refresh_secret, after_secret, ensure_secret,
  adopt_cluster, after_cluster, ensure_cluster,
}

-- The objects that `Setup` creates.
abbrev pub made_keys : Environment → List Key
made_keys e =
    key "" "kueues" [] (codes "cluster")
    ∷ key "" "namespaces" [] e.worker_name
    ∷ key "" "serviceaccounts" e.worker_name e.worker_name
    ∷ key "" "clusterroles" [] e.worker_name
    ∷ key "" "clusterrolebindings" [] e.worker_name
    ∷ key "" "roles" e.worker_name e.worker_name
    ∷ key "" "rolebindings" e.worker_name e.worker_name
    ∷ key "" "secrets" e.kueue_namespace e.worker_name
    ∷ key "" "multikueueclusters" [] e.worker_name
    ∷ []

-- The names do not change.
abbrev pub Same : Environment → Environment → Type 0
Same start e =
    (e.prefix ≡ start.prefix)
    × (e.worker_name ≡ start.worker_name)
    × (e.kueue_namespace ≡ start.kueue_namespace)

-- An invariant of the calls that change the cluster.
pub record Stable {W : Type 0} (server : Server W) (P : W → Type 0) (start : Environment)
    : Type 0 where
  pub created :
      (j : Key) (m : Manifest) (w : W)
      → Any (λ i. j ≡ i) (made_keys start)
      → P w
      → P (server.create j m w).1
  pub updated :
      (j : Key) (c d : Object) (w : W)
      → server.get j w ≡ reply c
      → owns start.prefix c.labels ≡ true
      → P w
      → P (server.update j d w).1
  pub paused : (w : W) → P w → P (server.pause w)
  pub token : (v w : W) → ((i : Key) → server.stored i v ≡ server.stored i w) → P w → P v

module _ {W : Type 0} (server : Server W) (P : W → Type 0) (start : Environment)
    (stable : Stable server P start) where
  -- It holds, and the run has the names that it started with.
  abbrev pub Spared : Run W → Type 0
  Spared r = (P r.world) × Same start r.env

  abbrev pub Keeps : Step W → Type 0
  Keeps f = (r : Run W) → Spared r → Spared (f r).1

  pub and_then-Spared :
      (x : Option Failure × Run W) (f : Step W) → Spared x.1 → Keeps f → Spared (and_then x f).1
  unfolding and_then
  and_then-Spared (some x, r) f h keep = h
  and_then-Spared (none, r) f h keep = keep r h

  pub adopt-Spared : (j : Key) (x : Reply Object) → Keeps (adopt j x)
  unfolding adopt
  adopt-Spared j (refused x) r h = h
  adopt-Spared j (reply c) r h = elim (Bool-cases (owns r.env.prefix c.labels)) [
    | inl ours ↦ rw ours h
    | inr foreign ↦ rw foreign h
  ]

  pub create_or_adopt-Spared :
      (j : Key) (body : Value)
      → Any (λ i. j ≡ i) (made_keys start)
      → Keeps (create_or_adopt server j body)
  unfolding create_or_adopt
  create_or_adopt-Spared j body made r (h, p) =
      judge (server.create j (owned r.env body) r.world)
        (stable.created j (owned r.env body) r.world made h)
    where
      judge : (x : Reply Object × W) → P x.1 → Spared (or_adopt server j x r).1
      judge (reply c, w) s = unfold or_adopt in (s, p)
      judge (refused already_exists, w) s =
          unfold or_adopt in adopt-Spared j (server.get j w) (moved r w) (s, p)
      judge (refused not_found, w) s = unfold or_adopt in (s, p)
      judge (refused conflict, w) s = unfold or_adopt in (s, p)
      judge (refused (other e), w) s = unfold or_adopt in (s, p)

  pub if_new-Spared :
      (x : Reply Object × W) (r : Run W) → P x.1 → Same start r.env → Spared (if_new x r).1
  unfolding if_new
  if_new-Spared (reply c, w) r s p = (s, p)
  if_new-Spared (refused already_exists, w) r s p = (s, p)
  if_new-Spared (refused not_found, w) r s p = (s, p)
  if_new-Spared (refused conflict, w) r s p = (s, p)
  if_new-Spared (refused (other e), w) r s p = (s, p)

  pub create_if_new-Spared :
      (j : Key) (body : Value)
      → Any (λ i. j ≡ i) (made_keys start)
      → Keeps (create_if_new server j body)
  unfolding create_if_new
  create_if_new-Spared j body made r (h, p) =
      if_new-Spared (server.create j (owned r.env body) r.world) r
        (stable.created j (owned r.env body) r.world made h) p

  pub ensure_worker_account-Spared :
      (ns : Text) → ns ≡ start.worker_name → Keeps (ensure_worker_account server ns)
  unfolding ensure_worker_account
  ensure_worker_account-Spared ns q r (h, p) =
      let name : r.env.worker_name ≡ start.worker_name = p.1 in
      and_then-Spared _ _
        (create_or_adopt-Spared _ _ (inr (inr (inl (λ i. key "" "serviceaccounts" (q i) (name i)))))
          r (h, p))
        λ r1 h1.
          and_then-Spared _ _
            (create_if_new-Spared _ _ (inr (inr (inr (inl (ap (key "" "clusterroles" []) name)))))
              r1 h1)
            λ r2 h2.
              and_then-Spared _ _
                (create_if_new-Spared _ _
                  (inr (inr (inr (inr (inl (ap (key "" "clusterrolebindings" []) name)))))) r2 h2)
                λ r3 h3.
                  and_then-Spared _ _
                    (create_if_new-Spared _ _
                      (inr (inr (inr (inr (inr (inl (λ i. key "" "roles" (q i) (name i)))))))) r3
                      h3)
                    (create_if_new-Spared _ _ (
                      inr (
                        inr (
                          inr
                            (inr (inr (inr (inl (λ i. key "" "rolebindings" (q i) (name i))))))))))

  pub after_refresh-Spared :
      (x : Reply Object × W) (r : Run W) → P x.1 → Same start r.env → Spared (after_refresh x r).1
  unfolding after_refresh
  after_refresh-Spared (reply c, w) r s p = (s, p)
  after_refresh-Spared (refused e, w) r s p = (s, p)

  pub refresh_secret-Spared :
      (j : Key) (contents : Value) (x : Reply Object) (r : Run W)
      → server.get j r.world ≡ x
      → Spared r
      → Spared (refresh_secret server j contents x r).1
  unfolding refresh_secret
  refresh_secret-Spared j contents (refused x) r e h = h
  refresh_secret-Spared j contents (reply c) r e (h, p) =
      elim (Bool-cases (owns r.env.prefix c.labels)) [
        | inr foreign ↦ rw foreign (h, p)
        | inl ours ↦ rw ours (
            after_refresh-Spared (server.update j (refreshed c contents) r.world) r
              (stable.updated j c (refreshed c contents) r.world e
                (subst (λ q. owns q c.labels ≡ true) p.0 ours) h)
              p)
      ]

  pub after_secret-Spared :
      (j : Key) (contents : Value) (x : Reply Object × W) (r : Run W)
      → P x.1
      → Same start r.env
      → Spared (after_secret server j contents x r).1
  unfolding after_secret
  after_secret-Spared j contents (reply c, w) r s p = (s, p)
  after_secret-Spared j contents (refused already_exists, w) r s p =
      refresh_secret-Spared j contents (server.get j w) (moved r w) refl (s, p)
  after_secret-Spared j contents (refused not_found, w) r s p = (s, p)
  after_secret-Spared j contents (refused conflict, w) r s p = (s, p)
  after_secret-Spared j contents (refused (other e), w) r s p = (s, p)

  pub ensure_secret-Spared : (contents : Value) → Keeps (ensure_secret server contents)
  unfolding ensure_secret
  ensure_secret-Spared contents r (h, p) =
      let name : r.env.worker_name ≡ start.worker_name = p.1 in
      let ns : r.env.kueue_namespace ≡ start.kueue_namespace = p.2 in
      after_secret-Spared _ contents (server.create _ _ r.world) r
        (stable.created _ _ r.world
          (inr (inr (inr (inr (inr (inr (inr (inl (λ i. key "" "secrets" (ns i) (name i)))))))))) h)
        p

  pub adopt_cluster-Spared : (j : Key) (x : Reply Object) → Keeps (adopt_cluster j x)
  unfolding adopt_cluster
  adopt_cluster-Spared j (refused x) r h = h
  adopt_cluster-Spared j (reply c) r h = elim (Bool-cases (owns r.env.prefix c.labels)) [
    | inl ours ↦ rw ours h
    | inr foreign ↦ rw foreign h
  ]

  pub after_cluster-Spared :
      (j : Key) (x : Reply Object × W) (r : Run W)
      → P x.1
      → Same start r.env
      → Spared (after_cluster server j x r).1
  unfolding after_cluster
  after_cluster-Spared j (reply c, w) r s p = (s, p)
  after_cluster-Spared j (refused already_exists, w) r s p =
      adopt_cluster-Spared j (server.get j w) (moved r w) (s, p)
  after_cluster-Spared j (refused not_found, w) r s p = (s, p)
  after_cluster-Spared j (refused conflict, w) r s p = (s, p)
  after_cluster-Spared j (refused (other e), w) r s p = (s, p)

  pub ensure_cluster-Spared : (body : Value) → Keeps (ensure_cluster server body)
  unfolding ensure_cluster
  ensure_cluster-Spared body r (h, p) =
      after_cluster-Spared _ (server.create _ _ r.world) r
        (stable.created _ _ r.world
          (inr (
            inr
              (inr (inr (inr (inr (inr (inr (inl (ap (key "" "multikueueclusters" []) p.1))))))))))
          h)
        p
