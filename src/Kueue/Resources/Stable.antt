-- ===== src/Kueue/Resources/Stable.antt =====
-- What the creations of pkg/tektonkueue keep, by the calls of the servers that they are made of.
use native.Mathlib.Decide
use release_tests_ginkgo.Prelude.{
  String, Bool, true, ◌≡◌, refl, Option, none, some, List, [], ◌∷◌, elem, text_eq,
}
use release_tests_ginkgo.Prelude.Texts.{Text, codes}
use release_tests_ginkgo.Kube.{
  Key, key, Manifest, not_found, Reply, reply, refused, Server, Value, Object, already_exists,
  conflict, other,
}
use release_tests_ginkgo.Kueue.Resources.{Failure, owned_labels, delete_owned, remove_owned, unbind}
use release_tests_ginkgo.Kueue.Resources.Create.{
  Run, Step, and_then, each, Session, create_tracked, if_absent, create_guarded, create_plain,
  owned, create_namespace, create_dynamic, create_cluster_role, create_cluster_role_binding,
  create_role, create_role_binding,
}
use release_tests_ginkgo.Kueue.Resources.Scope.{Access}
use release_tests_ginkgo.Kueue.Resources.Build.{
  create_kueue_controller_rbac, create_queues, create_worker_account,
}

-- The resource of an object that is created without a cleanup of its own.
abbrev resource_of : Key → Text
resource_of (cluster ∷ resource ∷ rest) = resource
resource_of k = []

abbrev pub goes_with_namespace : Key → Bool
goes_with_namespace k =
    elem (resource_of k) (codes "serviceaccounts" ∷ codes "roles" ∷ codes "rolebindings" ∷ [])

-- The three resources whose objects `createWorkerCredential` leaves to the deletion of the namespace.
service_accounts_go :
    (cluster : String) (namespace name : Text)
    → goes_with_namespace (key cluster "serviceaccounts" namespace name) ≡ true
unfolding key text_eq native.Mathlib.Decide.ℕ_discrete
service_accounts_go cluster namespace name = refl

roles_go :
    (cluster : String) (namespace name : Text)
    → goes_with_namespace (key cluster "roles" namespace name) ≡ true
unfolding key text_eq native.Mathlib.Decide.ℕ_discrete
roles_go cluster namespace name = refl

role_bindings_go :
    (cluster : String) (namespace name : Text)
    → goes_with_namespace (key cluster "rolebindings" namespace name) ≡ true
unfolding key text_eq native.Mathlib.Decide.ℕ_discrete
role_bindings_go cluster namespace name = refl

abbrev pub at : {W : Type 0} → Run W → W → Run W
at r w = record { world = w; cleanups = r.cleanups }

module _ {W : Type 0} {server : Server W} (e : Session W server) (access : Access server) where
  -- An invariant of the calls that change the clusters or the cleanups.
  pub record Stable (I : Run W → Type 0) : Type 0 where
    pub removed :
        (k : Key) (m : Manifest) (r : Run W)
        → m.labels ≡ owned_labels e.prefix
        → I r
        → I (create_tracked server (remove_owned server e.poller e.prefix k) k m r).1
    pub deleted :
        (k : Key) (m : Manifest) (r : Run W)
        → m.labels ≡ owned_labels e.prefix
        → I r
        → I (create_tracked server (delete_owned server e.prefix k) k m r).1
    pub unbound :
        (k : Key) (m : Manifest) (r : Run W)
        → m.labels ≡ owned_labels e.prefix
        → I r
        → I (create_tracked server (unbind server e.retrier e.prefix k) k m r).1
    pub plain :
        (k : Key) (m : Manifest) (r : Run W)
        → goes_with_namespace k ≡ true
        → I r
        → I (create_plain server k m r).1
    pub paused : (r : Run W) (w : W) → I (at r w) → I (at r (server.pause w))
    pub token :
        (r : Run W) (cluster : String) (namespace name : Text)
        → I r
        → I (at r (access.create_token cluster namespace name r.world).1)

  module _ (I : Run W → Type 0) (stable : Stable I) where
    abbrev pub Keeps : Step W → Type 0
    Keeps f = (r : Run W) → I r → I (f r).1

    pub and_then-Keeps :
        (x : Option Failure × Run W) (f : Step W) → I x.1 → Keeps f → I (and_then x f).1
    unfolding and_then
    and_then-Keeps (some x, r) f h k = h
    and_then-Keeps (none, r) f h k = k r h

    pub each-Keeps :
        {A : Type 0} (f : A → Step W) (xs : List A) → ((x : A) → Keeps (f x)) → Keeps (each f xs)
    unfolding each
    each-Keeps f [] k r h = h
    each-Keeps f (x ∷ xs) k r h = and_then-Keeps (f x r) (each f xs) (k x r h) (each-Keeps f xs k)

    pub if_absent-Keeps :
        (k : Key) (x : Reply Object) (f : Step W) → Keeps f → Keeps (if_absent k x f)
    unfolding if_absent
    if_absent-Keeps k (reply o) f keep r h = h
    if_absent-Keeps k (refused not_found) f keep r h = keep r h
    if_absent-Keeps k (refused already_exists) f keep r h = h
    if_absent-Keeps k (refused conflict) f keep r h = h
    if_absent-Keeps k (refused (other s)) f keep r h = h

    pub create_namespace-Keeps : (cluster : String) → Keeps (create_namespace e cluster)
    unfolding create_namespace create_guarded
    create_namespace-Keeps cluster r h =
        let k = key cluster "namespaces" [] e.namespace in
        if_absent-Keeps k (server.get k r.world) _
          (λ s. stable.removed k (owned e Value.empty) s (unfold owned in refl)) r h

    pub create_dynamic-Keeps :
        (cluster resource : String) (namespace name : Text) (body : Value)
        → Keeps (create_dynamic e cluster resource namespace name body)
    unfolding create_dynamic create_guarded
    create_dynamic-Keeps cluster resource namespace name body r h =
        let k = key cluster resource namespace name in
        if_absent-Keeps k (server.get k r.world) _
          (λ s. stable.removed k (owned e body) s (unfold owned in refl)) r h

    pub create_cluster_role-Keeps :
        (cluster : String) (name : Text) (body : Value)
        → Keeps (create_cluster_role e cluster name body)
    unfolding create_cluster_role create_guarded
    create_cluster_role-Keeps cluster name body r h =
        let k = key cluster "clusterroles" [] name in
        if_absent-Keeps k (server.get k r.world) _
          (λ s. stable.deleted k (owned e body) s (unfold owned in refl)) r h

    pub create_cluster_role_binding-Keeps :
        (cluster : String) (name : Text) (body : Value)
        → Keeps (create_cluster_role_binding e cluster name body)
    unfolding create_cluster_role_binding create_guarded
    create_cluster_role_binding-Keeps cluster name body r h =
        let k = key cluster "clusterrolebindings" [] name in
        if_absent-Keeps k (server.get k r.world) _
          (λ s. stable.unbound k (owned e body) s (unfold owned in refl)) r h

    pub create_kueue_controller_rbac-Keeps :
        (cluster : String) → Keeps (create_kueue_controller_rbac e cluster)
    unfolding create_kueue_controller_rbac
    create_kueue_controller_rbac-Keeps cluster r h =
        and_then-Keeps _ _ (create_cluster_role-Keeps cluster _ _ r h)
          (create_cluster_role_binding-Keeps cluster _ _)

    pub create_queues-Keeps : (hub : Bool) (cluster : String) → Keeps (create_queues e hub cluster)
    unfolding create_queues
    create_queues-Keeps hub cluster r h =
        and_then-Keeps _ _ (create_dynamic-Keeps cluster _ _ _ _ r h) λ r1 h1.
          and_then-Keeps _ _ (create_dynamic-Keeps cluster _ _ _ _ r1 h1)
            (create_dynamic-Keeps cluster _ _ _ _)

    pub create_worker_account-Keeps :
        (name : Text) (cluster : String) → Keeps (create_worker_account e name cluster)
    unfolding create_worker_account create_role create_role_binding
    create_worker_account-Keeps name cluster r h =
        and_then-Keeps _ _ (stable.plain _ _ r (service_accounts_go _ _ _) h) λ r1 h1.
          and_then-Keeps _ _ (create_cluster_role-Keeps cluster _ _ r1 h1) λ r2 h2.
            and_then-Keeps _ _ (create_cluster_role_binding-Keeps cluster _ _ r2 h2) λ r3 h3.
              and_then-Keeps _ _ (stable.plain _ _ r3 (roles_go _ _ _) h3)
                λ r4 h4. stable.plain _ _ r4 (role_bindings_go _ _ _) h4
