-- ===== src/Kueue/Resources/Create.antt =====
-- The functions of pkg/tektonkueue/resources.go that create one object: `createNamespace`,
-- `createDynamic`, `createClusterRole`, `createClusterRoleBinding`, `createRole`, and the ways in
-- which `createWorkerCredential` and `createKueueEgressPolicy` create theirs.
use release_tests_ginkgo.Prelude.{String, Option, none, some, List, [], ◌∷◌}
use release_tests_ginkgo.Prelude.Texts.{Text, codes}
use release_tests_ginkgo.Poll.{Poller}
use release_tests_ginkgo.Kube.{
  Key, key, Manifest, Object, ApiError, not_found, Reply, reply, refused, Server, Value,
}
use release_tests_ginkgo.Kube.Retry.{Retrier}
use release_tests_ginkgo.Kueue.Cleanup.{CleanupFunc, add_cleanup}
use release_tests_ginkgo.Kueue.Resources.{
  Failure, api, exists, is_conflict, owned_labels, remove_owned, delete_owned, unbind,
}

-- What a run of `Setup` has at hand: the clusters, and `e.cleanups`.
pub record Run (W : Type 0) : Type 0 where
  pub world : W
  pub cleanups : List (CleanupFunc W Failure)

-- A step may fail, and changes the clusters and the cleanups in either case.
abbrev pub Step : Type 0 → Type 0
Step W = Run W → Option Failure × Run W

module _ {W : Type 0} where
  -- `if err := ...; err != nil { return err }`
  unfoldable pub and_then : Option Failure × Run W → Step W → Option Failure × Run W
  and_then (some e, r) next = (some e, r)
  and_then (none, r) next = next r

  -- A loop that returns the first error.
  unfoldable pub each : {A : Type 0} → (A → Step W) → List A → Step W
  unfolding and_then
  each f [] r = (none, r)
  each f (x ∷ xs) r = and_then (f x r) (each f xs)

  -- `Get` must find nothing.
  unfoldable pub if_absent : Key → Reply Object → Step W → Step W
  if_absent k (reply o) create r = (some (exists k), r)
  if_absent k (refused not_found) create r = create r
  if_absent k (refused e) create r = (some (api e), r)

module _ {W : Type 0} where
  -- What `Create` leaves, with the cleanup for the uid that it gives, or for none.
  unfoldable pub track :
      (Text → CleanupFunc W Failure)
      → List (CleanupFunc W Failure)
      → Reply Object × W
      → Option Failure × Run W
  track cleanup cs (reply o, w) =
      (none, record { world = w; cleanups = add_cleanup (cleanup o.uid) cs })
  track cleanup cs (refused e, w) =
      (some (api e), record { world = w; cleanups = add_cleanup (cleanup []) cs })

  -- What `Create` leaves without a cleanup.
  unfoldable pub go_on : List (CleanupFunc W Failure) → Reply Object × W → Option Failure × Run W
  go_on cs (reply o, w) = (none, record { world = w; cleanups = cs })
  go_on cs (refused e, w) = (some (api e), record { world = w; cleanups = cs })

module _ {W : Type 0} (server : Server W) where
  -- The cleanup is added, and the object created.
  unfoldable pub create_tracked : (Text → CleanupFunc W Failure) → Key → Manifest → Step W
  create_tracked cleanup k m r = track cleanup r.cleanups (server.create k m r.world)

  unfoldable pub create_guarded : (Text → CleanupFunc W Failure) → Key → Manifest → Step W
  create_guarded cleanup k m r = if_absent k (server.get k r.world) (create_tracked cleanup k m) r

  -- `Create` of an object that goes with its namespace.
  unfoldable pub create_plain : Key → Manifest → Step W
  create_plain k m r = go_on r.cleanups (server.create k m r.world)

abbrev pub kueue_namespace : Text
kueue_namespace = codes "openshift-kueue-operator"

-- What the functions use of the environment `e`.
pub record Session (W : Type 0) (server : Server W) : Type 0 where
  pub prefix : Text
  pub namespace : Text
  pub poller : Poller W ApiError
  pub retrier : Retrier server.pause is_conflict

module _ {W : Type 0} {server : Server W} (e : Session W server) where
  -- Every object carries the labels of the environment.
  unfoldable pub owned : Value → Manifest
  owned body = record { labels = owned_labels e.prefix; body = body }

  unfoldable pub create_namespace : String → Step W
  create_namespace cluster =
      let k = key cluster "namespaces" [] e.namespace in
      create_guarded server (remove_owned server e.poller e.prefix k) k (owned Value.empty)

  -- The namespace of a cluster-wide object is empty.
  unfoldable pub create_dynamic : String → String → Text → Text → Value → Step W
  create_dynamic cluster resource namespace name body =
      let k = key cluster resource namespace name in
      create_guarded server (remove_owned server e.poller e.prefix k) k (owned body)

  unfoldable pub create_cluster_role : String → Text → Value → Step W
  create_cluster_role cluster name body =
      let k = key cluster "clusterroles" [] name in
      create_guarded server (delete_owned server e.prefix k) k (owned body)

  unfoldable pub create_cluster_role_binding : String → Text → Value → Step W
  create_cluster_role_binding cluster name body =
      let k = key cluster "clusterrolebindings" [] name in
      create_guarded server (unbind server e.retrier e.prefix k) k (owned body)

  unfoldable pub create_role : String → Text → Value → Step W
  create_role cluster name body =
      create_plain server (key cluster "roles" e.namespace name) (owned body)

  unfoldable pub create_role_binding : String → Text → Value → Step W
  create_role_binding cluster name body =
      create_plain server (key cluster "rolebindings" e.namespace name) (owned body)
