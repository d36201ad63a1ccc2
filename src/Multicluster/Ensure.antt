-- ===== src/Multicluster/Ensure.antt =====
-- What a Hub-mode test run creates or adopts, in pkg/multicluster/multicluster.go: `ensureKueueCR`,
-- `ensureWorkerNamespace`, `ensureWorkerServiceAccount`, and the Secret and the MultiKueueCluster of
-- `ensureSelfWorkerCluster`. The texts of error messages are not kept.
use release_tests_ginkgo.Prelude.{
  String, Bool, true, false, ◌&&◌, ◌||◌, Option, none, some, List, [], ◌∷◌, ◌==◌, if◌then◌else◌,
  string_eq,
}
use release_tests_ginkgo.Prelude.Texts.{Text}
use release_tests_ginkgo.Kube.{
  Key, key, Manifest, Object, already_exists, Reply, reply, refused, Server, Value, empty, field,
}
use release_tests_ginkgo.Kueue.Frameworks.{Item, mapping, scalar, has_text}
use release_tests_ginkgo.Kueue.Resources.{Failure, api, exists, owned_labels}
use release_tests_ginkgo.Kueue.Resources.Bodies.{
  fields, word, binding, worker_read_cluster_role, worker_write_role,
}
use release_tests_ginkgo.Multicluster.{Environment, owns}

-- The clusters and the environment that the calls fill in.
pub record Run (W : Type 0) : Type 0 where
  pub world : W
  pub env : Environment

abbrev pub Step : Type 0 → Type 0
Step W = Run W → Option Failure × Run W

abbrev pub moved : {W : Type 0} → Run W → W → Run W
moved r w = record { world = w; env = r.env }

unfoldable pub and_then : {W : Type 0} → Option Failure × Run W → Step W → Option Failure × Run W
and_then (some x, r) next = (some x, r)
and_then (none, r) next = next r

unfoldable pub owned : Environment → Value → Manifest
owned e body = record { labels = owned_labels e.prefix; body = body }

-- An item of `conditions` has the type, and its status is `True`.
unfoldable pub has_condition : String → List Item → Bool
has_condition type [] = false
has_condition type (scalar ∷ rest) = has_condition type rest
has_condition type (mapping c ∷ rest) =
    (has_text (c "type") type && has_text (c "status") "True") || has_condition type rest

-- `m[key] = value`
unfoldable pub set_field : String → Value → Value → Value
set_field k v (field j x rest) =
    let others = set_field k v rest in if j == k then field j v rest else field j x others
set_field k v rest = field k v rest

-- `existing.Data = secret.Data`
abbrev pub refreshed : Object → Value → Object
refreshed o contents = record {
  labels = o.labels;
  uid = o.uid;
  deleting = o.deleting;
  body = set_field "data" contents o.body;
}

abbrev secret_body : Value → Value
secret_body contents = fields (("type", word "Opaque") ∷ ("data", contents) ∷ [])

module _ {W : Type 0} where
  -- `Create`, where one that exists already is taken as it is.
  unfoldable pub if_new : Reply Object × W → Step W
  if_new (reply o, w) r = (none, moved r w)
  if_new (refused already_exists, w) r = (none, moved r w)
  if_new (refused x, w) r = (some (api x), moved r w)

  -- `e.secretUID = ...`
  abbrev pub with_secret : Run W → W → Text → Run W
  with_secret r w uid = record {
    world = w;
    env = record {
      prefix = r.env.prefix;
      worker_name = r.env.worker_name;
      kueue_namespace = r.env.kueue_namespace;
      secret_uid = uid;
      cluster_uid = r.env.cluster_uid;
      kueue_uid = r.env.kueue_uid;
      kueue_owned = r.env.kueue_owned;
    };
  }

  -- `e.clusterUID = ...`
  abbrev pub with_cluster : Run W → W → Text → Run W
  with_cluster r w uid = record {
    world = w;
    env = record {
      prefix = r.env.prefix;
      worker_name = r.env.worker_name;
      kueue_namespace = r.env.kueue_namespace;
      secret_uid = r.env.secret_uid;
      cluster_uid = uid;
      kueue_uid = r.env.kueue_uid;
      kueue_owned = r.env.kueue_owned;
    };
  }

  -- `e.kueueUID = ...; e.kueueOwned = true`
  abbrev pub with_kueue : Run W → W → Text → Run W
  with_kueue r w uid = record {
    world = w;
    env = record {
      prefix = r.env.prefix;
      worker_name = r.env.worker_name;
      kueue_namespace = r.env.kueue_namespace;
      secret_uid = r.env.secret_uid;
      cluster_uid = r.env.cluster_uid;
      kueue_uid = uid;
      kueue_owned = true;
    };
  }

  unfoldable pub after_refresh : Reply Object × W → Step W
  after_refresh (refused x, w) r = (some (api x), moved r w)
  after_refresh (reply o, w) r = (none, with_secret r w o.uid)

  unfoldable pub adopt_cluster : Key → Reply Object → Step W
  adopt_cluster k (refused x) r = (some (api x), r)
  adopt_cluster k (reply o) r =
      if owns r.env.prefix o.labels
      then (none, with_cluster r r.world o.uid)
      else (some (exists k), r)

  -- An object that exists already must be this run's.
  unfoldable pub adopt : Key → Reply Object → Step W
  adopt k (refused x) r = (some (api x), r)
  adopt k (reply o) r = if owns r.env.prefix o.labels then (none, r) else (some (exists k), r)

module _ {W : Type 0} (server : Server W) where
  unfoldable pub or_adopt : Key → Reply Object × W → Step W
  or_adopt k (reply o, w) r = (none, moved r w)
  or_adopt k (refused already_exists, w) r = adopt k (server.get k w) (moved r w)
  or_adopt k (refused x, w) r = (some (api x), moved r w)

  unfoldable pub create_or_adopt : Key → Value → Step W
  create_or_adopt k body r = or_adopt k (server.create k (owned r.env body) r.world) r

  unfoldable pub create_if_new : Key → Value → Step W
  create_if_new k body r = if_new (server.create k (owned r.env body) r.world) r

  unfoldable pub ensure_worker_namespace : Step W
  ensure_worker_namespace r = create_or_adopt (key "" "namespaces" [] r.env.worker_name) empty r

  -- `ensureWorkerServiceAccount`, before the token.
  unfoldable pub ensure_worker_account : Text → Step W
  ensure_worker_account ns r =
      let name = r.env.worker_name in
      and_then (create_or_adopt (key "" "serviceaccounts" ns name) empty r) λ r1.
        and_then (create_if_new (key "" "clusterroles" [] name) worker_read_cluster_role r1) λ r2.
          and_then
            (create_if_new (key "" "clusterrolebindings" [] name)
              (binding "ClusterRole" name name ns) r2)
            λ r3.
              and_then (create_if_new (key "" "roles" ns name) worker_write_role r3)
                (create_if_new (key "" "rolebindings" ns name) (binding "Role" name name ns))

  -- A Secret that is left over is refreshed.
  unfoldable pub refresh_secret : Key → Value → Reply Object → Step W
  refresh_secret k contents (refused x) r = (some (api x), r)
  refresh_secret k contents (reply o) r =
      let refresh = after_refresh (server.update k (refreshed o contents) r.world) r in
      if owns r.env.prefix o.labels then refresh else (some (exists k), r)

  unfoldable pub after_secret : Key → Value → Reply Object × W → Step W
  after_secret k contents (reply o, w) r = (none, with_secret r w o.uid)
  after_secret k contents (refused already_exists, w) r =
      refresh_secret k contents (server.get k w) (moved r w)
  after_secret k contents (refused x, w) r = (some (api x), moved r w)

  unfoldable pub ensure_secret : Value → Step W
  ensure_secret contents r =
      let k = key "" "secrets" r.env.kueue_namespace r.env.worker_name in
      after_secret k contents (server.create k (owned r.env (secret_body contents)) r.world) r

  unfoldable pub after_cluster : Key → Reply Object × W → Step W
  after_cluster k (reply o, w) r = (none, with_cluster r w o.uid)
  after_cluster k (refused already_exists, w) r = adopt_cluster k (server.get k w) (moved r w)
  after_cluster k (refused x, w) r = (some (api x), moved r w)

  unfoldable pub ensure_cluster : Value → Step W
  ensure_cluster body r =
      let k = key "" "multikueueclusters" [] r.env.worker_name in
      after_cluster k (server.create k (owned r.env body) r.world) r
