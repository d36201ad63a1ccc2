-- ===== src/Multicluster.antt =====
-- The resources of a Hub-mode test run in pkg/multicluster/multicluster.go: `labels`, `owns`,
-- `deleteOwned`, `deleteOwnedRBAC`, `deleteOwnedWorker` and `deleteOwnedResources`.
-- The texts of error messages are not kept, but each error names its object.
pub mod Deleted
pub mod Ensure
pub mod Register
pub mod Stable
pub mod Steps
pub mod Spared
pub mod Worker
pub mod Discharged
pub mod Policies
pub mod Config
pub mod Restore
mod Tests
mod Examples
use release_tests_ginkgo.Prelude.{
  Bool, true, false, not, ◌&&◌, Option, none, some, List, [], ◌∷◌, ◌++◌, ◌==◌, text_eq,
  if◌then◌else◌,
}
use release_tests_ginkgo.Prelude.Texts.{Text, codes, null}
use release_tests_ginkgo.Kube.{
  Key, key, Labels, Object, ApiError, not_found, Reply, reply, refused, Server,
}
use release_tests_ginkgo.Kueue.Resources.{label, ignore_not_found}

pub data Problem : Type 0 where
  unread : Key → ApiError → Problem
  not_ours : Key → Problem
  replacement : Key → Problem
  undeleted : Key → ApiError → Problem

-- The fields of `Environment` that say what the run owns. The cluster has no name of its own.
pub record Environment : Type 0 where
  pub prefix : Text
  pub worker_name : Text
  pub kueue_namespace : Text
  pub secret_uid : Text
  pub cluster_uid : Text
  pub kueue_uid : Text
  pub kueue_owned : Bool

unfoldable pub owns : Text → Labels → Bool
owns prefix labels =
    label "app.kubernetes.io/managed-by" labels == codes "release-tests-ginkgo"
    && (label "app.kubernetes.io/instance" labels == prefix && not (null prefix))

-- An object to delete, and its recorded UID, if any.
pub record Target : Type 0 where
  pub at : Key
  pub uid : Text

abbrev pub after_delete : Key → Option ApiError → Option Problem
after_delete k none = none
after_delete k (some e) = some (undeleted k e)

abbrev pub joined : Option Problem → List Problem → List Problem
joined none errs = errs
joined (some e) errs = e ∷ errs

module _ {W : Type 0} (server : Server W) where
  -- `deleteOwned`, from the answer of `get` on.
  unfoldable pub delete_found : Text → Target → Reply Object → W → Option Problem × W
  delete_found prefix t (refused not_found) w = (none, w)
  delete_found prefix t (refused e) w = (some (unread t.at e), w)
  delete_found prefix t (reply current) w =
      let (e, v) = server.delete t.at w in
      if not (owns prefix current.labels)
      then (some (not_ours t.at), w)
      else if not (null t.uid) && not (current.uid == t.uid)
      then (some (replacement t.at), w)
      else (after_delete t.at (ignore_not_found e), v)

  unfoldable pub delete_owned : Text → Target → W → Option Problem × W
  delete_owned prefix t w = delete_found prefix t (server.get t.at w) w

  -- Every target is tried; the errors are joined.
  unfoldable pub delete_each : Text → List Target → W → List Problem × W
  delete_each prefix [] w = ([], w)
  delete_each prefix (t ∷ ts) w =
      let (e, v) = delete_owned prefix t w in
      let (errs, u) = delete_each prefix ts v in (joined e errs, u)

-- Dependents first: bindings before the roles and accounts they reference.
unfoldable pub rbac_targets : Environment → List Target
rbac_targets e =
    let name = e.worker_name in
    record { at = key "" "clusterrolebindings" [] name; uid = [] }
    ∷ record { at = key "" "rolebindings" name name; uid = [] }
    ∷ record { at = key "" "clusterroles" [] name; uid = [] }
    ∷ record { at = key "" "roles" name name; uid = [] }
    ∷ record { at = key "" "serviceaccounts" name name; uid = [] }
    ∷ record { at = key "" "namespaces" [] name; uid = [] }
    ∷ []

-- The Kueue CR is a target only where this run created it.
unfoldable pub worker_targets : Environment → List Target
worker_targets e =
    let kueue : Target = record { at = key "" "kueues" [] (codes "cluster"); uid = e.kueue_uid } in
    record { at = key "" "secrets" e.kueue_namespace e.worker_name; uid = e.secret_uid }
    ∷ record { at = key "" "multikueueclusters" [] e.worker_name; uid = e.cluster_uid }
    ∷ (if e.kueue_owned then kueue ∷ [] else [])

module _ {W : Type 0} (server : Server W) (e : Environment) where
  unfoldable pub delete_owned_rbac : W → List Problem × W
  delete_owned_rbac = delete_each server e.prefix (rbac_targets e)

  unfoldable pub delete_owned_worker : W → List Problem × W
  delete_owned_worker = delete_each server e.prefix (worker_targets e)

  unfoldable pub delete_owned_resources : W → List Problem × W
  delete_owned_resources w =
      let (errs, v) = delete_owned_worker w in
      let (more, u) = delete_owned_rbac v in (errs ++ more, u)
