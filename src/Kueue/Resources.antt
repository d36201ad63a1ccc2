-- ===== src/Kueue/Resources.antt =====
-- What pkg/tektonkueue/resources.go creates and deletes on the API servers: `ownedLabels`, `owns`,
-- `waitForNotFound`, `ignoreNotFound` (of environment.go), `workerName`, and the ways in which its
-- functions create an object and leave a cleanup for it. The texts of error messages are not kept.
--
-- A cleanup captures the variable `uid`, which `Create` sets after the cleanup was added. It runs
-- after that, so the model adds it with the value that it will read.
pub mod Bodies
pub mod Create
pub mod Scope
pub mod Peers
pub mod Build
pub mod Hub
pub mod Stable
pub mod Preserved
pub mod Foreign
pub mod Unharmed
pub mod Erase
pub mod Removed
pub mod Credential
pub mod Allowed
pub mod Permits
mod Tests
mod Examples
use mathlib.Core.Option.{some-ne-none}
use release_tests_ginkgo.Prelude.{
  ◌≡◌, refl, String, Bool, true, false, not, ◌&&◌, ◌||◌, Option, none, some, List, [], ◌∷◌, ◌++◌,
}
use release_tests_ginkgo.Prelude.{◌==◌, string_eq, text_eq, if◌then◌else◌}
use release_tests_ginkgo.Prelude.Texts.{Text, codes, null}
use release_tests_ginkgo.Poll.{Verdict, Condition, Outcome, success, stopped, timed_out, Poller}
use release_tests_ginkgo.Kube.{
  Key, Labels, Manifest, Object, ApiError, not_found, conflict, Reply, reply, refused, Server,
  Value, field,
}
use release_tests_ginkgo.Kube.Retry.{Retrier}
use release_tests_ginkgo.Kueue.Cleanup.{CleanupFunc, add_cleanup}

pub data Failure : Type 0 where
  api : ApiError → Failure
  exists : Key → Failure
  replaced : Key → Failure
  expired : Failure
  rejected : String → Failure

-- `apierrors.IsConflict(err)`
abbrev pub is_conflict : Failure → Bool
is_conflict (api conflict) = true
is_conflict _ = false

-- `labels[key]`, where a missing key reads as the empty string.
unfoldable pub label : String → Labels → Text
label k [] = []
label k ((j, v) ∷ labels) = let rest = label k labels in if j == k then v else rest

unfoldable pub owned_labels : Text → Labels
owned_labels prefix =
    ("app.kubernetes.io/managed-by", codes "release-tests-ginkgo")
    ∷ ("app.kubernetes.io/instance", prefix)
    ∷ []

unfoldable pub owns : Text → Labels → Bool
owns prefix labels =
    label "app.kubernetes.io/managed-by" labels == codes "release-tests-ginkgo"
    && label "app.kubernetes.io/instance" labels == prefix

-- `!e.owns(current.Labels) || (uid != "" && current.UID != uid)`
unfoldable pub is_foreign : Text → Text → Object → Bool
is_foreign prefix uid current =
    not (owns prefix current.labels) || (not (null uid) && not (current.uid == uid))

unfoldable pub ignore_not_found : Option ApiError → Option ApiError
ignore_not_found (some not_found) = none
ignore_not_found e = e

-- `err` as an error of the program.
abbrev pub as_failure : Option ApiError → Option Failure
as_failure none = none
as_failure (some e) = some (api e)

abbrev pub poll_failure : Outcome ApiError → Option Failure
poll_failure success = none
poll_failure (stopped e) = some (api e)
poll_failure timed_out = some expired

unfoldable pub worker_name : Text → String → Text
worker_name prefix spoke = prefix ++ (codes "-" ++ codes spoke)

-- The value without the field `subjects`.
unfoldable pub drop_subjects : Value → Value
drop_subjects (field k v rest) =
    let others = drop_subjects rest in if k == "subjects" then others else field k v others
drop_subjects v = v

-- What the closure of `waitForNotFound` returns.
unfoldable pub gone_verdict : Reply Object → Verdict ApiError
gone_verdict (reply o) = (false, none)
gone_verdict (refused not_found) = (true, none)
gone_verdict (refused e) = (false, some e)

-- `current.Subjects = nil`
unfoldable pub without_subjects : Object → Object
without_subjects o = record {
  labels = o.labels;
  uid = o.uid;
  deleting = o.deleting;
  body = drop_subjects o.body;
}

module _ {W : Type 0} where
  -- What every cleanup does: nothing if the object is not there, a refusal if it is not the one
  -- that was created, and else `act`.
  unfoldable pub if_owned :
      Text → Key → Text → (Object → CleanupFunc W Failure) → Reply Object → CleanupFunc W Failure
  if_owned prefix k uid act (refused not_found) w = (none, w)
  if_owned prefix k uid act (refused e) w = (some (api e), w)
  if_owned prefix k uid act (reply current) w =
      if is_foreign prefix uid current then (some (replaced k), w) else act current w

  -- What was done, and then `next` unless it failed.
  abbrev pub after : Option Failure × W → (W → Option Failure × W) → Option Failure × W
  after (some e, w) next = (some e, w)
  after (none, w) next = next w

  -- If nothing failed, the first part did not fail, and the second was run after it.
  pub after-none :
      (x : Option Failure × W) (next : W → Option Failure × W)
      → (after x next).0 ≡ none
      → (x.0 ≡ none) × (after x next ≡ next x.1)
  after-none (some e, w) next h = absurd (some-ne-none e h)
  after-none (none, w) next h = (refl, refl)

module _ {W : Type 0} (server : Server W) where
  -- The closure of `waitForNotFound`.
  unfoldable pub gone_condition : Key → Condition W ApiError
  gone_condition k w = (gone_verdict (server.get k w), server.pause w)

  unfoldable pub wait_for_not_found : Poller W ApiError → Key → CleanupFunc W Failure
  wait_for_not_found poller k w =
      let (outcome, v) = poller.poll (gone_condition k) w in (poll_failure outcome, v)

  -- `ignoreNotFound(resource.Delete(...))`
  unfoldable pub delete_object : Key → CleanupFunc W Failure
  delete_object k w = let (e, v) = server.delete k w in (as_failure (ignore_not_found e), v)

  -- The cleanup of a ClusterRole, of the Secret on the hub and of the NetworkPolicy.
  unfoldable pub delete_owned : Text → Key → Text → CleanupFunc W Failure
  delete_owned prefix k uid w =
      if_owned prefix k uid (λ current. delete_object k) (server.get k w) w

  -- The cleanup of a namespace and of the objects of Kueue: it waits until the object is gone.
  unfoldable pub remove_owned : Poller W ApiError → Text → Key → Text → CleanupFunc W Failure
  remove_owned poller prefix k uid w =
      if_owned prefix k uid (λ current v. after (delete_object k v) (wait_for_not_found poller k))
        (server.get k w) w

  -- `Delete` after an `Update` that succeeded.
  unfoldable pub delete_updated : Key → Reply Object × W → Option Failure × W
  delete_updated k (refused e, w) = (some (api e), w)
  delete_updated k (reply o, w) = delete_object k w

  unfoldable pub unbind_once : Text → Key → Text → CleanupFunc W Failure
  unbind_once prefix k uid w =
      if_owned prefix k uid
        (λ current v. delete_updated k (server.update k (without_subjects current) v))
        (server.get k w) w

  -- The cleanup of a ClusterRoleBinding.
  unfoldable pub unbind :
      Retrier server.pause is_conflict → Text → Key → Text → CleanupFunc W Failure
  unbind retrier prefix k uid = retrier.retry (unbind_once prefix k uid)
