-- ===== src/Olm.antt =====
-- The installation of operators in pkg/olm/cluster_bootstrap.go: `EnsureNamespace`,
-- `ensureOperatorGroup`, `EnsureOperator`, `waitForOperator`, `WaitForAPI` and
-- `EnsurePrerequisites`. The texts of error messages are not kept.
pub mod Installed
pub mod Kept
mod Tests
use release_tests_ginkgo.Prelude.{
  ℕ, zero, suc, String, Bool, true, false, Option, none, some, List, [], ◌∷◌, ◌==◌, option_eq,
  text_eq, if◌then◌else◌,
}
use release_tests_ginkgo.Prelude.Texts.{Text, codes, null}
use release_tests_ginkgo.Poll.{Verdict, Condition, Outcome, success, stopped, timed_out, Poller}
use release_tests_ginkgo.Kube.{
  Key, key, Manifest, Object, ApiError, not_found, already_exists, Reply, reply, refused, Server,
  Value, empty, text,
}
use release_tests_ginkgo.Kueue.Resources.{Failure, api, rejected, expired, after}
use release_tests_ginkgo.Kueue.Resources.Bodies.{fields, word}

-- `csv.Status.Phase`
pub data Phase : Type 0 where
  succeeded : Phase
  failed : Phase
  pending : Phase

-- A subscription: the package of its spec, if it has one, and its installed CSV.
pub record Subscription : Type 0 where
  pub package_name : Option Text
  pub installed_csv : Text

-- An entry of a `SubscriptionList`.
pub record Listed : Type 0 where
  pub namespace : Text
  pub name : Text
  pub subscription : Subscription

-- The calls of the clients that `Server` does not have, and how objects are read.
pub record Catalog (W : Type 0) : Type 0 where
  pub list_subscriptions : W → Reply (List Listed)
  pub count_operator_groups : Text → W → Reply ℕ
  pub subscription_of : Object → Subscription
  pub phase_of : Object → Phase
  -- `ServerResourcesForGroupVersion` succeeds
  pub served : String → W → Bool
  pub poller : Poller W Failure

pub record Prerequisite : Type 0 where
  pub package_name : Text
  pub channel : String
  pub catalog_source : String
  pub namespace : Text
  pub group_version : String

unfoldable pub subscription_key : Text → Text → Key
subscription_key namespace name = key "" "subscriptions" namespace name

-- `err != nil && !apierrors.IsAlreadyExists(err)`
unfoldable pub unless_exists : {W : Type 0} → Reply Object × W → Option Failure × W
unless_exists (reply o, w) = (none, w)
unless_exists (refused already_exists, w) = (none, w)
unless_exists (refused e, w) = (some (api e), w)

abbrev pub unlabelled : Value → Manifest
unlabelled body = record { labels = []; body = body }

-- The subscriptions for a package.
unfoldable pub matching : Text → List Listed → List Listed
matching package_name [] = []
matching package_name (s ∷ ss) =
    let rest = matching package_name ss in
    if s.subscription.package_name == some package_name then s ∷ rest else rest

abbrev pub outcome_failure : Outcome Failure → Option Failure
outcome_failure success = none
outcome_failure (stopped e) = some e
outcome_failure timed_out = some expired

unfoldable pub subscription_body : Prerequisite → Value
subscription_body p = fields (
    (
      "spec",
      fields (
          ("channel", word p.channel)
          ∷ ("name", text p.package_name)
          ∷ ("source", word p.catalog_source)
          ∷ ("sourceNamespace", word "openshift-marketplace")
          ∷ ("installPlanApproval", word "Automatic")
          ∷ []),
    )
    ∷ [])

-- Where `act` is run on not found, nothing is done on an object, and other errors are returned.
unfoldable pub if_missing :
    {W : Type 0} → Reply Object → (W → Option Failure × W) → W → Option Failure × W
if_missing (reply o) act w = (none, w)
if_missing (refused not_found) act w = act w
if_missing (refused e) act w = (some (api e), w)

-- The number of OperatorGroups decides.
unfoldable pub by_count : {W : Type 0} → Reply ℕ → (W → Option Failure × W) → W → Option Failure × W
by_count (refused e) act w = (some (api e), w)
by_count (reply zero) act w = act w
by_count (reply (suc zero)) act w = (none, w)
by_count (reply (suc (suc n))) act w = (some (rejected "found several OperatorGroups"), w)

unfoldable pub phase_verdict : Phase → Verdict Failure
phase_verdict succeeded = (true, none)
phase_verdict failed = (false, some (rejected "CSV failed"))
phase_verdict pending = (false, none)

module _ {W : Type 0} (server : Server W) (catalog : Catalog W) where
  unfoldable pub ensure_namespace : Text → W → Option Failure × W
  ensure_namespace namespace w =
      let k = key "" "namespaces" [] namespace in
      if_missing (server.get k w) (λ v. unless_exists (server.create k (unlabelled empty) v)) w

  unfoldable pub ensure_operator_group : Text → W → Option Failure × W
  ensure_operator_group namespace w =
      let k = key "" "operatorgroups" namespace namespace in
      after (ensure_namespace namespace w) λ v.
        by_count (catalog.count_operator_groups namespace v)
          (λ u. unless_exists (server.create k (unlabelled empty) u)) v

  -- What the closure of `waitForOperator` makes of the answer for the CSV.
  unfoldable pub csv_verdict : Reply Object → Verdict Failure
  csv_verdict (refused not_found) = (false, none)
  csv_verdict (refused e) = (false, some (api e))
  csv_verdict (reply csv) = phase_verdict (catalog.phase_of csv)

  unfoldable pub subscription_verdict : Text → Reply Object → W → Verdict Failure
  subscription_verdict namespace (refused not_found) w = (false, none)
  subscription_verdict namespace (refused e) w = (false, some (api e))
  subscription_verdict namespace (reply s) w =
      let csv = (catalog.subscription_of s).installed_csv in
      if null csv
      then (false, none)
      else csv_verdict (server.get (key "" "clusterserviceversions" namespace csv) w)

  unfoldable pub operator_condition : Text → Text → Condition W Failure
  operator_condition namespace name w = (
    subscription_verdict namespace (server.get (subscription_key namespace name) w) w,
    server.pause w,
  )

  unfoldable pub wait_for_operator : Text → Text → W → Option Failure × W
  wait_for_operator namespace name w =
      let (outcome, v) = catalog.poller.poll (operator_condition namespace name) w in
      (outcome_failure outcome, v)

  -- A subscription with that name must be for the package.
  unfoldable pub reuse_existing : Prerequisite → Reply Object → W → Option Failure × W
  reuse_existing p (refused e) w = (some (api e), w)
  reuse_existing p (reply s) w =
      let wait = wait_for_operator p.namespace p.package_name w in
      if (catalog.subscription_of s).package_name == some p.package_name
      then wait
      else (some (rejected "already exists for a different package"), w)

  unfoldable pub after_subscribe : Prerequisite → Reply Object × W → Option Failure × W
  after_subscribe p (reply s, w) = wait_for_operator p.namespace p.package_name w
  after_subscribe p (refused already_exists, w) =
      reuse_existing p (server.get (subscription_key p.namespace p.package_name) w) w
  after_subscribe p (refused e, w) = (some (api e), w)

  unfoldable pub subscribe : Prerequisite → W → Option Failure × W
  subscribe p w =
      let k = subscription_key p.namespace p.package_name in
      after (ensure_operator_group p.namespace w)
        λ v. after_subscribe p (server.create k (unlabelled (subscription_body p)) v)

  unfoldable pub choose : Prerequisite → List Listed → W → Option Failure × W
  choose p [] w = subscribe p w
  choose p (s ∷ []) w = wait_for_operator s.namespace s.name w
  choose p (s ∷ t ∷ rest) w = (some (rejected "found several subscriptions"), w)

  unfoldable pub with_list : Prerequisite → Reply (List Listed) → W → Option Failure × W
  with_list p (refused e) w = (some (api e), w)
  with_list p (reply ss) w = choose p (matching p.package_name ss) w

  unfoldable pub ensure_operator : Prerequisite → W → Option Failure × W
  ensure_operator p w = with_list p (catalog.list_subscriptions w) w

  unfoldable pub api_condition : String → Condition W Failure
  api_condition group_version w = ((catalog.served group_version w, none), server.pause w)

  unfoldable pub wait_for_api : String → W → Option Failure × W
  wait_for_api group_version w =
      let (outcome, v) = catalog.poller.poll (api_condition group_version) w in
      (outcome_failure outcome, v)

  -- `discover` where there is a discovery client.
  unfoldable pub wait_if : Bool → String → W → Option Failure × W
  wait_if false group_version w = (none, w)
  wait_if true group_version w = wait_for_api group_version w

  unfoldable pub ensure_prerequisites : Bool → List Prerequisite → W → Option Failure × W
  ensure_prerequisites discover [] w = (none, w)
  ensure_prerequisites discover (p ∷ ps) w =
      after (ensure_operator p w)
        λ v. after (wait_if discover p.group_version v) (ensure_prerequisites discover ps)
