-- ===== src/Multicluster/Policies.antt =====
-- `PoliciesByComponent`, `assertPolicy` and `AssertPolicies` of pkg/multicluster/multicluster.go, and
-- what they have seen where they return nil.
use release_tests_ginkgo.Prelude.{
  String, Bool, true, false, not, ◌≡◌, Option, none, some, List, [], ◌∷◌, ◌==◌, string_eq,
  if◌then◌else◌,
}
use release_tests_ginkgo.Prelude.Texts.{Text, codes}
use release_tests_ginkgo.Poll.{Verdict, Condition, Poller, Pending}
use release_tests_ginkgo.Kube.{Key, key, Object, ApiError, not_found, Reply, reply, refused, Server}
use release_tests_ginkgo.Kueue.Resources.{Failure, rejected, poll_failure, after}

unfoldable pub policies_by_component : String → Option (List String)
policies_by_component component =
    if component == "scheduler"
    then some (
        "scheduler-controller" ∷ "scheduler-controller-default-deny" ∷ "scheduler-webhook"
        ∷ "scheduler-webhook-default-deny" ∷ [])
    else if component == "proxy-aae"
    then some ("proxy-aae" ∷ "proxy-aae-default-deny" ∷ [])
    else if component == "syncer-service"
    then some ("syncer-service-controller" ∷ "syncer-service-default-deny" ∷ [])
    else none

-- The answer for a policy against what is asked for.
unfoldable pub policy_verdict : Bool → Reply Object → Verdict ApiError
policy_verdict present (reply o) = (present, none)
policy_verdict present (refused not_found) = (not present, none)
policy_verdict present (refused e) = (false, some e)

module _ {W : Type 0} (server : Server W) (poller : Poller W ApiError) (namespace : Text)
    (present : Bool) where
  abbrev pub policy_key : String → Key
  policy_key name = key "" "networkpolicies" namespace (codes name)

  unfoldable pub policy_condition : String → Condition W ApiError
  policy_condition name w =
      (policy_verdict present (server.get (policy_key name) w), server.pause w)

  unfoldable pub assert_policy : String → W → Option Failure × W
  assert_policy name w =
      let (outcome, v) = poller.poll (policy_condition name) w in (poll_failure outcome, v)

  -- The inner loop.
  unfoldable pub assert_each : List String → W → Option Failure × W
  assert_each [] w = (none, w)
  assert_each (name ∷ names) w = after (assert_policy name w) (assert_each names)

  unfoldable pub assert_component : Option (List String) → W → Option Failure × W
  assert_component none w = (some (rejected "unknown multicluster component"), w)
  assert_component (some names) w = assert_each names w

  unfoldable pub assert_policies : List String → W → Option Failure × W
  assert_policies [] w = (none, w)
  assert_policies (component ∷ components) w =
      after (assert_component (policies_by_component component) w) (assert_policies components)

  -- The answer that is asked for.
  abbrev pub AsAsked : Reply Object → Type 0
  AsAsked x = policy_verdict present x ≡ (true, none)

  -- The poll that started in `w` reached a state in which the policy was as asked for, and ended there,
  -- before `t`.
  abbrev pub Seen : String → W → W → Type 0
  Seen name w t =
      (v : W) × Pending (policy_condition name) w v
      × AsAsked (server.get (policy_key name) v)
      × (server.pause v ≡ t)

  -- So was each policy, in this order, each poll starting where the one before ended.
  abbrev pub SeenEach : List String → W → W → Type 0
  SeenEach [] w u = w ≡ u
  SeenEach (name ∷ names) w u = (t : W) × Seen name w t × SeenEach names t u

  -- And so were the policies of each component, which is known.
  abbrev pub SeenAll : List String → W → W → Type 0
  SeenAll [] w u = w ≡ u
  SeenAll (c ∷ cs) w u =
      (t : W) × (names : List String) × (policies_by_component c ≡ some names)
      × SeenEach names w t
      × SeenAll cs t u
