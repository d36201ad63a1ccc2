-- ===== src/Kueue/Resources/Scope.antt =====
-- The credential of a worker in pkg/tektonkueue/resources.go: `scopedKubeconfig`,
-- `verifyWorkerCredentialScope`, and the wait for the root CA in `createWorkerCredential`.
use release_tests_ginkgo.Prelude.{◌≡◌, String, Bool, true, false, not, ◌||◌, Option, none, some, []}
use release_tests_ginkgo.Prelude.{◌==◌, string_eq, if◌then◌else◌}
use release_tests_ginkgo.Prelude.Texts.{Text, codes, null}
use release_tests_ginkgo.Poll.{Verdict, Condition, Outcome, success, Poller}
use release_tests_ginkgo.Kube.{
  Key, key, Object, ApiError, Reply, reply, refused, Server, Value, text, field,
}
use release_tests_ginkgo.Kueue.Validation.{RestConfig}
use release_tests_ginkgo.Kueue.Resources.{Failure, api, rejected, poll_failure}

-- `ResourceAttributes` of a SelfSubjectAccessReview.
pub record Attributes : Type 0 where
  pub verb : String
  pub group : String
  pub resource : String
  pub namespace : Text

-- The calls of client-go that a credential goes through. `write` and `connect` give nothing where
-- the library returns an error.
pub record Access {W : Type 0} (server : Server W) : Type 0 where
  pub create_token : String → Text → Text → W → Reply Text × W
  -- a token is no object
  pub token_stored :
      (cluster : String) (namespace name : Text) (k : Key) (w : W)
      → server.stored k (create_token cluster namespace name w).1 ≡ server.stored k w
  -- `clientcmd.Write` for a host, a token and a CA
  pub write : Text → Text → Text → Option Text
  -- `RESTConfigFromKubeConfig` and `NewForConfig` succeed
  pub connect : Text → Bool
  -- the `Status.Allowed` of a review that the kubeconfig asks for
  pub review : Text → Attributes → W → Reply Bool
  -- the poll whose closure sets `ca`
  pub ca_poller : Poller (W × Text) ApiError

-- `m[key]` of a nested map, as text; the empty text where it is not there.
unfoldable pub value_at : String → Value → Option Value
value_at k (field j v rest) = let others = value_at k rest in if j == k then some v else others
value_at k v = none

unfoldable pub text_of : Option Value → Text
text_of (some (text t)) = t
text_of v = []

-- `configMap.Data["ca.crt"]`
unfoldable pub ca_of : Object → Text
ca_of o = elim (value_at "data" o.body) [ some v ↦ text_of (value_at "ca.crt" v) | none ↦ [] ]

unfoldable pub scoped_kubeconfig :
    (Text → Text → Text → Option Text) → Option RestConfig → Text → Text → Option Text
scoped_kubeconfig write none token ca = none
scoped_kubeconfig write (some config) token ca =
    if null config.host || (null token || null ca) then none else write config.host token ca

-- What `allowed` reports to a poll.
abbrev pub allowed_verdict : Reply Bool → Verdict ApiError
allowed_verdict (reply b) = (b, none)
allowed_verdict (refused e) = (false, some e)

-- An access that must not be allowed.
abbrev pub must_not : String → Reply Bool → Option Failure → Option Failure
must_not message (refused e) next = some (api e)
must_not message (reply true) next = some (rejected message)
must_not message (reply false) next = next

abbrev pub create_runs : Text → Attributes
create_runs namespace = record {
  verb = "create";
  group = "tekton.dev";
  resource = "pipelineruns";
  namespace = namespace;
}

abbrev pub get_secrets : Text → Attributes
get_secrets namespace = record {
  verb = "get";
  group = "";
  resource = "secrets";
  namespace = namespace;
}

module _ {W : Type 0} (server : Server W) (access : Access server) where
  -- The closure of the wait for `kube-root-ca.crt`.
  unfoldable pub ca_verdict : Reply Object → Text → Verdict ApiError × Text
  ca_verdict (refused e) ca = ((false, none), ca)
  ca_verdict (reply o) ca = ((not (null (ca_of o)), none), ca_of o)

  unfoldable pub ca_condition : String → Text → Condition (W × Text) ApiError
  ca_condition cluster namespace (w, ca) =
      let k = key cluster "configmaps" namespace (codes "kube-root-ca.crt") in
      let (verdict, ca') = ca_verdict (server.get k w) ca in (verdict, (server.pause w, ca'))

  unfoldable pub scope_condition : Text → Text → Condition W ApiError
  scope_condition kubeconfig namespace w =
      (allowed_verdict (access.review kubeconfig (create_runs namespace) w), server.pause w)

  -- What must not be allowed once PipelineRuns can be created in the test namespace.
  unfoldable pub scope_excess : Text → Text → W → Option Failure
  scope_excess kubeconfig namespace w =
      let secrets = access.review kubeconfig (get_secrets namespace) w in
      must_not "worker credential can mutate PipelineRuns outside the test namespace"
        (access.review kubeconfig (create_runs (codes "default")) w)
        (must_not "worker credential can read Secrets" secrets none)

  unfoldable pub after_scope : Text → Text → Outcome ApiError × W → Option Failure × W
  after_scope kubeconfig namespace (success, w) = (scope_excess kubeconfig namespace w, w)
  after_scope kubeconfig namespace (outcome, w) = (poll_failure outcome, w)

  unfoldable pub verify_worker_credential_scope :
      Poller W ApiError → Text → Text → W → Option Failure × W
  verify_worker_credential_scope poller kubeconfig namespace w =
      if access.connect kubeconfig
      then after_scope kubeconfig namespace (poller.poll (scope_condition kubeconfig namespace) w)
      else (some (rejected "parse scoped worker credential"), w)
