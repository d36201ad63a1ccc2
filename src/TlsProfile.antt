-- ===== src/TlsProfile.antt =====
-- The assertions of pkg/operator/tlsprofile.go on a Deployment and on a ConfigMap:
-- `AssertDeploymentHasEnvVar` and `AssertNginxConfigMapHasTLSProfile`. The answers of the API server
-- and the poll are parameters. A failed `Expect` is an outcome other than success.
pub mod Accepted
mod Tests
use release_tests_ginkgo.Prelude.{
  String, Bool, true, false, Option, none, some, List, [], ◌∷◌, if◌then◌else◌, ◌==◌, ◌&&◌, ◌||◌,
  string_eq, text_eq,
}
use release_tests_ginkgo.Prelude.Texts.{Text, codes, contains}
use release_tests_ginkgo.Poll.{Condition, Outcome, Poller}

abbrev pub Variable : Type 0
Variable = Text × Text

-- The variables of one container: the first one of that name with another value ends the search.
unfoldable pub has_variable : Text → Text → Bool → List Variable → Bool
has_variable name expected found [] = found
has_variable name expected found ((n, v) ∷ env) =
    let matched = has_variable name expected true env in
    let other = has_variable name expected found env in
    if n == name then (if v == expected then matched else false) else other

unfoldable pub containers_ready : Text → Text → List (List Variable) → Bool
containers_ready name expected [] = true
containers_ready name expected (env ∷ envs) =
    has_variable name expected false env && containers_ready name expected envs

unfoldable pub required_protocols : String → List Text
required_protocols profile =
    if profile == "Modern"
    then codes "TLSv1.3" ∷ []
    else if profile == "Intermediate"
    then codes "TLSv1.2" ∷ codes "TLSv1.3" ∷ []
    else if profile == "Old"
    then codes "TLSv1" ∷ codes "TLSv1.1" ∷ codes "TLSv1.2" ∷ codes "TLSv1.3" ∷ []
    else codes "TLSv1.2" ∷ codes "TLSv1.3" ∷ []

unfoldable pub all_found : List Text → Text → Bool
all_found [] value = true
all_found (p ∷ ps) value = contains value p && all_found ps value

-- The data of a ConfigMap, in the order of an iteration.
unfoldable pub any_value : List Text → List (Text × Text) → Bool
any_value ps [] = false
any_value ps ((k, v) ∷ rest) = all_found ps v || any_value ps rest

-- Where the object cannot be read, the poll goes on.
unfoldable pub if_read : {A : Type 0} → (A → Bool) → Option A → Bool
if_read test none = false
if_read test (some a) = test a

module _ {W E : Type 0} (pause : W → W) (poller : Poller W E) where
  unfoldable pub env_condition : (W → Option (List (List Variable))) → Text → Text → Condition W E
  env_condition deployment name expected w =
      ((if_read (containers_ready name expected) (deployment w), none), pause w)

  unfoldable pub assert_deployment_has_env_var :
      (W → Option (List (List Variable))) → Text → Text → W → Outcome E × W
  assert_deployment_has_env_var deployment name expected =
      poller.poll (env_condition deployment name expected)

  unfoldable pub nginx_condition : (W → Option (List (Text × Text))) → String → Condition W E
  nginx_condition config_map profile w =
      ((if_read (any_value (required_protocols profile)) (config_map w), none), pause w)

  unfoldable pub assert_nginx_config_map_has_tls_profile :
      (W → Option (List (Text × Text))) → String → W → Outcome E × W
  assert_nginx_config_map_has_tls_profile config_map profile =
      poller.poll (nginx_condition config_map profile)
