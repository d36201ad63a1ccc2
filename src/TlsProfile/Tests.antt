-- ===== src/TlsProfile/Tests.antt =====
-- The assertions of pkg/operator/tlsprofile.go on objects that appear after two evaluations.
use release_tests_ginkgo.Prelude.{
  ℕ, zero, suc, ◌≡◌, refl, Option, none, some, List, [], ◌∷◌, text_eq, string_eq,
}
use release_tests_ginkgo.Prelude.Texts.{Text, codes}
use release_tests_ginkgo.Prelude.Lists.{All}
use release_tests_ginkgo.Poll.{success, Pending}
use release_tests_ginkgo.Poll.Bounded.{bounded, run}
use release_tests_ginkgo.Kueue.Resources.{Failure}
use release_tests_ginkgo.TlsProfile.{
  Variable, required_protocols, all_found, any_value, if_read, env_condition,
  assert_deployment_has_env_var, nginx_condition, assert_nginx_config_map_has_tls_profile,
}
use release_tests_ginkgo.TlsProfile.Accepted.{
  Carries, assert_nginx-Modern, assert_deployment_has_env_var_iff,
}

abbrev from_two : {A : Type 0} → A → ℕ → Option A
from_two a zero = none
from_two a (suc zero) = none
from_two a (suc (suc n)) = some a

abbrev nginx : List (Text × Text)
nginx = (codes "c", codes "TLSv1.2 TLSv1.3;") ∷ []

assert_nginx-Modern_example :
    (t : ℕ) × Pending
      (nginx_condition suc (bounded {E = Failure} 3) (from_two nginx) "Intermediate")
      0
      t
    × ((assert_nginx_config_map_has_tls_profile suc
          (bounded {E = Failure} 3)
          (from_two nginx)
          "Modern"
          t).0
        ≡ success)
unfolding assert_nginx_config_map_has_tls_profile nginx_condition if_read any_value all_found
    required_protocols run string_eq
assert_nginx-Modern_example = assert_nginx-Modern suc (bounded 3) (from_two nginx) 0 refl

abbrev env : List (List Variable)
env = ((codes "N", codes "1.3") ∷ []) ∷ []

assert_deployment_has_env_var_iff_example :
    ((assert_deployment_has_env_var suc
          (bounded {E = Failure} 3)
          (from_two env)
          (codes "N")
          (codes "1.3")
          0).0
        ≡ success
      → (t : ℕ) × Pending
          (env_condition suc (bounded {E = Failure} 3) (from_two env) (codes "N") (codes "1.3"))
          0
          t
        × (envs : List (List Variable)) × (from_two env t ≡ some envs)
        × All (Carries (codes "N") (codes "1.3")) envs)
    × ((envs : List (List Variable))
        → from_two env 0 ≡ some envs
        → All (Carries (codes "N") (codes "1.3")) envs
        → (assert_deployment_has_env_var suc
            (bounded {E = Failure} 3)
            (from_two env)
            (codes "N")
            (codes "1.3")
            0).0
          ≡ success)
assert_deployment_has_env_var_iff_example =
    assert_deployment_has_env_var_iff suc (bounded 3) (from_two env) (codes "N") (codes "1.3") 0
