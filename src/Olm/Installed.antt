-- ===== src/Olm/Installed.antt =====
-- What `EnsureOperator` of pkg/olm/cluster_bootstrap.go has seen where it returns nil, and what it
-- leaves as it is.
use release_tests_ginkgo.Prelude.{Option, ◌≡◌, ◌⊎◌, List, [], ◌∷◌, option_eq, text_eq}
use release_tests_ginkgo.Prelude.Texts.{Text}
use release_tests_ginkgo.Poll.{Pending}
use release_tests_ginkgo.Kube.{key, Object, Reply, reply, Server}
use release_tests_ginkgo.Olm.{
  unlabelled, subscription_body, ensure_operator_group, succeeded, Listed, Catalog, Prerequisite,
  subscription_key, matching, ensure_operator_group, operator_condition,
}

module _ {W : Type 0} (server : Server W) (catalog : Catalog W) where
  -- The CSV of the subscription has succeeded.
  pub record Installed (namespace name : Text) (w : W) : Type 0 where
    pub subscription : Object
    pub csv : Object
    pub subscribed : server.get (subscription_key namespace name) w ≡ reply subscription
    pub installed :
        server.get
          (key "" "clusterserviceversions" namespace
            (catalog.subscription_of subscription).installed_csv)
          w
        ≡ reply csv
    pub phase : catalog.phase_of csv ≡ succeeded

  -- The poll that started in `u` reached a state with the installation and ended there, before `t`.
  abbrev pub Seen : Text → Text → W → W → Type 0
  Seen namespace name u t =
      (v : W) × Pending (operator_condition server catalog namespace name) u v
      × Installed namespace name v
      × (server.pause v ≡ t)

  -- The state after the operator group and the subscription were created.
  abbrev pub subscribed : Prerequisite → W → W
  subscribed p w =
      (server.create (subscription_key p.namespace p.package_name)
        (unlabelled (subscription_body p)) (ensure_operator_group server catalog p.namespace w).1).1

  -- The subscription that `EnsureOperator` waits for, and the state in which the wait starts: the
  -- only one for the package in the list, at once, or, where there is none, that with the name of the
  -- package, after it was created.
  abbrev pub Chosen : Prerequisite → Reply (List Listed) → W → Text → Text → W → Type 0
  Chosen p ss w namespace name u =
      ((listed : List Listed) × (s : Listed) × (ss ≡ reply listed)
        × (matching p.package_name listed ≡ s ∷ [])
        × (s.namespace ≡ namespace)
        × (s.name ≡ name)
        × (w ≡ u))
      ⊎ ((listed : List Listed) × (ss ≡ reply listed)
          × (matching p.package_name listed ≡ [])
          × (p.namespace ≡ namespace)
          × (p.package_name ≡ name)
          × (subscribed p w ≡ u))

  -- What is known of the subscription and of the wait.
  abbrev pub Witnessed : Prerequisite → Reply (List Listed) → W → W → Type 0
  Witnessed p ss w t =
      (namespace : Text) × (name : Text) × (u : W) × Chosen p ss w namespace name u
      × Seen namespace name u t
