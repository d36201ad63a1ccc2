-- ===== src/Olm/Tests.antt =====
-- The installation of operators of pkg/olm on a server that answers from a map.
use native.Mathlib.Decide
use release_tests_ginkgo.Prelude.{
  true, false, if◌then◌else◌, refl, none, some, [], ◌∷◌, text_eq, string_eq,
}
use release_tests_ginkgo.Prelude.Texts.{codes, null}
use release_tests_ginkgo.Poll.Bounded.{bounded}
use release_tests_ginkgo.Kube.{namespace_of, key, key_eq, Object, reply, empty}
use release_tests_ginkgo.Kube.Laws.{Home, inside, Present}
use release_tests_ginkgo.Kube.Memory.{Memory, memory, put}
use release_tests_ginkgo.Olm.{
  pending, succeeded, Listed, Catalog, Prerequisite, subscription_key, ensure_prerequisites,
}
use release_tests_ginkgo.Olm.Kept.{ensure_prerequisites-Safe}

abbrev wanted : Prerequisite
wanted = record {
  package_name = codes "p";
  channel = "stable";
  catalog_source = "c";
  namespace = codes "n";
  group_version = "g";
}

abbrev plain : Object
plain = record { labels = []; uid = codes "1"; deleting = false; body = empty }

abbrev listed : Listed
listed = record {
  namespace = codes "m";
  name = codes "s";
  subscription = record { package_name = some (codes "p"); installed_csv = codes "v" };
}

-- A CSV without a UID is pending, and every subscription is that of `listed`.
abbrev catalog : Catalog Memory
catalog = record {
  list_subscriptions = λ w. reply (listed ∷ []);
  count_operator_groups = λ namespace w. reply 1;
  subscription_of = λ o. listed.subscription;
  phase_of = λ o. if null o.uid then pending else succeeded;
  served = λ group_version w. true;
  poller = bounded 3;
}

abbrev start : Memory
start = put (subscription_key (codes "m") (codes "s")) (some plain) (
    put (key "" "clusterserviceversions" (codes "m") (codes "v")) (some plain)
      (put (key "" "namespaces" [] (codes "m")) (some plain) (λ k. none)))

home : Home (λ p. Unit) (subscription_key (codes "m") (codes "s"))
unfolding namespace_of key subscription_key
home = inside (key "" "namespaces" [] (codes "m")) plain refl tt refl

ensure_prerequisites-Safe_example :
    Present memory
      (subscription_key (codes "m") (codes "s"))
      plain
      home
      (ensure_prerequisites memory catalog true (wanted ∷ []) start).1
unfolding subscription_key memory put key key_eq home text_eq string_eq
    native.Mathlib.Decide.ℕ_discrete
ensure_prerequisites-Safe_example =
    ensure_prerequisites-Safe memory catalog (subscription_key (codes "m") (codes "s")) plain refl
      home true (wanted ∷ []) start (refl, refl)
