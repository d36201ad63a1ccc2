-- ===== src/Multicluster/Tests.antt =====
-- A Hub-mode test run on a server that answers from a map.
use native.Mathlib.Decide
use release_tests_ginkgo.Prelude.{
  arith, true, false, ◌≡◌, refl, none, some, [], ◌∷◌, ◌==◌, text_eq, string_eq, if◌then◌else◌,
}
use release_tests_ginkgo.Prelude.Texts.{codes}
use release_tests_ginkgo.Poll.Bounded.{bounded}
use release_tests_ginkgo.Kube.{namespace_of, Key, key, key_eq, Object, reply, empty}
use release_tests_ginkgo.Kube.Memory.{Memory, memory, put, root_ca, is_root_ca}
use release_tests_ginkgo.Kube.Laws.{inside}
use release_tests_ginkgo.Kueue.Frameworks.{mapping, text}
use release_tests_ginkgo.Kueue.Resources.{label}
use release_tests_ginkgo.Kueue.Resources.Scope.{Access}
use release_tests_ginkgo.Multicluster.{Environment, owns, delete_owned_resources}
use release_tests_ginkgo.Multicluster.Register.{Watch, set_up_worker}
use release_tests_ginkgo.Multicluster.Ensure.{Run}
use release_tests_ginkgo.Multicluster.Discharged.{Discharged, set_up_worker-Discharged}
use release_tests_ginkgo.Multicluster.Spared.{Alien, Abroad}
use release_tests_ginkgo.Multicluster.Worker.{set_up_worker-delete_owned_resources}

abbrev environment : Environment
environment = record {
  prefix = codes "rtg";
  worker_name = codes "rtg-self";
  kueue_namespace = codes "kueue";
  secret_uid = [];
  cluster_uid = [];
  kueue_uid = [];
  kueue_owned = false;
}

abbrev root_ca_key : Key
root_ca_key = key "" "configmaps" (codes "kueue") (codes "kube-root-ca.crt")

-- A namespace of others with a ConfigMap.
abbrev others : Object
others = record { labels = []; uid = codes "9"; deleting = false; body = empty }

abbrev home_key : Key
home_key = key "" "namespaces" [] (codes "others")

abbrev others_key : Key
others_key = key "" "configmaps" (codes "others") (codes "settings")

abbrev start : Memory
start =
    put others_key (some others)
      (put home_key (some others) (put root_ca_key (some root_ca) (λ k. none)))

-- Every object is available and active.
abbrev watch : Watch Memory
watch = record {
  conditions = λ o. mapping (λ k. some (text (if k == "type" then "Available" else "True"))) ∷ [];
  listed = λ w. true;
  poller = bounded 3;
}

abbrev access : Access memory
access = record {
  create_token = λ cluster namespace name w. (reply (codes "token"), w);
  token_stored = λ cluster namespace name k w. unfold memory in refl;
  write = λ host token ca. some token;
  connect = λ kubeconfig. true;
  review = λ kubeconfig a w. reply true;
  ca_poller = bounded 3;
}

unlike : key "" "clusterroles" [] (codes "rtg-self") ≡ key "" "kueues" [] (codes "cluster") → ⊥
unfolding key
unlike h = ground arith

abbrev begun : Run Memory
begun = record { world = start; env = environment }

abbrev cluster_role_key : Key
cluster_role_key = key "" "clusterroles" [] (codes "rtg-self")

-- The ClusterRole is created and deleted.
set_up_worker-Discharged_example :
    let s = (set_up_worker memory watch access begun).1 in
    Discharged memory cluster_role_key (delete_owned_resources memory s.env s.world)
unfolding memory put key key_eq is_root_ca text_eq string_eq native.Mathlib.Decide.ℕ_discrete
set_up_worker-Discharged_example =
    set_up_worker-Discharged memory watch access begun cluster_role_key refl refl
      (λ same. absurd (unlike same))

stranger : Alien (codes "rtg") others
unfolding owns label string_eq text_eq native.Mathlib.Decide.ℕ_discrete
stranger = record { unowned = refl; alive = refl }

abroad : Abroad (codes "rtg") others_key
unfolding namespace_of key
abroad = inside home_key others refl stranger refl

set_up_worker-delete_owned_resources_example :
    let s = (set_up_worker memory watch access begun).1 in
    (memory.stored others_key s.world ≡ some others)
    × (memory.stored others_key (delete_owned_resources memory s.env s.world).1 ≡ some others)
set_up_worker-delete_owned_resources_example =
    set_up_worker-delete_owned_resources memory watch access begun others_key others stranger abroad
      (unfold memory put key key_eq abroad text_eq native.Mathlib.Decide.ℕ_discrete in (refl, refl))

-- The first policy is there, but it is being deleted; no policy is asked for.
abbrev policy : Object
policy = record { labels = []; uid = codes "2"; deleting = true; body = empty }

abbrev deleting : Memory
deleting =
    put (key "" "networkpolicies" (codes "pipelines") (codes "proxy-aae")) (some policy) start
