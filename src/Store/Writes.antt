-- ===== src/Store/Writes.antt =====
-- What a reader finds after any sequence of writes.
use release_tests_ginkgo.Prelude.{
  String, Option, none, some, List, [], ◌∷◌, ◌≡◌, refl, ap, ◌∙◌, arith,
}
use release_tests_ginkgo.Prelude.{◌==◌, string_eq, if◌then◌else◌}
use release_tests_ginkgo.Store.Data.{
  Kinds, Value, string, strings, cr_names, Entries, Stores, lookup, assign,
}
use release_tests_ginkgo.Store.Data.{as_string, get_scenario_data, namespace}
use release_tests_ginkgo.Store.Data.{set_cr_names, put_scenario_data, set_namespace}
use release_tests_ginkgo.Store.Data.{put_scenario_data_slice, put_suite_data, get_suite_data}

module _ (K : Kinds) where
  -- The operations that write.
  pub data Write : Type 0 where
    cr_names_write : K.ResourceNames → Write
    data_write : String → String → Write
    namespace_write : String → Write
    slice_write : String → List String → Write
    suite_write : String → Value K → Write

  unfoldable pub write : Write → Stores K → Stores K
  write (cr_names_write names) s = set_cr_names K names s
  write (data_write key v) s = put_scenario_data K key v s
  write (namespace_write ns) s = set_namespace K ns s
  write (slice_write key v) s = put_scenario_data_slice K key v s
  write (suite_write key v) s = put_suite_data K key v s

  unfoldable pub write_all : List Write → Stores K → Stores K
  write_all [] s = s
  write_all (w ∷ ws) s = write_all ws (write w s)

  -- What a write says of a key of the scenario, and of a key of the suite.
  abbrev pub scenario_value : String → Write → Option (Value K)
  scenario_value key (cr_names_write names) =
      if "crnames" == key then some (cr_names names) else none
  scenario_value key (data_write k v) = if k == key then some (string v) else none
  scenario_value key (namespace_write ns) = if "namespace" == key then some (string ns) else none
  scenario_value key (slice_write k v) = if k == key then some (strings v) else none
  scenario_value key (suite_write k v) = none

  abbrev pub suite_value : String → Write → Option (Value K)
  suite_value key (suite_write k v) = if k == key then some v else none
  suite_value key _ = none

  -- The last value that is said, and otherwise the one at hand.
  abbrev pub last_value :
      (Write → Option (Value K)) → List Write → Option (Value K) → Option (Value K)
  last_value says [] v = v
  last_value says (w ∷ ws) v = last_value says ws (elim (says w) [ some u ↦ some u | none ↦ v ])

  lookup-assign :
      (key k : String) (v : Value K) (m : Entries K)
      → lookup K key (assign K k v m) ≡ (if k == key then some v else lookup K key m)
  unfolding lookup assign
  lookup-assign key k v [] = refl
  lookup-assign key k v ((j, w) ∷ m) = ground (arith, lookup-assign key k v m)

  scenario-write :
      (key : String) (w : Write) (s : Stores K)
      → lookup K key (write w s).scenario
        ≡ elim (scenario_value key w) [ some u ↦ some u | none ↦ lookup K key s.scenario ]
  unfolding write set_cr_names put_scenario_data set_namespace put_scenario_data_slice
      put_suite_data
  scenario-write key (cr_names_write names) s =
      ground (arith, lookup-assign key "crnames" (cr_names names) s.scenario)
  scenario-write key (data_write k v) s = ground (arith, lookup-assign key k (string v) s.scenario)
  scenario-write key (namespace_write ns) s =
      ground (arith, lookup-assign key "namespace" (string ns) s.scenario)
  scenario-write key (slice_write k v) s =
      ground (arith, lookup-assign key k (strings v) s.scenario)
  scenario-write key (suite_write k v) s = refl

  scenario-write_all :
      (key : String) (ws : List Write) (s : Stores K)
      → lookup K key (write_all ws s).scenario
        ≡ last_value (scenario_value key) ws (lookup K key s.scenario)
  unfolding write_all
  scenario-write_all key [] s = refl
  scenario-write_all key (w ∷ ws) s =
      scenario-write_all key ws (write w s)
      ∙ ap (last_value (scenario_value key) ws) (scenario-write key w s)

  -- After any sequence of writes, `GetScenarioData` and `Namespace` return the last value that was
  -- written under their key if that is a string, and the empty string if it is of another type or
  -- there is none; the suite's store does not matter.
  pub get_scenario_data-write_all :
      (key : String) (ws : List Write) (s : Stores K)
      → (get_scenario_data K key (write_all ws s)
          ≡ as_string K (last_value (scenario_value key) ws (lookup K key s.scenario)))
        × (namespace K (write_all ws s)
            ≡ as_string K
                (last_value (scenario_value "namespace") ws (lookup K "namespace" s.scenario)))
  unfolding get_scenario_data namespace
  get_scenario_data-write_all key ws s = (
    ap (as_string K) (scenario-write_all key ws s),
    ap (as_string K) (scenario-write_all "namespace" ws s),
  )

  suite-write :
      (key : String) (w : Write) (s : Stores K)
      → lookup K key (write w s).suite
        ≡ elim (suite_value key w) [ some u ↦ some u | none ↦ lookup K key s.suite ]
  unfolding write set_cr_names put_scenario_data set_namespace put_scenario_data_slice
      put_suite_data
  suite-write key (cr_names_write names) s = refl
  suite-write key (data_write k v) s = refl
  suite-write key (namespace_write ns) s = refl
  suite-write key (slice_write k v) s = refl
  suite-write key (suite_write k v) s = ground (arith, lookup-assign key k v s.suite)

  -- After any sequence of writes, `GetSuiteData` returns the last value that `PutSuiteData` wrote
  -- under the key, or what was there before.
  pub get_suite_data-write_all :
      (key : String) (ws : List Write) (s : Stores K)
      → get_suite_data K key (write_all ws s)
        ≡ last_value (suite_value key) ws (get_suite_data K key s)
  unfolding write_all get_suite_data
  get_suite_data-write_all key [] s = refl
  get_suite_data-write_all key (w ∷ ws) s =
      get_suite_data-write_all key ws (write w s)
      ∙ ap (last_value (suite_value key) ws) (suite-write key w s)
