-- ===== src/Store/Data.antt =====
-- The two maps of pkg/store/store.go and their accessors. A value is of `any` type: what the
-- clients, resource names, responses and commands are is left to their packages.
use release_tests_ginkgo.Prelude.{String, Option, none, some, List, [], ◌∷◌}
use release_tests_ginkgo.Prelude.{◌==◌, string_eq, if◌then◌else◌}
use release_tests_ginkgo.Prelude.Texts.{Text}

pub record Kinds : Type 1 where
  pub Clients : Type 0
  pub ResourceNames : Type 0
  pub HttpResponse : Type 0
  pub Cmd : Type 0
  pub Other : Type 0
  pub no_names : ResourceNames

module _ (K : Kinds) where
  -- The dynamic types that the accessors tell apart.
  pub data Value : Type 0 where
    string : String → Value
    strings : List String → Value
    bytes : Text → Value
    clients : K.Clients → Value
    cr_names : K.ResourceNames → Value
    response : K.HttpResponse → Value
    cmd : K.Cmd → Value
    other : K.Other → Value

  abbrev pub Entries : Type 0
  Entries = List (String × Value)

  pub record Stores : Type 0 where
    pub scenario : Entries
    pub suite : Entries

  -- `m[key]`, `nil` where it is missing.
  unfoldable pub lookup : String → Entries → Option Value
  lookup key [] = none
  lookup key ((k, v) ∷ m) = if k == key then some v else lookup key m

  -- `m[key] = value`
  unfoldable pub assign : String → Value → Entries → Entries
  assign key v [] = (key, v) ∷ []
  assign key v ((k, w) ∷ m) = if k == key then (key, v) ∷ m else (k, w) ∷ assign key v m

  -- The type assertions `v.(T)`.
  abbrev pub as_string : Option Value → String
  as_string (some (string s)) = s
  as_string _ = ""

  abbrev pub as_strings : Option Value → List String
  as_strings (some (strings xs)) = xs
  as_strings _ = []

  unfoldable pub namespace : Stores → String
  namespace s = as_string (lookup "namespace" s.scenario)

  unfoldable pub target_namespace : Stores → String
  target_namespace s = as_string (lookup "targetNamespace" s.scenario)

  unfoldable pub get_scenario_data : String → Stores → String
  get_scenario_data key s = as_string (lookup key s.scenario)

  unfoldable pub get_scenario_data_slice : String → Stores → List String
  get_scenario_data_slice key s = as_strings (lookup key s.scenario)

  unfoldable pub stored_clients : Stores → Option K.Clients
  stored_clients s = elim (lookup "clients" s.scenario) [
    | some v ↦ elim v [ clients c ↦ some c | _ ↦ none ]
    | none ↦ none
  ]

  unfoldable pub get_cr_names : Stores → K.ResourceNames
  get_cr_names s = elim (lookup "crnames" s.scenario) [
    | some v ↦ elim v [ cr_names n ↦ n | _ ↦ K.no_names ]
    | none ↦ K.no_names
  ]

  unfoldable pub http_response : Stores → Option K.HttpResponse
  http_response s = elim (lookup "response" s.scenario) [
    | some v ↦ elim v [ response r ↦ some r | _ ↦ none ]
    | none ↦ none
  ]

  unfoldable pub get_payload : Stores → Option Text
  get_payload s = elim (lookup "payload" s.scenario) [
    | some v ↦ elim v [ bytes p ↦ some p | _ ↦ none ]
    | none ↦ none
  ]

  -- `Opc`; `none` is its panic.
  unfoldable pub opc : Stores → Option K.Cmd
  opc s = elim (lookup "opc" s.suite) [
    | some v ↦ elim v [ cmd c ↦ some c | _ ↦ none ]
    | none ↦ none
  ]

  unfoldable pub get_suite_data : String → Stores → Option Value
  get_suite_data key s = lookup key s.suite

  unfoldable pub set_cr_names : K.ResourceNames → Stores → Stores
  set_cr_names names s = record {
    scenario = assign "crnames" (cr_names names) s.scenario;
    suite = s.suite;
  }

  unfoldable pub put_scenario_data : String → String → Stores → Stores
  put_scenario_data key v s = record {
    scenario = assign key (string v) s.scenario;
    suite = s.suite;
  }

  unfoldable pub set_namespace : String → Stores → Stores
  set_namespace ns s = record {
    scenario = assign "namespace" (string ns) s.scenario;
    suite = s.suite;
  }

  unfoldable pub put_scenario_data_slice : String → List String → Stores → Stores
  put_scenario_data_slice key v s = record {
    scenario = assign key (strings v) s.scenario;
    suite = s.suite;
  }

  unfoldable pub put_suite_data : String → Value → Stores → Stores
  put_suite_data key v s = record { scenario = s.scenario; suite = assign key v s.suite }
