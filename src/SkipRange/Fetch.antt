-- ===== src/SkipRange/Fetch.antt =====
-- `FetchOlmSkipRange`: the catalog that is asked, and the map of the channels' skipRanges.
use release_tests_ginkgo.Prelude.{String, Option, none, some, List, [], ◌∷◌}
use release_tests_ginkgo.Prelude.{◌==◌, text_eq, string_eq, if◌then◌else◌}
use release_tests_ginkgo.Prelude.Texts.{Text, null}

-- A channel with `CurrentCSVDesc.Annotations["olm.skipRange"]`, if it has that annotation.
pub record Channel : Type 0 where
  pub name : Text
  pub skip_range : Option Text

pub record PackageManifest : Type 0 where
  pub name : String
  pub channels : List Channel

-- A Go map in the order of an iteration.
abbrev pub SkipRangeMap : Type 0
SkipRangeMap = List (Text × Text)

pub data FetchError : Type 0 where
  invalid_json : FetchError
  package_not_found : String → FetchError
  no_skip_range : String → FetchError

pub data Fetched : Type 0 where
  fetched : SkipRangeMap → Fetched
  not_fetched : FetchError → Fetched

-- The two environment variables are empty where they are not set.
unfoldable pub catalog : String → String → String
catalog operator_env catalog_source =
    if operator_env == ""
    then (if catalog_source == "" then "redhat-operators" else catalog_source)
    else if operator_env == "pre-stage"
    then "custom-operators"
    else if operator_env == "stage"
    then "custom-operators"
    else "redhat-operators"

unfoldable pub find_package : List PackageManifest → Option PackageManifest
find_package [] = none
find_package (m ∷ ms) =
    if m.name == "openshift-pipelines-operator-rh" then some m else find_package ms

-- `result[name] = sr`
unfoldable pub insert : Text → Text → SkipRangeMap → SkipRangeMap
insert k v [] = (k, v) ∷ []
insert k v ((j, w) ∷ m) = if j == k then (k, v) ∷ m else (j, w) ∷ insert k v m

unfoldable pub collect_skip_ranges : List Channel → SkipRangeMap → SkipRangeMap
unfolding insert
collect_skip_ranges [] result = result
collect_skip_ranges (ch ∷ chs) result = collect_skip_ranges chs (elim ch.skip_range [
  | none ↦ result
  | some sr ↦ if null sr then result else insert ch.name sr result
])

-- `oc get packagemanifest` and the JSON decoder are outside: the list is what they give, if any.
unfoldable pub fetch_olm_skip_range : String → String → Option (List PackageManifest) → Fetched
unfolding catalog find_package collect_skip_ranges
fetch_olm_skip_range operator_env catalog_source none = not_fetched invalid_json
fetch_olm_skip_range operator_env catalog_source (some manifests) =
    let from = catalog operator_env catalog_source in
    elim (find_package manifests) [
      | none ↦ not_fetched (package_not_found from)
      | some target ↦
          let result = collect_skip_ranges target.channels [] in
          if null result then not_fetched (no_skip_range from) else fetched result
    ]
