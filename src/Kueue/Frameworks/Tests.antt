-- ===== src/Kueue/Frameworks/Tests.antt =====
-- A Kueue resource that holds its two slices, either of which may be absent.
use release_tests_ginkgo.Prelude.{String, ◌≡◌, true, false, Option, none, some, List, [], ◌∷◌}
use release_tests_ginkgo.Prelude.{refl, arith, ◌==◌, string_eq, if◌then◌else◌}
use release_tests_ginkgo.Kueue.Frameworks.{
  Item, scalar, Result, ok, err, ◌>>=◌, Unstructured, IsLawful,
}
use release_tests_ginkgo.Kueue.Frameworks.{integrations_path, multi_kueue_path, contains_framework}
use release_tests_ginkgo.Kueue.Frameworks.{pipeline_run_framework, ensure_path}
use release_tests_ginkgo.Kueue.Frameworks.{ensure_pipeline_run_integration}
use release_tests_ginkgo.Kueue.Frameworks.{remove_path}
use release_tests_ginkgo.Kueue.Frameworks.Integration.{Holds, remove_path-ensure_path}
use release_tests_ginkgo.Kueue.Frameworks.Integration.{ensure_pipeline_run_integration-Holds}

-- The path is told by its third step, "integrations" or "multiKueue"; others are not there.
abbrev third : List String → String
third (a ∷ b ∷ c ∷ r) = c
third path = ""

abbrev Pair : Type 0
Pair = Option (List Item) × Option (List Item)

abbrev read : Pair → List String → Result String (Option (List Item))
read (a, b) path =
    if third path == "integrations"
    then ok a
    else if third path == "multiKueue"
    then ok b
    else err "no such path"

abbrev write : Pair → List Item → List String → Result String Pair
write (a, b) items path =
    if third path == "integrations"
    then ok (some items, b)
    else if third path == "multiKueue"
    then ok (a, some items)
    else err "no such path"

abbrev kueue : Unstructured
kueue = record { Object = Pair; Error = String; nested_slice = read; set_nested_slice = write }

read-write :
    (o o' : Pair) (items : List Item) (path : List String)
    → write o items path ≡ ok o'
    → read o' path ≡ ok (some items)
read-write (a, b) o' items path h = ground arith

read-write_ne :
    (o o' : Pair) (items : List Item)
    → write o items multi_kueue_path ≡ ok o'
    → read o' integrations_path ≡ read o integrations_path
unfolding string_eq
read-write_ne (a, b) o' items h = ground arith

kueue-IsLawful : IsLawful kueue
kueue-IsLawful = record { get-set = read-write; get-set_ne = read-write_ne }

abbrev fresh : Pair
fresh = (some (scalar ∷ []), none)

abbrev ready : Pair
ready = (some (scalar ∷ pipeline_run_framework ∷ []), some (pipeline_run_framework ∷ []))

ensured :
    ensure_pipeline_run_integration kueue fresh
    ≡ ok (ready, integrations_path ∷ multi_kueue_path ∷ [])
unfolding ensure_pipeline_run_integration ensure_path contains_framework string_eq
ensured = refl

ensure_pipeline_run_integration-Holds_example :
    Holds kueue ready integrations_path × Holds kueue ready multi_kueue_path
ensure_pipeline_run_integration-Holds_example =
    ensure_pipeline_run_integration-Holds kueue kueue-IsLawful fresh ready
      (integrations_path ∷ multi_kueue_path ∷ []) ensured

abbrev halfway : Pair
halfway = (some (scalar ∷ pipeline_run_framework ∷ []), none)

first_round : ensure_path kueue integrations_path (fresh, []) ≡ ok (halfway, integrations_path ∷ [])
unfolding ensure_path contains_framework string_eq
first_round = refl

no_framework : contains_framework (scalar ∷ []) ≡ false
unfolding contains_framework
no_framework = refl

first_read : read fresh integrations_path ≡ ok (some (scalar ∷ []))
unfolding string_eq
first_read = refl

remove_path-ensure_path_example :
    (integrations_path ∷ [] ≡ integrations_path ∷ [])
    × (remove_path kueue integrations_path (halfway, false)
        ≡ (write halfway (scalar ∷ []) integrations_path >>= λ o. ok (o, true)))
remove_path-ensure_path_example =
    remove_path-ensure_path kueue kueue-IsLawful integrations_path fresh halfway []
      (integrations_path ∷ []) false (some (scalar ∷ [])) first_read no_framework first_round
