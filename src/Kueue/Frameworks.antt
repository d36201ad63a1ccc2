-- ===== src/Kueue/Frameworks.antt =====
-- The external frameworks of the Kueue resource in pkg/tektonkueue/environment.go.
pub mod Integration
mod Tests
use release_tests_ginkgo.Prelude.{
  String, Bool, true, false, ◌≡◌, ◌≢◌, ◌&&◌, ◌||◌, Option, none, some,
}
use release_tests_ginkgo.Prelude.{List, [], ◌∷◌, ◌++◌, ◌==◌, string_eq, if◌then◌else◌}

-- An `any` inside a framework entry: a string, or something else.
pub data Value : Type 0 where
  text : String → Value
  other : Value

-- An `any` in a slice of frameworks: a map, or something else.
pub data Item : Type 0 where
  mapping : (String → Option Value) → Item
  scalar : Item

unfoldable pub pipeline_run_framework : Item
pipeline_run_framework = mapping λ key.
    if key == "group"
    then some (text "tekton.dev")
    else if key == "resource"
    then some (text "pipelineruns")
    else if key == "version"
    then some (text "v1")
    else none

-- `framework[key] == value`
abbrev pub has_text : Option Value → String → Bool
has_text none value = false
has_text (some other) value = false
has_text (some (text t)) value = t == value

unfoldable pub is_pipeline_run_framework : Item → Bool
is_pipeline_run_framework scalar = false
is_pipeline_run_framework (mapping framework) =
    has_text (framework "group") "tekton.dev"
    && (has_text (framework "resource") "pipelineruns" && has_text (framework "version") "v1")

-- `slices.ContainsFunc(items, isPipelineRunFramework)`
unfoldable pub contains_framework : List Item → Bool
unfolding is_pipeline_run_framework
contains_framework [] = false
contains_framework (item ∷ items) = is_pipeline_run_framework item || contains_framework items

-- `slices.Delete` at the first framework, and whether there was one.
unfoldable pub remove_pipeline_run_framework : List Item → List Item × Bool
unfolding is_pipeline_run_framework
remove_pipeline_run_framework [] = ([], false)
remove_pipeline_run_framework (item ∷ items) =
    let (rest, removed) = remove_pipeline_run_framework items in
    if is_pipeline_run_framework item then (items, true) else (item ∷ rest, removed)

-- The accessors of k8s.io/apimachinery/pkg/apis/meta/v1/unstructured, which the program calls.
-- `nested_slice` gives a slice, nothing if the path is not there, or an error.
pub data Result (E A : Type 0) : Type 0 where
  ok : A → Result E A
  err : E → Result E A

infixl 5 ◌>>=◌
abbrev pub ◌>>=◌ : {E A B : Type 0} → Result E A → (A → Result E B) → Result E B
ok a >>= f = f a
err e >>= f = err e

pub record Unstructured : Type 1 where
  pub Object : Type 0
  pub Error : Type 0
  pub nested_slice : Object → List String → Result Error (Option (List Item))
  pub set_nested_slice : Object → List Item → List String → Result Error Object

abbrev pub integrations_path : List String
integrations_path = "spec" ∷ "config" ∷ "integrations" ∷ "externalFrameworks" ∷ []

abbrev pub multi_kueue_path : List String
multi_kueue_path = "spec" ∷ "config" ∷ "multiKueue" ∷ "externalFrameworks" ∷ []

-- A slice that is written can be read again at its path, and the two paths are independent.
pub record IsLawful (U : Unstructured) : Type 0 where
  pub get-set :
      (o o' : U.Object) (items : List Item) (path : List String)
      → U.set_nested_slice o items path ≡ ok o'
      → U.nested_slice o' path ≡ ok (some items)
  pub get-set_ne :
      (o o' : U.Object) (items : List Item)
      → U.set_nested_slice o items multi_kueue_path ≡ ok o'
      → U.nested_slice o' integrations_path ≡ U.nested_slice o integrations_path

-- The items that Go sees: nil where the path is not there.
abbrev pub items_of : Option (List Item) → List Item
items_of none = []
items_of (some items) = items

module _ (U : Unstructured) where
  open U use {Object, Error, nested_slice, set_nested_slice}

  -- One round of the loop of `ensurePipelineRunIntegration`: the object and the changed paths.
  unfoldable pub ensure_path :
      List String → Object × List (List String) → Result Error (Object × List (List String))
  ensure_path path (kueue, changed) = do
    found ← nested_slice kueue path
    if contains_framework (items_of found) then ok (kueue, changed) else do
      kueue' ← set_nested_slice kueue (items_of found ++ (pipeline_run_framework ∷ [])) path
      ok (kueue', changed ++ (path ∷ []))

  unfoldable pub ensure_pipeline_run_integration :
      Object → Result Error (Object × List (List String))
  ensure_pipeline_run_integration kueue = do
    after ← ensure_path integrations_path (kueue, [])
    ensure_path multi_kueue_path after

  -- One round of the loop in the cleanup: the object, and whether something was removed.
  unfoldable pub remove_path : List String → Object × Bool → Result Error (Object × Bool)
  remove_path path (current, changed) = nested_slice current path >>= λ found.
      let (items, removed) = remove_pipeline_run_framework (items_of found) in
      if removed
      then (set_nested_slice current items path >>= λ current'. ok (current', true))
      else ok (current, changed)

  unfoldable pub remove_paths : List (List String) → Object × Bool → Result Error (Object × Bool)
  remove_paths [] state = ok state
  remove_paths (path ∷ paths) state = do after ← remove_path path state; remove_paths paths after
