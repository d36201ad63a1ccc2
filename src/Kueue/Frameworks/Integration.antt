-- ===== src/Kueue/Frameworks/Integration.antt =====
-- Adding the PipelineRun framework and taking it out again.
use release_tests_ginkgo.Prelude.{String, Bool, true, false, ◌≡◌, Option, some}
use release_tests_ginkgo.Prelude.{
  List, [], ◌∷◌, ◌++◌, string_eq, refl, arith, inl, inr, Bool-cases, ◌⊎◌, ◌∙◌,
}
use release_tests_ginkgo.Kueue.Frameworks.{Item, pipeline_run_framework}
use release_tests_ginkgo.Kueue.Frameworks.{is_pipeline_run_framework, contains_framework}
use release_tests_ginkgo.Kueue.Frameworks.{remove_pipeline_run_framework, Result, ok, err, ◌>>=◌}
use release_tests_ginkgo.Kueue.Frameworks.{Unstructured, IsLawful, items_of, integrations_path}
use release_tests_ginkgo.Kueue.Frameworks.{
  multi_kueue_path, ensure_path, ensure_pipeline_run_integration,
}
use release_tests_ginkgo.Kueue.Frameworks.{remove_path}

is_pipeline_run_framework_self : is_pipeline_run_framework pipeline_run_framework ≡ true
unfolding is_pipeline_run_framework pipeline_run_framework string_eq
is_pipeline_run_framework_self = refl

contains_framework-append :
    (items : List Item) → contains_framework (items ++ (pipeline_run_framework ∷ [])) ≡ true
unfolding contains_framework
contains_framework-append [] = ground (arith, is_pipeline_run_framework_self)
contains_framework-append (item ∷ items) = ground (arith, contains_framework-append items)

-- Where there was no framework, removing takes out exactly the one that was appended.
remove-append :
    (items : List Item)
    → contains_framework items ≡ false
    → remove_pipeline_run_framework (items ++ (pipeline_run_framework ∷ [])) ≡ (items, true)
unfolding contains_framework remove_pipeline_run_framework
remove-append [] h = ground (arith, is_pipeline_run_framework_self)
remove-append (item ∷ items) h = ground (arith, remove-append items)

-- If a chain returns, its first step returned a value on which the rest returns.
returned :
    {E A B : Type 0} {b : B} (rest : A → Result E B) (first : Result E A)
    → (first >>= rest) ≡ ok b
    → (a : A) × (rest a ≡ ok b) × (first ≡ ok a)
returned rest (err e) h = absurd (ground arith)
returned rest (ok a) h = (a, h, refl)

Result-cases : {E A : Type 0} (r : Result E A) → ((a : A) × (r ≡ ok a)) ⊎ ((e : E) × (r ≡ err e))
Result-cases (ok a) = inl (a, refl)
Result-cases (err e) = inr (e, refl)

module _ (U : Unstructured) where
  open U use {Object, Error, nested_slice, set_nested_slice}

  -- The path holds a slice with the PipelineRun framework.
  abbrev pub Holds : Object → List String → Type 0
  Holds kueue path =
      (found : Option (List Item)) × (nested_slice kueue path ≡ ok found)
      × (contains_framework (items_of found) ≡ true)

  -- How a round of `ensurePipelineRunIntegration` that returns no error has gone.
  abbrev pub Ensured :
      List String → Object → Object → List (List String) → List (List String) → Type 0
  Ensured path k k' ch ch' =
      (found : Option (List Item)) × (nested_slice k path ≡ ok found)
      × ((contains_framework (items_of found) ≡ true) × (k' ≡ k) × (ch' ≡ ch)
          ⊎ (contains_framework (items_of found) ≡ false)
            × (set_nested_slice k (items_of found ++ (pipeline_run_framework ∷ [])) path ≡ ok k')
            × (ch' ≡ ch ++ (path ∷ [])))

  ensure_path-Ensured :
      (path : List String) (k k' : Object) (ch ch' : List (List String))
      → ensure_path U path (k, ch) ≡ ok (k', ch')
      → Ensured path k k' ch ch'
  unfolding ensure_path
  ensure_path-Ensured path k k' ch ch' h = elim (Result-cases (nested_slice k path)) [
    | inr (e, broken) ↦ absurd (ground arith)
    | inl (found, read) ↦ elim (Bool-cases (contains_framework (items_of found))) [
      | inl there ↦ (found, read, inl (there, ground arith, ground arith))
      | inr absent ↦
          elim (Result-cases
            (set_nested_slice k (items_of found ++ (pipeline_run_framework ∷ [])) path)) [
              | inr (e, broken) ↦ absurd (ground arith)
              | inl (o, written) ↦ (found, read, inr (absent, ground arith, ground arith))
            ]
    ]
  ]

  module _ (law : IsLawful U) where
    ensure_path-Holds :
        (path : List String) (k k' : Object) (ch ch' : List (List String))
        → ensure_path U path (k, ch) ≡ ok (k', ch')
        → Holds k' path
    ensure_path-Holds path k k' ch ch' h =
        let (found, read, how) = ensure_path-Ensured path k k' ch ch' h in
        let items = items_of found in
        let more = items ++ (pipeline_run_framework ∷ []) in
        elim how [
          | inl (there, same, _) ↦ (found, rw same read, there)
          | inr (absent, written, _) ↦
              (some more, law.get-set k k' more path written, contains_framework-append items)
        ]

    -- The second round leaves what the first one has written.
    Holds-ensure_path :
        (k k' : Object) (ch ch' : List (List String))
        → ensure_path U multi_kueue_path (k, ch) ≡ ok (k', ch')
        → Holds k integrations_path
        → Holds k' integrations_path
    Holds-ensure_path k k' ch ch' h (held, seen, inside) =
        let (found, read, how) = ensure_path-Ensured multi_kueue_path k k' ch ch' h in
        elim how [
          | inl (there, same, _) ↦ (held, rw same seen, inside)
          | inr (absent, written, _) ↦ (held, law.get-set_ne k k' _ written ∙ seen, inside)
        ]

    -- If `ensurePipelineRunIntegration` returns no error, both paths hold the framework, whatever
    -- they held before.
    pub ensure_pipeline_run_integration-Holds :
        (k k' : Object) (changed : List (List String))
        → ensure_pipeline_run_integration U k ≡ ok (k', changed)
        → Holds k' integrations_path × Holds k' multi_kueue_path
    unfolding ensure_pipeline_run_integration
    ensure_pipeline_run_integration-Holds k k' changed h =
        let ((m, ch), second, first) = returned _ (ensure_path U integrations_path (k, [])) h in
        let held = ensure_path-Holds integrations_path k m [] ch first in
        (
          Holds-ensure_path m k' ch changed second held,
          ensure_path-Holds multi_kueue_path m k' ch changed second,
        )

    -- A path without the framework is changed by its round, and the cleanup then writes back just
    -- the items that the path held before.
    pub remove_path-ensure_path :
        (path : List String) (k k' : Object) (ch ch' : List (List String)) (changed : Bool)
        (found : Option (List Item))
        → nested_slice k path ≡ ok found
        → contains_framework (items_of found) ≡ false
        → ensure_path U path (k, ch) ≡ ok (k', ch')
        → (ch' ≡ ch ++ (path ∷ []))
          × (remove_path U path (k', changed)
              ≡ (set_nested_slice k' (items_of found) path >>= λ o. ok (o, true)))
    unfolding remove_path
    remove_path-ensure_path path k k' ch ch' changed found read absent h =
        let (found', read', how) = ensure_path-Ensured path k k' ch ch' h in
        let same : found' ≡ found = ground arith in
        elim how [
          | inl (there, _, _) ↦ absurd (ground arith)
          | inr (_, written, marked) ↦ (
            marked,
            rw (law.get-set k k' _ path written)
                (rw same (rw (remove-append (items_of found) absent) refl)),
          )
        ]
