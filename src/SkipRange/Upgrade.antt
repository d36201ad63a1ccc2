-- ===== src/SkipRange/Upgrade.antt =====
-- What the checks across an upgrade accept: `isValidOspVersionPatchUpdate`, and what
-- `GetOlmSkipRange` saves.
use release_tests_ginkgo.Prelude.{ℕ, ◌<◌, true, some, List, [], ◌∷◌}
use release_tests_ginkgo.Prelude.{◌≡◌, ◌≢◌, ◌↔◌, inl, inr, refl, arith, text_eq, ◌==◌}
use release_tests_ginkgo.Prelude.{if◌then◌else◌, Option-cases}
use release_tests_ginkgo.Prelude.Texts.{Text, contains}
use release_tests_ginkgo.Prelude.Lists.{All}
use release_tests_ginkgo.SkipRange.Version.{Triple, captured, is_space, scan_int, find_bounds}
use release_tests_ginkgo.SkipRange.Version.{is_valid_osp_version_patch_update}
use release_tests_ginkgo.SkipRange.Patterns.{IsVersion, range, find_bounds-range}
use release_tests_ginkgo.SkipRange.Fetch.{SkipRangeMap, fetched}
use release_tests_ginkgo.Ginkgo.{passed}
use release_tests_ginkgo.SkipRange.Diff.{object, FileFields, lookup, put}
use release_tests_ginkgo.SkipRange.Diff.{as_fields, field_key, get_olm_skip_range}

-- The patch numbers are Go ints, and they increase.
abbrev pub Increases : Text → Text → Type 0
Increases p q = (a : ℕ) × (b : ℕ) × (scan_int p ≡ some a) × (scan_int q ≡ some b) × (a < b)

-- What the update has to satisfy, over the bounds of the two ranges.
abbrev pub Updates : Text → Text → Triple → Triple → Triple → Triple → Type 0
Updates version post lower upper lower' upper' =
    (version ≢ [])
    × (contains post version ≡ true)
    × (captured lower ≡ captured lower')
    × Increases upper.patch upper'.patch

update-Updates :
    (version pre post : Text) (lower upper lower' upper' : Triple)
    → find_bounds pre ≡ some (lower, upper)
    → find_bounds post ≡ some (lower', upper')
    → is_valid_osp_version_patch_update version pre post ≡ true
    → Updates version post lower upper lower' upper'
unfolding is_valid_osp_version_patch_update
update-Updates version pre post lower upper lower' upper' f f' h =
    elim (Option-cases (scan_int upper.patch)) [
      | inl none_a ↦ absurd (ground arith)
      | inr (a, is_a) ↦ elim (Option-cases (scan_int upper'.patch)) [
        | inl none_b ↦ absurd (ground arith)
        | inr (b, is_b) ↦
            (ground arith, ground arith, ground arith, (a, b, is_a, is_b, ground arith))
      ]
    ]

Updates-update :
    (version pre post : Text) (lower upper lower' upper' : Triple)
    → find_bounds pre ≡ some (lower, upper)
    → find_bounds post ≡ some (lower', upper')
    → Updates version post lower upper lower' upper'
    → is_valid_osp_version_patch_update version pre post ≡ true
unfolding is_valid_osp_version_patch_update
Updates-update version pre post lower upper lower' upper' f f'
      (set, found, same, (a, b, is_a, is_b, less)) =
    ground arith

-- Of two ranges in the operator's form, the later one is a valid update exactly when OSP_VERSION is
-- set and occurs in it, the lower bounds are the same text, and the patch numbers of the upper
-- bounds are Go ints that increase. Nothing is asked of the major and the minor number of the upper
-- bounds.
pub is_valid_osp_version_patch_update_iff :
    (version : Text) (lower upper lower' upper' : Triple) (spaces spaces' : Text)
    → IsVersion lower
    → IsVersion upper
    → IsVersion lower'
    → IsVersion upper'
    → All (λ c. is_space c ≡ true) spaces
    → All (λ c. is_space c ≡ true) spaces'
    → (is_valid_osp_version_patch_update version
          (range lower spaces upper)
          (range lower' spaces' upper')
        ≡ true)
      ↔ Updates version (range lower' spaces' upper') lower upper lower' upper'
is_valid_osp_version_patch_update_iff version lower upper lower' upper' spaces spaces' l u l' u' s
      s' =
    let before = find_bounds-range lower upper spaces l u s in
    let after = find_bounds-range lower' upper' spaces' l' u' s' in
    (
      update-Updates version _ _ lower upper lower' upper' before after,
      Updates-update version _ _ lower upper lower' upper' before after,
    )

-- A field that was saved is read back, and every other field keeps its value.
lookup-put :
    {V : Type 0} (k j : Text) (v : V) (m : List (Text × V))
    → lookup j (put k v m) ≡ (if k == j then some v else lookup j m)
unfolding lookup put
lookup-put k j v [] = refl
lookup-put k j v ((i, w) ∷ m) = ground (arith, lookup-put k j v m)

-- `GetOlmSkipRange` saves the map under the key of its upgrade type and keeps every other field, so
-- that a later reading finds what was fetched.
pub get_olm_skip_range-lookup :
    (upgrade_type key : Text) (m : SkipRangeMap) (existing : FileFields)
    → (fields : FileFields) × (get_olm_skip_range upgrade_type (fetched m) (some existing)
        ≡ (passed, some fields))
      × (lookup key fields ≡ (
          if field_key upgrade_type == key
          then some (object (as_fields m))
          else lookup key existing))
unfolding get_olm_skip_range
get_olm_skip_range-lookup upgrade_type key m existing =
    let fields = put (field_key upgrade_type) (object (as_fields m)) existing in
    (fields, refl, lookup-put (field_key upgrade_type) key (object (as_fields m)) existing)
