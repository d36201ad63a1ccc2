-- ===== src/SkipRange/Diff.antt =====
-- `GetOlmSkipRange` and `ValidateOlmSkipRangeDiff`: the skipRanges before and after an upgrade, kept
-- in a file of JSON fields.
use release_tests_ginkgo.Prelude.{Bool, not, ◌&&◌, ◌||◌, Option, none, some}
use release_tests_ginkgo.Prelude.{List, [], ◌∷◌, ◌++◌, ◌==◌, text_eq, if◌then◌else◌}
use release_tests_ginkgo.Prelude.Texts.{Text, codes, null, contains, is_some}
use release_tests_ginkgo.SkipRange.Version.{find_bounds, extract_major_minor, captured}
use release_tests_ginkgo.SkipRange.Version.{skip_range_contains_version}
use release_tests_ginkgo.SkipRange.Version.{is_valid_osp_version_patch_update}
use release_tests_ginkgo.SkipRange.Fetch.{SkipRangeMap, FetchError, Fetched, fetched, not_fetched}
use release_tests_ginkgo.SkipRange.Checks.{latest}
use release_tests_ginkgo.Ginkgo.{Outcome, passed, failed}

-- A value of the decoded file: a map, whose values are strings or not, or another value.
abbrev pub FieldMap : Type 0
FieldMap = List (Text × Option Text)

pub data Field : Type 0 where
  object : FieldMap → Field
  other : Field

abbrev pub FileFields : Type 0
FileFields = List (Text × Field)

-- `m[key]` of a Go map.
unfoldable pub lookup : {V : Type 0} → Text → List (Text × V) → Option V
lookup k [] = none
lookup k ((j, v) ∷ m) = if j == k then some v else lookup k m

-- `m[key] = value`
unfoldable pub put : {V : Type 0} → Text → V → List (Text × V) → List (Text × V)
put k v [] = (k, v) ∷ []
put k v ((j, w) ∷ m) = if j == k then (k, v) ∷ m else (j, w) ∷ put k v m

-- The JSON encoder writes every string of the map as a string.
unfoldable pub as_fields : SkipRangeMap → FieldMap
as_fields [] = []
as_fields ((k, v) ∷ m) = (k, some v) ∷ as_fields m

abbrev pub field_key : Text → Text
field_key upgrade_type = upgrade_type ++ codes "-olm-skip-range"

pub data DiffError : Type 0 where
  fetch : FetchError → DiffError
  unreadable : DiffError
  missing_fields : DiffError
  not_maps : DiffError
  bad_diff : List Text → DiffError

-- `GetOlmSkipRange` on the decoded file: the new fields, which replace the file.
unfoldable pub get_olm_skip_range :
    Text → Fetched → Option FileFields → Outcome DiffError × Option FileFields
get_olm_skip_range upgrade_type (not_fetched e) file = (failed (fetch e), file)
get_olm_skip_range upgrade_type (fetched m) none = (failed unreadable, none)
get_olm_skip_range upgrade_type (fetched m) (some existing) =
    (passed, some (put (field_key upgrade_type) (object (as_fields m)) existing))

-- `s, _ := v.(string)`
abbrev pub as_string : Option Text → Text
as_string none = []
as_string (some s) = s

module _ (osp_version : Text) where
  -- `ospVersion != "" && strings.Contains(channel, ospMajorMinor)`
  abbrev pub matches_osp : Text → Bool
  matches_osp channel = not (null osp_version) && contains channel (extract_major_minor osp_version)

  -- The errors of a channel that both maps have: at most one, told by the channel's name.
  unfoldable pub check_change : Text → Text → Text → List Text
  check_change channel pre_skip_range post_skip_range =
      if pre_skip_range == post_skip_range
      then (if matches_osp channel then channel ∷ [] else [])
      else elim (find_bounds pre_skip_range) [
        | none ↦ channel ∷ []
        | some (pre_lower, _) ↦ elim (find_bounds post_skip_range) [
          | none ↦ channel ∷ []
          | some (post_lower, _) ↦
              if matches_osp channel
              then (if captured pre_lower == captured post_lower
                  then (if is_valid_osp_version_patch_update osp_version pre_skip_range
                        post_skip_range
                      then []
                      else channel ∷ [])
                  else channel ∷ [])
              else channel ∷ []
        ]
      ]

  -- The body of the loop over the earlier map.
  unfoldable pub check_old_channel : FieldMap → Text → Option Text → List Text
  check_old_channel post_map channel pre =
      if channel == latest then [] else elim (lookup channel post_map) [
        | none ↦ channel ∷ []
        | some post ↦ check_change channel (as_string pre) (as_string post)
      ]

  unfoldable pub check_old_channels : FieldMap → FieldMap → List Text
  check_old_channels [] post_map = []
  check_old_channels ((channel, pre) ∷ m) post_map =
      check_old_channel post_map channel pre ++ check_old_channels m post_map

  -- A channel that only the later map has.
  unfoldable pub check_new_channel : Text → Text → List Text
  check_new_channel channel post_skip_range =
      if matches_osp channel
      then (elim (find_bounds post_skip_range) [
        | none ↦ channel ∷ []
        | some (_, upper) ↦
            if extract_major_minor (captured upper) == extract_major_minor osp_version
            then (if skip_range_contains_version post_skip_range osp_version
                then []
                else channel ∷ [])
            else channel ∷ []
      ])
      else []

  -- The body of the loop over the later map.
  unfoldable pub check_added_channel : FieldMap → Text → Option Text → List Text
  check_added_channel pre_map channel post =
      if channel == latest || is_some (lookup channel pre_map)
      then []
      else check_new_channel channel (as_string post)

  unfoldable pub check_new_channels : FieldMap → FieldMap → List Text
  check_new_channels pre_map [] = []
  check_new_channels pre_map ((channel, post) ∷ m) =
      check_added_channel pre_map channel post ++ check_new_channels pre_map m

  -- `ValidateOlmSkipRangeDiff` on the decoded file.
  unfoldable pub validate_olm_skip_range_diff : Text → Text → Option FileFields → Outcome DiffError
  validate_olm_skip_range_diff pre_field post_field none = failed unreadable
  validate_olm_skip_range_diff pre_field post_field (some fields) = elim (lookup pre_field fields) [
    | none ↦ failed missing_fields
    | some pre ↦ elim (lookup post_field fields) [
      | none ↦ failed missing_fields
      | some post ↦ elim pre [
        | other ↦ failed not_maps
        | object pre_map ↦ elim post [
          | other ↦ failed not_maps
          | object post_map ↦
              let errs =
                check_old_channels pre_map post_map ++ check_new_channels pre_map post_map in
              if null errs then passed else failed (bad_diff errs)
        ]
      ]
    ]
  ]
