-- ===== src/SkipRange/Changes.antt =====
-- What `ValidateOlmSkipRangeDiff` accepts, channel by channel.
use mathlib.Core.Path.{subst}
use release_tests_ginkgo.Prelude.{true, false, Option, none, some, [], ◌∷◌}
use release_tests_ginkgo.Prelude.{◌≡◌, ◌≢◌, ◌↔◌, ◌⊎◌, inl, inr, refl, arith, text_eq}
use release_tests_ginkgo.Prelude.{Option-cases, Bool-cases}
use release_tests_ginkgo.Prelude.Texts.{Text, contains}
use release_tests_ginkgo.Prelude.Lists.{All, append-eq-nil}
use release_tests_ginkgo.SkipRange.Version.{Triple, captured, find_bounds}
use release_tests_ginkgo.SkipRange.Version.{skip_range_contains_version, extract_major_minor}
use release_tests_ginkgo.SkipRange.Version.{is_valid_osp_version_patch_update}
use release_tests_ginkgo.SkipRange.Checks.{latest}
use release_tests_ginkgo.Ginkgo.{passed}
use release_tests_ginkgo.SkipRange.Diff.{FieldMap, object, FileFields, lookup}
use release_tests_ginkgo.SkipRange.Diff.{as_string, matches_osp}
use release_tests_ginkgo.SkipRange.Diff.{
  check_old_channel, check_added_channel, check_change, check_old_channels, check_new_channel,
}
use release_tests_ginkgo.SkipRange.Diff.{check_new_channels, validate_olm_skip_range_diff}

module _ (version : Text) where
  -- A channel is unchanged unless OSP_VERSION names it, and then it has a valid update.
  abbrev pub Changes : Text → Text → Text → Type 0
  Changes channel pre post =
      (matches_osp version channel ≡ false) × (pre ≡ post)
      ⊎ (matches_osp version channel ≡ true)
        × (pre ≢ post)
        × (is_valid_osp_version_patch_update version pre post ≡ true)

  -- The tests of the bounds in the loop are all implied by `isValidOspVersionPatchUpdate`.
  check_change_iff :
      (channel pre post : Text)
      → (check_change version channel pre post ≡ []) ↔ Changes channel pre post
  unfolding check_change is_valid_osp_version_patch_update
  check_change_iff channel pre post = ground arith

  -- A channel that both maps have, and one that only the later map has.
  abbrev pub OldOk : FieldMap → Text × Option Text → Type 0
  OldOk post_map (channel, pre) =
      channel ≢ latest
      → (post : Option Text) × (lookup channel post_map ≡ some post)
        × Changes channel (as_string pre) (as_string post)

  -- A new channel that OSP_VERSION names has an upper bound of its version, and a range with it.
  abbrev pub NewOk : FieldMap → Text × Option Text → Type 0
  NewOk pre_map (channel, post) =
      channel ≢ latest
      → lookup channel pre_map ≡ none
      → matches_osp version channel ≡ true
      → (lower : Triple) × (upper : Triple) × (find_bounds (as_string post) ≡ some (lower, upper))
        × (extract_major_minor (captured upper) ≡ extract_major_minor version)
        × (contains (as_string post) version ≡ true)

  check_old_channel_iff :
      (post_map : FieldMap) (channel : Text) (pre : Option Text)
      → (check_old_channel version post_map channel pre ≡ []) ↔ OldOk post_map (channel, pre)
  unfolding check_old_channel
  check_old_channel_iff post_map channel pre = elim (text_eq.dec channel latest) [
    | yes e ↦ (λ h ne. absurd (ne e), λ h. ground arith)
    | no n ↦ elim (Option-cases (lookup channel post_map)) [
      | inl absent ↦
          (λ h ne. absurd (ground arith), λ h. let (post, there, c) = h n in absurd (ground arith))
      | inr (post, there) ↦
          let (go, back) = check_change_iff channel (as_string pre) (as_string post) in
          (
            λ h ne. (post, there, go (ground arith)),
            λ h.
                let (post', there', c) = h n in
                let same : post' ≡ post = ground arith in
                let r = back (subst (λ x. Changes channel (as_string pre) (as_string x)) same c) in
                ground arith,
          )
    ]
  ]

  check_old_channels_iff :
      (m post_map : FieldMap)
      → (check_old_channels version m post_map ≡ []) ↔ All (OldOk post_map) m
  unfolding check_old_channels
  check_old_channels_iff [] post_map = (λ h. tt, λ h. refl)
  check_old_channels_iff ((channel, pre) ∷ m) post_map =
      let (split, join) =
        append-eq-nil (check_old_channel version post_map channel pre)
          (check_old_channels version m post_map) in
      let (go, back) = check_old_channel_iff post_map channel pre in
      let (gos, backs) = check_old_channels_iff m post_map in
      (λ h. let (a, b) = split h in (go a, gos b), λ (a, b). join (back a, backs b))

  check_added_channel_iff :
      (pre_map : FieldMap) (channel : Text) (post : Option Text)
      → (check_added_channel version pre_map channel post ≡ []) ↔ NewOk pre_map (channel, post)
  unfolding check_added_channel check_new_channel skip_range_contains_version
  check_added_channel_iff pre_map channel post = elim (text_eq.dec channel latest) [
    | yes e ↦ (λ h ne. absurd (ne e), λ h. ground arith)
    | no n ↦ elim (Option-cases (lookup channel pre_map)) [
      | inr (pre, there) ↦ (λ h ne absent. absurd (ground arith), λ h. ground arith)
      | inl absent ↦ elim (Option-cases (find_bounds (as_string post))) [
        | inl malformed ↦ (
          λ h ne a named. absurd (ground arith),
          λ h. elim (Bool-cases (matches_osp version channel)) [
            | inl named ↦ let (l, u, f, _, _) = h n absent named in absurd (ground arith)
            | inr foreign ↦ ground arith
          ],
        )
        | inr ((lower, upper), bounds) ↦ (
          λ h ne a named. (lower, upper, bounds, ground arith, ground arith),
          λ h. elim (Bool-cases (matches_osp version channel)) [
            | inl named ↦
                let (l, u, f, minor, inside) = h n absent named in
                let same : u ≡ upper = ground arith in ground arith
            | inr foreign ↦ ground arith
          ],
        )
      ]
    ]
  ]

  check_new_channels_iff :
      (pre_map m : FieldMap) → (check_new_channels version pre_map m ≡ []) ↔ All (NewOk pre_map) m
  unfolding check_new_channels
  check_new_channels_iff pre_map [] = (λ h. tt, λ h. refl)
  check_new_channels_iff pre_map ((channel, post) ∷ m) =
      let (split, join) =
        append-eq-nil (check_added_channel version pre_map channel post)
          (check_new_channels version pre_map m) in
      let (go, back) = check_added_channel_iff pre_map channel post in
      let (gos, backs) = check_new_channels_iff pre_map m in
      (λ h. let (a, b) = split h in (go a, gos b), λ (a, b). join (back a, backs b))

  -- On a file whose two fields are maps, `ValidateOlmSkipRangeDiff` passes exactly when every
  -- channel of the earlier map but "latest" is in the later one, with the same skipRange if
  -- OSP_VERSION does not name it and with a valid update if it does, and every new channel that
  -- OSP_VERSION names has an upper bound of its version and a skipRange with it.
  pub validate_olm_skip_range_diff_iff :
      (pre_field post_field : Text) (fields : FileFields) (pre_map post_map : FieldMap)
      → lookup pre_field fields ≡ some (object pre_map)
      → lookup post_field fields ≡ some (object post_map)
      → (validate_olm_skip_range_diff version pre_field post_field (some fields) ≡ passed)
        ↔ (All (OldOk post_map) pre_map × All (NewOk pre_map) post_map)
  unfolding validate_olm_skip_range_diff
  validate_olm_skip_range_diff_iff pre_field post_field fields pre_map post_map before after =
      let olds = check_old_channels version pre_map post_map in
      let news = check_new_channels version pre_map post_map in
      let (split, join) = append-eq-nil olds news in
      let (go, back) = check_old_channels_iff pre_map post_map in
      let (go', back') = check_new_channels_iff pre_map post_map in
      (
        λ h. let (a, b) = split (ground arith) in (go a, go' b),
        λ (a, b). let none_found = join (back a, back' b) in ground arith,
      )
