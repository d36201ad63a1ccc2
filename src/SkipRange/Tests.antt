-- ===== src/SkipRange/Tests.antt =====
-- Channels and skipRanges as the operator's catalog gives them.
use release_tests_ginkgo.Prelude.{ℕ, true, some, [], ◌∷◌, ◌++◌, ◌≡◌, ◌↔◌}
use release_tests_ginkgo.Prelude.{refl, arith, text_eq}
use release_tests_ginkgo.Prelude.Texts.{Text, codes}
use release_tests_ginkgo.Prelude.Lists.{All}
use release_tests_ginkgo.SkipRange.Version.{Triple, dot, find_channel, scan_or_zero, is_digit}
use release_tests_ginkgo.SkipRange.Version.{is_valid_osp_version_patch_update}
use release_tests_ginkgo.SkipRange.Version.{find_first, channel_here, number, digits, pair}
use release_tests_ginkgo.SkipRange.Patterns.{IsVersion, IsNumber, range}
use release_tests_ginkgo.SkipRange.Checks.{check_bounds}
use release_tests_ginkgo.Ginkgo.{passed}
use release_tests_ginkgo.SkipRange.Bounds.{
  channel_version, check_bounds_iff, check_bounds-lower_minor,
}
use release_tests_ginkgo.SkipRange.Fetch.{SkipRangeMap}
use release_tests_ginkgo.SkipRange.Diff.{
  FieldMap, FileFields, object, lookup, validate_olm_skip_range_diff,
}
use release_tests_ginkgo.SkipRange.Upgrade.{Updates, is_valid_osp_version_patch_update_iff}
use release_tests_ginkgo.SkipRange.Changes.{OldOk, NewOk, validate_olm_skip_range_diff_iff}

abbrev version : Text → Text → Text → Triple
version x y z = record { major = x; minor = y; patch = z }

abbrev lower : Triple
lower = version (codes "1") (codes "18") (codes "0")

abbrev lower' : Triple
lower' = version (codes "1") (codes "3") (codes "7")

abbrev upper : Triple
upper = version (codes "1") (codes "19") (codes "2")

abbrev upper' : Triple
upper' = version (codes "1") (codes "19") (codes "3")

-- Texts of digits only.
one_digit : (c : ℕ) → is_digit c ≡ true → IsNumber (c ∷ [])
one_digit c h = (ground arith, (h, tt))

two_digits : (c d : ℕ) → is_digit c ≡ true → is_digit d ≡ true → IsNumber (c ∷ d ∷ [])
two_digits c d h i = (ground arith, (h, (i, tt)))

lower-IsVersion : IsVersion lower
lower-IsVersion = record {
  major = one_digit _ refl;
  minor = two_digits _ _ refl refl;
  patch = one_digit _ refl;
}

lower'-IsVersion : IsVersion lower'
lower'-IsVersion = record {
  major = one_digit _ refl;
  minor = one_digit _ refl;
  patch = one_digit _ refl;
}

upper-IsVersion : IsVersion upper
upper-IsVersion = record {
  major = one_digit _ refl;
  minor = two_digits _ _ refl refl;
  patch = one_digit _ refl;
}

upper'-IsVersion : IsVersion upper'
upper'-IsVersion = record {
  major = one_digit _ refl;
  minor = two_digits _ _ refl refl;
  patch = one_digit _ refl;
}

abbrev spaces : Text
spaces = codes " "

abbrev channel : Text
channel = codes "pipelines-1.19"

find_channel_1_19 : find_channel channel ≡ some (codes "1", codes "19")
unfolding find_channel find_first channel_here number digits pair
find_channel_1_19 = refl

check_bounds_iff_example : (check_bounds channel (range lower spaces upper) ≡ []) ↔ (
    (scan_or_zero lower.major ≡ scan_or_zero (codes "1"))
    × (upper.major ++ (dot ++ upper.minor) ≡ channel_version (codes "1") (codes "19")))
check_bounds_iff_example =
    check_bounds_iff channel (codes "1") (codes "19") lower upper spaces find_channel_1_19
      lower-IsVersion upper-IsVersion (refl, tt)

check_bounds-lower_minor_example :
    check_bounds channel (range lower spaces upper)
    ≡ check_bounds channel (range lower' spaces upper)
check_bounds-lower_minor_example =
    check_bounds-lower_minor channel lower lower' upper spaces lower-IsVersion lower'-IsVersion
      upper-IsVersion (refl, tt) refl

is_valid_osp_version_patch_update_iff_example :
    (is_valid_osp_version_patch_update
        (codes "1.19")
        (range lower spaces upper)
        (range lower spaces upper')
      ≡ true)
    ↔ Updates (codes "1.19") (range lower spaces upper') lower upper lower upper'
is_valid_osp_version_patch_update_iff_example =
    is_valid_osp_version_patch_update_iff (codes "1.19") lower upper lower upper' spaces spaces
      lower-IsVersion upper-IsVersion lower-IsVersion upper'-IsVersion (refl, tt) (refl, tt)

abbrev map : SkipRangeMap
map = (channel, range lower spaces upper) ∷ (codes "latest", codes ">=1.18.0 <1.19.2") ∷ []

abbrev before : FieldMap
before = (channel, some (range lower spaces upper)) ∷ []

abbrev after : FieldMap
after = (channel, some (range lower spaces upper')) ∷ []

abbrev fields : FileFields
fields =
    (codes "pre-olm-skip-range", object before) ∷ (codes "post-olm-skip-range", object after) ∷ []

read_before : lookup (codes "pre-olm-skip-range") fields ≡ some (object before)
unfolding lookup text_eq native.Mathlib.Decide.ℕ_discrete
read_before = refl

read_after : lookup (codes "post-olm-skip-range") fields ≡ some (object after)
unfolding lookup text_eq native.Mathlib.Decide.ℕ_discrete
read_after = refl

validate_olm_skip_range_diff_iff_example :
    (validate_olm_skip_range_diff
        (codes "1.19")
        (codes "pre-olm-skip-range")
        (codes "post-olm-skip-range")
        (some fields)
      ≡ passed)
    ↔ (All (OldOk (codes "1.19") after) before × All (NewOk (codes "1.19") before) after)
validate_olm_skip_range_diff_iff_example =
    validate_olm_skip_range_diff_iff (codes "1.19") (codes "pre-olm-skip-range")
      (codes "post-olm-skip-range") fields before after read_before read_after
