-- ===== src/SkipRange/Bounds.antt =====
-- What `ValidateOlmSkipRange` and `ValidateChannelSkipRangeBounds` accept.
use release_tests_ginkgo.Prelude.{true, some, [], ◌∷◌, ◌++◌, ◌≡◌}
use release_tests_ginkgo.Prelude.{◌≢◌, ◌↔◌, ◌⊎◌, refl, arith, text_eq, nat_eq}
use release_tests_ginkgo.Prelude.{if◌then◌else◌, ◌==◌}
use release_tests_ginkgo.Prelude.Texts.{Text, contains}
use release_tests_ginkgo.Prelude.Lists.{All, Any, append-eq-nil}
use release_tests_ginkgo.SkipRange.Version.{Triple, dot, find_channel, scan_or_zero, is_digit}
use release_tests_ginkgo.SkipRange.Version.{extract_major_minor, is_space}
use release_tests_ginkgo.SkipRange.Patterns.{IsVersion, range, find_bounds-range}
use release_tests_ginkgo.SkipRange.Patterns.{extract_major_minor-captured}
use release_tests_ginkgo.SkipRange.Fetch.{SkipRangeMap, fetched}
use release_tests_ginkgo.SkipRange.Checks.{
  names_channel, latest, nightly, find_version, before_dot, show,
}
use release_tests_ginkgo.Ginkgo.{passed}
use release_tests_ginkgo.SkipRange.Checks.{validate_olm_skip_range, check_bounds, collect_bounds}
use release_tests_ginkgo.SkipRange.Checks.{validate_channel_skip_range_bounds}

-- The entry names the version: any channel but "latest" for the nightly build, and else one whose
-- name contains the major and the minor version.
abbrev pub Names : Text → Text × Text → Type 0
Names version (channel, skip_range) =
    (channel ≢ latest)
    × ((version ≡ nightly) ⊎ (contains channel (extract_major_minor version) ≡ true))
    × (contains skip_range version ≡ true)

names_channel_iff :
    (version channel : Text)
    → (names_channel version channel ≡ true)
      ↔ ((version ≡ nightly) ⊎ (contains channel (extract_major_minor version) ≡ true))
unfolding names_channel
names_channel_iff version channel = ground arith

find_version_iff :
    (version : Text) (m : SkipRangeMap)
    → (find_version (names_channel version) version m ≡ true) ↔ Any (Names version) m
unfolding find_version
find_version_iff version [] = (λ h. absurd (ground arith), λ h. absurd h)
find_version_iff version ((channel, skip_range) ∷ m) =
    ground (arith, names_channel_iff version channel, find_version_iff version m)

-- `ValidateOlmSkipRange` passes exactly when OSP_VERSION is set and an entry of the map names it, in
-- whatever order the map is walked.
pub validate_olm_skip_range_iff :
    (version : Text) (m : SkipRangeMap)
    → (validate_olm_skip_range version (fetched m) ≡ passed)
      ↔ ((version ≢ []) × Any (Names version) m)
unfolding validate_olm_skip_range
validate_olm_skip_range_iff version m = ground (arith, find_version_iff version m)

before_dot-append : (d r : Text) → All (λ c. is_digit c ≡ true) d → before_dot (d ++ (dot ++ r)) ≡ d
before_dot-append [] r h = refl
before_dot-append (c ∷ d) r (h, hs) = ground (arith, before_dot-append d r hs)

-- The version that a channel's name stands for.
abbrev pub channel_version : Text → Text → Text
channel_version major minor = show (scan_or_zero major) ++ (dot ++ show (scan_or_zero minor))

-- A channel whose skipRange is printed in the operator's form has no error exactly when the lower
-- bound has the channel's major version and the upper bound its major and minor version.
pub check_bounds_iff :
    (channel major minor : Text) (lower upper : Triple) (spaces : Text)
    → find_channel channel ≡ some (major, minor)
    → IsVersion lower
    → IsVersion upper
    → All (λ c. is_space c ≡ true) spaces
    → (check_bounds channel (range lower spaces upper) ≡ []) ↔ (
        (scan_or_zero lower.major ≡ scan_or_zero major)
        × (upper.major ++ (dot ++ upper.minor) ≡ channel_version major minor))
unfolding check_bounds
check_bounds_iff channel major minor lower upper spaces named l u blank = ground (
  arith,
  find_bounds-range lower upper spaces l u blank,
  extract_major_minor-captured lower l,
  extract_major_minor-captured upper u,
  before_dot-append lower.major lower.minor l.major.1,
)

-- The minor and the patch number of the lower bound do not matter: two lower bounds of one major
-- version give the same errors.
pub check_bounds-lower_minor :
    (channel : Text) (lower lower' upper : Triple) (spaces : Text)
    → IsVersion lower
    → IsVersion lower'
    → IsVersion upper
    → All (λ c. is_space c ≡ true) spaces
    → lower.major ≡ lower'.major
    → check_bounds channel (range lower spaces upper)
      ≡ check_bounds channel (range lower' spaces upper)
unfolding check_bounds
check_bounds-lower_minor channel lower lower' upper spaces l l' u blank same = ground (
  arith,
  find_bounds-range lower upper spaces l u blank,
  find_bounds-range lower' upper spaces l' u blank,
  extract_major_minor-captured lower l,
  extract_major_minor-captured lower' l',
  before_dot-append lower.major lower.minor l.major.1,
  before_dot-append lower'.major lower'.minor l'.major.1,
)

collect_bounds_iff :
    (m : SkipRangeMap)
    → (collect_bounds m ≡ []) ↔ All (λ e. e.0 ≢ latest → check_bounds e.0 e.1 ≡ []) m
unfolding collect_bounds
collect_bounds_iff [] = (λ h. tt, λ h. refl)
collect_bounds_iff ((channel, skip_range) ∷ m) = ground (
  arith,
  collect_bounds_iff m,
  append-eq-nil (if channel == latest then [] else check_bounds channel skip_range)
      (collect_bounds m),
)

-- `ValidateChannelSkipRangeBounds` passes exactly when no channel but "latest" has an error.
pub validate_channel_skip_range_bounds_iff :
    (m : SkipRangeMap)
    → (validate_channel_skip_range_bounds (fetched m) ≡ passed)
      ↔ All (λ e. e.0 ≢ latest → check_bounds e.0 e.1 ≡ []) m
unfolding validate_channel_skip_range_bounds
validate_channel_skip_range_bounds_iff m = ground (arith, collect_bounds_iff m)
