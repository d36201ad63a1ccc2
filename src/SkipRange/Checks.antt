-- ===== src/SkipRange/Checks.antt =====
-- `ValidateOlmSkipRange` and `ValidateChannelSkipRangeBounds`.
use Prim.Native.Nat.{◌/◌, ◌%◌}
use release_tests_ginkgo.Prelude.{
  ℕ, zero, suc, ◌+◌, Bool, true, false, ◌&&◌, none, some, List, [], ◌∷◌, ◌++◌,
}
use release_tests_ginkgo.Prelude.{◌==◌, text_eq, nat_eq, if◌then◌else◌}
use release_tests_ginkgo.Ginkgo.{Outcome, passed, skipped, failed}
use release_tests_ginkgo.Prelude.Texts.{Text, codes, null, contains, ltb, eqb}
use release_tests_ginkgo.SkipRange.Version.{
  find_bounds, find_channel, extract_major_minor, captured,
}
use release_tests_ginkgo.SkipRange.Version.{scan_or_zero, dot}
use release_tests_ginkgo.SkipRange.Fetch.{SkipRangeMap, FetchError, Fetched, fetched, not_fetched}

pub data CheckError : Type 0 where
  fetch : FetchError → CheckError
  version_not_found : CheckError
  bad_bounds : List Text → CheckError

abbrev pub latest : Text
latest = codes "latest"

abbrev pub nightly : Text
nightly = codes "5.0.5"

-- The two loops of `ValidateOlmSkipRange`, which differ in the test of the channel's name.
unfoldable pub find_version : (Text → Bool) → Text → SkipRangeMap → Bool
find_version named version [] = false
find_version named version ((channel, skip_range) ∷ m) =
    let rest = find_version named version m in
    if channel == latest
    then rest
    else if named channel && contains skip_range version
    then true
    else rest

-- Of the nightly build any name will do.
unfoldable pub names_channel : Text → Text → Bool
names_channel osp_version channel =
    if osp_version == nightly then true else contains channel (extract_major_minor osp_version)

unfoldable pub validate_olm_skip_range : Text → Fetched → Outcome CheckError
validate_olm_skip_range osp_version (not_fetched e) = failed (fetch e)
validate_olm_skip_range osp_version (fetched m) =
    if null osp_version
    then skipped
    else if find_version (names_channel osp_version) osp_version m
    then passed
    else failed version_not_found

-- The decimal digits of a number, with fuel for each digit.
unfoldable pub show_digits : ℕ → ℕ → Text
show_digits zero n = []
show_digits (suc fuel) n =
    let rest = show_digits fuel (n / 10) in
    if ltb n 10 then (b'0' + n) ∷ [] else rest ++ ((b'0' + n % 10) ∷ [])

-- `fmt.Sprintf("%d", n)`: a number has fewer digits than it has units, and one.
unfoldable pub show : ℕ → Text
unfolding show_digits
show n = show_digits (suc n) n

-- `strings.SplitN(…, ".", 2)[0]`: what stands before the first dot.
abbrev pub before_dot : Text → Text
before_dot [] = []
before_dot (c ∷ s) = if eqb c b'.' then [] else c ∷ before_dot s

-- The errors of one channel: one for the major version of the lower bound, one for the upper
-- bound. An error is told by the channel's name.
unfoldable pub check_bounds : Text → Text → List Text
check_bounds channel skip_range = elim (find_channel channel) [
  | none ↦ []
  | some (major, minor) ↦ elim (find_bounds skip_range) [
    | none ↦ channel ∷ []
    | some (lower, upper) ↦
        let ch_major = scan_or_zero major in
        let channel_version = show ch_major ++ (dot ++ show (scan_or_zero minor)) in
        let lower_major = scan_or_zero (before_dot (extract_major_minor (captured lower))) in
        (if lower_major == ch_major then [] else channel ∷ [])
        ++ (if extract_major_minor (captured upper) == channel_version then [] else channel ∷ [])
  ]
]

unfoldable pub collect_bounds : SkipRangeMap → List Text
collect_bounds [] = []
collect_bounds ((channel, skip_range) ∷ m) =
    (if channel == latest then [] else check_bounds channel skip_range) ++ collect_bounds m

unfoldable pub validate_channel_skip_range_bounds : Fetched → Outcome CheckError
validate_channel_skip_range_bounds (not_fetched e) = failed (fetch e)
validate_channel_skip_range_bounds (fetched m) =
    let errs = collect_bounds m in if null errs then passed else failed (bad_bounds errs)
