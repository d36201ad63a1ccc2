-- ===== src/SkipRange/Version.antt =====
-- The regular expressions of pkg/oc/olm_skiprange.go, and what the code does with their captures.
-- In each of them the classes that meet are disjoint, so the greedy match never backtracks and a
-- scan from left to right finds it.
use Prim.Native.Nat.{◌^◌}
use release_tests_ginkgo.Prelude.{ℕ, ◌+◌, ◌-◌, ◌*◌, Bool, false, ◌&&◌, ◌||◌, Option, none, some}
use release_tests_ginkgo.Prelude.{[], ◌∷◌, ◌++◌, ◌==◌, text_eq, if◌then◌else◌}
use release_tests_ginkgo.Prelude.Texts.{Text, codes, leb, ltb, eqb, null, cut_prefix, contains}

infixl 5 ◌>>=◌
abbrev pub ◌>>=◌ : {A B : Type 0} → Option A → (A → Option B) → Option B
none >>= f = none
some a >>= f = f a

-- `\d`
abbrev pub is_digit : ℕ → Bool
is_digit c = leb b'0' c && leb c b'9'

-- `\s` of RE2
abbrev pub is_space : ℕ → Bool
is_space c = eqb c 32 || (eqb c 9 || (eqb c 10 || (eqb c 12 || eqb c 13)))

-- `\d*`: the digits, and what follows them.
unfoldable pub digits : Text → Text × Text
digits [] = ([], [])
digits (c ∷ s) = let (d, r) = digits s in if is_digit c then (c ∷ d, r) else ([], c ∷ s)

-- `\d+`
unfoldable pub number : Text → Option (Text × Text)
unfolding digits
number s = let (d, r) = digits s in if null d then none else some (d, r)

unfoldable pub skip_spaces : Text → Text
skip_spaces [] = []
skip_spaces (c ∷ s) = let rest = skip_spaces s in if is_space c then rest else c ∷ s

abbrev pub dot : Text
dot = b'.' ∷ []

-- `\d+\.\d+`: the two numbers, and what follows.
unfoldable pub pair : Text → Option (Text × Text × Text)
pair s = do (x, r) ← number s; r' ← cut_prefix dot r; (y, rest) ← number r'; some (x, y, rest)

-- `\d+\.\d+\.\d+`: the text, its three numbers, and what follows.
pub record Triple : Type 0 where
  pub major : Text
  pub minor : Text
  pub patch : Text

unfoldable pub triple : Text → Option (Triple × Text)
triple s = do
  (x, y, r) ← pair s
  r' ← cut_prefix dot r
  (z, rest) ← number r'
  some (record { major = x; minor = y; patch = z }, rest)

-- The text that `(\d+\.\d+\.\d+)` captures.
unfoldable pub captured : Triple → Text
captured t = t.major ++ (dot ++ (t.minor ++ (dot ++ t.patch)))

-- The first match of a pattern: the leftmost position at which it matches.
unfoldable pub find_first : {A : Type 0} → (Text → Option A) → Text → Option A
find_first match [] = match []
find_first match (c ∷ s) =
    let rest = find_first match s in elim (match (c ∷ s)) [ some a ↦ some a | none ↦ rest ]

-- `>=(\d+\.\d+\.\d+)\s*<(\d+\.\d+\.\d+)` at the start of a text: its two captures.
unfoldable pub bounds_here : Text → Option (Triple × Triple)
bounds_here s = do
  r ← cut_prefix (codes ">=") s
  (lower, r') ← triple r
  r'' ← cut_prefix (codes "<") (skip_spaces r')
  (upper, _) ← triple r''
  some (lower, upper)

unfoldable pub find_bounds : Text → Option (Triple × Triple)
find_bounds s = find_first bounds_here s

-- `pipelines-(\d+)\.(\d+)`: the two numbers of a channel's name.
unfoldable pub channel_here : Text → Option (Text × Text)
channel_here s = do r ← cut_prefix (codes "pipelines-") s; (x, y, _) ← pair r; some (x, y)

unfoldable pub find_channel : Text → Option (Text × Text)
find_channel s = find_first channel_here s

-- `^(\d+\.\d+)\.?\d*`: the "X.Y" portion, or the whole text.
unfoldable pub extract_major_minor : Text → Text
extract_major_minor version = elim (pair version) [
  | some (x, y, _) ↦ x ++ (dot ++ y)
  | none ↦ version
]

-- The value of decimal digits.
unfoldable pub decimal : ℕ → Text → ℕ
decimal n [] = n
decimal n (c ∷ s) = decimal (n * 10 + (c - b'0')) s

-- `fmt.Sscanf(s, "%d", &n)` on digits: an error where the value is no `int`.
unfoldable pub scan_int : Text → Option ℕ
unfolding decimal
scan_int s = let n = decimal 0 s in if ltb n (2 ^ 63) then some n else none

-- `_, _ = fmt.Sscanf(…)`: the variable keeps its 0 where there is an error.
abbrev pub scan_or_zero : Text → ℕ
scan_or_zero s = elim (scan_int s) [ some n ↦ n | none ↦ 0 ]

unfoldable pub skip_range_contains_version : Text → Text → Bool
skip_range_contains_version skip_range version = contains skip_range version

-- The pattern `^(\d+)\.(\d+)\.(\d+)$` splits every capture of the bounds, and into its numbers.
-- The environment variable OSP_VERSION is an argument; it is empty if it is not set.
unfoldable pub is_valid_osp_version_patch_update : Text → Text → Text → Bool
unfolding skip_range_contains_version
is_valid_osp_version_patch_update osp_version pre_skip_range post_skip_range =
    if null osp_version
    then false
    else if skip_range_contains_version post_skip_range osp_version
    then (elim (find_bounds pre_skip_range) [
      | none ↦ false
      | some (pre_lower, pre_upper) ↦ elim (find_bounds post_skip_range) [
        | none ↦ false
        | some (post_lower, post_upper) ↦
            if captured pre_lower == captured post_lower
            then (elim (scan_int pre_upper.patch) [
              | none ↦ false
              | some pre_p ↦ elim (scan_int post_upper.patch) [
                | none ↦ false
                | some post_p ↦ ltb pre_p post_p
              ]
            ])
            else false
      ]
    ])
    else false
