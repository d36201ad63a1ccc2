-- ===== src/SkipRange/Patterns.antt =====
-- The patterns of pkg/oc/olm_skiprange.go read back the versions that are printed in their form.
use mathlib.Core.List.{append_assoc, append-nil}
use release_tests_ginkgo.Prelude.{ℕ, true, false, Option, some, [], ◌∷◌, ◌++◌, ◌≡◌}
use release_tests_ginkgo.Prelude.{◌≢◌, refl, sym, ap, ◌∙◌, arith}
use release_tests_ginkgo.Prelude.Texts.{Text, codes}
use release_tests_ginkgo.Prelude.Lists.{All}
use release_tests_ginkgo.SkipRange.Version.{
  is_digit, is_space, digits, number, skip_spaces, dot, pair,
}
use release_tests_ginkgo.SkipRange.Version.{Triple, triple, captured, find_first, bounds_here}
use release_tests_ginkgo.SkipRange.Version.{find_bounds, extract_major_minor}

-- Some digits.
abbrev pub IsNumber : Text → Type 0
IsNumber s = (s ≢ []) × All (λ c. is_digit c ≡ true) s

-- A text that does not go on with a digit.
abbrev pub Ends : Text → Type 0
Ends [] = Unit
Ends (c ∷ s) = is_digit c ≡ false

pub record IsVersion (t : Triple) : Type 0 where
  pub major : IsNumber t.major
  pub minor : IsNumber t.minor
  pub patch : IsNumber t.patch

digits-append : (d r : Text) → All (λ c. is_digit c ≡ true) d → Ends r → digits (d ++ r) ≡ (d, r)
unfolding digits
digits-append [] [] h e = refl
digits-append [] (c ∷ r) h e = rw e
digits-append (c ∷ d) r (h, hs) e = rw (digits-append d r hs e) (rw h)

pub number-append : (d r : Text) → IsNumber d → Ends r → number (d ++ r) ≡ some (d, r)
unfolding number
number-append [] r (there, h) e = absurd (there refl)
number-append (c ∷ d) r (there, h) e = rw (digits-append (c ∷ d) r h e)

pub pair-append :
    (x y r : Text)
    → IsNumber x
    → IsNumber y
    → Ends r
    → pair (x ++ (dot ++ (y ++ r))) ≡ some (x, y, r)
unfolding pair
pair-append x y r hx hy e =
    rw (number-append x (dot ++ (y ++ r)) hx refl) (rw (number-append y r hy e))

captured-append :
    (t : Triple) (r : Text)
    → captured t ++ r ≡ t.major ++ (dot ++ (t.minor ++ (dot ++ (t.patch ++ r))))
unfolding captured
captured-append t r = simp append_assoc

-- A printed version is read back, with what follows it.
pub triple-captured :
    (t : Triple) (r : Text) → IsVersion t → Ends r → triple (captured t ++ r) ≡ some (t, r)
unfolding triple
triple-captured t r v e = rw (captured-append t r) (
    rw (pair-append t.major t.minor (dot ++ (t.patch ++ r)) v.major v.minor refl)
      (rw (number-append t.patch r v.patch e)))

-- The major and the minor number are extracted from a printed version.
pub extract_major_minor-captured :
    (t : Triple) → IsVersion t → extract_major_minor (captured t) ≡ t.major ++ (dot ++ t.minor)
unfolding extract_major_minor captured
extract_major_minor-captured t v =
    rw (pair-append t.major t.minor (dot ++ t.patch) v.major v.minor refl, extract_major_minor)

append-nil-captured : (t : Triple) → IsVersion t → triple (captured t) ≡ some (t, [])
append-nil-captured t v = sym (ap triple (append-nil (captured t))) ∙ triple-captured t [] v tt

-- `>=lower`, white space, `<upper`
abbrev pub range : Triple → Text → Triple → Text
range lower spaces upper =
    codes ">=" ++ (captured lower ++ (spaces ++ (codes "<" ++ captured upper)))

skip_spaces-append :
    (spaces r : Text)
    → All (λ c. is_space c ≡ true) spaces
    → skip_spaces (spaces ++ (b'<' ∷ r)) ≡ b'<' ∷ r
unfolding skip_spaces
skip_spaces-append [] r h = refl
skip_spaces-append (c ∷ spaces) r (h, hs) = rw h (skip_spaces-append spaces r hs)

space-Ends : (c : ℕ) → is_space c ≡ true → is_digit c ≡ false
space-Ends c h = ground arith

spaces-Ends : (spaces r : Text) → All (λ c. is_space c ≡ true) spaces → Ends (spaces ++ (b'<' ∷ r))
spaces-Ends [] r h = refl
spaces-Ends (c ∷ spaces) r (h, hs) = space-Ends c h

bounds_here-range :
    (lower upper : Triple) (spaces : Text)
    → IsVersion lower
    → IsVersion upper
    → All (λ c. is_space c ≡ true) spaces
    → bounds_here (range lower spaces upper) ≡ some (lower, upper)
unfolding bounds_here
bounds_here-range lower upper spaces l u blank =
    let rest : Text = spaces ++ (b'<' ∷ captured upper) in
    rw (triple-captured lower rest l (spaces-Ends spaces (captured upper) blank), bounds_here)
      (rw (skip_spaces-append spaces (captured upper) blank) (rw (append-nil-captured upper u)))

pub find_first-here :
    {A : Type 0} (match : Text → Option A) (s : Text) (a : A)
    → match s ≡ some a
    → find_first match s ≡ some a
unfolding find_first
find_first-here match [] a h = h
find_first-here match (c ∷ s) a h = rw (h, find_first)

-- The bounds of a range in the form that the operator writes are found, whatever white space is
-- between them.
pub find_bounds-range :
    (lower upper : Triple) (spaces : Text)
    → IsVersion lower
    → IsVersion upper
    → All (λ c. is_space c ≡ true) spaces
    → find_bounds (range lower spaces upper) ≡ some (lower, upper)
unfolding find_bounds
find_bounds-range lower upper spaces l u blank =
    find_first-here bounds_here (range lower spaces upper) (lower, upper)
      (bounds_here-range lower upper spaces l u blank)
