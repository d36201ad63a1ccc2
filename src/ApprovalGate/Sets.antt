-- ===== src/ApprovalGate/Sets.antt =====
-- Lists of names without repetitions, which the code keeps as maps used as sets.
use release_tests_ginkgo.Prelude.{suc, ◌≤◌, String, true, false, List, [], ◌∷◌}
use release_tests_ginkgo.Prelude.{◌≡◌, ◌≢◌, arith, ◌==◌, elem, string_eq, if◌then◌else◌}
use release_tests_ginkgo.Prelude.Lists.{length}

-- No name stands twice.
abbrev pub Unique : List String → Type 0
Unique [] = Unit
Unique (x ∷ xs) = (elem x xs ≡ false) × Unique xs

-- Every name of the first list is in the second.
abbrev pub Within : List String → List String → Type 0
Within xs ys = (x : String) → elem x xs ≡ true → elem x ys ≡ true

remove : String → List String → List String
remove x [] = []
remove x (y ∷ ys) = let rest = remove x ys in if x == y then ys else y ∷ rest

length-remove :
    (x : String) (ys : List String) → elem x ys ≡ true → suc (length (remove x ys)) ≡ length ys
unfolding remove
length-remove x [] h = absurd (ground arith)
length-remove x (y ∷ ys) h = ground (arith, length-remove x ys)

elem-remove :
    (x z : String) (ys : List String) → z ≢ x → elem z ys ≡ true → elem z (remove x ys) ≡ true
unfolding remove
elem-remove x z [] n h = absurd (ground arith)
elem-remove x z (y ∷ ys) n h = ground (arith, elem-remove x z ys n)

-- A list without repetitions is no longer than one that has its names.
pub Within-length : (xs ys : List String) → Unique xs → Within xs ys → length xs ≤ length ys
Within-length [] ys u w = omega arith
Within-length (x ∷ xs) ys (fresh, u) w =
    let there : elem x ys ≡ true = w x (ground arith) in
    let shorter =
      Within-length xs (remove x ys) u
        (λ z h. elem-remove x z ys (λ e. ground arith) (w z (ground arith))) in
    omega (arith, length-remove x ys there, shorter)
