-- ===== src/Kueue/Cleanup/Tests.antt =====
-- The cleanup stack over a number that each entry reads.
use mathlib.Core.List.{reverse}
use release_tests_ginkgo.Prelude.{
  ℕ, ◌+◌, ◌*◌, ◌≤◌, arith, Option, ◌≡◌, refl, String, none, some, List, [], ◌∷◌,
}
use release_tests_ginkgo.Kueue.Cleanup.{CleanupFunc, cleanup}
use release_tests_ginkgo.Kueue.Cleanup.Invariant.{cleanup-completes}
use release_tests_ginkgo.Kueue.Cleanup.Stack.{Stops}
use release_tests_ginkgo.Kueue.Cleanup.Stack.{unwind, cleanup-unwind, cleanup-Stops}

abbrev bump : CleanupFunc ℕ String
bump n = (none, n + 1)

abbrev refuse : CleanupFunc ℕ String
refuse n = (some "refusing to delete", n)

abbrev entries : List (CleanupFunc ℕ String)
entries = bump ∷ refuse ∷ bump ∷ bump ∷ []

stops_at_refuse : cleanup entries 0 ≡ (some "refusing to delete", bump ∷ refuse ∷ [], 2)
unfolding cleanup
stops_at_refuse = refl

cleanup-unwind_example :
    let (err, kept, v) = unwind (reverse entries) 0 in cleanup entries 0 ≡ (err, reverse kept, v)
cleanup-unwind_example = cleanup-unwind entries 0

cleanup-Stops_example :
    Stops (reverse entries) 0 "refusing to delete" (reverse (bump ∷ refuse ∷ [])) 2
cleanup-Stops_example =
    cleanup-Stops entries (bump ∷ refuse ∷ []) 0 2 "refusing to delete" stops_at_refuse

abbrev double : CleanupFunc ℕ String
double n = (none, n * 2)

-- The entry that doubles is the newest one.
cleanup-completes_example :
    let (err, kept, v) = cleanup (bump ∷ double ∷ []) 3 in
    (err ≡ none) × (kept ≡ []) × (v ≡ 7) × (3 ≤ v)
cleanup-completes_example =
    let grows : (n : ℕ) → 3 ≤ n → (◌≡◌ {A = Option String} none none) × (3 ≤ n + 1) =
      λ n h. (refl, omega arith) in
    let doubles : (n : ℕ) → 3 ≤ n → (◌≡◌ {A = Option String} none none) × (3 ≤ n * 2) =
      λ n h. (refl, omega arith) in
    cleanup-completes (λ n. 3 ≤ n) (bump ∷ double ∷ []) 3 (grows, (doubles, tt)) (omega arith)
