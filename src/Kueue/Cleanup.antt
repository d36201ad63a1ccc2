-- ===== src/Kueue/Cleanup.antt =====
-- `addCleanup` and `Cleanup` of pkg/tektonkueue/environment.go: the stack of deferred restorations.
pub mod Stack
pub mod Invariant
mod Tests
use release_tests_ginkgo.Prelude.{ℕ, zero, suc, Option, none, some, List, [], ◌∷◌, ◌++◌}
use release_tests_ginkgo.Prelude.Lists.{length, take}

module _ (W E : Type 0) where
  -- A cleanup acts on the clusters `W` and may return an error.
  abbrev pub CleanupFunc : Type 0
  CleanupFunc = W → Option E × W

  -- What `Cleanup` leaves: its error, the new `e.cleanups`, and the clusters.
  abbrev pub Left : Type 0
  Left = Option E × List CleanupFunc × W

module _ {W E : Type 0} where
  abbrev pub get_elem? : List (CleanupFunc W E) → ℕ → Option (CleanupFunc W E)
  get_elem? [] i = none
  get_elem? (f ∷ fs) zero = some f
  get_elem? (f ∷ fs) (suc i) = get_elem? fs i

  -- `e.cleanups = append(e.cleanups, cleanup)`
  unfoldable pub add_cleanup : CleanupFunc W E → List (CleanupFunc W E) → List (CleanupFunc W E)
  add_cleanup cleanup cleanups = cleanups ++ (cleanup ∷ [])

  -- A round: run the entry; after an error keep `cleanups[:i+1]` and return, else go on with `next`.
  unfoldable pub settle : Option E × W → List (CleanupFunc W E) → (W → Left W E) → Left W E
  settle (some e, w) kept next = (some e, kept, w)
  settle (none, w) kept next = next w

  unfoldable pub round :
      Option (CleanupFunc W E) → List (CleanupFunc W E) → (W → Left W E) → W → Left W E
  unfolding settle
  round none kept next w = (none, [], w)
  round (some f) kept next w = settle (f w) kept next

  -- The loop, with the indices below `n` to go. They are in range in every round.
  unfoldable pub cleanup_loop : ℕ → List (CleanupFunc W E) → W → Left W E
  unfolding round
  cleanup_loop zero cleanups w = (none, [], w)
  cleanup_loop (suc i) cleanups w =
      round (get_elem? cleanups i) (take (suc i) cleanups) (cleanup_loop i cleanups) w

  unfoldable pub cleanup : List (CleanupFunc W E) → W → Left W E
  unfolding cleanup_loop
  cleanup cleanups w = cleanup_loop (length cleanups) cleanups w
