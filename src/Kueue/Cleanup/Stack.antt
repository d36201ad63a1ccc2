-- ===== src/Kueue/Cleanup/Stack.antt =====
-- `Cleanup` pops a stack: what was added last runs first, and a failure leaves the rest for a retry.
use mathlib.Core.Path.{fun_ext, subst}
use mathlib.Core.List.{reverse, reverse-cons, reverse-reverse}
use release_tests_ginkgo.Prelude.{ℕ, zero, suc, ◌≤◌, ◌≡◌, refl, sym, ap, ◌∙◌, Option, none, some}
use release_tests_ginkgo.Prelude.{List, [], ◌∷◌, ◌++◌, arith, inl, inr, Option-cases}
use release_tests_ginkgo.Prelude.Lists.{length, take, length-append}
use release_tests_ginkgo.Kueue.Cleanup.{
  CleanupFunc, Left, get_elem?, add_cleanup, settle, round, cleanup_loop,
}
use release_tests_ginkgo.Kueue.Cleanup.{cleanup}

module _ {W E : Type 0} where
  get_elem?-append :
      (xs ys : List (CleanupFunc W E)) (i : ℕ)
      → suc i ≤ length xs
      → get_elem? (xs ++ ys) i ≡ get_elem? xs i
  get_elem?-append [] ys i h = absurd (omega arith)
  get_elem?-append (x ∷ xs) ys zero h = refl
  get_elem?-append (x ∷ xs) ys (suc i) h = get_elem?-append xs ys i (omega arith)

  get_elem?-length :
      (xs : List (CleanupFunc W E)) (f : CleanupFunc W E)
      → get_elem? (xs ++ (f ∷ [])) (length xs) ≡ some f
  get_elem?-length [] f = refl
  get_elem?-length (x ∷ xs) f = get_elem?-length xs f

  take-append :
      (xs ys : List (CleanupFunc W E)) (i : ℕ) → i ≤ length xs → take i (xs ++ ys) ≡ take i xs
  take-append xs ys zero h = refl
  take-append [] ys (suc i) h = absurd (omega arith)
  take-append (x ∷ xs) ys (suc i) h = rw (take-append xs ys i (omega arith))

  take-all : (xs : List (CleanupFunc W E)) → take (length xs) xs ≡ xs
  take-all [] = refl
  take-all (x ∷ xs) = rw (take-all xs)

  cleanup_loop-suc :
      (i : ℕ) (xs : List (CleanupFunc W E))
      → cleanup_loop (suc i) xs ≡ round (get_elem? xs i) (take (suc i) xs) (cleanup_loop i xs)
  unfolding cleanup_loop
  cleanup_loop-suc i xs = refl

  -- What lies above the first `i` entries does not matter to the rounds on these.
  cleanup_loop-append :
      (i : ℕ) (xs ys : List (CleanupFunc W E))
      → i ≤ length xs
      → cleanup_loop i (xs ++ ys) ≡ cleanup_loop i xs
  cleanup_loop-append zero xs ys h = unfold cleanup_loop in refl
  cleanup_loop-append (suc i) xs ys h = rw (
    cleanup_loop-suc i (xs ++ ys),
    cleanup_loop-suc i xs,
    get_elem?-append xs ys i h,
    take-append xs ys (suc i) h,
    cleanup_loop-append i xs ys (omega arith),
  )

  cleanup-eq-loop :
      (cs : List (CleanupFunc W E)) (n : ℕ) → length cs ≡ n → cleanup cs ≡ cleanup_loop n cs
  unfolding cleanup
  cleanup-eq-loop cs n e = λ i. cleanup_loop (e i) cs

  -- `Cleanup` after `addCleanup` runs the new entry first. If it fails, every entry is kept, the
  -- failed one too, and no other one runs; if not, `Cleanup` goes on with the entries before it.
  pub cleanup-add_cleanup :
      (f : CleanupFunc W E) (cs : List (CleanupFunc W E)) (w : W)
      → cleanup (add_cleanup f cs) w ≡ settle (f w) (add_cleanup f cs) (cleanup cs)
  unfolding add_cleanup
  cleanup-add_cleanup f cs w =
      let all : List (CleanupFunc W E) = cs ++ (f ∷ []) in
      let size : length all ≡ suc (length cs) = omega (arith, length-append cs (f ∷ [])) in
      let kept : take (suc (length cs)) all ≡ all =
        subst (λ n. take n all ≡ all) size (take-all all) in
      let below : cleanup_loop (length cs) all ≡ cleanup cs =
        cleanup_loop-append (length cs) cs (f ∷ []) (omega arith)
        ∙ sym (cleanup-eq-loop cs (length cs) refl) in
      rw (cleanup-eq-loop all (suc (length cs)) size, cleanup_loop-suc (length cs) all)
        (rw (get_elem?-length cs f, kept, below) (unfold round in refl))

  -- The stack that `Cleanup` implements, newest entry first.
  unfoldable pub unwind : List (CleanupFunc W E) → W → Option E × List (CleanupFunc W E) × W
  unwind [] w = (none, [], w)
  unwind (f ∷ fs) w = elim (f w).0 [ some e ↦ (some e, f ∷ fs, (f w).1) | none ↦ unwind fs (f w).1 ]

  turned : Left W E → Left W E
  turned (err, kept, w) = (err, reverse kept, w)

  settle-turned :
      (f : CleanupFunc W E) (fs : List (CleanupFunc W E)) (w : W)
      → settle (f w) (reverse (f ∷ fs)) (λ v. turned (unwind fs v)) ≡ turned (unwind (f ∷ fs) w)
  unfolding settle unwind turned
  settle-turned f fs w = ground arith

  cleanup-reverse : (fs : List (CleanupFunc W E)) → cleanup (reverse fs) ≡ λ w. turned (unwind fs w)
  cleanup-reverse [] = unfold cleanup unwind turned in refl
  cleanup-reverse (f ∷ fs) = fun_ext λ w.
      let e : reverse (f ∷ fs) ≡ add_cleanup f (reverse fs) =
        unfold add_cleanup in reverse-cons f fs in
      (λ i. cleanup (e i) w)
      ∙ cleanup-add_cleanup f (reverse fs) w
      ∙ (λ i. settle (f w) (sym e i) (cleanup-reverse fs i))
      ∙ settle-turned f fs w

  -- `Cleanup` is the stack: it runs the entries from the last added to the first, and after an
  -- error it keeps what the stack still holds, the failed entry on top.
  pub cleanup-unwind :
      (cs : List (CleanupFunc W E)) (w : W)
      → let (err, kept, v) = unwind (reverse cs) w in cleanup cs w ≡ (err, reverse kept, v)
  unfolding turned
  cleanup-unwind cs w =
      (λ i. cleanup (sym (reverse-reverse cs) i) w) ∙ (λ i. cleanup-reverse (reverse cs) i w)

  -- The entries ran one after the other, each without an error.
  pub data Runs : List (CleanupFunc W E) → W → W → Type 0 where
    idle : {w : W} → Runs [] w w
    ran :
        {f : CleanupFunc W E} {fs : List (CleanupFunc W E)} {w v u : W}
        → f w ≡ (none, v)
        → Runs fs v u
        → Runs (f ∷ fs) w u

  -- The entries above `f` ran, `f` failed, and it is kept with what is below it.
  abbrev pub Stops : List (CleanupFunc W E) → W → E → List (CleanupFunc W E) → W → Type 0
  Stops fs w e kept v =
      (done : List (CleanupFunc W E)) × (f : CleanupFunc W E) × (rest : List (CleanupFunc W E))
      × (u : W) × (fs ≡ done ++ (f ∷ rest))
      × Runs done w u
      × (f u ≡ (some e, v))
      × (kept ≡ f ∷ rest)

  Stops-cons :
      (f : CleanupFunc W E) (fs : List (CleanupFunc W E)) (w v u : W) (e : E)
      (kept : List (CleanupFunc W E))
      → f w ≡ (none, v)
      → Stops fs v e kept u
      → Stops (f ∷ fs) w e kept u
  Stops-cons f fs w v u e kept ok (done, g, rest, x, split, before, failed, left) =
      (f ∷ done, g, rest, x, ap (λ l. f ∷ l) split, ran ok before, failed, left)

  unwind-Runs :
      (fs kept : List (CleanupFunc W E)) (w v : W)
      → unwind fs w ≡ (none, kept, v)
      → Runs fs w v × (kept ≡ [])
  unfolding unwind
  unwind-Runs [] kept w v h =
      (subst (λ x. Runs [] w x) (ap (λ r. r.2) h) idle, sym (ap (λ r. r.1) h))
  unwind-Runs (f ∷ fs) kept w v h = elim (Option-cases (f w).0) [
    | inl ok ↦
        let (runs, left) = unwind-Runs fs kept (f w).1 v (rw ok at h) in
        (ran (λ i. (ok i, (f w).1)) runs, left)
    | inr (e, bad) ↦ absurd (ground arith)
  ]

  unwind-Stops :
      (fs kept : List (CleanupFunc W E)) (w v : W) (e : E)
      → unwind fs w ≡ (some e, kept, v)
      → Stops fs w e kept v
  unfolding unwind
  unwind-Stops [] kept w v e h = absurd (ground arith)
  unwind-Stops (f ∷ fs) kept w v e h = elim (Option-cases (f w).0) [
    | inl ok ↦
        Stops-cons f fs w (f w).1 v e kept (λ i. (ok i, (f w).1))
          (unwind-Stops fs kept (f w).1 v e (rw ok at h))
    | inr (x, bad) ↦
        let same : (some x, f ∷ fs, (f w).1) ≡ (some e, kept, v) = rw bad at h in
        ([], f, fs, w, refl, idle, ground arith, sym (ap (λ r. r.1) same))
  ]

  -- If `Cleanup` returns nil, every entry ran once without an error, newest first, and none is kept.
  pub cleanup-Runs :
      (cs kept : List (CleanupFunc W E)) (w v : W)
      → cleanup cs w ≡ (none, kept, v)
      → Runs (reverse cs) w v × (kept ≡ [])
  cleanup-Runs cs kept w v h =
      let back = sym (cleanup-unwind cs w) ∙ h in
      let (runs, left) =
        unwind-Runs (reverse cs) (unwind (reverse cs) w).1 w v
          (λ i. ((back i).0, (unwind (reverse cs) w).1, (back i).2)) in
      (runs, sym (ap (λ r. r.1) back) ∙ ap reverse left)

  -- If `Cleanup` returns an error, the entries above one that failed ran once each without an error,
  -- that one returned the error, and exactly it and the entries below it are kept, in their order.
  pub cleanup-Stops :
      (cs kept : List (CleanupFunc W E)) (w v : W) (e : E)
      → cleanup cs w ≡ (some e, kept, v)
      → Stops (reverse cs) w e (reverse kept) v
  cleanup-Stops cs kept w v e h =
      let back = sym (cleanup-unwind cs w) ∙ h in
      let k = (unwind (reverse cs) w).1 in
      let stopped = unwind-Stops (reverse cs) k w v e (λ i. ((back i).0, k, (back i).2)) in
      subst (λ l. Stops (reverse cs) w e l v)
        (sym (reverse-reverse k) ∙ ap reverse (ap (λ r. r.1) back)) stopped
