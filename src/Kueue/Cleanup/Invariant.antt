-- ===== src/Kueue/Cleanup/Invariant.antt =====
-- What every entry of the stack of cleanups keeps, `Cleanup` keeps.
use mathlib.Core.List.{reverse, reverse-cons}
use release_tests_ginkgo.Prelude.{◌++◌, ◌∙◌, ◌≡◌, refl, sym, ap, none, some, List, [], ◌∷◌}
use release_tests_ginkgo.Prelude.{◌⊎◌, inl, inr, Option-cases}
use release_tests_ginkgo.Prelude.Lists.{All, All-append, Any, Any-append_left, Any-append_right}
use mathlib.Core.Path.{subst}
use release_tests_ginkgo.Kueue.Cleanup.{CleanupFunc, cleanup}
use release_tests_ginkgo.Kueue.Cleanup.Stack.{unwind, cleanup-unwind, Runs, idle, ran, cleanup-Runs}

pub All-reverse : {A : Type 0} (P : A → Type 0) (xs : List A) → All P xs → All P (reverse xs)
All-reverse P [] h = h
All-reverse P (x ∷ xs) (h, hs) =
    subst (All P) (sym (reverse-cons x xs))
      (All-append P (reverse xs) (x ∷ []) (All-reverse P xs hs) (h, tt))

pub Any-reverse : {A : Type 0} (P : A → Type 0) (xs : List A) → Any P xs → Any P (reverse xs)
Any-reverse P [] h = h
Any-reverse P (x ∷ xs) (inl h) =
    subst (Any P) (sym (reverse-cons x xs)) (Any-append_right P (reverse xs) (x ∷ []) (inl h))
Any-reverse P (x ∷ xs) (inr h) =
    subst (Any P) (sym (reverse-cons x xs))
      (Any-append_left P (reverse xs) (x ∷ []) (Any-reverse P xs h))

unwind-none :
    {W E : Type 0} (f : CleanupFunc W E) (fs : List (CleanupFunc W E)) (w : W)
    → (f w).0 ≡ none
    → unwind (f ∷ fs) w ≡ unwind fs (f w).1
unfolding unwind
unwind-none f fs w ok = rw ok refl

unwind-some :
    {W E : Type 0} (f : CleanupFunc W E) (fs : List (CleanupFunc W E)) (w : W) (e : E)
    → (f w).0 ≡ some e
    → unwind (f ∷ fs) w ≡ (some e, f ∷ fs, (f w).1)
unfolding unwind
unwind-some f fs w e bad = rw bad refl

module _ {W E : Type 0} (I : W → Type 0) where
  -- An entry that keeps `I`, whether it fails or not.
  abbrev pub Respects : CleanupFunc W E → Type 0
  Respects f = (w : W) → I w → I (f w).1

  unwind-keeps :
      (fs : List (CleanupFunc W E)) (w : W)
      → All Respects fs
      → I w
      → let (err, kept, v) = unwind fs w in I v × All Respects kept
  unfolding unwind
  unwind-keeps [] w hs h = (h, hs)
  unwind-keeps (f ∷ fs) w (k, ks) h = elim (Option-cases (f w).0) [
    | inl ok ↦
        subst (λ r. I r.2 × All Respects r.1) (sym (unwind-none f fs w ok))
          (unwind-keeps fs (f w).1 ks (k w h))
    | inr (e, bad) ↦
        subst (λ r. I r.2 × All Respects r.1) (sym (unwind-some f fs w e bad)) (k w h, (k, ks))
  ]

  -- `Cleanup` keeps what its entries keep, and so do the entries that it leaves.
  pub cleanup-keeps :
      (cs : List (CleanupFunc W E)) (w : W)
      → All Respects cs
      → I w
      → let (err, kept, v) = cleanup cs w in I v × All Respects kept
  cleanup-keeps cs w hs h =
      let (i, ks) = unwind-keeps (reverse cs) w (All-reverse Respects cs hs) h in
      subst (λ r. I r.2 × All Respects r.1) (sym (cleanup-unwind cs w))
        (i, All-reverse Respects (unwind (reverse cs) w).1 ks)

  -- An entry that establishes `I` where it succeeds.
  abbrev pub Establishes : CleanupFunc W E → Type 0
  Establishes f = (w : W) → (f w).0 ≡ none → I (f w).1

  Runs-keeps : {fs : List (CleanupFunc W E)} {w v : W} → Runs fs w v → All Respects fs → I w → I v
  Runs-keeps idle hs h = h
  Runs-keeps (ran {w} e rest) (k, ks) h = Runs-keeps rest ks (subst I (ap (λ r. r.1) e) (k w h))

  Runs-establishes :
      {fs : List (CleanupFunc W E)} {w v : W}
      → Runs fs w v
      → All Respects fs
      → Any Establishes fs
      → I v
  Runs-establishes idle hs s = absurd s
  Runs-establishes (ran {w} e rest) (k, ks) (inl s) =
      Runs-keeps rest ks (subst I (ap (λ r. r.1) e) (s w (ap (λ r. r.0) e)))
  Runs-establishes (ran e rest) (k, ks) (inr s) = Runs-establishes rest ks s

  -- If `Cleanup` returns nil, what one entry establishes and all keep holds.
  pub cleanup-establishes :
      (cs kept : List (CleanupFunc W E)) (w v : W)
      → All Respects cs
      → (I w) ⊎ (Any Establishes cs)
      → cleanup cs w ≡ (none, kept, v)
      → I v
  cleanup-establishes cs kept w v hs (inl h) e =
      Runs-keeps (cleanup-Runs cs kept w v e).0 (All-reverse Respects cs hs) h
  cleanup-establishes cs kept w v hs (inr s) e =
      Runs-establishes (cleanup-Runs cs kept w v e).0 (All-reverse Respects cs hs)
        (Any-reverse Establishes cs s)

  -- An entry that succeeds wherever `I` holds, and keeps it.
  abbrev pub Works : CleanupFunc W E → Type 0
  Works f = (w : W) → I w → ((f w).0 ≡ none) × I (f w).1

  -- Every entry is run once, the newest first, in the state that the one before left.
  abbrev pub run_all : List (CleanupFunc W E) → W → W
  run_all [] w = w
  run_all (f ∷ fs) w = (f (run_all fs w)).1

  -- The same, over the reversed list.
  run_down : List (CleanupFunc W E) → W → W
  run_down [] w = w
  run_down (f ∷ fs) w = run_down fs (f w).1

  run_down-append :
      (fs : List (CleanupFunc W E)) (f : CleanupFunc W E) (w : W)
      → run_down (fs ++ (f ∷ [])) w ≡ (f (run_down fs w)).1
  unfolding run_down
  run_down-append [] f w = refl
  run_down-append (g ∷ fs) f w = run_down-append fs f (g w).1

  run_down-reverse : (fs : List (CleanupFunc W E)) (w : W) → run_down (reverse fs) w ≡ run_all fs w
  run_down-reverse [] w = unfold run_down in refl
  run_down-reverse (f ∷ fs) w =
      ap (λ gs. run_down gs w) (reverse-cons f fs)
      ∙ run_down-append (reverse fs) f w
      ∙ ap (λ v. (f v).1) (run_down-reverse fs w)

  unwind-completes :
      (fs : List (CleanupFunc W E)) (w : W)
      → All Works fs
      → I w
      → let (err, kept, v) = unwind fs w in (err ≡ none) × (kept ≡ []) × (v ≡ run_down fs w) × I v
  unfolding run_down
  unwind-completes [] w hs h = unfold unwind in (refl, refl, refl, h)
  unwind-completes (f ∷ fs) w (k, ks) h =
      let (ok, next) = k w h in
      subst (λ r. (r.0 ≡ none) × (r.1 ≡ []) × (r.2 ≡ run_down fs (f w).1) × I r.2)
        (sym (unwind-none f fs w ok)) (unwind-completes fs (f w).1 ks next)

  -- If every entry succeeds where some condition holds, and keeps it, then a `Cleanup` that starts
  -- where it holds returns nil, leaves no entry, and has run every entry once, the newest first, each
  -- in the state that the one before left.
  pub cleanup-completes :
      (cs : List (CleanupFunc W E)) (w : W)
      → All Works cs
      → I w
      → let (err, kept, v) = cleanup cs w in (err ≡ none) × (kept ≡ []) × (v ≡ run_all cs w) × I v
  cleanup-completes cs w hs h =
      let (ok, empty, end, i) = unwind-completes (reverse cs) w (All-reverse Works cs hs) h in
      subst (λ r. (r.0 ≡ none) × (r.1 ≡ []) × (r.2 ≡ run_all cs w) × I r.2)
        (sym (cleanup-unwind cs w)) (ok, ap reverse empty, end ∙ run_down-reverse cs w, i)
