-- ===== src/Kueue/Spokes/Scan.antt =====
-- The loop over the spokes that `waitForSpokeExecution` and `recordSpokes` share.
use release_tests_ginkgo.Prelude.{ℕ, String, true, false, none}
use release_tests_ginkgo.Prelude.{List, [], ◌∷◌, string_eq, elem, ◌≡◌}
use release_tests_ginkgo.Prelude.{◌⊎◌, inl, inr, refl, arith, sym, ap, Option-cases}
use release_tests_ginkgo.Prelude.Texts.{ltb}
use release_tests_ginkgo.Prelude.Lists.{All, Any, length}
use release_tests_ginkgo.Poll.{Outcome, success, stopped, timed_out}
use release_tests_ginkgo.Kueue.Validation.{Cluster}
use release_tests_ginkgo.Kueue.Spokes.{Lookup, found, missing, broken, Listed, items, unlisted}
use release_tests_ginkgo.Kueue.Spokes.{WorkloadError, mark, scan_spokes, no_cluster}
use release_tests_ginkgo.Kueue.Spokes.{record_spokes, check_hub, Result, ok, after_poll}

pub elem-mark :
    (x name : String) (seen : List String) → elem x seen ≡ true → elem x (mark name seen) ≡ true
elem-mark x name seen h = ground arith

pub elem-mark_self : (name : String) (seen : List String) → elem name (mark name seen) ≡ true
elem-mark_self name seen = ground arith

-- One name in the set, so all that are in it are equal.
pub elem-single :
    (x y : String) (seen : List String)
    → ltb 1 (length seen) ≡ false
    → elem x seen ≡ true
    → elem y seen ≡ true
    → x ≡ y
elem-single x y [] h p q = cc
elem-single x y (n ∷ []) h p q = ground arith
elem-single x y (n ∷ m ∷ seen) h p q = absurd (ground arith)

-- The selected cluster is one of the list, and in the set.
abbrev pub Chosen : List Cluster → List String → Cluster → Type 0
Chosen spokes seen selected = (elem selected.name seen ≡ true) × Any (λ c. c ≡ selected) spokes

pub Lookup-cases :
    {A : Type 0} (l : Lookup A)
    → ((a : A) × (l ≡ found a)) ⊎ (l ≡ missing) ⊎ ((e : String) × (l ≡ broken e))
Lookup-cases (found a) = inl (a, refl)
Lookup-cases missing = inr (inl refl)
Lookup-cases (broken e) = inr (inr (e, refl))

pub Listed-cases : (l : Listed) → ((n : ℕ) × (l ≡ items n)) ⊎ ((e : String) × (l ≡ unlisted e))
Listed-cases (items n) = inl (n, refl)
Listed-cases (unlisted e) = inr (e, refl)

pub after_poll-ok :
    {S A : Type 0} (r : Outcome WorkloadError × S) (k : S → Result A) (a : A)
    → after_poll r k ≡ ok a
    → (r.0 ≡ success) × (k r.1 ≡ ok a)
after_poll-ok (success, s) k a h = (refl, h)
after_poll-ok (stopped e, s) k a h = absurd (ground arith)
after_poll-ok (timed_out, s) k a h = absurd (ground arith)

pub check_hub-ok :
    {A : Type 0} (l : Listed) (a b : A) → check_hub l a ≡ ok b → (l ≡ items 0) × (a ≡ b)
check_hub-ok (items n) a b h = ground arith
check_hub-ok (unlisted e) a b h = absurd (ground arith)

module _ {A : Type 0} where
  abbrev pub IsFound : Lookup A → Type 0
  IsFound l = (a : A) × (l ≡ found a)

  -- Every cluster that has the PipelineRun is in the set.
  abbrev pub Recorded : (Cluster → Lookup A) → List Cluster → List String → Type 0
  Recorded get spokes seen = All (λ c. IsFound (get c) → elem c.name seen ≡ true) spokes

  -- What a loop over the spokes that meets no error has done.
  pub record Scanned (get : Cluster → Lookup A) (spokes : List Cluster) (seen seen' : List String)
      (selected selected' : Cluster) : Type 0 where
    pub kept : (x : String) → elem x seen ≡ true → elem x seen' ≡ true
    pub recorded : Recorded get spokes seen'
    pub chosen : ((seen' ≡ seen) × (selected' ≡ selected)) ⊎ Chosen spokes seen' selected'

  pub Scanned-found :
      (get : Cluster → Lookup A) (c : Cluster) (spokes : List Cluster) (seen seen' : List String)
      (selected selected' : Cluster)
      → Scanned get spokes (mark c.name seen) seen' c selected'
      → Scanned get (c ∷ spokes) seen seen' selected selected'
  Scanned-found get c spokes seen seen' selected selected' r =
      let here : elem c.name seen' ≡ true = r.kept c.name (elem-mark_self c.name seen) in
      record {
        kept = λ x h. r.kept x (elem-mark x c.name seen h);
        recorded = ((λ f. here), r.recorded);
        chosen = elim r.chosen [
          | inl (_, same) ↦ inr (rw same here, inl (sym same))
          | inr (inside, there) ↦ inr (inside, inr there)
        ];
      }

  pub scan_spokes-Scanned :
      (get : Cluster → Lookup A) (spokes : List Cluster) (seen seen' : List String)
      (selected selected' : Cluster)
      → scan_spokes get spokes (seen, selected) ≡ (none, seen', selected')
      → Scanned get spokes seen seen' selected selected'
  unfolding scan_spokes
  scan_spokes-Scanned get [] seen seen' selected selected' h = record {
    kept = λ x m. rw (← ap (λ r. r.1) h) m;
    recorded = tt;
    chosen = inl (sym (ap (λ r. r.1) h), sym (ap (λ r. r.2) h));
  }
  scan_spokes-Scanned get (c ∷ spokes) seen seen' selected selected' h =
      elim (Lookup-cases (get c)) [
        | inl (a, there) ↦ Scanned-found get c spokes seen seen' selected selected' (
            scan_spokes-Scanned get spokes (mark c.name seen) seen' c selected'
              (rw (there, scan_spokes) at h))
        | inr (inl absent) ↦
            let r =
              scan_spokes-Scanned get spokes seen seen' selected selected'
                (rw (absent, scan_spokes) at h) in
            record {
              kept = r.kept;
              recorded = ((λ (a, there). absurd (ground arith)), r.recorded);
              chosen = elim r.chosen [
                | inl same ↦ inl same
                | inr (inside, there) ↦ inr (inside, inr there)
              ];
            }
        | inr (inr (e, bad)) ↦ absurd (ground arith)
      ]

  pub Recorded-mono :
      (f : Cluster → Lookup A) (cs : List Cluster) (seen seen' : List String)
      → ((x : String) → elem x seen ≡ true → elem x seen' ≡ true)
      → Recorded f cs seen
      → Recorded f cs seen'
  Recorded-mono f [] seen seen' more h = tt
  Recorded-mono f (c ∷ cs) seen seen' more (h, hs) =
      ((λ p. more c.name (h p)), Recorded-mono f cs seen seen' more hs)

  pub Recorded-only :
      (f : Cluster → Lookup A) (cs : List Cluster) (seen : List String) (name : String)
      → ltb 1 (length seen) ≡ false
      → elem name seen ≡ true
      → Recorded f cs seen
      → All (λ c. IsFound (f c) → c.name ≡ name) cs
  Recorded-only f [] seen name single inside h = tt
  Recorded-only f (c ∷ cs) seen name single inside (h, hs) = (
    (λ p. elem-single c.name name seen single (h p) inside),
    Recorded-only f cs seen name single inside hs,
  )

  -- What `recordSpokes` has done where it returns no error.
  pub record_spokes-Recorded :
      (get : Cluster → Lookup A) (spokes : List Cluster) (seen seen' : List String)
      → record_spokes get spokes seen ≡ (none, seen')
      → Recorded get spokes seen'
        × ((x : String) → elem x seen ≡ true → elem x seen' ≡ true)
        × (ltb 1 (length seen') ≡ false)
  unfolding record_spokes
  record_spokes-Recorded get spokes seen seen' h =
      let r = scan_spokes get spokes (seen, no_cluster) in
      elim (Option-cases r.0) [
        | inr (e, bad) ↦ absurd (ground arith)
        | inl clear ↦
            let same : r.1 ≡ seen' = ground arith in
            let s =
              scan_spokes-Scanned get spokes seen seen' no_cluster r.2
                (λ i. (clear i, same i, r.2)) in
            (s.recorded, s.kept, ground arith)
      ]
