-- ===== src/Kueue/Spokes/Exclusive.antt =====
-- A PipelineRun that `waitForSpokeExecution` accepts was never seen on two spokes.
use mathlib.Core.Path.{subst}
use native.Mathlib.Decide.{dec_lt}
use release_tests_ginkgo.Prelude.{ℕ, suc, ◌<◌, ◌≤◌, String, Bool, true, false, Option, none, some}
use release_tests_ginkgo.Prelude.{List, [], string_eq, ◌≡◌, ◌≢◌}
use release_tests_ginkgo.Prelude.{◌⊎◌, inl, inr, refl, arith, sym, ◌∙◌, ap}
use release_tests_ginkgo.Prelude.Texts.{ltb}
use release_tests_ginkgo.Prelude.Lists.{All, Any, length}
use release_tests_ginkgo.Poll.{Verdict, Poller}
use release_tests_ginkgo.Poll.{Polls, Polls-success, Pending-keeps}
use release_tests_ginkgo.Kueue.Validation.{Cluster}
use release_tests_ginkgo.Kueue.Spokes.{Lookup, Listed, items}
use release_tests_ginkgo.Kueue.Spokes.{WorkloadError, Search, scan_spokes, no_cluster}
use release_tests_ginkgo.Kueue.Spokes.{check_hub, judge_spokes, spoke_condition, ok}
use release_tests_ginkgo.Kueue.Spokes.{wait_for_spoke_execution}
use release_tests_ginkgo.Kueue.Spokes.Scan.{
  Chosen, Listed-cases, after_poll-ok, check_hub-ok, IsFound, Recorded, scan_spokes-Scanned,
  Recorded-mono, Recorded-only,
}

module _ {A : Type 0} where
  module _ (get : ℕ → Cluster → Lookup A) (task_runs : ℕ → Cluster → Listed)
      (spokes : List Cluster) where
    -- In every evaluation so far, each spoke that had the PipelineRun went into the set.
    record Tracks (s : Search) : Type 0 where
      all : (j : ℕ) → j < s.round → Recorded (get j) spokes s.seen
      chosen : (s.seen ≡ []) ⊎ Chosen spokes s.seen s.selected

    -- Unless the scan fails, the evaluation keeps track.
    Tracks-step :
        (s : Search) (seen' : List String) (selected' : Cluster)
        → scan_spokes (get s.round) spokes (s.seen, s.selected) ≡ (none, seen', selected')
        → Tracks s
        → Tracks (record { round = suc s.round; seen = seen'; selected = selected' })
    Tracks-step s seen' selected' e t =
        let r = scan_spokes-Scanned (get s.round) spokes s.seen seen' s.selected selected' e in
        record {
          all = λ j below. elim (dec_lt j s.round) [
            | yes earlier ↦ Recorded-mono (get j) spokes s.seen seen' r.kept (t.all j earlier)
            | no later ↦
                let now : s.round ≡ j = omega arith in
                subst (λ k. Recorded (get k) spokes seen') now r.recorded
          ];
          chosen = elim r.chosen [
            | inr inside ↦ inr inside
            | inl (same, still) ↦ elim t.chosen [
              | inl empty ↦ inl (same ∙ empty)
              | inr inside ↦ inr (rw (same, still) inside)
            ]
          ];
        }

    abbrev scanned_at : Search → Option String × List String × Cluster
    scanned_at s = scan_spokes (get s.round) spokes (s.seen, s.selected)

    abbrev next : Search → Search
    next s = record { round = suc s.round; seen = (scanned_at s).1; selected = (scanned_at s).2 }

    spoke_condition-parts :
        (s u : Search) (v : Verdict WorkloadError)
        → spoke_condition get task_runs spokes s ≡ (v, u)
        → (judge_spokes get task_runs s.round (scanned_at s) ≡ v) × (u ≡ next s)
    unfolding spoke_condition
    spoke_condition-parts s u v h = (ap (λ r. r.0) h, sym (ap (λ r. r.1) h))

    -- A verdict without an error comes from a scan without one.
    judge_spokes-clear :
        (n : ℕ) (o : Option String) (l : List String) (c : Cluster) (b : Bool)
        → judge_spokes get task_runs n (o, l, c) ≡ (b, none)
        → o ≡ none
    unfolding judge_spokes
    judge_spokes-clear n none l c b h = refl
    judge_spokes-clear n (some e) l c b h = absurd (ground arith)

    Tracks-clear :
        (s u : Search) (b : Bool)
        → spoke_condition get task_runs spokes s ≡ ((b, none), u)
        → Tracks s
        → Tracks u
    Tracks-clear s u b h t =
        let (judged, same) = spoke_condition-parts s u (b, none) h in
        let clear =
          judge_spokes-clear s.round (scanned_at s).0 (scanned_at s).1 (scanned_at s).2 b judged in
        rw same (
          Tracks-step s (scanned_at s).1 (scanned_at s).2
            (λ i. (clear i, (scanned_at s).1, (scanned_at s).2)) t)

    judge_spokes-accepts :
        (n : ℕ) (l : List String) (c : Cluster)
        → judge_spokes get task_runs n (none, l, c) ≡ (true, none)
        → (ltb 1 (length l) ≡ false) × (l ≢ []) × (m : ℕ) × (task_runs n c ≡ items m) × (0 < m)
    unfolding judge_spokes
    judge_spokes-accepts n l c h = elim (Listed-cases (task_runs n c)) [
      | inl (m, listed) ↦ (ground arith, ground arith, m, listed, ground arith)
      | inr (e, bad) ↦ absurd (ground arith)
    ]

    -- The names of the spokes that had the PipelineRun in this evaluation are all this one.
    abbrev pub Only : String → ℕ → Type 0
    Only name j = All (λ c. IsFound (get j c) → c.name ≡ name) spokes

    -- What has been seen when the spoke is returned.
    abbrev pub Executes : Cluster → Type 0
    Executes spoke =
        Any (λ c. c ≡ spoke) spokes
        × (k : ℕ) × ((j : ℕ) → j ≤ k → Only spoke.name j)
        × (m : ℕ) × (task_runs k spoke ≡ items m)
        × (0 < m)

    success-Executes :
        (t u : Search)
        → Tracks t
        → spoke_condition get task_runs spokes t ≡ ((true, none), u)
        → Executes u.selected
    success-Executes t u kept h =
        let (judged, same) = spoke_condition-parts t u (true, none) h in
        let scanned = scanned_at t in
        let clear = judge_spokes-clear t.round scanned.0 scanned.1 scanned.2 true judged in
        let judged' : judge_spokes get task_runs t.round (none, scanned.1, scanned.2)
            ≡ (true, none) =
          subst (λ o. judge_spokes get task_runs t.round (o, scanned.1, scanned.2) ≡ (true, none))
            clear judged in
        let (single, inhabited, m, listed, positive) =
          judge_spokes-accepts t.round scanned.1 scanned.2 judged' in
        let after = Tracks-step t scanned.1 scanned.2 (λ i. (clear i, scanned.1, scanned.2)) kept in
        let done : Executes scanned.2 = elim after.chosen [
          | inl empty ↦ absurd (inhabited empty)
          | inr (inside, there) ↦ (
            there,
            t.round,
            (λ j below.
                Recorded-only (get j) spokes scanned.1 scanned.2.name single inside
                  (after.all j (omega arith))),
            m,
            listed,
            positive,
          )
        ] in
        subst Executes (ap (λ (v : Search). v.selected) (sym same)) done

-- A spoke that `waitForSpokeExecution` returns is one of the environment's. In every evaluation,
-- the last one included, each spoke that had the PipelineRun bears its name; in the last one it
-- listed a TaskRun of the PipelineRun, and the hub listed none afterwards.
pub wait_for_spoke_execution-Executes :
    {A : Type 0} (p : Poller Search WorkloadError) (get : ℕ → Cluster → Lookup A)
    (task_runs : ℕ → Cluster → Listed) (hub_list : Listed) (spokes : List Cluster) (spoke : Cluster)
    → wait_for_spoke_execution p get task_runs hub_list spokes ≡ ok spoke
    → Executes get task_runs spokes spoke × (hub_list ≡ items 0)
unfolding wait_for_spoke_execution
wait_for_spoke_execution-Executes p get task_runs hub_list spokes spoke h =
    let c = spoke_condition get task_runs spokes in
    let s₀ : Search = record { round = 0; seen = []; selected = no_cluster } in
    let ran = p.poll c s₀ in
    let (succeeded, checked) = after_poll-ok ran (λ s. check_hub hub_list s.selected) spoke h in
    let (idle, same) = check_hub-ok hub_list ran.1.selected spoke checked in
    let polled = subst (λ o. Polls c s₀ o ran.1) succeeded (p.poll_polls c s₀) in
    let (t, pending, decided) = Polls-success polled in
    let start : Tracks get task_runs spokes s₀ = record {
      all = λ j below. absurd (omega arith);
      chosen = inl refl;
    } in
    let kept =
      Pending-keeps (Tracks get task_runs spokes)
        (λ s u e. Tracks-clear get task_runs spokes s u false e) pending start in
    (
      subst (Executes get task_runs spokes) same
          (success-Executes get task_runs spokes t ran.1 kept decided),
      idle,
    )
