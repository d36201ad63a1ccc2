-- ===== src/Kueue/Completion/Gone.antt =====
-- `waitForExecutionObjectsGone` of pkg/tektonkueue/workload.go, around its closure, and what it
-- accepts.
use release_tests_ginkgo.Prelude.{String, true, false, none, sym, ap, ◌∙◌, List, [], ◌∷◌, ◌≡◌}
use release_tests_ginkgo.Prelude.{◌≢◌, ◌↔◌, refl, arith, string_eq}
use release_tests_ginkgo.Prelude.Lists.{All}
use mathlib.Core.Path.{subst}
use release_tests_ginkgo.Poll.{
  Condition, Outcome, success, Poller, Polls, Pending, start, step, Polls-success, Polls-at_once,
}
use release_tests_ginkgo.Kueue.Validation.{Cluster}
use release_tests_ginkgo.Kueue.Frameworks.{Item}
use release_tests_ginkgo.Kueue.Spokes.{Lookup, missing, WorkloadError}
use release_tests_ginkgo.Kueue.Completion.{Run, spokes_gone, execution_objects_gone}

-- The Workload is gone, if its name is known.
abbrev pub WorkloadGone : String → (String → Lookup (List Item)) → Type 0
WorkloadGone name get = name ≢ "" → get name ≡ missing

module _ (name : String) (run : Cluster → Lookup Run)
    (workload : Cluster → String → Lookup (List Item)) where
  abbrev pub SpokeGone : Cluster → Type 0
  SpokeGone c = (run c ≡ missing) × WorkloadGone name (workload c)

  spokes_gone_iff :
      (spokes : List Cluster)
      → (spokes_gone name run workload spokes ≡ (true, none)) ↔ All SpokeGone spokes
  unfolding spokes_gone
  spokes_gone_iff [] = (λ h. tt, λ h. refl)
  spokes_gone_iff (c ∷ spokes) = ground (arith, spokes_gone_iff spokes)

  -- An evaluation of the closure returns true exactly when the PipelineRun and, if its name is known,
  -- the Workload are found neither on the hub nor on any spoke.
  pub execution_objects_gone_iff :
      (hub_run : Lookup Run) (hub_workload : String → Lookup (List Item)) (spokes : List Cluster)
      → (execution_objects_gone name run workload hub_run hub_workload spokes ≡ (true, none))
        ↔ ((hub_run ≡ missing) × WorkloadGone name hub_workload × All SpokeGone spokes)
  unfolding execution_objects_gone
  execution_objects_gone_iff hub_run hub_workload spokes = ground (arith, spokes_gone_iff spokes)

-- The answers of the clusters, and what happens between two evaluations.
pub record Objects (W : Type 0) : Type 0 where
  pub hub_run : W → Lookup Run
  pub hub_workload : W → String → Lookup (List Item)
  pub spoke_run : W → Cluster → Lookup Run
  pub spoke_workload : W → Cluster → String → Lookup (List Item)
  pub pause : W → W

module _ {W : Type 0} (answers : Objects W) (poller : Poller W WorkloadError) (name : String)
    (spokes : List Cluster) where
  unfoldable pub gone_condition : Condition W WorkloadError
  gone_condition w = (
    execution_objects_gone name (answers.spoke_run w) (answers.spoke_workload w) (answers.hub_run w)
        (answers.hub_workload w) spokes,
    answers.pause w,
  )

  unfoldable pub wait_for_execution_objects_gone : W → Outcome WorkloadError × W
  wait_for_execution_objects_gone = poller.poll gone_condition

  -- The PipelineRun and, if its name is known, the Workload are on no cluster.
  abbrev pub AllGone : W → Type 0
  AllGone w =
      (answers.hub_run w ≡ missing)
      × WorkloadGone name (answers.hub_workload w)
      × All (SpokeGone name (answers.spoke_run w) (answers.spoke_workload w)) spokes

  gone_condition-AllGone : (w : W) → ((gone_condition w).0 ≡ (true, none)) ↔ AllGone w
  unfolding gone_condition
  gone_condition-AllGone w =
      execution_objects_gone_iff name (answers.spoke_run w) (answers.spoke_workload w)
        (answers.hub_run w) (answers.hub_workload w) spokes

  still : (u v : W) → Pending gone_condition u v → (gone_condition u).0 ≡ (true, none) → u ≡ v
  still u v start h = refl
  still u v (step {t} p e) h =
      let same = still u t p h in
      let now : (gone_condition t).0 ≡ (true, none) =
        subst (λ x. (gone_condition x).0 ≡ (true, none)) same h in
      let both : true ≡ false = sym (ap (λ r. r.0) now) ∙ ap (λ r. r.0.0) e in absurd (ground arith)

  -- If `waitForExecutionObjectsGone` returns nil, it ended in the first state of its poll in which the
  -- PipelineRun and, if its name is known, the Workload are found neither on the hub nor on any spoke;
  -- in each state before, one of them was found. If they are found nowhere when it starts, it returns
  -- nil.
  pub wait_for_execution_objects_gone-AllGone :
      (w : W)
      → ((wait_for_execution_objects_gone w).0 ≡ success
          → (v : W) × Pending gone_condition w v
            × AllGone v
            × (answers.pause v ≡ (wait_for_execution_objects_gone w).1))
        × ((u v : W) → Pending gone_condition u v → AllGone u → u ≡ v)
        × (AllGone w → (wait_for_execution_objects_gone w).0 ≡ success)
  unfolding wait_for_execution_objects_gone gone_condition
  wait_for_execution_objects_gone-AllGone w = (
    λ h.
        let run =
          subst (λ o. Polls gone_condition w o (poller.poll gone_condition w).1) h
            (poller.poll_polls gone_condition w) in
        let (v, reached, verdict) = Polls-success run in
        (
          v,
          reached,
          (gone_condition-AllGone v).0 (ap (λ r. r.0) verdict),
          unfold gone_condition in ap (λ r. r.1) verdict,
        ),
    λ u v reached gone. still u v reached ((gone_condition-AllGone u).1 gone),
    λ gone.
        let first : gone_condition w ≡ ((true, none), answers.pause w) =
          λ i. ((gone_condition-AllGone w).1 gone i, (gone_condition w).1) in
        Polls-at_once (poller.poll_polls gone_condition w) first,
  )
