-- ===== src/Kueue/Spokes.antt =====
-- Which spoke executes the PipelineRun: `waitForSpokeExecution` and `recordSpokes` of
-- pkg/tektonkueue/workload.go.
pub mod Scan
pub mod Exclusive
mod Tests
use release_tests_ginkgo.Prelude.{
  ℕ, suc, String, Bool, true, false, Option, none, some, List, [], ◌∷◌,
}
use release_tests_ginkgo.Prelude.{◌==◌, string_eq, if◌then◌else◌, elem}
use release_tests_ginkgo.Prelude.Texts.{ltb, null}
use release_tests_ginkgo.Prelude.Lists.{length}
use release_tests_ginkgo.Poll.{Verdict, Condition, Outcome, success, stopped, timed_out, Poller}
use release_tests_ginkgo.Kueue.Validation.{Cluster}

-- The answer of a `Get`: the object, "not found", or another error.
pub data Lookup (A : Type 0) : Type 0 where
  found : A → Lookup A
  missing : Lookup A
  broken : String → Lookup A

-- The number of items that a `List` call returns, or its error.
pub data Listed : Type 0 where
  items : ℕ → Listed
  unlisted : String → Listed

pub data WorkloadError : Type 0 where
  api : String → WorkloadError
  multiple_spokes : WorkloadError
  expired : WorkloadError
  hub_task_runs : WorkloadError
  worker_failed : WorkloadError
  hub_failed : WorkloadError

-- `seen[name] = true`
abbrev pub mark : String → List String → List String
mark name seen = if elem name seen then seen else name ∷ seen

-- The variables that the closure captures: `seen`, `selected`, and the number of the evaluation,
-- which tells the answers of the clusters apart.
pub record Search : Type 0 where
  pub round : ℕ
  pub seen : List String
  pub selected : Cluster

module _ {A : Type 0} where
  -- The loop over `e.Spokes`.
  unfoldable pub scan_spokes :
      (Cluster → Lookup A)
      → List Cluster
      → List String × Cluster
      → Option String × List String × Cluster
  scan_spokes get [] (seen, selected) = (none, seen, selected)
  scan_spokes get (spoke ∷ spokes) (seen, selected) = elim (get spoke) [
    | found _ ↦ scan_spokes get spokes (mark spoke.name seen, spoke)
    | missing ↦ scan_spokes get spokes (seen, selected)
    | broken e ↦ (some e, seen, selected)
  ]

-- The cluster that a Go variable holds before it is set.
abbrev pub no_cluster : Cluster
no_cluster = record { name = ""; clients = none }

-- `len(taskRuns.Items) > 0, nil`
abbrev pub some_listed : Listed → Verdict WorkloadError
some_listed (items n) = (ltb 0 n, none)
some_listed (unlisted e) = (false, some (api e))

module _ {A : Type 0} (get : ℕ → Cluster → Lookup A) (task_runs : ℕ → Cluster → Listed) where
  -- What follows the loop in the closure.
  unfoldable pub judge_spokes : ℕ → Option String × List String × Cluster → Verdict WorkloadError
  judge_spokes round (some e, seen, selected) = (false, some (api e))
  judge_spokes round (none, seen, selected) =
      if ltb 1 (length seen)
      then (false, some multiple_spokes)
      else if null seen
      then (false, none)
      else some_listed (task_runs round selected)

  unfoldable pub spoke_condition : List Cluster → Condition Search WorkloadError
  spoke_condition spokes s =
      let scanned = scan_spokes (get s.round) spokes (s.seen, s.selected) in
      (
        judge_spokes s.round scanned,
        record { round = suc s.round; seen = scanned.1; selected = scanned.2 },
      )

pub data Result (A : Type 0) : Type 0 where
  ok : A → Result A
  err : WorkloadError → Result A

-- The hub must have no TaskRun of its own.
abbrev pub check_hub : {A : Type 0} → Listed → A → Result A
check_hub (unlisted e) a = err (api e)
check_hub (items n) a = if ltb 0 n then err hub_task_runs else ok a

abbrev pub after_poll : {S A : Type 0} → Outcome WorkloadError × S → (S → Result A) → Result A
after_poll (success, s) k = k s
after_poll (stopped e, s) k = err e
after_poll (timed_out, s) k = err expired

unfoldable pub wait_for_spoke_execution :
    {A : Type 0}
    → Poller Search WorkloadError
    → (ℕ → Cluster → Lookup A)
    → (ℕ → Cluster → Listed)
    → Listed
    → List Cluster
    → Result Cluster
wait_for_spoke_execution p get task_runs hub_list spokes =
    after_poll
      (p.poll (spoke_condition get task_runs spokes)
        (record { round = 0; seen = []; selected = no_cluster }))
      λ s. check_hub hub_list s.selected

-- `recordSpokes`: the spokes that have the PipelineRun are added to `seen`.
unfoldable pub record_spokes :
    {A : Type 0}
    → (Cluster → Lookup A)
    → List Cluster
    → List String
    → Option WorkloadError × List String
record_spokes get spokes seen =
    let (error, seen', _) = scan_spokes get spokes (seen, no_cluster) in
    elim error [
      | some e ↦ (some (api e), seen')
      | none ↦ (if ltb 1 (length seen') then some multiple_spokes else none, seen')
    ]
