-- ===== src/Kueue/Completion/Success.antt =====
-- A PipelineRun that `waitForCompletion` accepts has succeeded on the hub and on its spoke, and ran
-- nowhere else.
use mathlib.Core.Path.{subst}
use native.Mathlib.Decide.{dec_lt}
use release_tests_ginkgo.Prelude.{ℕ, suc, ◌<◌, ◌≤◌, String, Bool, true, false, Option, none, some}
use release_tests_ginkgo.Prelude.{List, [], ◌∷◌, string_eq, elem, ◌≡◌, ◌≢◌, ◌||◌, ◌&&◌, not}
use release_tests_ginkgo.Prelude.{◌⊎◌, inl, inr, refl, arith, ◌∙◌, ap, Option-cases, Bool-cases}
use release_tests_ginkgo.Prelude.Texts.{Text, contains}
use release_tests_ginkgo.Prelude.Lists.{All}
use release_tests_ginkgo.Poll.{Poller, Polls, Polls-success, Pending-keeps}
use release_tests_ginkgo.Kueue.Validation.{Cluster}
use release_tests_ginkgo.Kueue.Spokes.{Lookup, found, missing, broken, items, WorkloadError}
use release_tests_ginkgo.Kueue.Spokes.{record_spokes, Result, ok, err, after_poll}
use release_tests_ginkgo.Kueue.Spokes.Scan.{after_poll-ok, check_hub-ok, IsFound, Recorded}
use release_tests_ginkgo.Kueue.Spokes.Scan.{Recorded-mono, Recorded-only, record_spokes-Recorded}
use release_tests_ginkgo.Kueue.Completion.{workload_log_marker, Run, pipeline_run_state, Answers}
use release_tests_ginkgo.Kueue.Completion.{
  pipeline_run_logs, Progress, capture, judge_hub, judge_worker,
}
use release_tests_ginkgo.Kueue.Completion.{
  completion_condition, Aftermath, wait_for_completion, ◌>>=◌, Watch,
}
use release_tests_ginkgo.Kueue.Completion.{wait_for_workload_finished, wait_for_worker_cleanup}

-- The PipelineRun is there, with a Succeeded condition that is true.
abbrev pub HasSucceeded : Lookup Run → Type 0
HasSucceeded l = (run : Run) × (l ≡ found run) × ((pipeline_run_state run).succeeded ≡ true)

capture-marked :
    (candidate : Option Text) (logs : Text)
    → (logs ≡ []) ⊎ (contains logs workload_log_marker ≡ true)
    → (capture candidate logs ≡ []) ⊎ (contains (capture candidate logs) workload_log_marker ≡ true)
unfolding capture
capture-marked none logs h = h
capture-marked (some candidate) [] h = elim (Bool-cases (contains candidate workload_log_marker)) [
  | inl marked ↦ inr (rw marked marked)
  | inr unmarked ↦ inl (rw unmarked refl)
]
capture-marked (some candidate) (x ∷ logs) h = h

judge_hub-accepts :
    (hub : Lookup Run) (worker : Bool) (logs : Text)
    → judge_hub hub worker logs ≡ (true, none)
    → HasSucceeded hub × (worker ≡ true) × (logs ≢ [])
unfolding judge_hub
judge_hub-accepts missing worker logs h = absurd (ground arith)
judge_hub-accepts (broken e) worker logs h = absurd (ground arith)
judge_hub-accepts (found run) worker logs h =
    ((run, refl, ground arith), ground arith, ground arith)

-- What the worker's part of an evaluation without an error has seen.
judge_worker-step :
    (worker_run hub : Lookup Run) (worker b worker' : Bool) (logs : Text)
    → judge_worker worker_run hub worker logs ≡ ((b, none), worker')
    → (judge_hub hub worker' logs ≡ (b, none))
      × (worker' ≡ true → (worker ≡ true) ⊎ HasSucceeded worker_run)
unfolding judge_worker
judge_worker-step missing hub worker b worker' logs h = (
  subst (λ w. judge_hub hub w logs ≡ (b, none)) (ap (λ r. r.1) h) (ap (λ r. r.0) h),
  λ e. inl (ap (λ r. r.1) h ∙ e),
)
judge_worker-step (broken e) hub worker b worker' logs h = absurd (ground arith)
judge_worker-step (found run) hub worker b worker' logs h =
    let state = pipeline_run_state run in
    elim (Bool-cases (state.terminal && not state.succeeded)) [
      | inl stopped ↦ absurd (ground arith)
      | inr open' ↦
          let now : worker || state.succeeded ≡ worker' = ground arith in
          (
            ground (arith, ap (λ w. judge_hub hub w logs) now),
            λ e. elim (Bool-cases state.succeeded) [
              | inl done ↦ inr (run, refl, done)
              | inr more ↦ inl (ground arith)
            ],
          )
    ]

-- If a chain returns, its first step returned a value on which the rest returns.
returned :
    {A B : Type 0} {b : B} (rest : A → Result B) (first : Result A)
    → (first >>= rest) ≡ ok b
    → (a : A) × (rest a ≡ ok b) × (first ≡ ok a)
returned rest (err e) h = absurd (ground arith)
returned rest (ok a) h = (a, h, refl)

module _ (answers : Answers) (spokes : List Cluster) (name : String) where
  -- What the evaluations so far have shown.
  pub record Shown (s : Progress) : Type 0 where
    pub named : elem name s.seen ≡ true
    pub all : (j : ℕ) → j < s.round → Recorded (answers.spoke_run j) spokes s.seen
    pub marked : (s.logs ≡ []) ⊎ (contains s.logs workload_log_marker ≡ true)
    pub worked :
        s.worker_succeeded ≡ true → (j : ℕ) × (j < s.round) × HasSucceeded (answers.worker_run j)

  -- An evaluation without an error: its recordSpokes, its logs and its verdict.
  abbrev Evaluated : Progress → Progress → Bool → Type 0
  Evaluated s u b =
      (record_spokes (answers.spoke_run s.round) spokes s.seen ≡ (none, u.seen))
      × (u.round ≡ suc s.round)
      × (u.logs
          ≡ capture (pipeline_run_logs (answers.pods s.round) (answers.pod_logs s.round)) s.logs)
      × (judge_worker (answers.worker_run s.round) (answers.hub_run s.round) s.worker_succeeded
            u.logs
          ≡ ((b, none), u.worker_succeeded))

  completion_condition-Evaluated :
      (s u : Progress) (b : Bool)
      → completion_condition answers spokes s ≡ ((b, none), u)
      → Evaluated s u b
  unfolding completion_condition
  completion_condition-Evaluated s u b h =
      let r = record_spokes (answers.spoke_run s.round) spokes s.seen in
      elim (Option-cases r.0) [
        | inr (e, bad) ↦ absurd (ground arith)
        | inl clear ↦ (ground arith, ground arith, ground arith, ground arith)
      ]

  Shown-step : (s u : Progress) (b : Bool) → Evaluated s u b → Shown s → Shown u
  Shown-step s u b (recorded, counted, captured, judged) v =
      let (now, kept, _) =
        record_spokes-Recorded (answers.spoke_run s.round) spokes s.seen u.seen recorded in
      let (_, worked) = judge_worker-step _ _ _ b u.worker_succeeded u.logs judged in
      record {
        named = kept name v.named;
        all = λ j below. elim (dec_lt j s.round) [
          | yes earlier ↦
              Recorded-mono (answers.spoke_run j) spokes s.seen u.seen kept (v.all j earlier)
          | no later ↦
              let same : s.round ≡ j = omega arith in
              subst (λ k. Recorded (answers.spoke_run k) spokes u.seen) same now
        ];
        marked = rw captured (capture-marked _ s.logs v.marked);
        worked = λ e. elim (worked e) [
          | inr done ↦ (s.round, omega arith, done)
          | inl before ↦ let (j, below, done) = v.worked before in (j, omega arith, done)
        ];
      }

  -- What has been seen when the logs are returned.
  abbrev pub Completed : Text → Type 0
  Completed logs =
      (contains logs workload_log_marker ≡ true)
      × (k : ℕ) × HasSucceeded (answers.hub_run k)
      × ((j : ℕ) × (j ≤ k) × HasSucceeded (answers.worker_run j))
      × ((j : ℕ) → j ≤ k → All (λ c. IsFound (answers.spoke_run j c) → c.name ≡ name) spokes)

  success-Completed :
      (t u : Progress)
      → Shown t
      → completion_condition answers spokes t ≡ ((true, none), u)
      → Completed u.logs
  success-Completed t u v h =
      let e = completion_condition-Evaluated t u true h in
      let w = Shown-step t u true e v in
      let (recorded, counted, captured, judged) = e in
      let (_, _, single) =
        record_spokes-Recorded (answers.spoke_run t.round) spokes t.seen u.seen recorded in
      let (hub, _) = judge_worker-step _ _ _ true u.worker_succeeded u.logs judged in
      let (done, worker, logged) = judge_hub-accepts _ u.worker_succeeded u.logs hub in
      let (j, below, worked) = w.worked worker in
      (
        elim w.marked [ inl empty ↦ absurd (logged empty) | inr marked ↦ marked ],
        t.round,
        done,
        (j, omega arith, worked),
        λ i within.
            Recorded-only (answers.spoke_run i) spokes u.seen name single w.named
              (w.all i (omega arith)),
      )

-- Logs that `waitForCompletion` returns contain the marker of the workload. When its poll ended the
-- hub's PipelineRun had succeeded, the spoke's had succeeded then or at an earlier evaluation, and
-- no evaluation found the PipelineRun on a spoke of another name. Afterwards the hub listed no
-- TaskRun of it.
pub wait_for_completion-Completed :
    (p : Poller Progress WorkloadError) (q : Poller Watch WorkloadError) (answers : Answers)
    (after : Aftermath) (spokes : List Cluster) (spoke : Cluster) (logs : Text)
    → wait_for_completion p q answers after spokes spoke ≡ ok logs
    → Completed answers spokes spoke.name logs × (after.hub_task_runs ≡ items 0)
unfolding wait_for_completion
wait_for_completion-Completed p q answers after spokes spoke logs h =
    let c = completion_condition answers spokes in
    let s₀ : Progress = record {
      round = 0;
      seen = spoke.name ∷ [];
      logs = [];
      worker_succeeded = false;
    } in
    let ran = p.poll c s₀ in
    let (done, h₁, polled) = returned _ (after_poll ran ok) h in
    let (seen, h₂, _) = returned _ (wait_for_workload_finished after spokes q done.seen) h₁ in
    let (seen', h₃, _) = returned _ (wait_for_worker_cleanup after spokes q seen) h₂ in
    let (idle, same) = check_hub-ok after.hub_task_runs done.logs logs h₃ in
    let (succeeded, ended) = after_poll-ok ran ok done polled in
    let steps = subst (λ o. Polls c s₀ o ran.1) succeeded (p.poll_polls c s₀) in
    let (t, pending, decided) = Polls-success steps in
    let start : Shown answers spokes spoke.name s₀ = record {
      named = ground arith;
      all = λ j below. absurd (omega arith);
      marked = inl refl;
      worked = λ e. absurd (ground arith);
    } in
    let kept =
      Pending-keeps (Shown answers spokes spoke.name)
        (λ s u e v.
          Shown-step answers spokes spoke.name s u false
            (completion_condition-Evaluated answers spokes spoke.name s u false e) v)
        pending start in
    let final : ran.1 ≡ done = ground arith in
    (
      subst (Completed answers spokes spoke.name) (ap (λ (s : Progress). s.logs) final ∙ same)
          (success-Completed answers spokes spoke.name t ran.1 kept decided),
      idle,
    )
