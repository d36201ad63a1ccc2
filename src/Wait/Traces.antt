-- ===== src/Wait/Traces.antt =====
-- What a `WaitFor…State` call has seen when it returns.
use mathlib.Core.Path.{subst}
use native.Mathlib.Nat.{le_refl}
use native.Mathlib.Decide.{dec_lt}
use release_tests_ginkgo.Prelude.{ℕ, suc, ◌≤◌, ◌<◌, String, ◌≡◌, ◌⊎◌, inl, inr, refl}
use release_tests_ginkgo.Prelude.{Bool, true, false, Option, none, some, arith, Option-cases}
use release_tests_ginkgo.Poll.{Verdict, success, stopped, Poller, Polls}
use release_tests_ginkgo.Poll.{Pending, start, step, Polls-success, Polls-stopped}
use release_tests_ginkgo.Wait.State.{
  ApiError, WaitError, api, Accessor, ConditionAccessorFn, succeed,
}
use release_tests_ginkgo.Wait.Verdicts.{Shows, succeed_iff}
use release_tests_ginkgo.Wait.Resources.{Answer, object, error, Cluster, with_context, observe}
use release_tests_ginkgo.Wait.Resources.{poll_immediate_with_context}
use release_tests_ginkgo.Wait.Resources.{wait_for_task_run_state, wait_for_pipeline_run_state}

Answer-cases :
    {A : Type 0} (a : Answer A) → ((r : A) × (a ≡ object r)) ⊎ ((x : ApiError) × (a ≡ error x))
Answer-cases (object r) = inl (r, refl)
Answer-cases (error x) = inr (x, refl)

module _ {A : Type 0} (done : ℕ → Option WaitError) (get : ℕ → Answer A)
    (in_state : A → Verdict WaitError) where
  -- The k-th evaluation judges an object, while the context is not done.
  abbrev pub Judged : ℕ → Verdict WaitError → Type 0
  Judged k v = (r : A) × (done k ≡ none) × (get k ≡ object r) × (in_state r ≡ v)

  -- The k-th evaluation ends with this error: the context's, that of the call, or the judgement's.
  abbrev pub Fails : ℕ → WaitError → Type 0
  Fails k e =
      (done k ≡ some e)
      ⊎ ((a : ApiError) × (get k ≡ error a) × (e ≡ api a))
      ⊎ ((r : A) × (get k ≡ object r) × ((in_state r).1 ≡ some e))

  -- The k-th evaluation asks for another one.
  abbrev pub Waits : ℕ → Type 0
  Waits k = Judged k (false, none)

  judge :
      (n t : ℕ) (v : Verdict WaitError)
      → v.1 ≡ none
      → with_context done (observe get in_state) n ≡ (v, t)
      → Judged n v × (t ≡ suc n)
  unfolding with_context observe
  judge n t v clear e = elim (Option-cases (done n)) [
    | inr (x, closed) ↦ ground arith
    | inl running ↦ elim (Answer-cases (get n)) [
      | inl (r, seen) ↦ ((r, running, seen, ground arith), ground arith)
      | inr (a, missing) ↦ ground arith
    ]
  ]

  judge_error :
      (n t : ℕ) (b : Bool) (e : WaitError)
      → with_context done (observe get in_state) n ≡ ((b, some e), t)
      → Fails n e
  unfolding with_context observe
  judge_error n t b e q = elim (Option-cases (done n)) [
    | inr (x, closed) ↦ inl (ground arith)
    | inl running ↦ elim (Answer-cases (get n)) [
      | inl (r, seen) ↦ inr (inr (r, seen, ground arith))
      | inr (a, missing) ↦ inr (inl (a, missing, ground arith))
    ]
  ]

  -- Every evaluation between `n` and `t` asked for another one.
  Pending-Waits :
      {n t : ℕ}
      → Pending (with_context done (observe get in_state)) n t
      → (n ≤ t) × ((j : ℕ) → n ≤ j → j < t → Waits j)
  Pending-Waits {n} start = (le_refl n, λ j above below. absurd (omega arith))
  Pending-Waits {n} (step {t} {u} p e) =
      let (before, waits) = Pending-Waits p in
      let (judged, next) = judge t u (false, none) refl e in
      (
        omega arith,
        λ j above below. elim (dec_lt j t) [
          | yes earlier ↦ waits j above earlier
          | no later ↦ let same : t ≡ j = omega arith in subst Waits same judged
        ],
      )

  -- The k-th evaluation, with those before it.
  abbrev pub Reached : ℕ → ℕ → Type 0
  Reached n k = (n ≤ k) × ((j : ℕ) → n ≤ j → j < k → Waits j)

  module _ (p : Poller ℕ WaitError) where
    -- A wait that succeeds ends with an evaluation at which the object satisfies `in_state`; all
    -- evaluations before it saw the object in a state to wait in.
    pub observe-success :
        (n : ℕ)
        → (poll_immediate_with_context p done (observe get in_state) n).0 ≡ success
        → (k : ℕ) × Judged k (true, none) × Reached n k
    unfolding poll_immediate_with_context
    observe-success n h =
        let c = with_context done (observe get in_state) in
        let ran = subst (λ o. Polls c n o (p.poll c n).1) h (p.poll_polls c n) in
        let (k, pending, decided) = Polls-success ran in
        (k, (judge k _ (true, none) refl decided).0, Pending-Waits pending)

    -- A wait that fails with an error ends with an evaluation that raised it.
    pub observe-stopped :
        (n : ℕ) (e : WaitError)
        → (poll_immediate_with_context p done (observe get in_state) n).0 ≡ stopped e
        → (k : ℕ) × Fails k e × Reached n k
    unfolding poll_immediate_with_context
    observe-stopped n e h =
        let c = with_context done (observe get in_state) in
        let ran = subst (λ o. Polls c n o (p.poll c n).1) h (p.poll_polls c n) in
        let (k, pending, b, decided) = Polls-stopped ran in
        (k, judge_error k _ b e decided, Pending-Waits pending)

-- `WaitForTaskRunState` with `Succeed` returns nil only after it has seen the TaskRun with a
-- Succeeded condition that is true, and no earlier evaluation had reached a verdict.
pub wait_for_task_run_state-succeed :
    (p : Poller ℕ WaitError) (c : Cluster) (name : String) (n : ℕ)
    → (wait_for_task_run_state p c name (succeed name) n).0 ≡ success
    → (k : ℕ) × (r : Accessor) × (c.task_run name k ≡ object r)
      × Shows r (λ d. d.status ≡ "True")
      × Reached c.context_error (c.task_run name) (succeed name) n k
unfolding wait_for_task_run_state
wait_for_task_run_state-succeed p c name n h =
    let (k, (r, open', seen, judged), reached) =
      observe-success c.context_error (c.task_run name) (succeed name) p n h in
    (k, r, seen, (succeed_iff name r).0 judged, reached)

-- `WaitForPipelineRunState` returns an error of its own condition, of the API or of the context,
-- and the evaluation that raised it is the first that reached a verdict.
pub wait_for_pipeline_run_state-stopped :
    (p : Poller ℕ WaitError) (c : Cluster) (name : String) (in_state : ConditionAccessorFn) (n : ℕ)
    (e : WaitError)
    → (wait_for_pipeline_run_state p c name in_state n).0 ≡ stopped e
    → (k : ℕ) × Fails c.context_error (c.pipeline_run name) in_state k e
      × Reached c.context_error (c.pipeline_run name) in_state n k
unfolding wait_for_pipeline_run_state
wait_for_pipeline_run_state-stopped p c name in_state n e h =
    observe-stopped c.context_error (c.pipeline_run name) in_state p n e h
