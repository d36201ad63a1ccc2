-- ===== src/Poll/Bounded.antt =====
-- A poller that evaluates the condition a bounded number of times: what `Poller` assumes can hold.
use release_tests_ginkgo.Prelude.{ℕ, zero, suc, ◌≡◌, refl, true, false, none, some}
use release_tests_ginkgo.Poll.{Condition, Verdict, Outcome, success, stopped, timed_out}
use release_tests_ginkgo.Poll.{Polls, finish, fail, expire, again, Poller}

module _ {S E : Type 0} where
  -- The outcome of one evaluation, where the next ones would give `rest`.
  after : Verdict E × S → Outcome E × S → Outcome E × S
  after ((done, some e), t) rest = (stopped e, t)
  after ((true, none), t) rest = (success, t)
  after ((false, none), t) rest = rest

  unfoldable pub run : ℕ → Condition S E → S → Outcome E × S
  unfolding after
  run zero c s = after (c s) (timed_out, (c s).1)
  run (suc n) c s = let rest = run n c (c s).1 in after (c s) rest

  after-Polls :
      (c : Condition S E) (s : S) (r : Verdict E × S) (rest : Outcome E × S)
      → c s ≡ r
      → (r.0 ≡ (false, none) → Polls c s rest.0 rest.1)
      → Polls c s (after r rest).0 (after r rest).1
  unfolding after
  after-Polls c s ((true, none), t) rest e h = finish e
  after-Polls c s ((false, none), t) rest e h = h refl
  after-Polls c s ((true, some x), t) rest e h = fail e
  after-Polls c s ((false, some x), t) rest e h = fail e

  pub run-Polls : (n : ℕ) (c : Condition S E) (s : S) → Polls c s (run n c s).0 (run n c s).1
  unfolding run
  run-Polls zero c s =
      after-Polls c s (c s) (timed_out, (c s).1) refl (λ p. expire (λ i. (p i, (c s).1)))
  run-Polls (suc n) c s =
      after-Polls c s (c s) (run n c (c s).1) refl
        (λ p. again (λ i. (p i, (c s).1)) (run-Polls n c (c s).1))

  abbrev pub bounded : ℕ → Poller S E
  bounded n = record { poll = run n; poll_polls = run-Polls n }
