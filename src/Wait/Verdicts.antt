-- ===== src/Wait/Verdicts.antt =====
-- How the condition functions of pkg/wait/wait.go relate to one another and to the status.
use release_tests_ginkgo.Prelude.{String, ◌≡◌, ◌↔◌, inl, inr, true, false, none, some, arith}
use release_tests_ginkgo.Prelude.{string_eq, Option-cases}
use release_tests_ginkgo.Prelude.Texts.{Text, contains}
use release_tests_ginkgo.Wait.State.{Condition, has_failed, has_succeeded}
use release_tests_ginkgo.Wait.State.{already_finished}
use release_tests_ginkgo.Wait.State.{Accessor, condition_succeeded}
use release_tests_ginkgo.Wait.State.{condition_false-ne-true}
use release_tests_ginkgo.Wait.State.{
  succeed, failed, failed_with_reason, failed_with_message, running,
}

-- On every status, `Succeed` accepts what `Failed` reports as a success, `Failed` accepts what
-- `Succeed` reports as a failure, and the two ask for another evaluation together.
pub succeed-failed :
    (name : String) (ca : Accessor)
    → ((succeed name ca ≡ (true, none)) ↔ (failed name ca ≡ (true, some (has_succeeded name))))
      × ((succeed name ca ≡ (true, some (has_failed name))) ↔ (failed name ca ≡ (true, none)))
      × ((succeed name ca ≡ (false, none)) ↔ (failed name ca ≡ (false, none)))
unfolding succeed failed
succeed-failed name ca = ground arith

-- `Running` accepts only where `Succeed` and `Failed` still wait, and it gives up exactly where
-- they have reached a verdict.
pub running-succeed :
    (name : String) (ca : Accessor)
    → (running name ca ≡ (true, none)
        → (succeed name ca ≡ (false, none)) × (failed name ca ≡ (false, none)))
      × ((running name ca ≡ (true, some (already_finished name))) ↔ ((succeed name ca).0 ≡ true))
unfolding running succeed failed
running-succeed name ca = ground arith

-- The condition of the status, where it is there and satisfies `P`.
abbrev pub Shows : Accessor → (Condition → Type 0) → Type 0
Shows ca P = (c : Condition) × (ca condition_succeeded ≡ some c) × P c

-- `Succeed` accepts exactly the statuses whose condition is true.
pub succeed_iff :
    (name : String) (ca : Accessor)
    → (succeed name ca ≡ (true, none)) ↔ Shows ca (λ c. c.status ≡ "True")
unfolding succeed
succeed_iff name ca = (
  λ h. elim (Option-cases (ca condition_succeeded)) [
    | inl absent ↦ ground arith
    | inr (c, shown) ↦ (c, shown, ground arith)
  ],
  λ (c, shown, s). ground arith,
)

-- `FailedWithReason` accepts exactly the statuses that failed with that reason.
pub failed_with_reason_iff :
    (reason name : String) (ca : Accessor)
    → (failed_with_reason reason name ca ≡ (true, none))
      ↔ Shows ca (λ c. (c.status ≡ "False") × (c.reason ≡ reason))
unfolding failed_with_reason
failed_with_reason_iff reason name ca = (
  λ h. elim (Option-cases (ca condition_succeeded)) [
    | inl absent ↦ ground arith
    | inr (c, shown) ↦ (c, shown, ground arith)
  ],
  λ (c, shown, (s, r)). ground (arith, condition_false-ne-true),
)

-- `FailedWithMessage` accepts exactly the statuses that failed with a message that contains the
-- text.
pub failed_with_message_iff :
    (message : Text) (name : String) (ca : Accessor)
    → (failed_with_message message name ca ≡ (true, none))
      ↔ Shows ca (λ c. (c.status ≡ "False") × (contains c.message message ≡ true))
unfolding failed_with_message
failed_with_message_iff message name ca = (
  λ h. elim (Option-cases (ca condition_succeeded)) [
    | inl absent ↦ ground arith
    | inr (c, shown) ↦ (c, shown, ground arith)
  ],
  λ (c, shown, (s, r)). ground (arith, condition_false-ne-true),
)
