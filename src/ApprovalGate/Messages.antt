-- ===== src/ApprovalGate/Messages.antt =====
-- What `approvalTaskMessageContains` finds.
use release_tests_ginkgo.Prelude.{true, some, List, [], ◌∷◌, ◌≡◌, ◌≢◌, ◌↔◌, ◌⊎◌, arith}
use release_tests_ginkgo.Prelude.Texts.{Text, contains}
use release_tests_ginkgo.Prelude.Lists.{Any}
use release_tests_ginkgo.ApprovalGate.Tasks.{
  Member, Response, ApprovalTask, member_contains, response_contains,
}
use release_tests_ginkgo.ApprovalGate.Tasks.{approver_contains, approval_task_message_contains}

module _ (text : Text) where
  approver_contains_iff :
      (as_messages : List Text)
      → (approver_contains text as_messages ≡ true) ↔ Any (λ m. contains m text ≡ true) as_messages
  unfolding approver_contains
  approver_contains_iff [] = ground arith
  approver_contains_iff (m ∷ ms) = ground (arith, approver_contains_iff ms)

  member_contains_iff :
      (ms : List Member)
      → (member_contains text ms ≡ true) ↔ Any (λ m. contains m.message text ≡ true) ms
  unfolding member_contains
  member_contains_iff [] = ground arith
  member_contains_iff (m ∷ ms) = ground (arith, member_contains_iff ms)

  -- The approver's own message, or that of a member of the group.
  abbrev pub Says : Response → Type 0
  Says r =
      (contains r.message text ≡ true) ⊎ Any (λ m. contains m.message text ≡ true) r.group_members

  response_contains_iff : (rs : List Response) → (response_contains text rs ≡ true) ↔ Any Says rs
  unfolding response_contains
  response_contains_iff [] = ground arith
  response_contains_iff (r ∷ rs) =
      ground (arith, member_contains_iff r.group_members, response_contains_iff rs)

  -- A text is found in a task exactly when it is not empty and occurs in the message of an
  -- approver of its spec, of a response of its status, or of a member of a responding group.
  pub approval_task_message_contains_iff :
      (task : ApprovalTask)
      → (approval_task_message_contains (some task) text ≡ true) ↔ (
          (text ≢ [])
          × (Any (λ m. contains m text ≡ true) task.approver_messages
              ⊎ Any Says task.approvers_response))
  unfolding approval_task_message_contains
  approval_task_message_contains_iff task = ground (
    arith,
    approver_contains_iff task.approver_messages,
    response_contains_iff task.approvers_response,
  )
