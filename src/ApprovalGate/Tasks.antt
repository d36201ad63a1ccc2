-- ===== src/ApprovalGate/Tasks.antt =====
-- What the code reads of an ApprovalTask: `pendingApprovals`, `rejectedCount`, `stateHuman`,
-- `approvalTaskMessageContains`, and the conditions of the polls that use them.
use release_tests_ginkgo.Prelude.{ℕ, ◌+◌, ◌-◌, String, Bool, false, ◌&&◌, ◌||◌, Option, none, some}
use release_tests_ginkgo.Prelude.{
  List, [], ◌∷◌, ◌==◌, elem, string_eq, nat_eq, if◌then◌else◌, inl, inr, ◌⊎◌,
}
use release_tests_ginkgo.Prelude.Texts.{Text, contains, null, ltb}
use release_tests_ginkgo.Prelude.Lists.{length}
use release_tests_ginkgo.Poll.{Verdict}

-- Go's int, over the native numbers: `negsuc n` is -(n + 1).
pub data ℤ : Type 0 where
  pos : ℕ → ℤ
  negsuc : ℕ → ℤ

infixl 40 ◌-ℤ◌
unfoldable pub ◌-ℤ◌ : ℤ → ℕ → ℤ
pos a -ℤ n = if ltb a n then negsuc (n - a - 1) else pos (a - n)
negsuc a -ℤ n = negsuc (a + n)

abbrev pub eqz : ℤ → ℤ → Bool
eqz (pos a) (pos b) = a == b
eqz (negsuc a) (negsuc b) = a == b
eqz (pos a) (negsuc b) = false
eqz (negsuc a) (pos b) = false

pub record Member : Type 0 where
  pub name : String
  pub response : String
  pub message : Text

-- An entry of `Status.ApproversResponse`.
pub record Response : Type 0 where
  pub name : String
  pub kind : String
  pub response : String
  pub message : Text
  pub group_members : List Member

pub record ApprovalTask : Type 0 where
  pub number_of_approvals_required : ℤ
  pub approver_messages : List Text
  pub approvers_response : List Response
  pub state : String

-- `set[name] = true` on a Go map used as a set.
unfoldable pub insert : String → List String → List String
insert x xs = if elem x xs then xs else x ∷ xs

-- The inner loop of `pendingApprovals`.
unfoldable pub respond_members : List Member → List String → List String
respond_members [] users = users
respond_members (m ∷ ms) users =
    respond_members ms
      (if m.response == "approved" || m.response == "rejected" then insert m.name users else users)

-- `count` and `rejectedUsers`, on the rejection of a user.
unfoldable pub reject : String → ℕ × List String → ℕ × List String
reject x (count, users) = if elem x users then (count, users) else (count + 1, x ∷ users)

-- The inner loop of `rejectedCount`.
unfoldable pub reject_members : List Member → ℕ × List String → ℕ × List String
reject_members [] s = s
reject_members (m ∷ ms) s =
    reject_members ms (if m.response == "rejected" then reject m.name s else s)

unfoldable pub state_human : ApprovalTask → String
state_human task =
    if task.state == "approved"
    then "Approved"
    else if task.state == "rejected"
    then "Rejected"
    else if task.state == "pending"
    then "Pending"
    else task.state

unfoldable pub member_contains : Text → List Member → Bool
member_contains text [] = false
member_contains text (m ∷ ms) = contains m.message text || member_contains text ms

unfoldable pub response_contains : Text → List Response → Bool
response_contains text [] = false
response_contains text (r ∷ rs) =
    contains r.message text || (member_contains text r.group_members || response_contains text rs)

unfoldable pub approver_contains : Text → List Text → Bool
approver_contains text [] = false
approver_contains text (m ∷ ms) = contains m text || approver_contains text ms

-- A task that is `nil` is `none`.
unfoldable pub approval_task_message_contains : Option ApprovalTask → Text → Bool
approval_task_message_contains none text = false
approval_task_message_contains (some task) text =
    if null text
    then false
    else approver_contains text task.approver_messages
      || response_contains text task.approvers_response

-- `DefaultedApproverType` of the Manual Approval Gate's API gives an approver's type.
module _ (defaulted_approver_type : String → String) where
  abbrev pub has_kind : String → Response → Bool
  has_kind kind r = defaulted_approver_type r.kind == kind

  unfoldable pub respond : List Response → List String → List String
  respond [] users = users
  respond (r ∷ rs) users = respond rs (
      if has_kind "User" r
      then insert r.name users
      else if has_kind "Group" r
      then respond_members r.group_members users
      else users)

  abbrev pub responded_users : ApprovalTask → List String
  responded_users task = respond task.approvers_response []

  unfoldable pub pending_approvals : ApprovalTask → ℤ
  pending_approvals task = task.number_of_approvals_required -ℤ length (responded_users task)

  unfoldable pub count_rejected : List Response → ℕ × List String → ℕ × List String
  count_rejected [] s = s
  count_rejected (r ∷ rs) s = count_rejected rs (
      if has_kind "User" r && r.response == "rejected"
      then reject r.name s
      else if has_kind "Group" r
      then reject_members r.group_members s
      else s)

  unfoldable pub rejected_count : ApprovalTask → ℕ
  rejected_count task = (count_rejected task.approvers_response (0, [])).0

  -- The condition of `WaitForAndAssertApprovalTaskListState`; an error of the API ends the poll.
  unfoldable pub list_state_condition :
      {E : Type 0} → ℤ → ℤ → ℕ → String → (E ⊎ ApprovalTask) → Verdict E
  list_state_condition num pending rejected status (inl e) = (false, some e)
  list_state_condition num pending rejected status (inr task) =
      let matches =
        eqz task.number_of_approvals_required num
        && (eqz (pending_approvals task) pending
            && (rejected_count task == rejected && state_human task == status)) in
      (matches, none)
