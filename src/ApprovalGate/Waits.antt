-- ===== src/ApprovalGate/Waits.antt =====
-- The conditions of the other polls on approval tasks: `ListApprovalTask`, `WaitForApprovalTaskState`
-- and `WaitForApprovalTaskMessageContains`, and `ValidateApprovalGatePipeline`. Lower case is left
-- to the caller: a state is given with its lower-case form.
use release_tests_ginkgo.Prelude.{
  String, Bool, true, false, Option, none, some, List, [], ◌∷◌, ◌≡◌, ◌↔◌,
}
use release_tests_ginkgo.Prelude.{◌==◌, string_eq, if◌then◌else◌, ◌⊎◌, inl, inr, arith}
use release_tests_ginkgo.Prelude.Texts.{Text}
use release_tests_ginkgo.Prelude.Lists.{Any}
use release_tests_ginkgo.Poll.{Verdict}
use release_tests_ginkgo.ApprovalGate.Tasks.{ApprovalTask, approval_task_message_contains}

pub record ApprovalTaskInfo : Type 0 where
  pub name : String
  pub status : String

-- An error of the API or an empty list makes the poll go on; `tasks` goes in and out.
unfoldable pub list_condition :
    {E : Type 0}
    → (E ⊎ List ApprovalTaskInfo)
    → List ApprovalTaskInfo
    → Verdict E × List ApprovalTaskInfo
list_condition (inl e) tasks = ((false, none), tasks)
list_condition (inr []) tasks = ((false, none), tasks)
list_condition (inr (i ∷ items)) tasks = ((true, none), i ∷ items)

unfoldable pub check_approval_task_status : ApprovalTaskInfo → String
check_approval_task_status task =
    if task.status == "pending"
    then "Pending"
    else if task.status == "rejected"
    then "Rejected"
    else if task.status == "approved"
    then "Approved"
    else "Unknown Error: Check Details"

pub data GateError (E : Type 0) : Type 0 where
  fetching : E → GateError E
  no_such_task : GateError E

unfoldable pub has_status : String → List ApprovalTaskInfo → Bool
has_status expected [] = false
has_status expected (t ∷ ts) =
    if check_approval_task_status t == expected then true else has_status expected ts

-- On what `ListApprovalTask` returned.
unfoldable pub validate_approval_gate_pipeline :
    {E : Type 0} → (E ⊎ List ApprovalTaskInfo) → String → Bool × Option (GateError E)
validate_approval_gate_pipeline (inl e) expected = (false, some (fetching e))
validate_approval_gate_pipeline (inr tasks) expected =
    if has_status expected tasks then (true, none) else (false, some no_such_task)

has_status_iff :
    (expected : String) (ts : List ApprovalTaskInfo)
    → (has_status expected ts ≡ true) ↔ Any (λ t. check_approval_task_status t ≡ expected) ts
unfolding has_status
has_status_iff expected [] = ground arith
has_status_iff expected (t ∷ ts) = ground (arith, has_status_iff expected ts)

-- `strings.ToLower(at.Status.State) == exp`
unfoldable pub state_condition :
    {E : Type 0} → (String → String) → String → (E ⊎ ApprovalTask) → Verdict E
state_condition to_lower expected (inl e) = (false, some e)
state_condition to_lower expected (inr task) = (to_lower task.state == to_lower expected, none)

-- `last` goes in and out.
unfoldable pub message_condition :
    {E : Type 0} → Text → (E ⊎ ApprovalTask) → Option ApprovalTask → Verdict E × Option ApprovalTask
message_condition text (inl e) last = ((false, some e), last)
message_condition text (inr task) last =
    ((approval_task_message_contains (some task) text, none), some task)
