-- ===== src/ApprovalGate/Tests.antt =====
-- An approval task with a user and a group, and the alias of a group.
use release_tests_ginkgo.Prelude.{ℕ, ◌≤◌, String, true, false, List, [], ◌∷◌, ◌++◌, ◌≡◌, ◌≢◌, ◌↔◌}
use release_tests_ginkgo.Prelude.{elem, string_eq, inl, inr, refl, arith}
use release_tests_ginkgo.Prelude.Texts.{Text, codes, contains}
use release_tests_ginkgo.Prelude.Lists.{Any, length}
use release_tests_ginkgo.ApprovalGate.Sets.{Unique}
use release_tests_ginkgo.ApprovalGate.Tasks.{
  ApprovalTask, pos, ◌-ℤ◌, pending_approvals, rejected_count,
}
use release_tests_ginkgo.ApprovalGate.Counts.{Responded, pending_approvals-Responded}
use release_tests_ginkgo.ApprovalGate.Counts.{rejected_count-le}
use release_tests_ginkgo.ApprovalGate.GroupName.{
  is_space, trim, trim_left, trim_right, group_prefix,
}
use release_tests_ginkgo.ApprovalGate.GroupName.{mag_group_name}
use release_tests_ginkgo.ApprovalGate.Labels.{IsLabel, mag_group_name-IsLabel}

abbrev defaulted : String → String
defaulted kind = kind

abbrev task : ApprovalTask
task = record {
  number_of_approvals_required = pos 2;
  approver_messages = [];
  approvers_response =
      record {
        name = "user1";
        kind = "User";
        response = "approved";
        message = [];
        group_members = [];
      }
      ∷ record {
        name = "reviewers";
        kind = "Group";
        response = "rejected";
        message = [];
        group_members = record { name = "user2"; response = "rejected"; message = [] } ∷ [];
      }
      ∷ [];
  state = "pending";
}

pending_approvals-Responded_example :
    (users : List String) × Unique users
    × ((x : String) → (elem x users ≡ true) ↔ Any (Responded defaulted x) task.approvers_response)
    × (pending_approvals defaulted task ≡ task.number_of_approvals_required -ℤ length users)
pending_approvals-Responded_example = pending_approvals-Responded defaulted task

rejected_count-le_example :
    (n : ℕ) × (pending_approvals defaulted task ≡ task.number_of_approvals_required -ℤ n)
    × (rejected_count defaulted task ≤ n)
rejected_count-le_example = rejected_count-le defaulted task

abbrev alias : Text
alias = codes " QA_Team"

trimmed : trim is_space alias ≡ codes "QA_Team"
unfolding trim trim_left trim_right
trimmed = refl

alias_there : trim is_space alias ≢ []
alias_there = ground (arith, trimmed)

alias_plain : contains (trim is_space alias) (codes ":") ≡ false
alias_plain = rw trimmed refl

mag_group_name-IsLabel_example :
    (label : Text) × (mag_group_name (codes "ns1") alias ≡ group_prefix (codes "ns1") ++ label)
    × IsLabel label
mag_group_name-IsLabel_example = mag_group_name-IsLabel (codes "ns1") alias alias_there alias_plain

abbrev qa : Text
qa = codes "qa-1"

qa-IsLabel : IsLabel qa
qa-IsLabel = (ground arith, inl (refl, inl (refl, inr (refl, refl, ground arith, inl (refl, tt)))))
