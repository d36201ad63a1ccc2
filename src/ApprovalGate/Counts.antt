-- ===== src/ApprovalGate/Counts.antt =====
-- The users that `pendingApprovals` and `rejectedCount` count.
use text.Mathlib.TextEquality.{eq_iff}
use release_tests_ginkgo.Prelude.{ℕ, ◌≤◌, String, true, ◌&&◌, ◌||◌, List, [], ◌∷◌}
use release_tests_ginkgo.Prelude.{◌≡◌, ◌≢◌, ◌↔◌, ◌⊎◌, inl, inr, refl, arith, ◌==◌, elem, string_eq}
use release_tests_ginkgo.Prelude.{Bool-cases}
use release_tests_ginkgo.Prelude.Lists.{Any, Any-map, length}
use release_tests_ginkgo.ApprovalGate.Sets.{Unique, Within-length}
use release_tests_ginkgo.ApprovalGate.Tasks.{Member, Response, ApprovalTask, ◌-ℤ◌, insert}
use release_tests_ginkgo.ApprovalGate.Tasks.{has_kind, respond_members, respond, responded_users}
use release_tests_ginkgo.ApprovalGate.Tasks.{
  reject, reject_members, count_rejected, rejected_count, pending_approvals,
}

insert-Unique : (x : String) (xs : List String) → Unique xs → Unique (insert x xs)
unfolding insert
insert-Unique x xs u = ground arith

-- Who has answered, of the members of a group.
abbrev pub Answered : String → Member → Type 0
Answered x m = (m.name ≡ x) × ((m.response ≡ "approved") ⊎ (m.response ≡ "rejected"))

abbrev pub Refused : String → Member → Type 0
Refused x m = (m.name ≡ x) × (m.response ≡ "rejected")

elem-insert :
    (x y : String) (xs : List String)
    → (elem x (insert y xs) ≡ true) ↔ ((y ≡ x) ⊎ (elem x xs ≡ true))
unfolding insert
elem-insert x y xs = ground arith

respond_members_iff :
    (x : String) (ms : List Member) (us : List String)
    → (elem x (respond_members ms us) ≡ true) ↔ (Any (Answered x) ms ⊎ (elem x us ≡ true))
unfolding respond_members
respond_members_iff x [] us = ground arith
respond_members_iff x (m ∷ ms) us = ground (
  arith,
  respond_members_iff x ms us,
  respond_members_iff x ms (insert m.name us),
  elem-insert x m.name us,
)

respond_members-Unique :
    (ms : List Member) (us : List String) → Unique us → Unique (respond_members ms us)
unfolding respond_members
respond_members-Unique [] us u = u
respond_members-Unique (m ∷ ms) us u =
    elim (Bool-cases (m.response == "approved" || m.response == "rejected")) [
      | inl named ↦
          rw named (respond_members-Unique ms (insert m.name us) (insert-Unique m.name us u))
      | inr passed_over ↦ rw passed_over (respond_members-Unique ms us u)
    ]

-- `count` and `rejectedUsers` agree, and no user is counted twice.
abbrev Counts : ℕ × List String → Type 0
Counts (count, users) = (count ≡ length users) × Unique users

user-ne-group : (s : String) → s ≡ "User" → s ≢ "Group"
user-ne-group s = ground (arith, eq_iff "User" "Group")

reject-Counts : (x : String) (s : ℕ × List String) → Counts s → Counts (reject x s)
unfolding reject
reject-Counts x (count, users) (same, u) = ground arith

elem-reject :
    (x y : String) (s : ℕ × List String)
    → (elem x (reject y s).1 ≡ true) ↔ ((y ≡ x) ⊎ (elem x s.1 ≡ true))
unfolding reject
elem-reject x y (count, users) = ground arith

reject_members_iff :
    (x : String) (ms : List Member) (s : ℕ × List String)
    → (elem x (reject_members ms s).1 ≡ true) ↔ (Any (Refused x) ms ⊎ (elem x s.1 ≡ true))
unfolding reject_members
reject_members_iff x [] s = ground arith
reject_members_iff x (m ∷ ms) s = ground (
  arith,
  reject_members_iff x ms s,
  reject_members_iff x ms (reject m.name s),
  elem-reject x m.name s,
)

reject_members-Counts :
    (ms : List Member) (s : ℕ × List String) → Counts s → Counts (reject_members ms s)
unfolding reject_members
reject_members-Counts [] s c = c
reject_members-Counts (m ∷ ms) s c = elim (Bool-cases (m.response == "rejected")) [
  | inl named ↦
      rw (named, reject_members)
        (reject_members-Counts ms (reject m.name s) (reject-Counts m.name s c))
  | inr passed_over ↦ rw (passed_over, reject_members) (reject_members-Counts ms s c)
]

module _ (defaulted_approver_type : String → String) where
  abbrev HasKind : String → Response → Type 0
  HasKind kind r = defaulted_approver_type r.kind ≡ kind

  -- The user stands in the response: as the approver, whatever the answer is, or as a member of a
  -- group who approved or rejected.
  abbrev pub Responded : String → Response → Type 0
  Responded x r =
      HasKind "User" r × (r.name ≡ x) ⊎ HasKind "Group" r × Any (Answered x) r.group_members

  -- The user rejects in the response, as the approver or as a member of a group.
  abbrev pub Rejected : String → Response → Type 0
  Rejected x r =
      HasKind "User" r × (r.response ≡ "rejected") × (r.name ≡ x)
      ⊎ HasKind "Group" r × Any (Refused x) r.group_members

  respond_iff :
      (x : String) (rs : List Response) (us : List String)
      → (elem x (respond defaulted_approver_type rs us) ≡ true)
        ↔ (Any (Responded x) rs ⊎ (elem x us ≡ true))
  unfolding respond
  respond_iff x [] us = ground arith
  respond_iff x (r ∷ rs) us = ground (
    arith,
    user-ne-group (defaulted_approver_type r.kind),
    respond_iff x rs us,
    respond_iff x rs (insert r.name us),
    respond_iff x rs (respond_members r.group_members us),
    respond_members_iff x r.group_members us,
    elem-insert x r.name us,
  )

  respond-Unique :
      (rs : List Response) (us : List String)
      → Unique us
      → Unique (respond defaulted_approver_type rs us)
  unfolding respond
  respond-Unique [] us u = u
  respond-Unique (r ∷ rs) us u = elim (Bool-cases (has_kind defaulted_approver_type "User" r)) [
    | inl user ↦ rw user (respond-Unique rs (insert r.name us) (insert-Unique r.name us u))
    | inr other ↦ elim (Bool-cases (has_kind defaulted_approver_type "Group" r)) [
      | inl group ↦ rw other (
          rw group (
            respond-Unique rs (respond_members r.group_members us)
              (respond_members-Unique r.group_members us u)))
      | inr unknown ↦ rw other (rw unknown (respond-Unique rs us u))
    ]
  ]

  count_rejected_iff :
      (x : String) (rs : List Response) (s : ℕ × List String)
      → (elem x (count_rejected defaulted_approver_type rs s).1 ≡ true)
        ↔ (Any (Rejected x) rs ⊎ (elem x s.1 ≡ true))
  unfolding count_rejected
  count_rejected_iff x [] s = ground arith
  count_rejected_iff x (r ∷ rs) s = ground (
    arith,
    user-ne-group (defaulted_approver_type r.kind),
    count_rejected_iff x rs s,
    count_rejected_iff x rs (reject r.name s),
    count_rejected_iff x rs (reject_members r.group_members s),
    reject_members_iff x r.group_members s,
    elem-reject x r.name s,
  )

  count_rejected-Counts :
      (rs : List Response) (s : ℕ × List String)
      → Counts s
      → Counts (count_rejected defaulted_approver_type rs s)
  unfolding count_rejected
  count_rejected-Counts [] s c = c
  count_rejected-Counts (r ∷ rs) s c =
      elim (Bool-cases (has_kind defaulted_approver_type "User" r && r.response == "rejected")) [
        | inl user ↦
            rw (user, count_rejected)
              (count_rejected-Counts rs (reject r.name s) (reject-Counts r.name s c))
        | inr other ↦ elim (Bool-cases (has_kind defaulted_approver_type "Group" r)) [
          | inl group ↦
              rw (other, count_rejected)
                (rw group (
                  count_rejected-Counts rs (reject_members r.group_members s)
                    (reject_members-Counts r.group_members s c)))
          | inr unknown ↦ rw (other, count_rejected) (rw unknown (count_rejected-Counts rs s c))
        ]
      ]

  -- `pendingApprovals` subtracts from the number of approvals that are required the number of users
  -- who responded, each counted once however often and in whatever groups they stand.
  pub pending_approvals-Responded :
      (task : ApprovalTask)
      → (users : List String) × Unique users
        × ((x : String) → (elem x users ≡ true) ↔ Any (Responded x) task.approvers_response)
        × (pending_approvals defaulted_approver_type task
            ≡ task.number_of_approvals_required -ℤ length users)
  unfolding pending_approvals
  pending_approvals-Responded task = (
    responded_users defaulted_approver_type task,
    respond-Unique task.approvers_response [] tt,
    λ x. ground (arith, respond_iff x task.approvers_response []),
    refl,
  )

  -- `rejectedCount` is the number of users who rejected, each counted once.
  pub rejected_count-Rejected :
      (task : ApprovalTask)
      → (users : List String) × Unique users
        × ((x : String) → (elem x users ≡ true) ↔ Any (Rejected x) task.approvers_response)
        × (rejected_count defaulted_approver_type task ≡ length users)
  unfolding rejected_count
  rejected_count-Rejected task =
      let counted = count_rejected-Counts task.approvers_response (0, []) (refl, tt) in
      (
        (count_rejected defaulted_approver_type task.approvers_response (0, [])).1,
        counted.1,
        λ x. ground (arith, count_rejected_iff x task.approvers_response (0, [])),
        counted.0,
      )

  Refused-Answered : (x : String) (ms : List Member) → Any (Refused x) ms → Any (Answered x) ms
  Refused-Answered x ms h = Any-map (Refused x) (Answered x) ms (λ m (same, r). (same, inr r)) h

  Rejected-Responded : (x : String) (r : Response) → Rejected x r → Responded x r
  Rejected-Responded x r (inl (kind, response, same)) = inl (kind, same)
  Rejected-Responded x r (inr (kind, h)) = inr (kind, Refused-Answered x r.group_members h)

  -- The number that `pendingApprovals` subtracts from the approvals that are required is at least
  -- `rejectedCount`: no more users are counted as rejecting than as having responded.
  pub rejected_count-le :
      (task : ApprovalTask)
      → (n : ℕ) × (pending_approvals defaulted_approver_type task
          ≡ task.number_of_approvals_required -ℤ n)
        × (rejected_count defaulted_approver_type task ≤ n)
  rejected_count-le task =
      let (responded, _, in_responded, pending) = pending_approvals-Responded task in
      let (rejected, unique, in_rejected, count) = rejected_count-Rejected task in
      let le = Within-length rejected responded unique (λ x h. (in_responded x).1 (
        Any-map (Rejected x) (Responded x) task.approvers_response (Rejected-Responded x)
          ((in_rejected x).0 h))) in
      (length responded, pending, omega (arith, le, count))
