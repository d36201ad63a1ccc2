-- ===== src/Kueue/Scheduler.antt =====
-- The scheduler fields of TektonConfig in pkg/tektonkueue/environment.go: what `enableScheduler`
-- writes and what its cleanup, `restoreSchedulerFields`, puts back.
pub mod Restore
mod Tests
use release_tests_ginkgo.Prelude.{String, Bool, true, false, not, ◌&&◌, ◌||◌, Option, none, some}
use release_tests_ginkgo.Prelude.{List, [], ◌∷◌, ◌++◌, ◌==◌, string_eq, if◌then◌else◌}

-- The fields of `operatorv1alpha1.Scheduler` that the program touches.
pub record Scheduler : Type 0 where
  pub disabled : Option Bool
  pub multi_cluster_disabled : Bool
  pub multi_cluster_role : String
  pub queue_name : String
  pub multi_kueue_override : Bool

-- One error of `restoreSchedulerFields` for each field.
pub data Conflict : Type 0 where
  disabled_changed : Conflict
  multi_cluster_disabled_changed : Conflict
  multi_cluster_role_changed : Conflict
  queue_name_changed : Conflict
  multi_kueue_override_changed : Conflict

abbrev pub role_hub : String
role_hub = "Hub"

-- Go's `==` on bool.
abbrev pub same : Bool → Bool → Bool
same true b = b
same false b = not b

-- The body of the retried update of `enableScheduler`.
unfoldable pub enable_fields : String → String → Scheduler → Scheduler
enable_fields role prefix latest = record latest {
  disabled = some false;
  multi_cluster_disabled = false;
  multi_cluster_role = role;
  queue_name = prefix;
  multi_kueue_override = role == role_hub;
}

unfoldable pub equal_bool_pointers : Option Bool → Option Bool → Bool
equal_bool_pointers none none = true
equal_bool_pointers (some a) (some b) = same a b
equal_bool_pointers left right = false

-- `current.Disabled != nil && !*current.Disabled`
abbrev pub is_enabled : Option Bool → Bool
is_enabled none = false
is_enabled (some b) = not b

-- A field that differs from the original: restored if it holds what the test wrote, else a
-- conflict. The new value, and the conflicts with one more.
abbrev pub restore_field :
    {A : Type 0} → Bool → Bool → A → A → Conflict → List Conflict → A × List Conflict
restore_field equal ours current original conflict conflicts =
    if equal
    then (current, conflicts)
    else if ours
    then (original, conflicts)
    else (current, conflicts ++ (conflict ∷ []))

-- The five blocks in their order. The caller keeps the conflicts and writes the new fields.
unfoldable pub restore_scheduler_fields :
    Scheduler → Scheduler → String → String → Scheduler × List Conflict
unfolding equal_bool_pointers
restore_scheduler_fields current original role queue_name =
    let (disabled, c₁) =
      restore_field (equal_bool_pointers current.disabled original.disabled)
        (is_enabled current.disabled) current.disabled original.disabled disabled_changed [] in
    let (multi_disabled, c₂) =
      restore_field (same current.multi_cluster_disabled original.multi_cluster_disabled)
        (not current.multi_cluster_disabled) current.multi_cluster_disabled
        original.multi_cluster_disabled multi_cluster_disabled_changed c₁ in
    let (role', c₃) =
      restore_field (current.multi_cluster_role == original.multi_cluster_role)
        (current.multi_cluster_role == role) current.multi_cluster_role original.multi_cluster_role
        multi_cluster_role_changed c₂ in
    let (queue, c₄) =
      restore_field (current.queue_name == original.queue_name) (current.queue_name == queue_name)
        current.queue_name original.queue_name queue_name_changed c₃ in
    let (override, c₅) =
      restore_field (same current.multi_kueue_override original.multi_kueue_override)
        (same current.multi_kueue_override (role == role_hub)) current.multi_kueue_override
        original.multi_kueue_override multi_kueue_override_changed c₄ in
    (
      record {
        disabled = disabled;
        multi_cluster_disabled = multi_disabled;
        multi_cluster_role = role';
        queue_name = queue;
        multi_kueue_override = override;
      },
      c₅,
    )
