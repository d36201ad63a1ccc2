-- ===== src/Kueue/Scheduler/Tests.antt =====
-- The scheduler fields of a hub.
use release_tests_ginkgo.Prelude.{◌≡◌, true, false, none, some, []}
use release_tests_ginkgo.Prelude.{string_eq}
use release_tests_ginkgo.Kueue.Scheduler.{Scheduler, enable_fields, restore_scheduler_fields}
use release_tests_ginkgo.Kueue.Scheduler.Restore.{restore_scheduler_fields-enable_fields}

abbrev before : Scheduler
before = record {
  disabled = none;
  multi_cluster_disabled = true;
  multi_cluster_role = "";
  queue_name = "default";
  multi_kueue_override = false;
}

abbrev elsewhere : Scheduler
elsewhere = record before { disabled = some true; queue_name = "other"; multi_cluster_role = "Hub" }

restore_scheduler_fields-enable_fields_example :
    restore_scheduler_fields (enable_fields "Hub" "e2e" before) before "Hub" "e2e" ≡ (before, [])
restore_scheduler_fields-enable_fields_example =
    restore_scheduler_fields-enable_fields before "Hub" "e2e"
