-- ===== src/Kueue/Scheduler/Restore.antt =====
-- The cleanup of `enableScheduler` undoes it, and leaves the changes of others alone.
use release_tests_ginkgo.Prelude.{String, ◌≡◌, [], arith}
use release_tests_ginkgo.Prelude.{string_eq, ◌↔◌}
use release_tests_ginkgo.Kueue.Scheduler.{Scheduler, enable_fields}
use release_tests_ginkgo.Kueue.Scheduler.{restore_scheduler_fields}

-- If nobody else writes between `enableScheduler` and its cleanup, every field gets the value that
-- it had before, and no conflict is reported.
pub restore_scheduler_fields-enable_fields :
    (original : Scheduler) (role prefix : String)
    → restore_scheduler_fields (enable_fields role prefix original) original role prefix
      ≡ (original, [])
unfolding restore_scheduler_fields enable_fields
restore_scheduler_fields-enable_fields original role prefix = ground arith

-- No conflict is reported exactly when every field holds its original value afterwards.
pub restore_scheduler_fields-conflicts :
    (current original : Scheduler) (role prefix : String)
    → ((restore_scheduler_fields current original role prefix).1 ≡ [])
      ↔ ((restore_scheduler_fields current original role prefix).0 ≡ original)
unfolding restore_scheduler_fields
restore_scheduler_fields-conflicts current original role prefix = ground arith
