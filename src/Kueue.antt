-- ===== src/Kueue.antt =====
-- pkg/tektonkueue: the temporary multi-cluster environment and the PipelineRun that it executes.
pub mod Cleanup
pub mod Scheduler
pub mod Frameworks
pub mod Validation
pub mod Spokes
pub mod Completion
pub mod Ready
pub mod Resources
