-- ===== src/Wait.antt =====
-- pkg/wait/wait.go: polling helpers for the states of Kubernetes and Tekton resources.
pub mod State
pub mod Resources
pub mod Probes
pub mod Verdicts
pub mod Traces
pub mod Readiness
mod Tests
mod Examples
