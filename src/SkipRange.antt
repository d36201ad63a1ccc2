-- ===== src/SkipRange.antt =====
-- pkg/oc/olm_skiprange.go: the OLM skipRange checks of the operator's channels.
pub mod Version
pub mod Fetch
pub mod Checks
pub mod Diff
pub mod Patterns
pub mod Bounds
pub mod Upgrade
pub mod Changes
mod Tests
