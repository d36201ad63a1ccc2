-- ===== src/ApprovalGate.antt =====
-- pkg/manualapprovalgate/manualapprovalgate.go: the state of approval tasks, and group names.
pub mod Tasks
pub mod Sets
pub mod Counts
pub mod Messages
pub mod GroupName
pub mod Logins
pub mod Current
pub mod Labels
pub mod Waits
mod Tests
mod Sessions
