-- ===== src/Store.antt =====
-- pkg/store/store.go: the store that the specs of a scenario share, and that of the suite.
-- Every operation holds the lock `mu` from its first to its last step, so that whatever the
-- goroutines do is a sequence of whole operations.
pub mod Data
pub mod Writes
mod Tests
