-- ===== src/Sync.antt =====
-- The two threads of sync/sync_lab3_spinlock.c that count under a spinlock, and its init and exit.
pub mod Spinlock
pub mod Exclusion
pub mod Lifecycle
mod Tests
