-- ===== src/LabChar.antt =====
-- The generic entry points of io/lab_char.h, over which many labs lay their own.
pub mod Calls
pub mod Plain
pub mod Refines
pub mod Lifecycle
mod Tests
