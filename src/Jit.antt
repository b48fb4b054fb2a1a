-- ===== src/Jit.antt =====
-- The delays and the timer of timers/lab9_jit.c.
pub mod Delay
pub mod Passing
pub mod Timer
pub mod Lines
mod Tests
