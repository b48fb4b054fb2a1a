-- ===== src/Timers.antt =====
-- The timers of timers/lab2_multitimer.c: each write starts one, and the unload waits for all of them.
pub mod Machine
pub mod Unload
mod Tests
