-- ===== src/Jiq.antt =====
-- The deferred printing of timers/lab8_jiq.c: a work item, a delayed one, a tasklet and a timer that fill
-- the page of a reader.
pub mod Client
pub mod Filling
pub mod Sleep
pub mod Waking
mod Tests
