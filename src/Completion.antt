-- ===== src/Completion.antt =====
-- The driver of misc/completion_static.c, whose thread waits for a completion that reads and the unload
-- signal.
pub mod Machine
pub mod Counting
pub mod Lifecycle
mod Tests
