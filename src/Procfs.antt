-- ===== src/Procfs.antt =====
-- The proc file of debug/debug_lab2_procfs.c, which keeps a line of text.
pub mod File
pub mod Text
mod Tests
