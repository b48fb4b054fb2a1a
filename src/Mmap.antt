-- ===== src/Mmap.antt =====
-- The character device of io/lab3_mmap.c, whose buffer a process can map.
pub mod Mapping
pub mod Sharing
mod Tests
