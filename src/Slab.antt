-- ===== src/Slab.antt =====
-- The character device of memory/memory_lab2_cache.c, whose buffer is an object of a slab cache that each open
-- allocates.
pub mod Device
pub mod Opens
pub mod Lifecycle
mod Tests
