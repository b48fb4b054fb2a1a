-- ===== src/Scullc.antt =====
-- The character device of io/lab6_aio.c and io/scullc.h: a sparse file in quanta of memory.
pub mod Store
pub mod Io
pub mod Control
pub mod Ioctl
pub mod Lifecycle
pub mod Defer
mod Tests
