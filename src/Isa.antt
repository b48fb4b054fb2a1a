-- ===== src/Isa.antt =====
-- The driver of hardware/lab5_silly.c, which reads and writes the ISA memory through four minors.
pub mod Access
pub mod File
pub mod Moves
pub mod Reading
pub mod Writing
pub mod Ranges
mod Tests
