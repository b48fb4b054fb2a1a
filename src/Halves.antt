-- ===== src/Halves.antt =====
-- The top and bottom halves of the interrupt labs: interrupts/lab4_one_tasklet.c, lab5_one_tasklet_improved.c
-- and lab5_one_thread_improved.c, over interrupts/lab_one_interrupt.h.
pub mod Simple
pub mod Improved
pub mod Accounts
pub mod Threaded
mod Tests
