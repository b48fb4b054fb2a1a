-- ===== src/Gates.antt =====
-- The character devices of ioctl/ whose readers wait for a write: on a flag (lab4_wait_event.c, lab5_killable.c,
-- lab6_poll.c, lab7_sleepy.c), on a semaphore (lab4_semaphore.c) or on a completion (lab4_complete.c). What they
-- move are the reads and writes of LabChar.
pub mod Flag
pub mod Awake
pub mod Tokens
mod Tests
