-- ===== src/EarlyChar.antt =====
-- The character devices that char/lab6_char_fasync.c grew out of: char/lab4_char_seek.c, whose file is a buffer
-- with a position, and char/lab5_char_poll.c, whose readers wait for a write. char/lab2_char_read_write.c and
-- char/lab3_char_ioctl.c have the same read, write and ioctl as lab4_char_seek.c and fewer operations.
pub mod Seek
pub mod Poll
pub mod Growth
