-- ===== src/Commands.antt =====
-- The ioctls of ioctl/lab2_ioctl_vardata.c, which move data of the size that the command has, and of
-- ioctl/lab3_ioctl_signal.c, which send a signal to a process.
pub mod Vardata
pub mod Signal
pub mod Sending
mod Tests
