-- ===== src/Kernel/Ioctl.antt =====
-- The layout of an ioctl command number (asm-generic/ioctl.h): 8 bits of number, 8 of type, 14 of
-- size and 2 of direction. A command has 32 bits.
use ldd_samples.Prelude.{ℕ, ◌/◌, ◌%◌, ◌^◌}

abbrev pub ioc_nr : ℕ → ℕ
ioc_nr cmd = cmd % 2 ^ 8

abbrev pub ioc_type : ℕ → ℕ
ioc_type cmd = cmd / 2 ^ 8 % 2 ^ 8

abbrev pub ioc_size : ℕ → ℕ
ioc_size cmd = cmd / 2 ^ 16 % 2 ^ 14

abbrev pub ioc_dir : ℕ → ℕ
ioc_dir cmd = cmd / 2 ^ 30 % 2 ^ 2

abbrev pub ioc_write : ℕ
ioc_write = 1

abbrev pub ioc_read : ℕ
ioc_read = 2
