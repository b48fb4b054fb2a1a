-- ===== src/Kernel.antt =====
-- What the drivers ask of the kernel and are told by it: error codes, machine words, memory, the
-- copies between user and kernel memory, and the ledger of acquired resources.
pub mod Word
pub mod Memory
pub mod Slice
pub mod Ledger
pub mod Ioctl
pub mod Blk
use ldd_samples.Prelude.{ℕ}

-- The codes that the drivers return, negated in C. `raw` is a code that a kernel call gave and
-- that the driver passes on.
pub data Errno : Type 0 where
  eperm einval enomem efault eagain enotty ebusy enodev eio : Errno
  restartsys iocbqueued noioctlcmd epipe enoent eintr : Errno
  raw : ℕ → Errno

-- What a driver entry point returns: a value (a 64-bit pattern), or a negated error code.
pub data Ret : Type 0 where
  ret : ℕ → Ret
  fail : Errno → Ret
