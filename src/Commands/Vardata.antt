-- ===== src/Commands/Vardata.antt =====
-- `mycdrv_unlocked_ioctl` of ioctl/lab2_ioctl_vardata.c.
use ldd_samples.Prelude.{
  ℕ, ◌+◌, ◌-◌, ◌<◌, ◌≡◌, Bool, true, false, not, ◌&&◌, arith, ◌==◌, if◌then◌else◌,
}
use ldd_samples.Kernel.{Ret, ret, fail, einval, enomem}
use ldd_samples.Kernel.Memory.{Mem, CopyFn, IsCopy, memset}
use ldd_samples.Kernel.Ioctl.{ioc_type, ioc_dir, ioc_size, ioc_write, ioc_read}

-- What a call leaves: the caller's memory, whether the buffer that it allocated is still allocated, its
-- result, and, where it goes to the log, the buffer.
pub record Outcome : Type 0 where
  pub user : Mem
  pub kept : Bool
  pub result : Ret
  pub logged : Mem

module _ (copy_to_user copy_from_user : CopyFn) where
  -- `fresh` is the memory that `kmalloc` answers with; `allocated` says whether it answers with any.
  unfoldable pub unlocked_ioctl : (allocated : Bool) (fresh user : Mem) (cmd arg : ℕ) → Outcome
  unlocked_ioctl allocated fresh user cmd arg =
      if not (ioc_type cmd == b'k')
      then record { user = user; kept = false; result = fail einval; logged = fresh }
      else if not allocated
      then record { user = user; kept = false; result = fail enomem; logged = fresh }
      else let size = ioc_size cmd in
        let buffer = memset fresh 0 b'X' size in
        if ioc_dir cmd == ioc_write
        then (let (buffer', rc) = copy_from_user buffer 0 user arg size in
            record { user = user; kept = false; result = ret rc; logged = buffer' })
        else if ioc_dir cmd == ioc_read
        then (let (user', rc) = copy_to_user user arg buffer 0 size in
            record { user = user'; kept = false; result = ret rc; logged = buffer })
        else record { user = user; kept = true; result = fail einval; logged = buffer }

module _ {to_user : CopyFn} (to_ok : IsCopy to_user) (from_user : CopyFn) (fresh user : Mem)
    (cmd arg : ℕ) where
  -- The buffer of a call stays allocated exactly where the command is of the right type, `kmalloc` has memory, and
  -- the direction is neither a write nor a read.
  pub ioctl-kept :
      (allocated : Bool)
      → (unlocked_ioctl to_user from_user allocated fresh user cmd arg).kept ≡ (
          (ioc_type cmd == b'k')
          && (allocated && (not (ioc_dir cmd == ioc_write) && not (ioc_dir cmd == ioc_read))))
  unfolding unlocked_ioctl
  ioctl-kept allocated = ground arith

  -- A read of the device hands out nothing of what was in the fresh memory: each byte that it moves is an X.
  pub ioctl-filled :
      (i : ℕ)
      → ioc_type cmd ≡ b'k'
      → ioc_dir cmd ≡ ioc_read
      → i
        < ioc_size cmd - (to_user user arg (memset fresh 0 b'X' (ioc_size cmd)) 0 (ioc_size cmd)).1
      → (unlocked_ioctl to_user from_user true fresh user cmd arg).user (arg + i) ≡ b'X'
  unfolding unlocked_ioctl memset
  ioctl-filled i typed reads inside = ground (
    arith,
    to_ok.copied user arg (memset fresh 0 b'X' (ioc_size cmd)) 0 (ioc_size cmd) (arg + i),
    typed,
    reads,
    inside,
  )
