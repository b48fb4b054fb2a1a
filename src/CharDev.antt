-- ===== src/CharDev.antt =====
-- The character device of char/lab6_char_fasync.c: `membuff` behind read, write, lseek and ioctl,
-- with a wait queue for readers (poll) and a queue of files that get SIGIO (fasync). A call that
-- changes `*ppos`, the device or the caller's memory returns them anew. PAGE_SIZE is 4096.
pub mod Transfer
pub mod Seek
pub mod Lifecycle
pub mod Control
pub mod Session
pub mod Wait
mod Tests
use ldd_samples.Prelude.{
  ℕ, ◌+◌, ◌-◌, ◌*◌, ◌%◌, ◌^◌, Bool, true, false, not, ◌&&◌, ◌||◌, Option, none, some, List, [], ◌∷◌,
  ltb, ◌==◌, if◌then◌else◌,
}
use ldd_samples.Kernel.{Ret, ret, fail, einval}
use ldd_samples.Kernel.Word.{add64, sub64, to_int, extend_int, is_negative64}
use ldd_samples.Kernel.Memory.{Mem, CopyFn}
use ldd_samples.Kernel.Ioctl.{ioc_type, ioc_dir, ioc_size, ioc_write, ioc_read}

-- `#define membuff_size (size_t) (32*PAGE_SIZE)`
abbrev pub membuff_size : ℕ
membuff_size = 32 * 4096

-- `#define LDDIOC_TYPE 'k'`
abbrev pub lddioc_type : ℕ
lddioc_type = b'k'

-- `sizeof (struct ioctl_data)`: an int, padding, a long and 256 characters
abbrev pub ioctl_data_size : ℕ
ioctl_data_size = 272

-- The module's variables. `membuff` and `ioc_data` are memory from the buffer's first byte on,
-- with what lies behind the buffer; `async_queue` holds the files that asked for SIGIO.
pub record Dev : Type 0 where
  pub membuff : Mem
  pub data_ready : Bool
  pub async_queue : List ℕ
  pub ioc_data : Mem
  pub counter : ℕ

-- What a call works on: the device, the caller's memory and the file position.
pub record Call : Type 0 where
  pub dev : Dev
  pub user : Mem
  pub pos : ℕ

-- What a call does to other processes: wakes the sleepers of `wq`, or sends SIGIO to the files of
-- the queue.
pub data Event : Type 0 where
  wake_up : Event
  sigio : List ℕ → Event

-- A read sleeps on, or returns.
pub data Outcome : Type 0 where
  asleep : Outcome
  returned : Call → Ret → Outcome

pub open_dev : Dev → Dev × Ret
open_dev d = (record d { counter = to_int (d.counter + 1) }, ret 0)

-- The file position after a transfer of which `left` of `lbuf` bytes failed, and the `int` that
-- the call returns.
unfoldable pub moved : (lbuf left : ℕ) → ℕ
moved lbuf left = extend_int (to_int (sub64 lbuf left))

module _ (copy_to_user : CopyFn) where
  -- The part of `chardrv_read` behind the wait.
  unfoldable pub read_ready : Call → (buf lbuf : ℕ) → Call × Ret
  unfolding moved
  read_ready c buf lbuf =
      if ltb membuff_size (add64 lbuf c.pos)
      then (c, ret 0)
      else let (user, left) = copy_to_user c.user buf c.dev.membuff c.pos lbuf in
        (record c { user = user; pos = add64 c.pos (moved lbuf left) }, ret (moved lbuf left))

  -- `wait_event_interruptible` ends when `data_ready` is set or a signal is pending, and its
  -- result is not looked at.
  unfoldable pub read : (signal_pending : Bool) → Call → (buf lbuf : ℕ) → Outcome
  unfolding read_ready
  read signal_pending c buf lbuf =
      if not (c.dev.data_ready || signal_pending)
      then asleep
      else let (c', r) =
          read_ready (record c { dev = record (c.dev) { data_ready = false } }) buf lbuf in
        returned c' r

module _ (copy_from_user : CopyFn) where
  unfoldable pub write : Call → (buf lbuf : ℕ) → Call × List Event × Ret
  unfolding moved
  write c buf lbuf =
      if ltb membuff_size (add64 lbuf c.pos)
      then (c, [], ret 0)
      else let (mem, left) = copy_from_user c.dev.membuff c.pos c.user buf lbuf in
        (
          record c {
            dev = record (c.dev) { membuff = mem; data_ready = true };
            pos = add64 c.pos (moved lbuf left);
          },
          wake_up ∷ sigio (c.dev.async_queue) ∷ [],
          ret (moved lbuf left),
        )

-- `ioc_data` and the caller's memory after the call.
module _ (copy_to_user copy_from_user : CopyFn) where
  unfoldable pub unlocked_ioctl : Dev → Mem → (cmd arg : ℕ) → Dev × Mem × Ret
  unlocked_ioctl d user cmd arg =
      if not (ioc_type cmd == lddioc_type)
      then (d, user, fail einval)
      else if ioc_dir cmd == ioc_write
      then (let (mem, rc) = copy_from_user d.ioc_data 0 user arg (ioc_size cmd) in
          (record d { ioc_data = mem }, user, ret rc))
      else if ioc_dir cmd == ioc_read
      then (let (mem, rc) = copy_to_user user arg d.ioc_data 0 (ioc_size cmd) in (d, mem, ret rc))
      else (d, user, fail einval)

-- The position that `offset` and `orig` ask for, before it is clamped.
unfoldable pub seek_target : (f_pos offset orig : ℕ) → Option ℕ
seek_target f_pos offset orig =
    if orig == 0
    then some offset
    else if orig == 1
    then some (add64 f_pos offset)
    else if orig == 2
    then some (add64 membuff_size offset)
    else none

-- `pos < membuff_size` compares a `loff_t` with a `size_t`, so both are read without sign.
unfoldable pub clamp : ℕ → ℕ
clamp pos =
    let low = if ltb pos membuff_size then pos else membuff_size in
    if is_negative64 low then 0 else low

-- The new `file->f_pos`, and the result.
unfoldable pub lseek : (f_pos offset orig : ℕ) → ℕ × Ret
unfolding seek_target clamp
lseek f_pos offset orig = elim (seek_target f_pos offset orig) [
  | none ↦ (f_pos, fail einval)
  | some pos ↦ (clamp pos, ret (clamp pos))
]

-- `POLLIN | POLLRDNORM`
abbrev pub poll_in : ℕ
poll_in = 0x41

pub poll : Dev → ℕ
poll d = if d.data_ready then poll_in else 0

-- `fasync_helper` of the kernel: file descriptor, file, mode and queue, to the new queue and the
-- result.
abbrev pub FasyncFn : Type 0
FasyncFn = (fd file mode : ℕ) → List ℕ → List ℕ × Ret

module _ (fasync_helper : FasyncFn) where
  pub fasync : Dev → (fd file mode : ℕ) → Dev × Ret
  fasync d fd file mode =
      let (queue, r) = fasync_helper fd file mode d.async_queue in
      (record d { async_queue = queue }, r)

  -- `fd` is -1 as an `int`.
  pub release : Dev → (file : ℕ) → Dev × Ret
  unfolding fasync
  release d file = ((fasync d (2 ^ 32 - 1) file 0).0, ret 0)
