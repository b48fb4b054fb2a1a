-- ===== src/EarlyChar/Poll.antt =====
-- The file operations of char/lab5_char_poll.c.
use ldd_samples.Prelude.{
  ℕ, ◌+◌, ◌*◌, Bool, true, false, Option, none, some, ltb, ◌==◌, ◌||◌, not, if◌then◌else◌,
}
use ldd_samples.Kernel.{Ret, ret, fail, einval}
use ldd_samples.Kernel.Word.{add64, sub64, to_int, extend_int, is_negative64}
use ldd_samples.Kernel.Memory.{Mem, CopyFn}
use ldd_samples.Kernel.Ioctl.{ioc_type, ioc_dir, ioc_size, ioc_write, ioc_read}

-- `membuff_size`, with pages of 4096 bytes
abbrev pub membuff_size : ℕ
membuff_size = 32 * 4096

pub record Dev : Type 0 where
  pub membuff : Mem
  pub data_ready : Bool
  pub ioc_data : Mem
  pub counter : ℕ

pub record Call : Type 0 where
  pub dev : Dev
  pub user : Mem
  pub pos : ℕ

-- A read sleeps on, or returns.
pub data Outcome : Type 0 where
  asleep : Outcome
  returned : Call → Ret → Outcome

pub open_dev : Dev → Dev × Ret
open_dev d = (record d { counter = to_int (d.counter + 1) }, ret 0)

pub release : Dev → Dev × Ret
release d = (d, ret 0)

unfoldable pub moved : (lbuf left : ℕ) → ℕ
moved lbuf left = extend_int (to_int (sub64 lbuf left))

-- `chardrv_read` behind its wait.
unfoldable pub read_ready : CopyFn → Call → (buf lbuf : ℕ) → Call × Ret
unfolding moved
read_ready copy_to_user c buf lbuf =
    if ltb membuff_size (add64 lbuf c.pos)
    then (c, ret 0)
    else let (user, left) = copy_to_user c.user buf c.dev.membuff c.pos lbuf in
      (record c { user = user; pos = add64 c.pos (moved lbuf left) }, ret (moved lbuf left))

-- `data_ready` or a signal ends the wait, and neither is told from the other.
unfoldable pub read : CopyFn → (signal_pending : Bool) → Call → (buf lbuf : ℕ) → Outcome
unfolding read_ready
read copy_to_user signal_pending c buf lbuf =
    if not (c.dev.data_ready || signal_pending)
    then asleep
    else let (c', r) =
        read_ready copy_to_user (record c { dev = record (c.dev) { data_ready = false } }) buf
          lbuf in
      returned c' r

-- With the number of times that it wakes the readers.
unfoldable pub write : CopyFn → Call → (buf lbuf : ℕ) → Call × ℕ × Ret
unfolding moved
write copy_from_user c buf lbuf =
    if ltb membuff_size (add64 lbuf c.pos)
    then (c, 0, ret 0)
    else let (mem, left) = copy_from_user c.dev.membuff c.pos c.user buf lbuf in
      (
        record c {
          dev = record (c.dev) { membuff = mem; data_ready = true };
          pos = add64 c.pos (moved lbuf left);
        },
        1,
        ret (moved lbuf left),
      )

unfoldable pub unlocked_ioctl :
    (copy_to_user copy_from_user : CopyFn) → Dev → Mem → (cmd arg : ℕ) → Dev × Mem × Ret
unlocked_ioctl copy_to_user copy_from_user d user cmd arg =
    if not (ioc_type cmd == b'k')
    then (d, user, fail einval)
    else if ioc_dir cmd == ioc_write
    then (let (mem, rc) = copy_from_user d.ioc_data 0 user arg (ioc_size cmd) in
        (record d { ioc_data = mem }, user, ret rc))
    else if ioc_dir cmd == ioc_read
    then (let (mem, rc) = copy_to_user user arg d.ioc_data 0 (ioc_size cmd) in (d, mem, ret rc))
    else (d, user, fail einval)

unfoldable pub seek_target : (f_pos offset orig : ℕ) → Option ℕ
seek_target f_pos offset orig =
    if orig == 0
    then some offset
    else if orig == 1
    then some (add64 f_pos offset)
    else if orig == 2
    then some (add64 membuff_size offset)
    else none

unfoldable pub clamp : ℕ → ℕ
clamp pos =
    let low = if ltb pos membuff_size then pos else membuff_size in
    if is_negative64 low then 0 else low

unfoldable pub lseek : (f_pos offset orig : ℕ) → ℕ × Ret
unfolding seek_target clamp
lseek f_pos offset orig = elim (seek_target f_pos offset orig) [
  | none ↦ (f_pos, fail einval)
  | some pos ↦ (clamp pos, ret (clamp pos))
]

-- `POLLIN | POLLRDNORM`, or nothing.
unfoldable pub poll : Dev → ℕ
poll d = if d.data_ready then 0x41 else 0
