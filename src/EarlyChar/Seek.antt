-- ===== src/EarlyChar/Seek.antt =====
-- The file operations of char/lab4_char_seek.c.
use ldd_samples.Prelude.{ℕ, ◌+◌, ◌*◌, Option, none, some, ltb, ◌==◌, not, if◌then◌else◌}
use ldd_samples.Kernel.{Ret, ret, fail, einval}
use ldd_samples.Kernel.Word.{add64, sub64, to_int, extend_int, is_negative64}
use ldd_samples.Kernel.Memory.{Mem, CopyFn}
use ldd_samples.Kernel.Ioctl.{ioc_type, ioc_dir, ioc_size, ioc_write, ioc_read}

-- `membuff_size`, with pages of 4096 bytes
abbrev pub membuff_size : ℕ
membuff_size = 32 * 4096

-- `membuff`, `ioc_data` and the `counter` of the open.
pub record Dev : Type 0 where
  pub membuff : Mem
  pub ioc_data : Mem
  pub counter : ℕ

pub record Call : Type 0 where
  pub dev : Dev
  pub user : Mem
  pub pos : ℕ

pub open_dev : Dev → Dev × Ret
open_dev d = (record d { counter = to_int (d.counter + 1) }, ret 0)

pub release : Dev → Dev × Ret
release d = (d, ret 0)

-- `rbytes` and `wbytes`: the bytes moved of `lbuf`, through an `int`.
unfoldable pub moved : (lbuf left : ℕ) → ℕ
moved lbuf left = extend_int (to_int (sub64 lbuf left))

unfoldable pub read : CopyFn → Call → (buf lbuf : ℕ) → Call × Ret
unfolding moved
read copy_to_user c buf lbuf =
    if ltb membuff_size (add64 lbuf c.pos)
    then (c, ret 0)
    else let (user, left) = copy_to_user c.user buf c.dev.membuff c.pos lbuf in
      (record c { user = user; pos = add64 c.pos (moved lbuf left) }, ret (moved lbuf left))

unfoldable pub write : CopyFn → Call → (buf lbuf : ℕ) → Call × Ret
unfolding moved
write copy_from_user c buf lbuf =
    if ltb membuff_size (add64 lbuf c.pos)
    then (c, ret 0)
    else let (mem, left) = copy_from_user c.dev.membuff c.pos c.user buf lbuf in
      (
        record c { dev = record (c.dev) { membuff = mem }; pos = add64 c.pos (moved lbuf left) },
        ret (moved lbuf left),
      )

-- The device, the caller's memory and the result.
unfoldable pub unlocked_ioctl :
    (copy_to_user copy_from_user : CopyFn) → Dev → Mem → (cmd arg : ℕ) → Dev × Mem × Ret
unlocked_ioctl copy_to_user copy_from_user d user cmd arg =
    if not (ioc_type cmd == b'k')
    then (d, user, fail einval)
    else if ioc_dir cmd == ioc_write
    then (let (mem, rc) = copy_from_user d.ioc_data 0 user arg (ioc_size cmd) in
        (record d { ioc_data = mem }, user, ret rc))
    else if ioc_dir cmd == ioc_read
    then (let (mem, rc) = copy_to_user user arg d.ioc_data 0 (ioc_size cmd) in (d, mem, ret rc))
    else (d, user, fail einval)

-- The `switch` of `chardrv_lseek`.
unfoldable pub seek_target : (f_pos offset orig : ℕ) → Option ℕ
seek_target f_pos offset orig =
    if orig == 0
    then some offset
    else if orig == 1
    then some (add64 f_pos offset)
    else if orig == 2
    then some (add64 membuff_size offset)
    else none

-- The two clamps behind it; the first compares without sign.
unfoldable pub clamp : ℕ → ℕ
clamp pos =
    let low = if ltb pos membuff_size then pos else membuff_size in
    if is_negative64 low then 0 else low

unfoldable pub lseek : (f_pos offset orig : ℕ) → ℕ × Ret
unfolding seek_target clamp
lseek f_pos offset orig = elim (seek_target f_pos offset orig) [
  | none ↦ (f_pos, fail einval)
  | some pos ↦ (clamp pos, ret (clamp pos))
]
