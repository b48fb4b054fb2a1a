-- ===== src/LabChar/Plain.antt =====
-- The entry points of io/lab_char.h against a plain description of a file of fixed size, without machine
-- words but for the sum that a seek goes by, which is that of a `loff_t`.
use ldd_samples.Prelude.{ℕ, ◌+◌, ◌-◌, ◌≤◌, ◌==◌, List, [], ◌∷◌, ltb, if◌then◌else◌, min}
use ldd_samples.Kernel.{Ret, ret, fail, einval}
use ldd_samples.Kernel.Word.{add64, max_rw_count}
use ldd_samples.Kernel.Memory.{CopyFn}
use ldd_samples.LabChar.Calls.{ramdisk_size, Disk, Op, reads, writes, seeks}

-- A read or a write moves what is left of the device, at most what is asked for, less what the copy
-- could not move; a seek goes to a target inside the device, and otherwise to its end.
unfoldable pub plain_read : CopyFn → Disk → ℕ → ℕ → Disk × Ret
plain_read copy d buf lbuf =
    let n = min lbuf (ramdisk_size - d.f_pos) in
    let (user', left) = copy d.user buf d.ramdisk d.f_pos n in
    (record d { user = user'; f_pos = d.f_pos + (n - left) }, ret (n - left))

unfoldable pub plain_write : CopyFn → Disk → ℕ → ℕ → Disk × Ret
plain_write copy d buf lbuf =
    let n = min lbuf (ramdisk_size - d.f_pos) in
    let (ramdisk', left) = copy d.ramdisk d.f_pos d.user buf n in
    (record d { ramdisk = ramdisk'; f_pos = d.f_pos + (n - left) }, ret (n - left))

unfoldable pub target : Disk → ℕ → ℕ → ℕ
target d offset orig =
    if orig == 0
    then offset
    else if orig == 1
    then add64 d.f_pos offset
    else add64 ramdisk_size offset

unfoldable pub plain_seek : Disk → ℕ → ℕ → Disk × Ret
unfolding target
plain_seek d offset orig =
    if ltb orig 3
    then (
      record d { f_pos = min (target d offset orig) ramdisk_size },
      ret (min (target d offset orig) ramdisk_size),
    )
    else (d, fail einval)

module _ (to_user from_user : CopyFn) where
  unfoldable pub plain : Disk → Op → Disk × Ret
  unfolding plain_read plain_write plain_seek
  plain d (reads buf lbuf) = plain_read to_user d buf lbuf
  plain d (writes buf lbuf) = plain_write from_user d buf lbuf
  plain d (seeks offset orig) = plain_seek d offset orig

  unfoldable pub plain_all : Disk → List Op → Disk × List Ret
  unfolding plain
  plain_all d [] = (d, [])
  plain_all d (op ∷ ops) =
      let (d', r) = plain d op in let (last, rs) = plain_all d' ops in (last, r ∷ rs)

-- The lengths that the VFS lets through.
abbrev pub OpsFit : List Op → Type 0
OpsFit [] = Unit
OpsFit (reads buf lbuf ∷ ops) = (lbuf ≤ max_rw_count) × OpsFit ops
OpsFit (writes buf lbuf ∷ ops) = (lbuf ≤ max_rw_count) × OpsFit ops
OpsFit (seeks offset orig ∷ ops) = OpsFit ops
