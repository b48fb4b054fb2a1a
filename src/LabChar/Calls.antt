-- ===== src/LabChar/Calls.antt =====
-- `mycdrv_generic_read`, `mycdrv_generic_write` and `mycdrv_generic_lseek` of io/lab_char.h.
use ldd_samples.Prelude.{ℕ, ◌*◌, ◌==◌, List, [], ◌∷◌, ltb, if◌then◌else◌}
use ldd_samples.Kernel.{Ret, ret, fail, einval}
use ldd_samples.Kernel.Word.{add64, sub64, is_negative64, to_int, extend_int}
use ldd_samples.Kernel.Memory.{Mem, CopyFn}

-- `ramdisk_size`, with pages of 4096 bytes
abbrev pub ramdisk_size : ℕ
ramdisk_size = 16 * 4096

-- The memory of the device and of the caller, and the position of the file.
pub record Disk : Type 0 where
  pub ramdisk : Mem
  pub user : Mem
  pub f_pos : ℕ

-- `maxbytes` is an `int`, and is compared with `lbuf` as a `size_t`.
unfoldable pub bytes_to_do : (ppos lbuf : ℕ) → ℕ
bytes_to_do ppos lbuf =
    let maxbytes = to_int (sub64 ramdisk_size ppos) in
    if ltb lbuf (extend_int maxbytes) then to_int lbuf else maxbytes

-- `nbytes`, from `bytes_to_do` and what the copy left over.
unfoldable pub nbytes : (bytes left : ℕ) → ℕ
nbytes bytes left = to_int (sub64 (extend_int bytes) left)

unfoldable pub generic_read : CopyFn → Disk → (buf lbuf : ℕ) → Disk × Ret
unfolding bytes_to_do nbytes
generic_read copy_to_user d buf lbuf =
    let bytes = bytes_to_do d.f_pos lbuf in
    let (user', left) = copy_to_user d.user buf d.ramdisk d.f_pos (extend_int bytes) in
    (
      record d { user = user'; f_pos = add64 d.f_pos (extend_int (nbytes bytes left)) },
      ret (extend_int (nbytes bytes left)),
    )

unfoldable pub generic_write : CopyFn → Disk → (buf lbuf : ℕ) → Disk × Ret
unfolding bytes_to_do nbytes
generic_write copy_from_user d buf lbuf =
    let bytes = bytes_to_do d.f_pos lbuf in
    let (ramdisk', left) = copy_from_user d.ramdisk d.f_pos d.user buf (extend_int bytes) in
    (
      record d { ramdisk = ramdisk'; f_pos = add64 d.f_pos (extend_int (nbytes bytes left)) },
      ret (extend_int (nbytes bytes left)),
    )

-- From the two conditional expressions on: the first compares a `loff_t` with a `size_t`.
unfoldable pub seek_to : Disk → (testpos : ℕ) → Disk × Ret
seek_to d testpos =
    let capped = if ltb testpos ramdisk_size then testpos else ramdisk_size in
    let pos = if is_negative64 capped then 0 else capped in (record d { f_pos = pos }, ret pos)

unfoldable pub generic_lseek : Disk → (offset orig : ℕ) → Disk × Ret
unfolding seek_to
generic_lseek d offset orig =
    if orig == 0
    then seek_to d offset
    else if orig == 1
    then seek_to d (add64 d.f_pos offset)
    else if orig == 2
    then seek_to d (add64 ramdisk_size offset)
    else (d, fail einval)

-- The calls on an open file, one after the other, with their results.
pub data Op : Type 0 where
  reads : (buf lbuf : ℕ) → Op
  writes : (buf lbuf : ℕ) → Op
  seeks : (offset orig : ℕ) → Op

module _ (to_user from_user : CopyFn) where
  unfoldable pub perform : Disk → Op → Disk × Ret
  unfolding generic_read generic_write generic_lseek
  perform d (reads buf lbuf) = generic_read to_user d buf lbuf
  perform d (writes buf lbuf) = generic_write from_user d buf lbuf
  perform d (seeks offset orig) = generic_lseek d offset orig

  unfoldable pub perform_all : Disk → List Op → Disk × List Ret
  unfolding perform
  perform_all d [] = (d, [])
  perform_all d (op ∷ ops) =
      let (d', r) = perform d op in let (last, rs) = perform_all d' ops in (last, r ∷ rs)
