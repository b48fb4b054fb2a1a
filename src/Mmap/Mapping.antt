-- ===== src/Mmap/Mapping.antt =====
-- `chrdrv_mmap` and `chardrv_unlocked_ioctl` of io/lab3_mmap.c. Its read, write and lseek are those of
-- char/lab4_char_seek.c (EarlyChar/Seek).
use ldd_samples.Prelude.{
  ℕ, ◌+◌, ◌*◌, ◌/◌, ◌%◌, ◌^◌, Bool, Option, none, some, leb, ltb, ◌==◌, if◌then◌else◌,
}
use ldd_samples.Kernel.{Ret, ret, fail, einval, eagain, efault}
use ldd_samples.Kernel.Word.{sub64}
use ldd_samples.Kernel.Memory.{Mem, CopyFn}

-- `membuff_size`, with pages of 4096 bytes
abbrev pub membuff_size : ℕ
membuff_size = 32 * 4096

-- The part of `struct vm_area_struct` that the driver reads.
pub record Vma : Type 0 where
  pub vm_start : ℕ
  pub vm_end : ℕ
  pub vm_pgoff : ℕ

-- What `remap_pfn_range` sets up: `len` bytes from `start` on stand for the pages from `pfn` on.
pub record Mapping : Type 0 where
  pub start : ℕ
  pub pfn : ℕ
  pub len : ℕ

-- `vm_pgoff << PAGE_SHIFT` and the length, as `unsigned long`s
abbrev pub offset_of : Vma → ℕ
offset_of v = v.vm_pgoff * 4096 % 2 ^ 64

abbrev pub len_of : Vma → ℕ
len_of v = sub64 v.vm_end v.vm_start

-- `phys` is the physical address of `membuff`, and `remapped` says whether `remap_pfn_range` succeeds.
unfoldable pub mmap : (phys : ℕ) (remapped : Bool) → Vma → Option Mapping × Ret
mmap phys remapped v =
    if leb membuff_size (offset_of v)
    then (none, fail einval)
    else if ltb (sub64 membuff_size (offset_of v)) (len_of v)
    then (none, fail einval)
    else if remapped
    then (
      some (record { start = v.vm_start; pfn = (phys + offset_of v) / 4096; len = len_of v }),
      ret 0,
    )
    else (none, fail eagain)

-- The bytes of an `unsigned long`.
abbrev pub long_bytes : ℕ → Mem
long_bytes x i = x / 256 ^ i % 256

-- `MMAP_DEV_CMD_GET_BUFSIZE` is 1.
unfoldable pub unlocked_ioctl : CopyFn → Mem → (cmd arg : ℕ) → Mem × Ret
unlocked_ioctl copy_to_user user cmd arg =
    if cmd == 1
    then (let (user', left) = copy_to_user user arg (long_bytes membuff_size) 0 8 in
        (user', if left == 0 then ret 0 else fail efault))
    else (user, fail einval)
