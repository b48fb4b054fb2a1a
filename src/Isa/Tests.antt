-- ===== src/Isa/Tests.antt =====
-- Runs of hardware/lab5_silly.c at concrete inputs.
use ldd_samples.Prelude.{
  ℕ, ◌+◌, ◌%◌, ◌^◌, ◌<◌, ◌≡◌, inr, refl, true, Option, none, some, arith, leb, ◌==◌, if◌then◌else◌,
  [], ◌∷◌,
}
use ldd_samples.Kernel.Memory.{Mem, memcpy, whole_copy, whole_copy-IsCopy}
use ldd_samples.Kernel.Slice.{slice, IsWhole}
use ldd_samples.Isa.Access.{IoOps, load, downgrade, write_mode}
use ldd_samples.Isa.Moves.{IsIo, IsBytes}
use ldd_samples.Isa.File.{silly_read, silly_write}
use ldd_samples.Isa.Reading.{IsRead, silly_read-bytes}
use ldd_samples.Isa.Ranges.{silly_write-read}

abbrev io_ops : IoOps
io_ops = record {
  ioread = load;
  iowrite8 = λ v io a i. if i == a then v else io i;
  memcpy_fromio = λ dst io from n. memcpy dst 0 io from n;
  memcpy_toio = λ io to src n. memcpy io to src 0 n;
}

is_io : IsIo io_ops
is_io = record {
  read = λ w io a. refl;
  write = λ v io a i. refl;
  from_io = λ dst io from n i. refl;
  to_io = λ io to src n i. refl;
}

is_whole : IsWhole whole_copy
unfolding whole_copy
is_whole = record { is_copy = whole_copy-IsCopy; whole = λ dst to src from n. refl }

abbrev device : Mem
device a = a % 256

abbrev fresh : Mem
fresh a = 7

abbrev user : Mem
user a = (a + 5) % 256

device-IsBytes : IsBytes device
device-IsBytes a = omega arith

fresh-IsBytes : IsBytes fresh
fresh-IsBytes a = omega arith

user-IsBytes : IsBytes user
user-IsBytes a = omega arith

abbrev kmalloc : ℕ → Option Mem
kmalloc n = if leb n (2 ^ 22) then some fresh else none

-- Four bytes at an aligned position through the minor of 32 bits: one of them is stored.
wide_write_run :
    slice (silly_write io_ops kmalloc whole_copy true 2 user device 8 0 4).io 8 4
    ≡ 5 ∷ 9 ∷ 10 ∷ 11 ∷ []
unfolding slice silly_write whole_copy write_mode downgrade
wide_write_run = refl

silly_read-bytes_example :
    IsRead user device 6 10 3 (silly_read io_ops kmalloc whole_copy 2 user device 6 10 3)
silly_read-bytes_example =
    silly_read-bytes io_ops is_io kmalloc whole_copy is_whole 2 6 10 3 user device fresh
      device-IsBytes (omega arith) (omega arith) (omega arith) refl

silly_write-read_example :
    slice
      (silly_read io_ops kmalloc whole_copy 2 device
        (silly_write io_ops kmalloc whole_copy true 3 user device 8 0 4).io
        8
        20
        4).user
      20
      4
    ≡ slice user 0 4
silly_write-read_example =
    silly_write-read io_ops is_io kmalloc whole_copy whole_copy is_whole is_whole 3 2 8 0 20 4 user
      device device fresh user-IsBytes fresh-IsBytes device-IsBytes (inr refl) (omega arith)
      (omega arith) (omega arith) refl

limit : (n : ℕ) → 2 ^ 22 < n → kmalloc n ≡ none
limit n large = ground arith
