-- ===== src/Isa/Ranges.antt =====
-- A write of hardware/lab5_silly.c that is read back, and positions outside of the ISA memory.
use ldd_samples.Prelude.{
  ℕ, ◌+◌, ◌-◌, ◌%◌, ◌^◌, ◌≤◌, ◌<◌, ◌≡◌, ◌⊎◌, refl, ap, ◌∙◌, true, false, Option, none, some, arith,
  if-holds, min,
}
use ldd_samples.Kernel.{enomem}
use ldd_samples.Kernel.Word.{add64}
use ldd_samples.Kernel.Memory.{Mem, CopyFn}
use ldd_samples.Kernel.Slice.{slice, slice-ext, IsWhole}
use ldd_samples.Isa.Access.{IoOps, downgrade}
use ldd_samples.Isa.Moves.{IsIo, IsBytes, strided}
use ldd_samples.Isa.File.{
  isa_base, clamp, After, refused, read_into, write_from, silly_read, silly_write,
}
use ldd_samples.Isa.Reading.{silly_read-bytes}
use ldd_samples.Isa.Writing.{stride, silly_write-bytes}

strided-IsBytes :
    (io src : Mem) (add from n : ℕ)
    → IsBytes io
    → IsBytes src
    → IsBytes (strided 1 io add src from n)
unfolding strided
strided-IsBytes io src add from n old new i =
    if-holds (λ (b : ℕ). b < 256) _ _ _ (λ _. new (from + (i - add))) (λ _. old i)

strided-slice :
    (io src : Mem) (add from n : ℕ) → slice (strided 1 io add src from n) add n ≡ slice src from n
unfolding strided
strided-slice io src add from n = slice-ext (strided 1 io add src from n) src add from n (λ i small.
    let each : (add + i - add) % 1 ≡ 0 = omega arith in
    let place : src (from + (add + i - add)) ≡ src (from + i) = ap src (omega arith) in
    ground (arith, each, place))

stride-one :
    (mode isa_addr n : ℕ)
    → (mode ≡ 0) ⊎ (mode ≡ 3)
    → (stride (downgrade mode isa_addr n) ≡ 1) × (mode ≤ 3)
unfolding downgrade
stride-one mode isa_addr n by_bytes = ground arith

-- A write through minor 0 or 3 and a read through any minor 0 to 3, of the same position in the range and
-- the same count, where both have their buffers and no copy meets a fault: the reader gets the bytes that
-- the writer gave, as many as the range has room for.
pub silly_write-read :
    (io_ops : IoOps) (is_io : IsIo io_ops) (kmalloc : ℕ → Option Mem) (to_user from_user : CopyFn)
    (to_whole : IsWhole to_user) (from_whole : IsWhole from_user)
    (mode reader f_pos buf buf' count : ℕ) (user user' io kbuf : Mem)
    → IsBytes user
    → IsBytes kbuf
    → IsBytes io
    → (mode ≡ 0) ⊎ (mode ≡ 3)
    → reader ≤ 3
    → f_pos ≤ 0x60000
    → count < 2 ^ 63
    → kmalloc (min count (0x60000 - f_pos)) ≡ some kbuf
    → let written = silly_write io_ops kmalloc from_user true mode user io f_pos buf count in
      slice
        (silly_read io_ops kmalloc to_user reader user' written.io f_pos buf' count).user
        buf'
        (min count (0x60000 - f_pos))
      ≡ slice user buf (min count (0x60000 - f_pos))
silly_write-read io_ops is_io kmalloc to_user from_user to_whole from_whole mode reader f_pos buf
      buf' count user user' io kbuf bytes fresh old by_bytes known inside small has =
    let n : ℕ = min count (0x60000 - f_pos) in
    let one = stride-one mode (add64 isa_base f_pos) n by_bytes in
    let written : After = silly_write io_ops kmalloc from_user true mode user io f_pos buf count in
    let w =
      silly_write-bytes io_ops is_io kmalloc from_user from_whole mode f_pos buf count user io kbuf
        bytes fresh one.1 inside small has in
    let stored : (i : ℕ) → written.io i ≡ strided 1 io f_pos user buf n i =
      λ i. w.bytes i ∙ ap (λ k. strided k io f_pos user buf n i) one.0 in
    let r =
      silly_read-bytes io_ops is_io kmalloc to_user to_whole reader f_pos buf' count user'
        written.io kbuf (λ a. rw (stored a) (strided-IsBytes io user f_pos buf n old bytes a)) known
        inside small has in
    r.bytes
    ∙ slice-ext written.io (strided 1 io f_pos user buf n) f_pos f_pos n
        (λ i below. stored (f_pos + i))
    ∙ strided-slice io user f_pos buf n

clamp-wraps :
    (f_pos count : ℕ)
    → 0x60000 < f_pos
    → f_pos < 2 ^ 63
    → count < 2 ^ 31
    → 2 ^ 22 < clamp (add64 isa_base f_pos) count
unfolding clamp
clamp-wraps f_pos count beyond signed small = ground arith

-- At a position past the range, where the kernel has no buffer of more than 4 MB to give, a read and a write
-- of up to 2 ^ 31 bytes return -ENOMEM and change nothing: the count that is left wraps round to one of
-- more than 2 ^ 63, and no test finds it negative.
pub beyond-refused :
    (io_ops : IoOps) (kmalloc : ℕ → Option Mem) (to_user from_user : CopyFn)
    (mode f_pos buf count : ℕ) (user io : Mem)
    → ((n : ℕ) → 2 ^ 22 < n → kmalloc n ≡ none)
    → 0x60000 < f_pos
    → f_pos < 2 ^ 63
    → count < 2 ^ 31
    → (silly_read io_ops kmalloc to_user mode user io f_pos buf count
        ≡ refused false user io f_pos enomem)
      × (silly_write io_ops kmalloc from_user true mode user io f_pos buf count
          ≡ refused false user io f_pos enomem)
unfolding silly_read silly_write read_into write_from
beyond-refused io_ops kmalloc to_user from_user mode f_pos buf count user io limit beyond signed
      small =
    let no_room : kmalloc (clamp (add64 isa_base f_pos) count) ≡ none =
      limit (clamp (add64 isa_base f_pos) count) (clamp-wraps f_pos count beyond signed small) in
    (rw (silly_read, no_room) refl, rw (silly_write, no_room) refl)
