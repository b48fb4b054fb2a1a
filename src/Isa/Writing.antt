-- ===== src/Isa/Writing.antt =====
-- What a write of hardware/lab5_silly.c stores in the device.
use ldd_samples.Prelude.{
  ℕ, ◌+◌, ◌-◌, ◌*◌, ◌/◌, ◌%◌, ◌^◌, ◌≤◌, ◌<◌, ◌≡◌, ◌≢◌, inl, inr, Bool-cases, refl, ap, ◌∙◌, true,
  false, Option, some, arith, ltb, ◌==◌, if◌then◌else◌, if-holds, min,
}
use ldd_samples.Kernel.{ret}
use ldd_samples.Kernel.Word.{add64, sub64, to_int, extend_int}
use ldd_samples.Kernel.Memory.{Mem, CopyFn, memcpy}
use ldd_samples.Kernel.Slice.{IsWhole}
use ldd_samples.Isa.Access.{IoOps, downgrade, write_loop, write_mode}
use ldd_samples.Isa.Moves.{IsIo, IsBytes, strided, write_loop-bytes, downgrade-fits}
use ldd_samples.Isa.File.{isa_base, After, write_from, silly_write}
use ldd_samples.Isa.Reading.{clamp-min, in_range}

-- At how many bytes of distance a mode stores a byte: the `u16` and the `u32` of a wide one are cut to
-- a `u8` on the way to `iowrite8`.
abbrev pub stride : ℕ → ℕ
stride mode = if mode == 2 then 4 else if mode == 1 then 2 else 1

abbrev Writes : ℕ → Mem → Mem → ℕ → ℕ → Option Mem → Type 0
Writes w kbuf io add count o =
    (io' : Mem) × (o ≡ some io') × ((i : ℕ) → io' i ≡ strided w io add kbuf 0 count i)

strided-memcpy :
    (io kbuf : Mem) (add n i : ℕ) → memcpy io add kbuf 0 n i ≡ strided 1 io add kbuf 0 n i
unfolding memcpy strided
strided-memcpy io kbuf add n i = let each : (i - add) % 1 ≡ 0 = omega arith in ground (arith, each)

module _ (io_ops : IoOps) (is_io : IsIo io_ops) where
  write_mode-Writes :
      (mode : ℕ) (kbuf io : Mem) (add count : ℕ)
      → IsBytes kbuf
      → mode ≤ 3
      → (mode ≡ 2 → count % 4 ≡ 0)
      → (mode ≡ 1 → count % 2 ≡ 0)
      → Writes (stride mode) kbuf io add count (write_mode io_ops mode kbuf add count io)
  unfolding write_mode
  write_mode-Writes mode kbuf io add count bytes small four two =
      if-holds P (mode == 2) _ _
        (λ is_32. rw is_32 (
          loop 4 (count / 4) (omega arith) (omega arith)
            (let e = four (ground arith) in omega arith)))
        (λ not_32.
          if-holds P (mode == 1) _ _
            (λ is_16.
              rw (not_32, is_16)
                (loop 2 (count / 2) (omega arith) (omega arith)
                  (let e = two (ground arith) in omega arith)))
            (λ not_16.
              if-holds P (mode == 0) _ _
                (λ is_8.
                  rw (not_32, not_16) (loop 1 count (omega arith) (omega arith) (omega arith)))
                (λ not_8.
                  if-holds P (mode == 3) _ _
                    (λ _.
                      rw (not_32, not_16)
                        (
                          io_ops.memcpy_toio io add kbuf count,
                          refl,
                          λ i. is_io.to_io io add kbuf count i ∙ strided-memcpy io kbuf add count i,
                        ))
                    (λ other. absurd (out_of_range other not_8 not_16 not_32)))))
    where
      P : Option Mem → Type 0
      P o = Writes (stride mode) kbuf io add count o

      loop :
          (w k : ℕ)
          → w ≢ 0
          → k ≤ count
          → count ≡ k * w
          → Writes w kbuf io add count (some (write_loop io_ops count w kbuf add 0 count io))
      loop w k wide fits whole = (
        write_loop io_ops count w kbuf add 0 count io,
        refl,
        λ i. write_loop-bytes io_ops is_io count k w count kbuf add 0 io i bytes wide fits whole,
      )

      out_of_range :
          (mode == 3) ≡ false → (mode == 0) ≡ false → (mode == 1) ≡ false → (mode == 2) ≡ false → ⊥
      out_of_range a b c d = ground arith

-- Only the bytes of the range matter.
strided-ext :
    (w : ℕ) (io src src' : Mem) (add from from' n i : ℕ)
    → ((j : ℕ) → j < n → src (from + j) ≡ src' (from' + j))
    → strided w io add src from n i ≡ strided w io add src' from' n i
unfolding strided
strided-ext w io src src' add from from' n i same =
    let there : add ≤ i → i < add + n → src (from + (i - add)) ≡ src' (from' + (i - add)) =
      λ above below. same (i - add) (omega arith) in
    ground (arith, there)

-- A write of `n` bytes that stores each byte `w` apart.
pub record IsWritten (w : ℕ) (user io : Mem) (f_pos buf n : ℕ) (after : After) : Type 0 where
  pub bytes : (i : ℕ) → after.io i ≡ strided w io f_pos user buf n i
  pub result : after.result ≡ ret n
  pub advanced : after.f_pos ≡ f_pos + n
  pub freed : after.leaked ≡ false
  pub kept : after.user ≡ user

copied-IsBytes :
    (copy : CopyFn) (user kbuf : Mem) (buf n : ℕ)
    → IsWhole copy
    → IsBytes user
    → IsBytes kbuf
    → IsBytes (copy kbuf 0 user buf n).0
copied-IsBytes copy user kbuf buf n is_whole bytes fresh a = elim (Bool-cases (ltb a n)) [
  | inl inside ↦
      rw
        (is_whole.is_copy.copied kbuf 0 user buf n a (omega arith)
          (rw (is_whole.whole kbuf 0 user buf n) (ground arith)))
        (bytes (buf + (a - 0)))
  | inr outside ↦ rw (is_whole.is_copy.frame kbuf 0 user buf n a (inr (ground arith))) (fresh a)
]

write_from-IsWritten :
    (io_ops : IoOps) (is_io : IsIo io_ops) (kmalloc : ℕ → Option Mem) (copy : CopyFn)
    (is_whole : IsWhole copy) (mode f_pos buf n : ℕ) (user io kbuf : Mem)
    → IsBytes user
    → IsBytes kbuf
    → mode ≤ 3
    → f_pos + n ≤ 0x60000
    → IsWritten
        (stride (downgrade mode (add64 isa_base f_pos) n))
        user
        io
        f_pos
        buf
        n
        (write_from io_ops kmalloc copy mode user io f_pos buf n (some kbuf))
unfolding write_from
write_from-IsWritten io_ops is_io kmalloc copy is_whole mode f_pos buf n user io kbuf bytes fresh
      known inside =
    let add : ℕ = sub64 (add64 isa_base f_pos) isa_base in
    let kbuf' : Mem = (copy kbuf 0 user buf n).0 in
    let w : ℕ = stride (downgrade mode (add64 isa_base f_pos) n) in
    let fits = downgrade-fits io_ops is_io mode (add64 isa_base f_pos) n known in
    let (io', found, stored) =
      write_mode-Writes io_ops is_io (downgrade mode (add64 isa_base f_pos) n) kbuf' io add n
        (copied-IsBytes copy user kbuf buf n is_whole bytes fresh) fits.0 fits.1 fits.2 in
    rw (write_from, is_whole.whole kbuf 0 user buf n, found)
      (record {
        bytes = λ i.
            stored i
            ∙ ap (λ a. strided w io a kbuf' 0 n i) (in_range f_pos (omega arith))
            ∙ strided-ext w io kbuf' user f_pos 0 buf n i (λ j small.
              is_whole.is_copy.copied kbuf 0 user buf n (0 + j) (omega arith)
                (rw (is_whole.whole kbuf 0 user buf n) (omega arith))
              ∙ ap user (back j));
        result = ap ret whole_int;
        advanced = ap (λ k. add64 f_pos k) whole_int ∙ omega arith;
        freed = refl;
        kept = refl;
      })
  where
    back : (j : ℕ) → buf + (0 + j - 0) ≡ buf + j
    back j = omega arith

    whole_int : extend_int (to_int n) ≡ n
    whole_int = ground arith

-- A write through a minor 0 to 3 at a position in the range of the ISA memory, by a caller who may, where
-- the kernel has the buffer and the copy meets no fault: the position advances by the count that the range
-- has left, and that is returned; of the caller's bytes, every one is stored where the transfer goes by
-- bytes, and only every second or fourth where it goes by 16 or 32 bits; the rest of the device is as
-- before.
pub silly_write-bytes :
    (io_ops : IoOps) (is_io : IsIo io_ops) (kmalloc : ℕ → Option Mem) (copy : CopyFn)
    (is_whole : IsWhole copy) (mode f_pos buf count : ℕ) (user io kbuf : Mem)
    → IsBytes user
    → IsBytes kbuf
    → mode ≤ 3
    → f_pos ≤ 0x60000
    → count < 2 ^ 63
    → kmalloc (min count (0x60000 - f_pos)) ≡ some kbuf
    → let n = min count (0x60000 - f_pos) in
      IsWritten
        (stride (downgrade mode (add64 isa_base f_pos) n))
        user
        io
        f_pos
        buf
        n
        (silly_write io_ops kmalloc copy true mode user io f_pos buf count)
unfolding silly_write
silly_write-bytes io_ops is_io kmalloc copy is_whole mode f_pos buf count user io kbuf bytes fresh
      known inside small has =
    rw (clamp-min f_pos count inside small, has)
      (write_from-IsWritten io_ops is_io kmalloc copy is_whole mode f_pos buf
        (min count (0x60000 - f_pos)) user io kbuf bytes fresh known (omega arith))
