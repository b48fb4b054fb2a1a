-- ===== src/Isa/Reading.antt =====
-- What a read of hardware/lab5_silly.c gives its caller.
use ldd_samples.Prelude.{
  ℕ, ◌+◌, ◌-◌, ◌*◌, ◌/◌, ◌%◌, ◌^◌, ◌≤◌, ◌<◌, ◌≡◌, ◌≢◌, refl, ap, ◌∙◌, false, ◌&&◌, Option, some,
  arith, ltb, ◌==◌, if-holds, min,
}
use ldd_samples.Kernel.{ret}
use ldd_samples.Kernel.Word.{add64, sub64, to_int}
use ldd_samples.Kernel.Memory.{Mem, CopyFn, memcpy, memcpy-start}
use ldd_samples.Kernel.Slice.{slice, slice-ext, IsWhole, copied-slice}
use ldd_samples.Isa.Access.{IoOps, downgrade, read_loop, read_mode}
use ldd_samples.Isa.Moves.{IsIo, IsBytes, read_loop-bytes, downgrade-fits}
use ldd_samples.Isa.File.{isa_base, clamp, After, finish_read, read_into, silly_read}

-- What the switch leaves in the buffer.
abbrev Reads : Mem → ℕ → ℕ → Mem → Option Mem → Type 0
Reads io add count kbuf o =
    (kbuf' : Mem) × (o ≡ some kbuf') × ((i : ℕ) → kbuf' i ≡ memcpy kbuf 0 io add count i)

module _ (io_ops : IoOps) (is_io : IsIo io_ops) where
  read_mode-Reads :
      (mode : ℕ) (io : Mem) (add count : ℕ) (kbuf : Mem)
      → IsBytes io
      → mode ≤ 3
      → (mode ≡ 2 → count % 4 ≡ 0)
      → (mode ≡ 1 → count % 2 ≡ 0)
      → Reads io add count kbuf (read_mode io_ops mode io add count kbuf)
  unfolding read_mode
  read_mode-Reads mode io add count kbuf bytes small four two =
      if-holds P (mode == 2) _ _
        (λ is_32.
          loop 4 (count / 4) (omega arith) (omega arith)
            (let e = four (ground arith) in omega arith))
        (λ not_32.
          if-holds P (mode == 1) _ _
            (λ is_16.
              loop 2 (count / 2) (omega arith) (omega arith)
                (let e = two (ground arith) in omega arith))
            (λ not_16.
              if-holds P (mode == 0) _ _
                (λ is_8. loop 1 count (omega arith) (omega arith) (omega arith))
                (λ not_8.
                  if-holds P (mode == 3) _ _
                    (λ _. (
                      io_ops.memcpy_fromio kbuf io add count,
                      refl,
                      λ i. is_io.from_io kbuf io add count i,
                    ))
                    (λ other. absurd (out_of_range other not_8 not_16 not_32)))))
    where
      P : Option Mem → Type 0
      P o = Reads io add count kbuf o

      loop :
          (w k : ℕ)
          → w ≢ 0
          → k ≤ count
          → count ≡ k * w
          → P (some (read_loop io_ops count w io add 0 count kbuf))
      loop w k wide fits whole = (
        read_loop io_ops count w io add 0 count kbuf,
        refl,
        λ i. read_loop-bytes io_ops is_io count k w count io add 0 kbuf i bytes wide fits whole,
      )

      out_of_range :
          (mode == 3) ≡ false → (mode == 0) ≡ false → (mode == 1) ≡ false → (mode == 2) ≡ false → ⊥
      out_of_range a b c d = ground arith

-- The count that is left of the range, where the position lies in it.
pub clamp-min :
    (f_pos count : ℕ)
    → f_pos ≤ 0x60000
    → count < 2 ^ 63
    → clamp (add64 isa_base f_pos) count ≡ min count (0x60000 - f_pos)
unfolding clamp
clamp-min f_pos count inside small = ground arith

pub in_range : (f_pos : ℕ) → f_pos ≤ 0x60000 → sub64 (add64 isa_base f_pos) isa_base ≡ f_pos
in_range f_pos inside = omega arith

-- A read that moved `n` bytes.
pub record IsRead (user io : Mem) (f_pos buf n : ℕ) (after : After) : Type 0 where
  pub bytes : slice after.user buf n ≡ slice io f_pos n
  pub result : after.result ≡ ret n
  pub advanced : after.f_pos ≡ f_pos + n
  pub freed : after.leaked ≡ false
  pub kept : after.io ≡ io

finish_read-IsRead :
    (io_ops : IoOps) (kmalloc : ℕ → Option Mem) (copy : CopyFn) (user io kbuf : Mem)
    (f_pos buf n : ℕ)
    → IsWhole copy
    → f_pos + n ≤ 0x60000
    → slice kbuf 0 n ≡ slice io f_pos n
    → IsRead user io f_pos buf n (finish_read io_ops kmalloc copy user io f_pos buf n kbuf)
unfolding finish_read slice
finish_read-IsRead io_ops kmalloc copy user io kbuf f_pos buf n is_whole inside same =
    rw whole_int (
      rw (is_whole.whole user buf kbuf 0 n) (
        if-holds (IsRead user io f_pos buf n) (ltb 0 n && ltb n (2 ^ 31)) _ _
          (λ _. record {
            bytes = copied-slice copy is_whole user kbuf buf 0 n ∙ same;
            result = refl;
            advanced = omega arith;
            freed = refl;
            kept = refl;
          })
          (λ none_left. rw (nothing none_left) (record {
            bytes = refl;
            result = refl;
            advanced = omega arith;
            freed = refl;
            kept = refl;
          }))))
  where
    nothing : (ltb 0 n && ltb n (2 ^ 31)) ≡ false → n ≡ 0
    nothing h = ground arith

    whole_int : to_int n ≡ n
    whole_int = omega arith

-- With the buffer, from the switch on.
read_into-IsRead :
    (io_ops : IoOps) (is_io : IsIo io_ops) (kmalloc : ℕ → Option Mem) (copy : CopyFn)
    (is_whole : IsWhole copy) (mode f_pos buf n : ℕ) (user io kbuf : Mem)
    → IsBytes io
    → mode ≤ 3
    → f_pos + n ≤ 0x60000
    → IsRead user io f_pos buf n
        (read_into io_ops kmalloc copy mode user io f_pos buf n (some kbuf))
unfolding read_into
read_into-IsRead io_ops is_io kmalloc copy is_whole mode f_pos buf n user io kbuf bytes known
      inside =
    let add : ℕ = sub64 (add64 isa_base f_pos) isa_base in
    let fits = downgrade-fits io_ops is_io mode (add64 isa_base f_pos) n known in
    let (kbuf', found, copied) =
      read_mode-Reads io_ops is_io (downgrade mode (add64 isa_base f_pos) n) io add n kbuf bytes
        fits.0 fits.1 fits.2 in
    rw (read_into, found)
      (finish_read-IsRead io_ops kmalloc copy user io kbuf' f_pos buf n is_whole inside (
        slice-ext kbuf' io 0 f_pos n (λ i small.
          copied (0 + i) ∙ memcpy-start kbuf io add n (0 + i) ∙ ground (arith, ap io (place i)))))
  where
    place : (i : ℕ) → sub64 (add64 isa_base f_pos) isa_base + (0 + i) ≡ f_pos + i
    place i = ap (λ a. a + (0 + i)) (in_range f_pos (omega arith)) ∙ omega arith

-- A read through a minor 0 to 3 at a position in the range of the ISA memory, where the kernel has the
-- buffer and the copy meets no fault: whatever the minor and the alignment, the caller gets the bytes of
-- the device from the position on, as many as it asked for and the range has left; the position advances
-- by them, the device is as before and the buffer is freed.
pub silly_read-bytes :
    (io_ops : IoOps) (is_io : IsIo io_ops) (kmalloc : ℕ → Option Mem) (copy : CopyFn)
    (is_whole : IsWhole copy) (mode f_pos buf count : ℕ) (user io kbuf : Mem)
    → IsBytes io
    → mode ≤ 3
    → f_pos ≤ 0x60000
    → count < 2 ^ 63
    → kmalloc (min count (0x60000 - f_pos)) ≡ some kbuf
    → IsRead user io f_pos buf
        (min count (0x60000 - f_pos))
        (silly_read io_ops kmalloc copy mode user io f_pos buf count)
unfolding silly_read
silly_read-bytes io_ops is_io kmalloc copy is_whole mode f_pos buf count user io kbuf bytes known
      inside small has =
    rw (clamp-min f_pos count inside small, has)
      (read_into-IsRead io_ops is_io kmalloc copy is_whole mode f_pos buf
        (min count (0x60000 - f_pos)) user io kbuf bytes known (omega arith))
