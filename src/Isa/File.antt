-- ===== src/Isa/File.antt =====
-- `silly_read`, `silly_write`, `silly_init` and `silly_cleanup` of hardware/lab5_silly.c.
use ldd_samples.Prelude.{
  ℕ, ◌^◌, Bool, true, false, ◌&&◌, not, Option, none, some, List, [], ◌∷◌, ltb, ◌==◌, if◌then◌else◌,
}
use ldd_samples.Kernel.{Errno, Ret, ret, fail, enomem, einval, efault, eperm}
use ldd_samples.Kernel.Word.{add64, sub64, to_int, extend_int}
use ldd_samples.Kernel.Memory.{Mem, CopyFn}
use ldd_samples.Kernel.Ledger.{Effect, acquire, release, chrdev_region, io_region}
use ldd_samples.Isa.Access.{IoOps, downgrade, read_mode, write_mode}

-- `ISA_BASE` and `ISA_MAX`
abbrev pub isa_base : ℕ
isa_base = 0xa0000

abbrev pub isa_max : ℕ
isa_max = 0x100000

-- The count that is left of the range. The test `count < 0` that follows in the source never holds: a
-- `size_t` is not negative.
unfoldable pub clamp : (isa_addr count : ℕ) → ℕ
clamp isa_addr count = if ltb isa_max (add64 isa_addr count) then sub64 isa_max isa_addr else count

-- What a call leaves: the memory of the caller and of the device, the position, whether kbuf is still
-- allocated, and the result.
pub record After : Type 0 where
  pub user : Mem
  pub io : Mem
  pub f_pos : ℕ
  pub leaked : Bool
  pub result : Ret

-- A call that fails and changes nothing but what it leaks.
unfoldable pub refused : Bool → Mem → Mem → ℕ → Errno → After
refused leaked user io f_pos e = record {
  user = user;
  io = io;
  f_pos = f_pos;
  leaked = leaked;
  result = fail e;
}

module _ (io_ops : IoOps) (kmalloc : ℕ → Option Mem) where
  module _ (copy_to_user : CopyFn) where
    -- From the end of `switch(mode)` on: `retval` is an `int`, and a fault is added to the position too.
    unfoldable pub finish_read : Mem → Mem → (f_pos buf count : ℕ) → Mem → After
    finish_read user io f_pos buf count kbuf =
        let retval = to_int count in
        let (user', left) = copy_to_user user buf kbuf 0 retval in
        if ltb 0 retval && ltb retval (2 ^ 31)
        then (if left == 0
            then record {
              user = user';
              io = io;
              f_pos = add64 f_pos retval;
              leaked = false;
              result = ret retval;
            }
            else record {
              user = user';
              io = io;
              f_pos = sub64 f_pos 14;
              leaked = false;
              result = fail efault;
            })
        else record {
          user = user;
          io = io;
          f_pos = add64 f_pos (extend_int retval);
          leaked = false;
          result = ret (extend_int retval);
        }

    unfoldable pub read_into : (mode : ℕ) → Mem → Mem → (f_pos buf count : ℕ) → Option Mem → After
    unfolding finish_read
    read_into mode user io f_pos buf count none = refused false user io f_pos enomem
    read_into mode user io f_pos buf count (some kbuf) =
        let isa_addr = add64 isa_base f_pos in
        elim (read_mode io_ops (downgrade mode isa_addr count) io (sub64 isa_addr isa_base) count
          kbuf) [
            | none ↦ refused true user io f_pos einval
            | some kbuf' ↦ finish_read user io f_pos buf count kbuf'
          ]

    unfoldable pub silly_read : (mode : ℕ) → Mem → Mem → (f_pos buf count : ℕ) → After
    unfolding read_into clamp
    silly_read mode user io f_pos buf count =
        let n = clamp (add64 isa_base f_pos) count in read_into mode user io f_pos buf n (kmalloc n)

  module _ (copy_from_user : CopyFn) where
    unfoldable pub write_from : (mode : ℕ) → Mem → Mem → (f_pos buf count : ℕ) → Option Mem → After
    write_from mode user io f_pos buf count none = refused false user io f_pos enomem
    write_from mode user io f_pos buf count (some kbuf) =
        let isa_addr = add64 isa_base f_pos in
        let (kbuf', left) = copy_from_user kbuf 0 user buf count in
        if left == 0
        then elim (write_mode io_ops (downgrade mode isa_addr count) kbuf' (sub64 isa_addr isa_base)
            count io) [
              | none ↦ refused true user io f_pos einval
              | some io' ↦ record {
                user = user;
                io = io';
                f_pos = add64 f_pos (extend_int (to_int count));
                leaked = false;
                result = ret (extend_int (to_int count));
              }
            ]
        else refused false user io f_pos efault

    unfoldable pub silly_write :
        (capable : Bool) → (mode : ℕ) → Mem → Mem → (f_pos buf count : ℕ) → After
    unfolding write_from clamp
    silly_write capable mode user io f_pos buf count =
        let n = clamp (add64 isa_base f_pos) count in
        if not capable
        then refused false user io f_pos eperm
        else write_from mode user io f_pos buf n (kmalloc n)

-- `silly_init`, by what `register_chrdev` returns; the major number is kept where it was given.
unfoldable pub silly_init : (major : ℕ) → (register : Ret) → List Effect × ℕ × Ret
silly_init major (fail e) = ([], major, fail e)
silly_init major (ret n) =
    (acquire chrdev_region ∷ acquire io_region ∷ [], if major == 0 then n else major, ret 0)

unfoldable pub silly_cleanup : List Effect
silly_cleanup = release io_region ∷ release chrdev_region ∷ []
