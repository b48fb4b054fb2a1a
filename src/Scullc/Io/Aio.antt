-- ===== src/Scullc/Io/Aio.antt =====
-- The asynchronous case of `scullc_do_read` and `scullc_do_write` (io/lab6_aio.c), where the data
-- moves by `memcpy` and the pointer that `memcpy` returns is taken for a number of bytes left.
use ldd_samples.Prelude.{ℕ, ◌≡◌, Bool, true, false, arith, Option-cases, inl, inr}
use ldd_samples.Kernel.{Ret, ret, fail}
use ldd_samples.Kernel.Word.{sub64, extend_int}
use ldd_samples.Kernel.Memory.{CopyFn}
use ldd_samples.Scullc.Store.{Params, Run, oops, done, Place, locate, follow}
use ldd_samples.Scullc.Store.Locate.{locate-zero}
use ldd_samples.Scullc.Io.{
  Call, Memory, cut, read_quantum, read_found, read_at, do_read, write_item, write_at, do_write,
}

-- A run that returns no number of bytes: it faults or returns an error.
abbrev pub IsRefused : Run (Call × Ret) → Type 0
IsRefused oops = Unit
IsRefused (done (c, ret n)) = ⊥
IsRefused (done (c, fail e)) = Unit

-- A run that returns no bytes: it faults, returns an error, or returns 0.
abbrev pub IsEmpty : Run (Call × Ret) → Type 0
IsEmpty oops = Unit
IsEmpty (done (c, ret n)) = n ≡ 0
IsEmpty (done (c, fail e)) = Unit

module _ (copy : CopyFn) (params : Params) (memory : Memory) where
  write_item-aio :
      (c : Call) (buf count : ℕ) (at : Place)
      → IsRefused (done (write_item copy params true memory c buf count at))
  unfolding write_item
  write_item-aio c buf count at = ground arith

  write_at-aio :
      (c : Call) (buf count : ℕ) (at : Place)
      → IsRefused (write_at copy params true memory c buf count at)
  unfolding write_at
  write_at-aio c buf count at = elim (Option-cases (follow memory.grows at.item c.dev.items)) [
    | inl f ↦ rw (f, write_at) tt
    | inr (items, f) ↦
        rw (f, write_at)
          (write_item-aio (record c { dev = record (c.dev) { items = items } }) buf
            (cut count (sub64 (extend_int c.dev.quantum) (extend_int at.q_pos))) at)
  ]

  -- No asynchronous write ever returns a number of bytes, on any device, at any position, whatever
  -- the kernel answers: it faults or returns an error.
  pub do_write-aio :
      (interrupted : Bool) (c : Call) (buf count : ℕ)
      → IsRefused (do_write copy params true interrupted memory c buf count)
  unfolding do_write
  do_write-aio true c buf count = tt
  do_write-aio false c buf count = elim (Option-cases (locate c.dev.quantum c.dev.qset c.pos)) [
    | inl e ↦ rw e tt
    | inr (at, e) ↦ rw e (write_at-aio c buf count at)
  ]

  -- No asynchronous read ever returns a byte, on any device, at any position, whatever the kernel
  -- answers: it faults, returns an error, or returns 0.
  pub do_read-aio :
      (interrupted : Bool) (c : Call) (buf count : ℕ)
      → IsEmpty (do_read copy true interrupted memory c buf count)
  unfolding do_read read_at read_found read_quantum
  do_read-aio interrupted c buf count = ground arith

  -- With a quantum of 0 every write faults that is not interrupted first.
  pub do_write-zero :
      (aio : Bool) (c : Call) (buf count : ℕ)
      → c.dev.quantum ≡ 0
      → do_write copy params aio false memory c buf count ≡ oops
  unfolding do_write
  do_write-zero aio c buf count zero = rw (zero, locate-zero c.dev.qset c.pos)
