-- ===== src/Scullc/Defer.antt =====
-- `scullc_defer_op`, `scullc_do_deferred_op`, `scullc_read_iter` and `scullc_write_iter` of
-- io/lab6_aio.c. The caller's memory is that of the iterator, from its first byte on.
use ldd_samples.Prelude.{
  ℕ, ◌+◌, ◌-◌, ◌^◌, ◌≤◌, ◌<◌, ◌≡◌, ◌∙◌, refl, Bool, true, false, Option, none, some, arith, not,
  if◌then◌else◌, min, ltb, Bool-cases, inl, inr,
}
use ldd_samples.Kernel.{
  Ret, ret, fail, Errno, eperm, einval, enomem, efault, eagain, enotty, ebusy, enodev, eio,
  restartsys, iocbqueued, noioctlcmd, epipe, enoent, eintr, raw,
}
use ldd_samples.Kernel.Word.{to_int, extend_int, extend_int-to_int, max_rw_count}
use ldd_samples.Kernel.Memory.{Mem, CopyFn, memcpy, memcpy-start}
use ldd_samples.Scullc.Store.{Params, Run, oops, done}
use ldd_samples.Scullc.Store.Locate.{place, place-rebuild, place-add, quantum-le}
use ldd_samples.Scullc.Store.Chain.{quantum_at-grown}
use ldd_samples.Scullc.Io.{Call, Memory, do_read, do_write, read_found, read_quantum}
use ldd_samples.Scullc.Io.Write.{contents, reached, cut-min}
use ldd_samples.Scullc.Io.Read.{IsReadable, available, quantum_of, do_read-found}

-- `copy_from_iter` and `copy_to_iter` on an iterator: the destination, the source and a size, to the
-- destination afterwards and the number of bytes copied.
pub record IterOps : Type 0 where
  pub copy_from_iter : Mem → Mem → ℕ → Mem × ℕ
  pub copy_to_iter : Mem → Mem → ℕ → Mem × ℕ

-- The numbers of the error codes.
pub code : Errno → ℕ
code eperm = 1
code einval = 22
code enomem = 12
code efault = 14
code eagain = 11
code enotty = 25
code ebusy = 16
code enodev = 19
code eio = 5
code restartsys = 512
code iocbqueued = 529
code noioctlcmd = 515
code epipe = 32
code enoent = 2
code eintr = 4
code (raw n) = n

-- An `int result`, taken for a `size_t`: a negative one becomes a size near 2 ^ 64.
pub to_size : Ret → ℕ
unfolding code
to_size (ret n) = extend_int (to_int n)
to_size (fail e) = 2 ^ 64 - code e

-- What becomes of the operation: its status returned, or the status that `ki_complete` gets later.
pub data Status : Type 0 where
  now : Ret → Status
  later : Ret → Status

-- What the call returns, and what the delayed work hands to `ki_complete`.
pub returned : Status → Ret
returned (now r) = r
returned (later r) = fail iocbqueued

pub do_deferred_op : Status → Option Ret
do_deferred_op (now r) = none
do_deferred_op (later r) = some r

-- The end of `scullc_defer_op`: `stuff` says that there is memory for the work item.
pub finish : (is_sync stuff : Bool) → Ret → Status
finish is_sync stuff r = if is_sync then now r else if stuff then later r else now r

module _ (copy : CopyFn) (iter : IterOps) where
  pub finish_read : (is_sync stuff : Bool) → Mem → Run (Call × Ret) → Run (Call × Status)
  unfolding to_size finish
  finish_read is_sync stuff user oops = oops
  finish_read is_sync stuff user (done (c, r)) =
      let (user', n) = iter.copy_to_iter user c.user (to_size r) in
      done (record c { user = user' }, finish is_sync stuff (ret (extend_int (to_int n))))

  -- `kmalloc` for the buffer succeeds or not; `memory.garbage` is also what it holds at first.
  pub read_iter :
      (kmalloc is_sync stuff interrupted : Bool) → Memory → Call → (total : ℕ) → Run (Call × Status)
  unfolding finish_read
  read_iter kmalloc is_sync stuff interrupted memory c total =
      if not kmalloc
      then done (c, now (fail enomem))
      else finish_read is_sync stuff c.user
          (do_read copy true interrupted memory (record c { user = memory.garbage }) 0 total)

  pub finish_write : (is_sync stuff : Bool) → Mem → Run (Call × Ret) → Run (Call × Status)
  unfolding finish
  finish_write is_sync stuff user oops = oops
  finish_write is_sync stuff user (done (c, r)) =
      done (record c { user = user }, finish is_sync stuff r)

  pub write_iter :
      Params
      → (kmalloc is_sync stuff interrupted : Bool) → Memory
      → Call
      → (total : ℕ) → Run (Call × Status)
  unfolding finish_write
  write_iter params kmalloc is_sync stuff interrupted memory c total =
      let (buf, n) = iter.copy_from_iter memory.garbage c.user total in
      if not kmalloc
      then done (c, now (fail enomem))
      else finish_write is_sync stuff c.user (
          do_write copy params true interrupted memory (record c { user = buf }) 0
            (extend_int (to_int n)))

-- What is documented of `copy_to_iter` for an iterator of `total` bytes that meets no fault: it
-- copies as many bytes as are asked for and as the iterator has.
pub record IsIter (iter : IterOps) (total : ℕ) : Type 0 where
  pub count : (user buf : Mem) (n : ℕ) → (iter.copy_to_iter user buf n).1 ≡ min n total
  pub copied :
      (user buf : Mem) (n i : ℕ) → i < min n total → (iter.copy_to_iter user buf n).0 i ≡ buf i

module _ (copy : CopyFn) {iter : IterOps} (total : ℕ) (is_iter : IsIter iter total)
    (memory : Memory) (grows : memory.grows ≡ true) (c : Call) (readable : IsReadable c.dev)
    (inside : c.pos ≤ c.dev.size) (vfs : total ≤ max_rw_count) where
  -- The kernel buffer behind the read of a quantum.
  abbrev filled : Mem → Mem
  filled q =
      memcpy memory.garbage 0 q (place c.dev.quantum c.dev.qset c.pos).q_pos
        (available c.dev c.pos total)

  do_read-filled :
      (q : Mem)
      → quantum_of c.dev c.pos ≡ some q
      → do_read copy true false memory (record c { user = memory.garbage }) 0 total
        ≡ done (record (reached c) { user = filled q }, fail efault)
  unfolding read_found read_quantum
  do_read-filled q here =
      let at = place c.dev.quantum c.dev.qset c.pos in
      let shape = readable.shaped in
      let (_, low, _) = place-rebuild c.dev.quantum c.dev.qset shape c.pos in
      do_read-found copy memory grows (record c { user = memory.garbage }) readable 0 total inside
        vfs true
      ∙ rw (
        quantum_at-grown at.item c.dev.items at.item at.s_pos ∙ here,
        cut-min c.dev.quantum at.q_pos (min total (c.dev.size - c.pos))
            (omega (arith, quantum-le c.dev.quantum c.dev.qset shape, shape.small)) low,
      )

  filled_byte :
      (q : Mem) (i : ℕ)
      → quantum_of c.dev c.pos ≡ some q
      → filled q i ≡ (
          if ltb i (available c.dev c.pos total)
          then contents c.dev (c.pos + i)
          else memory.garbage i)
  filled_byte q i here =
      let at = place c.dev.quantum c.dev.qset c.pos in
      let start = memcpy-start memory.garbage q at.q_pos (available c.dev c.pos total) i in
      elim (Bool-cases (ltb i (available c.dev c.pos total))) [
        | inl e ↦
            let inner = place-add c.dev.quantum c.dev.qset readable.shaped c.pos i (ground arith) in
            start ∙ rw (e, inner.0, inner.1, inner.2, here) refl
        | inr e ↦ start ∙ rw e refl
      ]

  -- A synchronous read by the iterator, on a readable device, at a position inside the file whose
  -- quantum is there, with a chain that can grow, a buffer, a length that the VFS lets through and
  -- copies that meet no fault: the error of scullc_do_read becomes a huge size, so the call returns
  -- the whole length asked for, whatever the file has, and leaves the position. The caller gets the
  -- bytes of the file, and behind them what the kernel's buffer held before.
  pub read_iter-leaks :
      (stuff : Bool) (q : Mem) (i : ℕ)
      → quantum_of c.dev c.pos ≡ some q
      → i < total
      → (c' : Call) × (read_iter copy iter true true stuff false memory c total
          ≡ done (c', now (ret total)))
        × (c'.pos ≡ c.pos)
        × (c'.user i ≡ (
            if ltb i (available c.dev c.pos total)
            then contents c.dev (c.pos + i)
            else memory.garbage i))
  unfolding read_iter
  read_iter-leaks stuff q i here lt =
      let all : min (2 ^ 64 - 14) total ≡ total = omega arith in
      (
        record (reached c) { user = (iter.copy_to_iter c.user (filled q) (2 ^ 64 - 14)).0 },
        rw
            (
              do_read-filled q here,
              is_iter.count c.user (filled q) (2 ^ 64 - 14),
              all,
              extend_int-to_int total (omega arith),
            )
            refl,
        refl,
        is_iter.copied c.user (filled q) (2 ^ 64 - 14) i (omega arith) ∙ filled_byte q i here,
      )
