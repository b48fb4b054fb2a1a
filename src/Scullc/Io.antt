-- ===== src/Scullc/Io.antt =====
-- `scullc_do_read` and `scullc_do_write` of io/lab6_aio.c. The device's mutex is free or the wait
-- for it is interrupted.
pub mod Write
pub mod Read
pub mod Aio
use ldd_samples.Prelude.{
  ℕ, zero, suc, ◌+◌, ◌-◌, ◌*◌, ◌%◌, ◌^◌, Bool, true, false, Option, none, some, List, [], ◌∷◌, ltb,
  leb, not, ◌==◌, ◌||◌, if◌then◌else◌,
}
use ldd_samples.Kernel.{Ret, ret, fail, Errno, einval, enomem, efault, ebusy, restartsys}
use ldd_samples.Kernel.Word.{add64, sub64, to_int, extend_int, is_negative64, div64, rem64}
use ldd_samples.Kernel.Memory.{Mem, CopyFn, memcpy, memset}
use ldd_samples.Scullc.Store.{
  Pointers, Item, Dev, Params, Run, oops, done, follow, Place, locate, quantum_at, put_quantum,
  put_array, has_array,
}

-- What a call works on: the device, the caller's memory (for asynchronous calls the buffer in
-- kernel memory) and the file position.
pub record Call : Type 0 where
  pub dev : Dev
  pub user : Mem
  pub pos : ℕ

-- What the allocator answers in a call: whether the chain can grow, and whether there is memory for
-- an array and for a quantum. `garbage` is what a fresh quantum holds.
pub record Memory : Type 0 where
  pub grows : Bool
  pub array : Bool
  pub quantum : Bool
  pub garbage : Mem

-- The number of bytes of `count` in the file, and of those in the quantum.
abbrev pub cut : ℕ → ℕ → ℕ
cut count limit = if ltb limit count then limit else count

-- The part of `scullc_do_read` that copies. The `memcpy` of the asynchronous case returns the
-- destination, which is not NULL, and that counts as a failure.
unfoldable pub read_quantum :
    CopyFn → (aio : Bool) → Call → (buf q_pos count : ℕ) → Mem → Call × Ret
read_quantum copy_to_user true c buf q_pos count q =
    (record c { user = memcpy c.user buf q q_pos count }, fail efault)
read_quantum copy_to_user false c buf q_pos count q =
    let (user, left) = copy_to_user c.user buf q q_pos count in
    if left == 0
    then (record c { user = user; pos = add64 c.pos count }, ret count)
    else (record c { user = user }, fail efault)

unfoldable pub read_found :
    CopyFn → (aio : Bool) → Call → (buf count : ℕ) → Place → Option Mem → Call × Ret
read_found copy_to_user aio c buf count at none = (c, ret 0)
read_found copy_to_user aio c buf count at (some q) =
    read_quantum copy_to_user aio c buf at.q_pos
      (cut count (sub64 (extend_int c.dev.quantum) (extend_int at.q_pos))) q

read_at : CopyFn → (aio : Bool) → Memory → Call → (buf count : ℕ) → Place → Run (Call × Ret)
read_at copy_to_user aio memory c buf count at = elim (follow memory.grows at.item c.dev.items) [
  | none ↦ oops
  | some items ↦ done (
      read_found copy_to_user aio (record c { dev = record (c.dev) { items = items } }) buf count at
        (quantum_at items at.item at.s_pos))
]

-- `count`, cut to what lies in the file from a position on.
in_file : (size pos count : ℕ) → ℕ
in_file size pos count = if ltb size (add64 pos count) then sub64 size pos else count

pub do_read : CopyFn → (aio interrupted : Bool) → Memory → Call → (buf count : ℕ) → Run (Call × Ret)
do_read copy_to_user aio interrupted memory c buf count =
    if interrupted
    then done (c, fail restartsys)
    else if ltb c.dev.size c.pos
    then done (c, ret 0)
    else elim (locate c.dev.quantum c.dev.qset c.pos) [
      | none ↦ oops
      | some at ↦ read_at copy_to_user aio memory c buf (in_file c.dev.size c.pos count) at
    ]

-- The part of `scullc_do_write` that copies into the quantum `q` at a place.
pub write_quantum : CopyFn → (aio : Bool) → Call → (buf count : ℕ) → Place → Mem → Call × Ret
write_quantum copy_from_user true c buf count at q =
    let q' = memcpy q at.q_pos c.user buf count in
    (
      record c { dev = record (c.dev) { items = put_quantum c.dev.items at.item at.s_pos q' } },
      fail efault,
    )
write_quantum copy_from_user false c buf count at q =
    let (q', left) = copy_from_user q at.q_pos c.user buf count in
    let items = put_quantum c.dev.items at.item at.s_pos q' in
    let pos = add64 c.pos count in
    if left == 0
    then (
      record c {
        dev = record (c.dev) {
          items = items;
          size = if ltb c.dev.size pos then pos else c.dev.size;
        };
        pos = pos;
      },
      ret count,
    )
    else (record c { dev = record (c.dev) { items = items } }, fail efault)

-- A quantum that is missing is allocated and cleared, as many bytes as `scullc_quantum` says now.
write_pointer :
    CopyFn
    → Params
    → (aio : Bool) → Memory
    → Call
    → (buf count : ℕ) → Place
    → Option Mem
    → Call × Ret
unfolding write_quantum
write_pointer copy_from_user params aio memory c buf count at (some q) =
    write_quantum copy_from_user aio c buf count at q
write_pointer copy_from_user params aio memory c buf count at none =
    if not memory.quantum
    then (c, fail enomem)
    else write_quantum copy_from_user aio c buf count at
        (memset memory.garbage 0 0 (extend_int params.scullc_quantum))

write_item : CopyFn → Params → (aio : Bool) → Memory → Call → (buf count : ℕ) → Place → Call × Ret
unfolding write_pointer
write_item copy_from_user params aio memory c buf count at =
    if has_array c.dev.items at.item
    then write_pointer copy_from_user params aio memory c buf count at
        (quantum_at c.dev.items at.item at.s_pos)
    else if not memory.array
    then (c, fail enomem)
    else write_pointer copy_from_user params aio memory
        (record c { dev = record (c.dev) { items = put_array c.dev.items at.item } }) buf count at
        none

write_at :
    CopyFn → Params → (aio : Bool) → Memory → Call → (buf count : ℕ) → Place → Run (Call × Ret)
write_at copy_from_user params aio memory c buf count at =
    elim (follow memory.grows at.item c.dev.items) [
      | none ↦ oops
      | some items ↦ done (
          write_item copy_from_user params aio memory
            (record c { dev = record (c.dev) { items = items } }) buf
            (cut count (sub64 (extend_int c.dev.quantum) (extend_int at.q_pos))) at)
    ]

pub do_write :
    CopyFn → Params → (aio interrupted : Bool) → Memory → Call → (buf count : ℕ) → Run (Call × Ret)
do_write copy_from_user params aio interrupted memory c buf count =
    if interrupted
    then done (c, fail restartsys)
    else elim (locate c.dev.quantum c.dev.qset c.pos) [
      | none ↦ oops
      | some at ↦ write_at copy_from_user params aio memory c buf count at
    ]
