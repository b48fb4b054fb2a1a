-- ===== src/Scullc/Io/Write.antt =====
-- `scullc_do_write` of io/lab6_aio.c against the file that a device stands for: the byte at each
-- position, where a hole reads as zero.
use ldd_samples.Prelude.{
  ℕ, ◌+◌, ◌-◌, ◌^◌, ◌≤◌, ◌<◌, ◌≡◌, ◌≢◌, ◌∙◌, Bool, true, false, Option, none, some, List, [], arith,
  ltb, leb, ◌==◌, ◌&&◌, if◌then◌else◌, length, Bool-cases, Option-cases, min, max, inl, inr,
}
use ldd_samples.Kernel.{Ret, ret, fail, efault}
use ldd_samples.Kernel.Word.{add64, sub64, extend_int}
use ldd_samples.Kernel.Memory.{Mem, CopyFn, IsCopy, memcpy, memset}
use ldd_samples.Scullc.Store.{Item, Dev, Params, done, Place, quantum_at, put_array, has_array}
use ldd_samples.Scullc.Store.Locate.{
  place, IsShaped, locate-place, place-rebuild, place-range, place-shift,
}
use ldd_samples.Scullc.Store.Chain.{
  grown, follow_of_grows, length-grown, quantum_at-grown, quantum_at_of_no_array,
  has_array-put_array, quantum_at-put_array, quantum_at-put_quantum,
}
use ldd_samples.Scullc.Io.{
  Call, Memory, cut, write_quantum, write_pointer, write_item, write_at, do_write,
}

-- The byte at an offset in the quantum of an item and a pointer.
abbrev pub byte_in : Option Mem → ℕ → ℕ
byte_in none offset = 0
byte_in (some q) offset = q offset

abbrev pub stored : List Item → (item s_pos offset : ℕ) → ℕ
stored items item s_pos offset = byte_in (quantum_at items item s_pos) offset

-- The contents of the file.
abbrev pub contents : Dev → Mem
contents d p = let at = place d.quantum d.qset p in stored d.items at.item at.s_pos at.q_pos

-- A copy that meets no fault.
abbrev pub IsWhole : CopyFn → Type 0
IsWhole copy = (dst : Mem) (to : ℕ) (src : Mem) (from n : ℕ) → (copy dst to src from n).1 ≡ 0

-- The result of a copy of `n` bytes: the asynchronous case fails with -EFAULT after each copy.
abbrev pub answer : (aio : Bool) (n : ℕ) → Ret
answer aio n = if aio then fail efault else ret n

-- The result of the write of `n` bytes from `buf` to a place, seen at one byte of the chain.
record IsWritten (aio : Bool) (c : Call) (at : Place) (buf n j t offset : ℕ) (out : Call × Ret)
    : Type 0 where
  byte : stored out.0.dev.items j t offset ≡ (
      if (j == at.item && t == at.s_pos) && (leb at.q_pos offset && ltb offset (at.q_pos + n))
      then c.user (buf + (offset - at.q_pos))
      else stored c.dev.items j t offset)
  result : out.1 ≡ answer aio n
  pos : out.0.pos ≡ (if aio then c.pos else add64 c.pos n)
  size : out.0.dev.size ≡ (
      if aio
      then c.dev.size
      else if ltb c.dev.size (add64 c.pos n)
      then add64 c.pos n
      else c.dev.size)
  shape : (out.0.dev.quantum ≡ c.dev.quantum) × (out.0.dev.qset ≡ c.dev.qset)

module _ {copy : CopyFn} (is_copy : IsCopy copy) (whole : IsWhole copy) (params : Params)
    (memory : Memory)
    (memory_left : (memory.grows ≡ true) × (memory.array ≡ true) × (memory.quantum ≡ true))
    (aio : Bool) (buf n : ℕ) (at : Place) (j t offset : ℕ) where
  write_quantum-IsWritten :
      (c : Call) (q : Mem)
      → has_array c.dev.items at.item ≡ true
      → byte_in (quantum_at c.dev.items at.item at.s_pos) offset ≡ q offset
      → IsWritten aio c at buf n j t offset (write_quantum copy aio c buf n at q)
  unfolding write_quantum memcpy
  write_quantum-IsWritten c q array same = ground (
    arith,
    whole q at.q_pos c.user buf n,
    is_copy.copied q at.q_pos c.user buf n offset,
    is_copy.frame q at.q_pos c.user buf n offset,
    quantum_at-put_quantum c.dev.items at.item at.s_pos (copy q at.q_pos c.user buf n).0 j t,
    quantum_at-put_quantum c.dev.items at.item at.s_pos (memcpy q at.q_pos c.user buf n) j t,
  )

  write_pointer-IsWritten :
      (c : Call)
      → has_array c.dev.items at.item ≡ true
      → offset < extend_int params.scullc_quantum
      → IsWritten aio c at buf n j t offset (
          write_pointer copy params aio memory c buf n at (quantum_at c.dev.items at.item at.s_pos))
  unfolding write_pointer memset
  write_pointer-IsWritten c array cleared =
      elim (Option-cases (quantum_at c.dev.items at.item at.s_pos)) [
        | inr (q, e) ↦ rw e (write_quantum-IsWritten c q array (rw e))
        | inl e ↦ rw (e, memory_left.2) (write_quantum-IsWritten c _ array (rw e (ground arith)))
      ]

  -- The call with a new array for its item.
  abbrev with_array : Call → Call
  with_array c = record c { dev = record (c.dev) { items = put_array c.dev.items at.item } }

  with_array-IsWritten :
      (c : Call) (out : Call × Ret)
      → has_array c.dev.items at.item ≡ false
      → IsWritten aio (with_array c) at buf n j t offset out
      → IsWritten aio c at buf n j t offset out
  with_array-IsWritten c out new w = ground (arith, quantum_at-put_array c.dev.items at.item j t)

  write_item-IsWritten :
      (c : Call)
      → at.item < length c.dev.items
      → offset < extend_int params.scullc_quantum
      → IsWritten aio c at buf n j t offset (write_item copy params aio memory c buf n at)
  unfolding write_item
  write_item-IsWritten c long cleared = elim (Bool-cases (has_array c.dev.items at.item)) [
    | inl e ↦ rw e (write_pointer-IsWritten c e cleared)
    | inr e ↦
        let array = has_array-put_array c.dev.items at.item long in
        let empty =
          quantum_at-put_array c.dev.items at.item at.item at.s_pos e
          ∙ quantum_at_of_no_array c.dev.items at.item at.s_pos e in
        rw (e, memory_left.1)
          (with_array-IsWritten c _ e
            (rw empty at (write_pointer-IsWritten (with_array c) array cleared)))
  ]

pub cut-min :
    (quantum q_pos count : ℕ)
    → quantum < 2 ^ 31
    → q_pos < quantum
    → cut count (sub64 (extend_int quantum) (extend_int q_pos)) ≡ min count (quantum - q_pos)
cut-min quantum q_pos count small inside = ground arith

-- The number of bytes of a request that the quantum of a position has room for.
abbrev pub room : Dev → (pos count : ℕ) → ℕ
room d pos count = min count (d.quantum - (place d.quantum d.qset pos).q_pos)

-- The call with its chain grown to the item of its position.
abbrev pub reached : Call → Call
reached c = record c {
  dev = record (c.dev) { items = grown (place c.dev.quantum c.dev.qset c.pos).item c.dev.items };
}

-- A device that is shaped, has its first item, and whose quanta are cleared in full.
pub record IsReady (params : Params) (d : Dev) : Type 0 where
  pub shaped : IsShaped d.quantum d.qset
  pub first : d.items ≢ []
  pub cleared : d.quantum ≤ params.scullc_quantum
  pub small : params.scullc_quantum < 2 ^ 31

-- What a write leaves: a file that has the bytes at their positions and is otherwise as it was, at the position
-- `p`. Where it is not asynchronous, the position lies behind the bytes and the size covers them; where it is,
-- both are as they were.
pub record IsAppended (aio : Bool) (c : Call) (buf n p : ℕ) (c' : Call) : Type 0 where
  pub pos : c'.pos ≡ (if aio then c.pos else c.pos + n)
  pub size : c'.dev.size ≡ (if aio then c.dev.size else max c.dev.size (c.pos + n))
  pub shape : (c'.dev.quantum ≡ c.dev.quantum) × (c'.dev.qset ≡ c.dev.qset)
  pub byte :
      contents c'.dev p
      ≡ (if leb c.pos p && ltb p (c.pos + n) then c.user (buf + (p - c.pos)) else contents c.dev p)

module _ {copy : CopyFn} (is_copy : IsCopy copy) (whole : IsWhole copy) (params : Params)
    (memory : Memory)
    (memory_left : (memory.grows ≡ true) × (memory.array ≡ true) × (memory.quantum ≡ true))
    (aio : Bool) (c : Call) (ready : IsReady params c.dev) (buf count p : ℕ) where
  do_write-item :
      c.pos < 2 ^ 31
      → do_write copy params aio false memory c buf count
        ≡ done (
            write_item copy params aio memory
              (reached c)
              buf
              (room c.dev c.pos count)
              (place c.dev.quantum c.dev.qset c.pos))
  unfolding do_write write_at
  do_write-item small =
      let shape = ready.shaped in
      let (_, inside, _) = place-rebuild c.dev.quantum c.dev.qset shape c.pos in
      rw (
        locate-place c.dev.quantum c.dev.qset shape c.pos small,
        write_at,
        follow_of_grows memory.grows (place c.dev.quantum c.dev.qset c.pos).item c.dev.items
            memory_left.0 ready.first,
        cut-min c.dev.quantum (place c.dev.quantum c.dev.qset c.pos).q_pos count
            (omega (arith, ready.cleared, ready.small)) inside,
      )

  IsWritten-IsAppended :
      (out : Call × Ret)
      → c.pos < 2 ^ 31
      → IsWritten aio
          (reached c)
          (place c.dev.quantum c.dev.qset c.pos)
          buf
          (room c.dev c.pos count)
          (place c.dev.quantum c.dev.qset p).item
          (place c.dev.quantum c.dev.qset p).s_pos
          (place c.dev.quantum c.dev.qset p).q_pos
          out
      → IsAppended aio c buf (room c.dev c.pos count) p out.0
  IsWritten-IsAppended out small w =
      let shape = ready.shaped in
      let (_, inside, _) = place-rebuild c.dev.quantum c.dev.qset shape c.pos in
      let fits : (place c.dev.quantum c.dev.qset c.pos).q_pos + room c.dev c.pos count
          ≤ c.dev.quantum =
        omega arith in
      let low : room c.dev c.pos count < 2 ^ 31 = omega (arith, ready.cleared, ready.small) in
      record {
        pos = ground (arith, w.pos);
        size = ground (arith, w.size);
        shape = w.shape;
        byte =
            rw
              (
                w.shape.0,
                w.shape.1,
                w.byte,
                place-range c.dev.quantum c.dev.qset shape c.pos p (room c.dev c.pos count) fits,
              )
              (ground (
                arith,
                place-shift c.dev.quantum c.dev.qset shape c.pos p (room c.dev c.pos count) fits,
                quantum_at-grown (place c.dev.quantum c.dev.qset c.pos).item c.dev.items
                    (place c.dev.quantum c.dev.qset p).item
                    (place c.dev.quantum c.dev.qset p).s_pos,
              ));
      }

  -- A write at a position below 2 ^ 31 of a ready device, with memory at hand and a copy that meets no fault,
  -- puts as many bytes into the file as the quantum of the position has room for, at their positions, and
  -- leaves the rest of the file as it was. Where it is not asynchronous, it returns their number, moves the
  -- position behind them and makes the size cover them. Where it is asynchronous, as all calls are that the
  -- file operations make, it returns -EFAULT for all that, and the position and the size stay.
  pub do_write-IsAppended :
      c.pos < 2 ^ 31
      → (c' : Call) × (do_write copy params aio false memory c buf count
          ≡ done (c', answer aio (room c.dev c.pos count)))
        × IsAppended aio c buf (room c.dev c.pos count) p c'
  do_write-IsAppended small =
      let at = place c.dev.quantum c.dev.qset c.pos in
      let to = place c.dev.quantum c.dev.qset p in
      let n = room c.dev c.pos count in
      let (_, inside, _) = place-rebuild c.dev.quantum c.dev.qset ready.shaped p in
      let w =
        write_item-IsWritten is_copy whole params memory memory_left aio buf n at to.item to.s_pos
          to.q_pos (reached c) (length-grown at.item c.dev.items ready.first)
          (ground (arith, ready.cleared, ready.small)) in
      let out = write_item copy params aio memory (reached c) buf n at in
      (
        out.0,
        do_write-item small ∙ (λ i. done (out.0, w.result i)),
        IsWritten-IsAppended out small w,
      )
