-- ===== src/Scullc/Io/Read.antt =====
-- `scullc_do_read` of io/lab6_aio.c against the file that a device stands for.
use ldd_samples.Prelude.{
  Bool, ℕ, ◌+◌, ◌-◌, ◌^◌, ◌≤◌, ◌<◌, ◌≡◌, ◌≢◌, refl, ◌∙◌, ap, true, false, Option, none, some, [],
  arith, ltb, min, if◌then◌else◌,
}
use ldd_samples.Kernel.{ret}
use ldd_samples.Kernel.Word.{max_rw_count}
use ldd_samples.Kernel.Memory.{Mem, CopyFn, IsCopy, memcpy}
use ldd_samples.Scullc.Store.{Dev, done, quantum_at}
use ldd_samples.Scullc.Store.Locate.{
  place, IsShaped, locate-place, place-rebuild, place-add, quantum-le,
}
use ldd_samples.Scullc.Store.Chain.{follow_of_grows, quantum_at-grown}
use ldd_samples.Scullc.Io.{Call, Memory, in_file, read_quantum, read_found, read_at, do_read}
use ldd_samples.Scullc.Io.Write.{IsWhole, answer, contents, cut-min, reached, room}

-- The bytes of a request that lie in the file, and of those the ones in the quantum of its position.
abbrev pub available : Dev → (pos count : ℕ) → ℕ
available d pos count = room d pos (min count (d.size - pos))

-- The quantum of a position.
abbrev pub quantum_of : Dev → ℕ → Option Mem
quantum_of d pos =
    quantum_at d.items (place d.quantum d.qset pos).item (place d.quantum d.qset pos).s_pos

-- A device that is shaped, has its first item, and whose size is no more than 2 ^ 31.
pub record IsReadable (d : Dev) : Type 0 where
  pub shaped : IsShaped d.quantum d.qset
  pub first : d.items ≢ []
  pub small : d.size < 2 ^ 31

in_file-min :
    (size pos count : ℕ)
    → pos ≤ size
    → size < 2 ^ 31
    → count ≤ max_rw_count
    → in_file size pos count ≡ min count (size - pos)
unfolding in_file
in_file-min size pos count inside small vfs = ground arith

module _ {copy : CopyFn} (is_copy : IsCopy copy) (whole : IsWhole copy) where
  -- The copy of a read, which moves the position where it is not asynchronous.
  read_quantum-whole :
      (aio : Bool) (c : Call) (buf q_pos n : ℕ) (q : Mem)
      → c.pos + n < 2 ^ 64
      → read_quantum copy aio c buf q_pos n q ≡ (
        record c {
          user = if aio then memcpy c.user buf q q_pos n else (copy c.user buf q q_pos n).0;
          pos = if aio then c.pos else c.pos + n;
        },
        answer aio n,
      )
  unfolding read_quantum
  read_quantum-whole true c buf q_pos n q small = refl
  read_quantum-whole false c buf q_pos n q small = ground (arith, whole c.user buf q q_pos n)

  copied_byte :
      (aio : Bool) (c : Call) (buf q_pos n i : ℕ) (q : Mem)
      → i < n
      → (if aio then memcpy c.user buf q q_pos n else (copy c.user buf q q_pos n).0) (buf + i)
        ≡ q (q_pos + i)
  unfolding memcpy
  copied_byte true c buf q_pos n i q lt = ground (arith, ap q (back q_pos i))
    where
      back : (q_pos i : ℕ) → q_pos + (buf + i - buf) ≡ q_pos + i
      back q_pos i = omega arith
  copied_byte false c buf q_pos n i q lt =
      ground (arith, whole c.user buf q q_pos n, is_copy.copied c.user buf q q_pos n (buf + i))

module _ (copy : CopyFn) (memory : Memory) (grows : memory.grows ≡ true) (c : Call)
    (readable : IsReadable c.dev) (buf count : ℕ) (inside : c.pos ≤ c.dev.size)
    (vfs : count ≤ max_rw_count) where
  -- A read comes to the copy from the quantum of its position, with the bytes that are in the file.
  pub do_read-found :
      (aio : Bool)
      → do_read copy aio false memory c buf count
        ≡ done (
            read_found copy aio
              (reached c)
              buf
              (min count (c.dev.size - c.pos))
              (place c.dev.quantum c.dev.qset c.pos)
              (quantum_at
                (reached c).dev.items
                (place c.dev.quantum c.dev.qset c.pos).item
                (place c.dev.quantum c.dev.qset c.pos).s_pos))
  unfolding do_read read_at
  do_read-found aio =
      let shape = readable.shaped in
      let small : c.pos < 2 ^ 31 = omega (arith, readable.small) in
      let started : ltb c.dev.size c.pos ≡ false = ground arith in
      rw (
        started,
        locate-place c.dev.quantum c.dev.qset shape c.pos small,
        read_at,
        follow_of_grows memory.grows (place c.dev.quantum c.dev.qset c.pos).item c.dev.items grows
            readable.first,
        in_file-min c.dev.size c.pos count inside readable.small vfs,
      )

module _ {copy : CopyFn} (is_copy : IsCopy copy) (whole : IsWhole copy) (memory : Memory)
    (grows : memory.grows ≡ true) (c : Call) (readable : IsReadable c.dev) (buf count : ℕ)
    (inside : c.pos ≤ c.dev.size) (vfs : count ≤ max_rw_count) where
  -- Where the quantum is missing, the read returns 0 and moves nothing.
  pub do_read-hole :
      quantum_of c.dev c.pos ≡ none
      → do_read copy false false memory c buf count ≡ done (reached c, ret 0)
  unfolding read_found
  do_read-hole hole =
      do_read-found copy memory grows c readable buf count inside vfs false
      ∙ rw (
        quantum_at-grown (place c.dev.quantum c.dev.qset c.pos).item c.dev.items
            (place c.dev.quantum c.dev.qset c.pos).item
            (place c.dev.quantum c.dev.qset c.pos).s_pos,
        hole,
      )

  -- On a readable device, at a position inside the file whose quantum is there, with a length that
  -- the VFS lets through, a chain that can grow and a copy that meets no fault, a read has moved into the
  -- caller's memory each of the bytes that the file and the quantum have from the position on, and has left the
  -- device as it was but for its chain, grown to that place. Where it is not asynchronous, it returns their number
  -- and moves the position by it. Where it is asynchronous, as all calls are that the file operations make, it
  -- returns -EFAULT for all that, and the position stays.
  pub do_read-bytes :
      (aio : Bool) (q : Mem) (i : ℕ)
      → quantum_of c.dev c.pos ≡ some q
      → i < available c.dev c.pos count
      → (c' : Call) × (do_read copy aio false memory c buf count
          ≡ done (c', answer aio (available c.dev c.pos count)))
        × (c'.pos ≡ (if aio then c.pos else c.pos + available c.dev c.pos count))
        × (c'.dev ≡ (reached c).dev)
        × (c'.user (buf + i) ≡ contents c.dev (c.pos + i))
  unfolding read_found
  do_read-bytes aio q i here lt =
      let at = place c.dev.quantum c.dev.qset c.pos in
      let n = available c.dev c.pos count in
      let shape = readable.shaped in
      let (_, low, _) = place-rebuild c.dev.quantum c.dev.qset shape c.pos in
      let grown_here = quantum_at-grown at.item c.dev.items at.item at.s_pos ∙ here in
      let length =
        cut-min c.dev.quantum at.q_pos (min count (c.dev.size - c.pos))
          (omega (arith, quantum-le c.dev.quantum c.dev.qset shape, shape.small)) low in
      let inner = place-add c.dev.quantum c.dev.qset shape c.pos i (omega arith) in
      (
        record (reached c) {
          user = if aio then memcpy c.user buf q at.q_pos n else (copy c.user buf q at.q_pos n).0;
          pos = if aio then c.pos else c.pos + n;
        },
        do_read-found copy memory grows c readable buf count inside vfs aio
            ∙ rw (grown_here, length)
                (ap done (
                  read_quantum-whole is_copy whole aio (reached c) buf at.q_pos n q
                    (omega (arith, readable.small)))),
        refl,
        refl,
        rw (inner.0, inner.1, inner.2, here)
            (copied_byte is_copy whole aio (reached c) buf at.q_pos n i q lt),
      )
