-- ===== src/Mmap/Sharing.antt =====
-- What a mapping of io/lab3_mmap.c reaches, and how it shares the buffer with read.
use ldd_samples.Prelude.{
  ℕ, ◌+◌, ◌-◌, ◌*◌, ◌/◌, ◌%◌, ◌^◌, ◌≤◌, ◌<◌, ◌≡◌, ◌∙◌, ap, true, some, arith, ◌==◌, if◌then◌else◌,
}
use ldd_samples.Kernel.{ret}
use ldd_samples.Kernel.Memory.{Mem, CopyFn, IsCopy}
use ldd_samples.EarlyChar.Seek.{Call, read}
use ldd_samples.Mmap.Mapping.{membuff_size, Vma, Mapping, offset_of, len_of, mmap}

-- The physical address that a mapped address stands for.
abbrev pub translate : Mapping → ℕ → ℕ
translate m a = (m.pfn + (a - m.start) / 4096) * 4096 + (a - m.start) % 4096

-- An area of whole pages, as the kernel hands it over, below 2 ^ 63.
pub record IsVma (v : Vma) : Type 0 where
  pub ordered : (v.vm_start ≤ v.vm_end) × (v.vm_end < 2 ^ 63)
  pub paged : (v.vm_start % 4096 ≡ 0) × (v.vm_end % 4096 ≡ 0)
  pub near : v.vm_pgoff < 2 ^ 52

-- What a mapping that succeeds is.
mmap-accepted :
    (phys : ℕ) (v : Vma) (m : Mapping)
    → IsVma v
    → mmap phys true v ≡ (some m, ret 0)
    → (m.start ≡ v.vm_start)
      × (m.pfn ≡ (phys + v.vm_pgoff * 4096) / 4096)
      × (m.len ≡ v.vm_end - v.vm_start)
      × (v.vm_pgoff * 4096 + (v.vm_end - v.vm_start) ≤ membuff_size)
unfolding mmap
mmap-accepted phys v m h e =
    let (le, lt) = h.ordered in
    let off : offset_of v ≡ v.vm_pgoff * 4096 = omega (arith, h.near) in
    let len : len_of v ≡ v.vm_end - v.vm_start = omega (arith, le, lt) in
    ground (arith, e, off, len)

-- For a buffer that starts at a page: a mapping that succeeds stands for the part of the buffer from the offset
-- on, byte for byte, and each of its addresses for one inside the buffer.
pub mmap-inside :
    (phys : ℕ) (v : Vma) (m : Mapping) (a : ℕ)
    → IsVma v
    → phys % 4096 ≡ 0
    → mmap phys true v ≡ (some m, ret 0)
    → m.start ≤ a
    → a < m.start + m.len
    → (translate m a ≡ phys + (v.vm_pgoff * 4096 + (a - v.vm_start)))
      × (v.vm_pgoff * 4096 + (a - v.vm_start) < membuff_size)
unfolding mmap
mmap-inside phys v m a h aligned e lo hi =
    let (start, pfn, len, fits) = mmap-accepted phys v m h e in
    let page : (m.pfn + (a - m.start) / 4096) * 4096 + (a - m.start) % 4096
        ≡ m.pfn * 4096 + (a - m.start) =
      omega arith in
    (omega (arith, page, start, pfn, aligned), omega (arith, start, len, fits, lo, hi))

-- A store of a process through its mapping, in the machine's memory.
abbrev pub store : Mem → (p byte : ℕ) → Mem
store ram p byte q = if q == p then byte else ram q

-- A call on the device whose buffer is the machine's memory from `phys` on.
abbrev pub over_ram : Call → (ram : Mem) (phys : ℕ) → Call
over_ram c ram phys = record c { dev = record (c.dev) { membuff = (λ i. ram (phys + i)) } }

read-user :
    (copy : CopyFn) (c : Call) (buf lbuf : ℕ)
    → lbuf + c.pos ≤ membuff_size
    → (read copy c buf lbuf).0.user ≡ (copy c.user buf c.dev.membuff c.pos lbuf).0
unfolding read
read-user copy c buf lbuf fits = ground arith

module _ {copy : CopyFn} (is_copy : IsCopy copy) (phys : ℕ) (v : Vma) (m : Mapping) (h : IsVma v)
    (aligned : phys % 4096 ≡ 0) (mapped : mmap phys true v ≡ (some m, ret 0)) where
  -- Where an address of the mapping stands in the file.
  abbrev place : ℕ → ℕ
  place a = v.vm_pgoff * 4096 + (a - v.vm_start)

  -- For a buffer that starts at a page and a mapping that succeeds: what a process stores at an address of the
  -- mapping is what a read of the device puts at that place of the caller's buffer, for every read that fits the
  -- device and whose copy gets as far.
  pub store-read :
      (c : Call) (ram : Mem) (a byte buf lbuf : ℕ)
      → m.start ≤ a
      → a < m.start + m.len
      → lbuf + c.pos ≤ membuff_size
      → c.pos ≤ place a
      → place a
        < c.pos
          + (lbuf - (copy c.user buf (λ i. store ram (translate m a) byte (phys + i)) c.pos lbuf).1)
      → (read copy (over_ram c (store ram (translate m a) byte) phys) buf lbuf).0.user
          (buf + (place a - c.pos))
        ≡ byte
  store-read c ram a byte buf lbuf lo hi fits from to =
      let (stands, inside) = mmap-inside phys v m a h aligned mapped lo hi in
      let at : c.pos + (buf + (place a - c.pos) - buf) ≡ place a = omega (arith, from) in
      let got : (copy c.user buf (λ i. store ram (translate m a) byte (phys + i)) c.pos lbuf).0
            (buf + (place a - c.pos))
          ≡ store ram (translate m a) byte (phys + place a) =
        is_copy.copied c.user buf (λ i. store ram (translate m a) byte (phys + i)) c.pos lbuf
          (buf + (place a - c.pos)) (omega arith) (omega (arith, from, to))
        ∙ ap (λ i. store ram (translate m a) byte (phys + i)) at in
      let stored : store ram (translate m a) byte (phys + place a) ≡ byte =
        ground (arith, stands) in
      ap (λ u. u (buf + (place a - c.pos)))
        (read-user copy (over_ram c (store ram (translate m a) byte) phys) buf lbuf fits)
      ∙ got
      ∙ stored
