-- ===== src/Isa/Access.antt =====
-- The accesses of hardware/lab5_silly.c to the ISA memory: the widths that a minor stands for, and the
-- loops that move a buffer. Addresses of the device are relative to ISA_BASE.
use ldd_samples.Prelude.{
  ℕ, zero, suc, ◌+◌, ◌-◌, ◌*◌, ◌/◌, ◌%◌, ◌&&◌, Option, none, some, leb, ◌==◌, if◌then◌else◌,
}
use ldd_samples.Kernel.Memory.{Mem}

-- `enum silly_modes`
abbrev pub m_8 : ℕ
m_8 = 0

abbrev pub m_16 : ℕ
m_16 = 1

abbrev pub m_32 : ℕ
m_32 = 2

abbrev pub m_memcpy : ℕ
m_memcpy = 3

-- A value of `n` bytes in memory, the low byte first.
unfoldable pub load : ℕ → Mem → ℕ → ℕ
load zero m p = 0
load (suc n) m p = m p + 256 * load n m (p + 1)

write : Mem → ℕ → ℕ → Mem
write m p v a = if a == p then v else m a

unfoldable pub store : ℕ → Mem → ℕ → ℕ → Mem
unfolding write
store zero m p v = m
store (suc n) m p v = store n (write m p (v % 256)) (p + 1) (v / 256)

-- `ioread8`, `ioread16` and `ioread32` by their width in bytes, `iowrite8`, `memcpy_fromio` and
-- `memcpy_toio`.
pub record IoOps : Type 0 where
  pub ioread : (width : ℕ) → Mem → ℕ → ℕ
  pub iowrite8 : ℕ → Mem → ℕ → Mem
  pub memcpy_fromio : Mem → Mem → ℕ → ℕ → Mem
  pub memcpy_toio : Mem → ℕ → Mem → ℕ → Mem

-- The smaller width for a transfer that is not aligned: the tests `(isa_addr | count) & 1` and `& 3` ask
-- whether the address and the count are both multiples of the width.
abbrev pub half_mode : ℕ → ℕ → ℕ → ℕ
half_mode mode isa_addr count =
    if mode == m_16 then (if (isa_addr % 2 == 0) && (count % 2 == 0) then mode else m_8) else mode

unfoldable pub downgrade : (mode isa_addr count : ℕ) → ℕ
downgrade mode isa_addr count =
    if mode == m_32
    then (if (isa_addr % 4 == 0) && (count % 4 == 0) then mode else half_mode m_16 isa_addr count)
    else half_mode mode isa_addr count

module _ (io_ops : IoOps) where
  -- `while (count >= w)`: a width of bytes from `add` to `ptr`, as often as there is one left.
  unfoldable pub read_loop : (fuel w : ℕ) → (io : Mem) → (add ptr count : ℕ) → (kbuf : Mem) → Mem
  unfolding store
  read_loop zero w io add ptr count kbuf = kbuf
  read_loop (suc fuel) w io add ptr count kbuf =
      let rest =
        read_loop fuel w io (add + w) (ptr + w) (count - w)
          (store w kbuf ptr (io_ops.ioread w io add)) in
      if leb w count then rest else kbuf

  -- The loops of `silly_write`, which hand what they load to `iowrite8`, a `u8`.
  unfoldable pub write_loop : (fuel w : ℕ) → (kbuf : Mem) → (add ptr count : ℕ) → (io : Mem) → Mem
  unfolding load
  write_loop zero w kbuf add ptr count io = io
  write_loop (suc fuel) w kbuf add ptr count io =
      let rest =
        write_loop fuel w kbuf (add + w) (ptr + w) (count - w)
          (io_ops.iowrite8 (load w kbuf ptr % 256) io add) in
      if leb w count then rest else io

  -- `switch(mode)` of `silly_read` and of `silly_write`; `none` is the default.
  unfoldable pub read_mode : (mode : ℕ) → (io : Mem) → (add count : ℕ) → (kbuf : Mem) → Option Mem
  unfolding read_loop
  read_mode mode io add count kbuf =
      if mode == m_32
      then some (read_loop count 4 io add 0 count kbuf)
      else if mode == m_16
      then some (read_loop count 2 io add 0 count kbuf)
      else if mode == m_8
      then some (read_loop count 1 io add 0 count kbuf)
      else if mode == m_memcpy
      then some (io_ops.memcpy_fromio kbuf io add count)
      else none

  unfoldable pub write_mode : (mode : ℕ) → (kbuf : Mem) → (add count : ℕ) → (io : Mem) → Option Mem
  unfolding write_loop
  write_mode mode kbuf add count io =
      if mode == m_32
      then some (write_loop count 4 kbuf add 0 count io)
      else if mode == m_16
      then some (write_loop count 2 kbuf add 0 count io)
      else if mode == m_8
      then some (write_loop count 1 kbuf add 0 count io)
      else if mode == m_memcpy
      then some (io_ops.memcpy_toio io add kbuf count)
      else none
