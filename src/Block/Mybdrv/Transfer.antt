-- ===== src/Block/Mybdrv/Transfer.antt =====
-- One request of `my_request` (block/lab2_block.c), for sectors whose byte offset fits an `unsigned`
-- and lengths that fit an `int`.
use ldd_samples.Prelude.{ℕ, ◌+◌, ◌*◌, ◌^◌, ◌≤◌, ◌<◌, ◌≡◌, Bool, true, false, arith}
use ldd_samples.Kernel.Memory.{memcpy}
use ldd_samples.Block.Mybdrv.{sector_size, Disk, State, transfer}

-- A disk of at most 2 ^ 31 - 1 bytes that lies in the address space with room behind it for the
-- largest offset and length.
pub record IsPlaced (d : Disk) : Type 0 where
  pub small : d.disk_size < 2 ^ 31
  pub room : d.ramdisk + 2 ^ 33 ≤ 2 ^ 64

module _ (s : State) (sector nr buffer : ℕ) (placed : IsPlaced s.disk) where
  -- A request past the end of the disk does nothing, in either direction.
  pub disk-beyond :
      (write : Bool)
      → sector < 2 ^ 23
      → nr < 2 ^ 22
      → s.disk.disk_size < (sector + nr) * sector_size
      → transfer s sector nr buffer write ≡ s
  unfolding transfer
  disk-beyond write hs hn beyond = ground arith

  -- What a write put on the disk, a read of the same sectors brings back to any buffer.
  pub disk_round_trip :
      (to i : ℕ)
      → (sector + nr) * sector_size ≤ s.disk.disk_size
      → i < nr * sector_size
      → (transfer (transfer s sector nr buffer true) sector nr to false).buffers (to + i)
        ≡ s.buffers (buffer + i)
  unfolding transfer memcpy
  disk_round_trip to i inside lt = ground arith

  -- The position is cut to 32 bits before it becomes an offset: for a disk placed with room behind
  -- it and sectors inside it, a write any multiple of 2 ^ 23 sectors further on passes the check
  -- and lands on the bytes of those sectors.
  pub disk-aliased :
      (k i : ℕ)
      → (sector + nr) * sector_size ≤ s.disk.disk_size
      → i < nr * sector_size
      → (transfer s (sector + k * 2 ^ 23) nr buffer true).disk.contents (sector * sector_size + i)
        ≡ s.buffers (buffer + i)
  unfolding transfer memcpy
  disk-aliased k i inside lt = ground arith

-- Whatever the position, a request whose length fits an `int` changes no byte behind the disk's end
-- and neither the disk's size nor its address.
pub disk-behind :
    (s : State) (sector nr buffer a : ℕ) (write : Bool)
    → IsPlaced s.disk
    → nr < 2 ^ 22
    → s.disk.disk_size ≤ a
    → ((transfer s sector nr buffer write).disk.contents a ≡ s.disk.contents a)
      × ((transfer s sector nr buffer write).disk.disk_size ≡ s.disk.disk_size)
      × ((transfer s sector nr buffer write).disk.ramdisk ≡ s.disk.ramdisk)
unfolding transfer memcpy
disk-behind s sector nr buffer a write placed hn behind = ground arith
