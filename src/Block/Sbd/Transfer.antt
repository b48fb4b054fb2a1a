-- ===== src/Block/Sbd/Transfer.antt =====
-- `sbd_transfer` of block/sbd.c, for sectors whose byte offsets fit an `unsigned long`.
use ldd_samples.Prelude.{ℕ, ◌+◌, ◌*◌, ◌^◌, ◌≤◌, ◌<◌, ◌≡◌, ◌⊎◌, Bool, true, false, arith}
use ldd_samples.Kernel.Memory.{memcpy}
use ldd_samples.Block.Sbd.{State, transfer}

module _ (s : State) (sector nsect buffer : ℕ) where
  -- A transfer that would go past the end of the device does nothing, in either direction.
  pub transfer-beyond :
      (write : Bool)
      → sector * s.dev.logical_block_size + nsect * s.dev.logical_block_size < 2 ^ 64
      → s.dev.size < sector * s.dev.logical_block_size + nsect * s.dev.logical_block_size
      → transfer s sector nsect buffer write ≡ s
  unfolding transfer
  transfer-beyond write fits beyond = ground arith

  -- A write that fits the device puts each byte of the buffer at its place on the disk.
  pub transfer-write :
      (i : ℕ)
      → sector * s.dev.logical_block_size + nsect * s.dev.logical_block_size < 2 ^ 64
      → sector * s.dev.logical_block_size + nsect * s.dev.logical_block_size ≤ s.dev.size
      → i < nsect * s.dev.logical_block_size
      → (transfer s sector nsect buffer true).dev.contents (sector * s.dev.logical_block_size + i)
        ≡ s.buffers (buffer + i)
  unfolding transfer memcpy
  transfer-write i fits inside lt = ground arith

  -- No transfer changes a byte of the disk outside its range, or behind the disk's end, and a read
  -- changes no byte of the disk at all; outside its buffer no transfer changes the other memory.
  pub transfer-frame :
      (write : Bool) (a p : ℕ)
      → sector * s.dev.logical_block_size + nsect * s.dev.logical_block_size < 2 ^ 64
      → (write ≡ false)
        ⊎ ((a < sector * s.dev.logical_block_size)
            ⊎ ((sector * s.dev.logical_block_size + nsect * s.dev.logical_block_size ≤ a)
                ⊎ (s.dev.size ≤ a)))
      → (p < buffer) ⊎ (buffer + nsect * s.dev.logical_block_size ≤ p)
      → ((transfer s sector nsect buffer write).dev.contents a ≡ s.dev.contents a)
        × ((transfer s sector nsect buffer write).buffers p ≡ s.buffers p)
  unfolding transfer memcpy
  transfer-frame write a p fits out off = ground arith

  -- For sectors that lie inside the device and whose byte range does not wrap round, what a write
  -- put on the disk a read of the same sectors brings back to any buffer.
  pub transfer_round_trip :
      (to i : ℕ)
      → sector * s.dev.logical_block_size + nsect * s.dev.logical_block_size < 2 ^ 64
      → sector * s.dev.logical_block_size + nsect * s.dev.logical_block_size ≤ s.dev.size
      → i < nsect * s.dev.logical_block_size
      → (transfer (transfer s sector nsect buffer true) sector nsect to false).buffers (to + i)
        ≡ s.buffers (buffer + i)
  unfolding transfer memcpy
  transfer_round_trip to i fits inside lt = ground arith

  -- A buffer has 512 bytes for each sector. With larger logical blocks, a read that fits the device
  -- and does not wrap round also overwrites the memory behind its buffer.
  pub transfer-overrun :
      (i : ℕ)
      → sector * s.dev.logical_block_size + nsect * s.dev.logical_block_size < 2 ^ 64
      → sector * s.dev.logical_block_size + nsect * s.dev.logical_block_size ≤ s.dev.size
      → nsect * 512 ≤ i
      → i < nsect * s.dev.logical_block_size
      → (transfer s sector nsect buffer false).buffers (buffer + i)
        ≡ s.dev.contents (sector * s.dev.logical_block_size + i)
  unfolding transfer memcpy
  transfer-overrun i fits inside lo hi = ground arith
