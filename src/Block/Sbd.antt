-- ===== src/Block/Sbd.antt =====
-- The driver of block/sbd.c: `sbd_transfer`, `sbd_request`, `sbd_getgeo`. An `unsigned long` has 64
-- bits; `Device.data` is memory from its first byte on, with what lies behind it.
pub mod Transfer
pub mod Requests
pub mod Geo
pub mod Lifecycle
mod Tests
use ldd_samples.Prelude.{
  ℕ, zero, suc, ◌-◌, ◌*◌, ◌/◌, ◌%◌, ◌^◌, Bool, Option, none, some, ltb, not, if◌then◌else◌,
}
use ldd_samples.Kernel.Word.{add64, mul64}
use ldd_samples.Kernel.Memory.{Mem, memcpy}
use ldd_samples.Kernel.Blk.{BlockOps}

-- `#define KERNEL_SECTOR_SIZE 512`
abbrev pub kernel_sector_size : ℕ
kernel_sector_size = 512

-- `Device`, with the module parameter `logical_block_size` (512 by default).
pub record Sbd : Type 0 where
  pub size : ℕ
  pub contents : Mem
  pub logical_block_size : ℕ

-- The disk and the memory that the requests' buffers lie in.
pub record State : Type 0 where
  pub dev : Sbd
  pub buffers : Mem

pub transfer : State → (sector nsect buffer : ℕ) → (write : Bool) → State
transfer s sector nsect buffer write =
    let offset = mul64 sector s.dev.logical_block_size in
    let nbytes = mul64 nsect s.dev.logical_block_size in
    if ltb s.dev.size (add64 offset nbytes)
    then s
    else if write
    then record s {
      dev = record (s.dev) { contents = memcpy s.dev.contents offset s.buffers buffer nbytes };
    }
    else record s { buffers = memcpy s.buffers buffer s.dev.contents offset nbytes }

module _ {Queue Request : Type 0} (b : BlockOps Queue Request) where
  -- The transfer that a request asks for now.
  pub serve : State → Request → State
  serve s r = transfer s (b.rq_pos r) (b.cur_sectors r) (b.buffer r) (b.is_write r)

  -- The loop of `sbd_request` on fuel: `none` when the fuel runs out. For a request that is no file
  -- system request it ends the request and goes on with the same one.
  pub request_loop : ℕ → Option Request → Queue → State → Option (Queue × State)
  request_loop fuel none q s = some (q, s)
  request_loop zero (some r) q s = none
  request_loop (suc fuel) (some r) q s =
      let skipped = request_loop fuel (some r) (b.end_all r q) s in
      let served = serve s r in
      let fetched = b.fetch (b.end_cur r q).1 in
      let more = λ (r' : Request). request_loop fuel (some r') (b.end_cur r q).1 served in
      let next = request_loop fuel fetched.0 fetched.1 served in
      if not (b.is_fs r)
      then skipped
      else elim (b.end_cur r q).0 [ some r' ↦ more r' | none ↦ next ]

  pub request : ℕ → Queue → State → Option (Queue × State)
  unfolding request_loop
  request fuel q s = request_loop fuel (b.fetch q).0 (b.fetch q).1 s

-- `struct hd_geometry` with its `unsigned char`, `unsigned short` and `unsigned long` fields.
pub record Geometry : Type 0 where
  pub heads : ℕ
  pub sectors : ℕ
  pub cylinders : ℕ
  pub start : ℕ

pub getgeo : Sbd → Geometry
getgeo d =
    let size = mul64 d.size (d.logical_block_size / kernel_sector_size) in
    record {
      heads = 4;
      sectors = 16;
      cylinders = (size - size % 2 ^ 6) / 2 ^ 6 % 2 ^ 16;
      start = 0;
    }
