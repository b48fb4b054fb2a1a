-- ===== src/Block/Mybdrv.antt =====
-- The driver of block/lab2_block.c: `my_request`, `my_ioctl`. Pointers and `unsigned long` have 64
-- bits, `unsigned` and `int` 32. The ram disk's bytes are memory from its first byte on; its address
-- `ramdisk` matters for the comparison of pointers.
pub mod Transfer
pub mod Requests
pub mod Control
pub mod Lifecycle
mod Tests
use ldd_samples.Prelude.{
  ℕ, zero, suc, ◌+◌, ◌-◌, ◌*◌, ◌/◌, ◌%◌, ◌^◌, Bool, true, false, Option, none, some, ltb, not, ◌==◌,
  if◌then◌else◌,
}
use ldd_samples.Kernel.{Ret, ret, fail, enotty, efault}
use ldd_samples.Kernel.Word.{add64, extend_int, to_int}
use ldd_samples.Kernel.Memory.{Mem, CopyFn, memcpy}
use ldd_samples.Kernel.Blk.{BlockOps}

-- `static unsigned short sector_size = 512`
abbrev pub sector_size : ℕ
sector_size = 512

-- `disk_size` is an `int`.
pub record Disk : Type 0 where
  pub ramdisk : ℕ
  pub disk_size : ℕ
  pub contents : Mem

-- The disk and the memory that the requests' buffers lie in.
pub record State : Type 0 where
  pub disk : Disk
  pub buffers : Mem

-- One request of file system type: `sector`, `nr_sectors` and their products with the sector size
-- are `unsigned`, `size` is an `int`.
pub transfer : State → (rq_pos cur_sectors buffer : ℕ) → (write : Bool) → State
transfer s rq_pos cur_sectors buffer write =
    let offset = to_int (to_int rq_pos * sector_size) in
    let size = extend_int (to_int (to_int cur_sectors * sector_size)) in
    let end = add64 s.disk.ramdisk (extend_int s.disk.disk_size) in
    if ltb end (add64 (add64 s.disk.ramdisk offset) size)
    then s
    else if write
    then record s {
      disk = record (s.disk) { contents = memcpy s.disk.contents offset s.buffers buffer size };
    }
    else record s { buffers = memcpy s.buffers buffer s.disk.contents offset size }

module _ {Queue Request : Type 0} (b : BlockOps Queue Request) where
  -- What the loop does with a request before it ends the current segment: a request of another
  -- type is skipped.
  pub serve : State → Request → State
  serve s r =
      if not (b.is_fs r)
      then s
      else transfer s (b.rq_pos r) (b.cur_sectors r) (b.buffer r) (b.is_write r)

  -- The loop of `my_request` on fuel: `none` when the fuel runs out.
  pub request_loop : ℕ → Option Request → Queue → State → Option (Queue × State)
  request_loop fuel none q s = some (q, s)
  request_loop zero (some r) q s = none
  request_loop (suc fuel) (some r) q s =
      let served = serve s r in
      let fetched = b.fetch (b.end_cur r q).1 in
      let more = λ (r' : Request). request_loop fuel (some r') (b.end_cur r q).1 served in
      let next = request_loop fuel fetched.0 fetched.1 served in
      elim (b.end_cur r q).0 [ some r' ↦ more r' | none ↦ next ]

  pub request : ℕ → Queue → State → Option (Queue × State)
  unfolding request_loop
  request fuel q s = request_loop fuel (b.fetch q).0 (b.fetch q).1 s

-- `struct hd_geometry` with its `unsigned char`, `unsigned short` and `unsigned long` fields.
pub record Geometry : Type 0 where
  pub heads : ℕ
  pub sectors : ℕ
  pub cylinders : ℕ
  pub start : ℕ

pub geometry : Disk → Geometry
geometry d =
    let size = extend_int d.disk_size in
    record {
      heads = 4;
      sectors = 16;
      cylinders = (size - size % 2 ^ 6) / 2 ^ 6 % 2 ^ 16;
      start = 4;
    }

-- The 16 bytes of the structure; those of the padding are what the stack held.
pub geometry_bytes : Geometry → Mem → Mem
geometry_bytes g stack i =
    if i == 0
    then g.heads
    else if i == 1
    then g.sectors
    else if i == 2
    then g.cylinders % 2 ^ 8
    else if i == 3
    then g.cylinders / 2 ^ 8
    else if ltb i 8
    then stack i
    else g.start / 2 ^ (8 * (i - 8)) % 2 ^ 8

-- `HDIO_GETGEO`
abbrev pub hdio_getgeo : ℕ
hdio_getgeo = 0x0301

pub ioctl : CopyFn → Disk → (stack user : Mem) → (cmd arg : ℕ) → Mem × Ret
unfolding geometry geometry_bytes
ioctl copy_to_user d stack user cmd arg =
    if not (cmd == hdio_getgeo)
    then (user, fail enotty)
    else let (user', left) = copy_to_user user arg (geometry_bytes (geometry d) stack) 0 16 in
      if left == 0 then (user', ret 0) else (user', fail efault)
