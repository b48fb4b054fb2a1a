-- ===== src/Block/Sbd/Geo.antt =====
-- `sbd_getgeo` of block/sbd.c.
use ldd_samples.Prelude.{ℕ, ◌+◌, ◌*◌, ◌^◌, ◌≤◌, ◌<◌, ◌≡◌, arith}
use ldd_samples.Block.Sbd.{Sbd, Geometry, getgeo}

-- The sectors that a geometry has.
abbrev pub capacity : Geometry → ℕ
capacity g = g.cylinders * g.heads * g.sectors

-- For a device with blocks of 512 bytes whose size fits the 16-bit cylinder count, the geometry has
-- as many sectors as the device has bytes, less at most 63.
pub getgeo-capacity :
    (d : Sbd)
    → d.logical_block_size ≡ 512
    → d.size < 2 ^ 22
    → (capacity (getgeo d) ≤ d.size) × (d.size < capacity (getgeo d) + 64)
unfolding getgeo
getgeo-capacity d block fits = rw block (omega arith)

-- For a device with blocks of 512 bytes, of at least 64 and less than 2 ^ 22 bytes, the geometry
-- reaches past the end of the device.
pub getgeo-too_large :
    (d : Sbd)
    → d.logical_block_size ≡ 512
    → 64 ≤ d.size
    → d.size < 2 ^ 22
    → d.size < capacity (getgeo d) * 512
getgeo-too_large d block some_room fits = omega (arith, getgeo-capacity d block fits)
