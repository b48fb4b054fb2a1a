-- ===== src/Block/Mybdrv/Control.antt =====
-- `my_ioctl` of block/lab2_block.c.
use ldd_samples.Prelude.{ℕ, ◌+◌, ◌-◌, ◌*◌, ◌^◌, ◌≤◌, ◌<◌, ◌≡◌, ◌≢◌, ◌⊎◌, ap, arith}
use ldd_samples.Kernel.{ret}
use ldd_samples.Kernel.Memory.{Mem, CopyFn, IsCopy}
use ldd_samples.Block.Mybdrv.{Disk, geometry, geometry_bytes, hdio_getgeo, ioctl}

-- The sizes that `my_init` sets for a `size` of `diskmb` megabytes have, for each multiple of 4, no
-- cylinders: the 16 bits of the field are all zero.
pub geometry-zero :
    (d : Disk) (k : ℕ)
    → d.disk_size ≡ 4 * k * 2 ^ 20
    → d.disk_size < 2 ^ 31
    → (geometry d).cylinders ≡ 0
unfolding geometry
geometry-zero d k size small = ground arith

module _ {copy : CopyFn} (is_copy : IsCopy copy) (d : Disk) (stack user : Mem) (cmd arg : ℕ) where
  geometry_byte :
      (i : ℕ)
      → cmd ≡ hdio_getgeo
      → (ioctl copy d stack user cmd arg).1 ≡ ret 0
      → i < 16
      → (ioctl copy d stack user cmd arg).0 (arg + i) ≡ geometry_bytes (geometry d) stack i
  unfolding ioctl
  geometry_byte i geo done lt =
      let at : 0 + (arg + i - arg) ≡ i = omega arith in
      ground (
        arith,
        is_copy.copied user arg (geometry_bytes (geometry d) stack) 0 16 (arg + i),
        ap (geometry_bytes (geometry d) stack) at,
      )

  -- HDIO_GETGEO that returns 0 has put the geometry into the caller's structure, byte by byte.
  pub ioctl-geometry :
      cmd ≡ hdio_getgeo
      → (ioctl copy d stack user cmd arg).1 ≡ ret 0
      → ((ioctl copy d stack user cmd arg).0 arg ≡ 4)
        × ((ioctl copy d stack user cmd arg).0 (arg + 1) ≡ 16)
        × ((ioctl copy d stack user cmd arg).0 (arg + 2)
              + 2 ^ 8 * (ioctl copy d stack user cmd arg).0 (arg + 3)
            ≡ (geometry d).cylinders)
        × ((ioctl copy d stack user cmd arg).0 (arg + 8) ≡ 4)
  unfolding geometry geometry_bytes
  ioctl-geometry geo done = ground (
    arith,
    geometry_byte 0 geo done (omega arith),
    geometry_byte 1 geo done (omega arith),
    geometry_byte 2 geo done (omega arith),
    geometry_byte 3 geo done (omega arith),
    geometry_byte 8 geo done (omega arith),
  )

  -- Another command is refused with ENOTTY; no command writes outside the 16 bytes of the argument.
  pub ioctl-outside :
      (a : ℕ)
      → (a < arg) ⊎ ((arg + 16 ≤ a) ⊎ (cmd ≢ hdio_getgeo))
      → (ioctl copy d stack user cmd arg).0 a ≡ user a
  unfolding ioctl
  ioctl-outside a out =
      ground (arith, is_copy.frame user arg (geometry_bytes (geometry d) stack) 0 16 a)
