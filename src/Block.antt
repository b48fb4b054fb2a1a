-- ===== src/Block.antt =====
-- The two ram-disk block drivers, block/sbd.c and block/lab2_block.c.
pub mod Sbd
pub mod Mybdrv
