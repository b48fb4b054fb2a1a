-- ===== src/Block/Mybdrv/Tests.antt =====
-- Runs of block/lab2_block.c at concrete inputs.
use ldd_samples.Prelude.{ℕ, ◌+◌, ◌^◌, ◌≤◌, ◌≡◌, Bool, true, false, Option, none, some, ap, arith}
use ldd_samples.Kernel.{ret}
use ldd_samples.Kernel.Blk.{BlockOps, IsBlockLayer}
use ldd_samples.Block.Mybdrv.{State}
use ldd_samples.Block.Mybdrv.Transfer.{IsPlaced}
use ldd_samples.Block.Mybdrv.Lifecycle.{Answers}

-- A layer of one request, which is no file system request and has no end of segments: `true` while
-- it waits.
abbrev single_fetch : Bool → Option Bool × Bool
single_fetch true = (some true, false)
single_fetch false = (none, false)

abbrev single_layer : BlockOps Bool Bool
single_layer = record {
  fetch = single_fetch;
  is_fs = λ r. r;
  rq_pos = λ r. 2 ^ 23 + 1;
  cur_sectors = λ r. 2;
  buffer = λ r. 0;
  is_write = λ r. r;
  end_cur = λ r q. (none, q);
  end_all = λ r q. q;
}

abbrev waiting : Bool → ℕ
waiting true = 1
waiting false = 0

single_fetched : (q q' r : Bool) → single_fetch q ≡ (some r, q') → 1 + waiting q' ≤ waiting q
single_fetched true q' r e = omega (arith, ap (λ (p : Option Bool × Bool). waiting p.1) e)
single_fetched false q' r e = cc

single_layer-law : IsBlockLayer single_layer
single_layer-law = record {
  work = waiting;
  load = λ r. 1;
  fetched = single_fetched;
  loaded = λ r. omega arith;
  ended = λ q q' r r' e. cc;
  finished = λ q q' r e. omega (arith, ap (λ (p : Option Bool × Bool). waiting p.1) e);
}

abbrev ram : State
ram = record {
  disk = record { ramdisk = 2 ^ 40; disk_size = 4096; contents = (λ a. a + 1) };
  buffers = λ a. a;
}

ram-IsPlaced : IsPlaced ram.disk
ram-IsPlaced = record { small = omega arith; room = omega arith }

abbrev no_disk : Answers
no_disk = record {
  vmalloc = true;
  blk_init_queue = true;
  register_blkdev = ret 253;
  alloc_disk = false;
}
