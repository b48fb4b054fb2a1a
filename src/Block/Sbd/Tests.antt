-- ===== src/Block/Sbd/Tests.antt =====
-- Runs of block/sbd.c at concrete inputs.
use ldd_samples.Prelude.{
  ℕ, zero, suc, ◌+◌, ◌≤◌, ◌≡◌, refl, Bool, true, false, Option, none, some, [], ap, arith,
}
use ldd_samples.Kernel.Blk.{BlockOps, IsBlockLayer, ListRequest}
use ldd_samples.Block.Sbd.{State, transfer, request}
use ldd_samples.Block.Sbd.Transfer.{transfer_round_trip}
use ldd_samples.Block.Sbd.Requests.{request-total}
use ldd_samples.Block.Sbd.Lifecycle.{Answers}

-- A layer whose queue counts requests: each writes (or reads) the sectors 1 and 2.
abbrev counted_fetch : ℕ → Option Bool × ℕ
counted_fetch zero = (none, 0)
counted_fetch (suc n) = (some true, n)

abbrev counted_layer : BlockOps ℕ Bool
counted_layer = record {
  fetch = counted_fetch;
  is_fs = λ r. true;
  rq_pos = λ r. 1;
  cur_sectors = λ r. 2;
  buffer = λ r. 0;
  is_write = λ r. r;
  end_cur = λ r q. (none, q);
  end_all = λ r q. q;
}

counted_fetched : (q q' : ℕ) (r : Bool) → counted_fetch q ≡ (some r, q') → 1 + q' ≤ q
counted_fetched zero q' r e = cc
counted_fetched (suc n) q' r e = omega (arith, ap (λ (p : Option Bool × ℕ). p.1) e)

counted_layer-law : IsBlockLayer counted_layer
counted_layer-law = record {
  work = λ q. q;
  load = λ r. 1;
  fetched = counted_fetched;
  loaded = λ r. omega arith;
  ended = λ q q' r r' e. cc;
  finished = λ q q' r e. omega (arith, ap (λ (p : Option Bool × ℕ). p.1) e);
}

abbrev disk : State
disk = record {
  dev = record { size = 4096; contents = (λ a. a + 1); logical_block_size = 512 };
  buffers = λ a. a;
}

abbrev large_blocks : State
large_blocks = record disk { dev = record (disk.dev) { logical_block_size = 1024 } }

request-total_example :
    (q' : ℕ) × (s' : State) × (request counted_layer 4 3 disk ≡ some (q', s'))
    × (s'.dev.size ≡ 4096)
    × (s'.dev.contents 5000 ≡ 5001)
unfolding counted_layer-law
request-total_example =
    request-total counted_layer counted_layer-law (λ r. refl) 4 3 disk 5000 (λ r. omega arith)
      (omega arith) (omega arith)

abbrev skipped : ListRequest
skipped = record { is_write = true; pos = 1; sectors = 1; buffer = 0; later = [] }

transfer_round_trip_example :
    (transfer (transfer disk 1 2 300 true) 1 2 9000 false).buffers (9000 + 600) ≡ 900
transfer_round_trip_example =
    transfer_round_trip disk 1 2 300 9000 600 (omega arith) (omega arith) (omega arith)

abbrev no_disk : Answers
no_disk = record {
  vmalloc = true;
  blk_init_queue = true;
  register_blkdev = true;
  alloc_disk = false;
}
