-- ===== src/Block/Sbd/Lifecycle.antt =====
-- `sbd_init` and `sbd_exit` of block/sbd.c as the calls that they make.
use ldd_samples.Prelude.{List, [], ◌∷◌, ◌++◌, ◌≡◌, Bool, true, false, some, arith}
use ldd_samples.Kernel.{Ret, ret, fail, enomem}
use ldd_samples.Kernel.Ledger.{
  buffer, request_queue, blkdev, gendisk, Effect, acquire, release, replay,
}

-- Whether `vmalloc`, `blk_init_queue`, `register_blkdev` and `alloc_disk` succeed.
pub record Answers : Type 0 where
  pub vmalloc : Bool
  pub blk_init_queue : Bool
  pub register_blkdev : Bool
  pub alloc_disk : Bool

init_disk : Bool → List Effect × Ret
init_disk true = (acquire gendisk ∷ [], ret 0)
init_disk false = (release blkdev ∷ release buffer ∷ [], fail enomem)

init_major : Bool → Bool → List Effect × Ret
unfolding init_disk
init_major false alloc_disk = (release buffer ∷ [], fail enomem)
init_major true alloc_disk =
    let (effects, r) = init_disk alloc_disk in (acquire blkdev ∷ effects, r)

init_queue : Bool → Bool → Bool → List Effect × Ret
unfolding init_major
init_queue false register_blkdev alloc_disk = (release buffer ∷ [], fail enomem)
init_queue true register_blkdev alloc_disk =
    let (effects, r) = init_major register_blkdev alloc_disk in (acquire request_queue ∷ effects, r)

init_data : Bool → Bool → Bool → Bool → List Effect × Ret
unfolding init_queue
init_data false blk_init_queue register_blkdev alloc_disk = ([], fail enomem)
init_data true blk_init_queue register_blkdev alloc_disk =
    let (effects, r) = init_queue blk_init_queue register_blkdev alloc_disk in
    (acquire buffer ∷ effects, r)

unfoldable pub init : Answers → List Effect × Ret
unfolding init_data
init k = init_data k.vmalloc k.blk_init_queue k.register_blkdev k.alloc_disk

-- `del_gendisk` takes the disk out of use, and `put_disk` gives it back.
unfoldable pub exit : List Effect
exit = release gendisk ∷ release blkdev ∷ release request_queue ∷ release buffer ∷ []

-- A load that succeeds and is followed by an unload gives everything back.
pub replay-init-exit : (k : Answers) → (init k).1 ≡ ret 0 → replay ((init k).0 ++ exit) [] ≡ some []
unfolding init exit
replay-init-exit k success = ground arith

-- Where init fails with ENOMEM after the memory and the request queue were made, the queue is all
-- that stays held: the error paths never clean it up.
pub init-leaks_queue :
    (k : Answers)
    → (init k).1 ≡ fail enomem
    → k.vmalloc ≡ true
    → k.blk_init_queue ≡ true
    → replay (init k).0 [] ≡ some (request_queue ∷ [])
unfolding init
init-leaks_queue k failed memory queue = ground arith
