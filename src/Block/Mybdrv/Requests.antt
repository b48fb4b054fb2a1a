-- ===== src/Block/Mybdrv/Requests.antt =====
-- `my_request` of block/lab2_block.c: the loop over the requests of a queue.
use ldd_samples.Prelude.{
  ℕ, zero, suc, ◌^◌, inl, inr, ◌≤◌, ◌<◌, ◌≡◌, refl, false, Option, none, some, arith, Option-cases,
}
use ldd_samples.Kernel.Blk.{BlockOps, IsBlockLayer, ahead, ahead-more, ahead-next, ahead-first}
use ldd_samples.Block.Mybdrv.{State, serve, request_loop, request}
use ldd_samples.Block.Mybdrv.Transfer.{IsPlaced, disk-behind}

-- What the loop keeps: the disk's place and size, and a byte behind the disk.
pub record IsKept (s t : State) (a : ℕ) : Type 0 where
  pub size : t.disk.disk_size ≡ s.disk.disk_size
  pub address : t.disk.ramdisk ≡ s.disk.ramdisk
  pub behind : t.disk.contents a ≡ s.disk.contents a

module _ {Queue Request : Type 0} (b : BlockOps Queue Request) (law : IsBlockLayer b) where
  serve-IsKept :
      (s t : State) (a : ℕ) (r : Request)
      → IsPlaced s.disk
      → s.disk.disk_size ≤ a
      → b.cur_sectors r < 2 ^ 22
      → IsKept s t a
      → IsKept s (serve b t r) a
  unfolding serve
  serve-IsKept s t a r placed behind short k =
      ground (arith, disk-behind t (b.rq_pos r) (b.cur_sectors r) (b.buffer r) a (b.is_write r))

  request_loop-IsKept :
      (s : State) (a : ℕ)
      → IsPlaced s.disk
      → s.disk.disk_size ≤ a
      → ((r : Request) → b.cur_sectors r < 2 ^ 22)
      → (fuel : ℕ) (o : Option Request) (q : Queue) (t : State) → ahead law o q < fuel
      → IsKept s t a
      → (q' : Queue) × (t' : State) × (request_loop b fuel o q t ≡ some (q', t')) × IsKept s t' a
  unfolding request_loop
  request_loop-IsKept s a placed behind short zero o q t enough k = absurd (omega arith)
  request_loop-IsKept s a placed behind short (suc fuel) none q t enough k = (q, t, refl, k)
  request_loop-IsKept s a placed behind short (suc fuel) (some r) q t enough k =
      let k' = serve-IsKept s t a r placed behind (short r) k in
      elim (Option-cases (b.end_cur r q).0) [
        | inr (r', e) ↦
            rw (e, request_loop)
              (request_loop-IsKept s a placed behind short fuel (some r') (b.end_cur r q).1
                (serve b t r) (omega (arith, ahead-more law q r r' e)) k')
        | inl e ↦
            rw (e, request_loop)
              (request_loop-IsKept s a placed behind short fuel (b.fetch (b.end_cur r q).1).0
                (b.fetch (b.end_cur r q).1).1 (serve b t r) (omega (arith, ahead-next law q r e))
                k')
      ]

  -- For a disk placed with room behind it, whatever the types of the requests and wherever they
  -- point, with lengths below 2 ^ 22 sectors the request function ends within one round more than
  -- there are segments, and leaves the disk's size, its address and every byte behind it as they
  -- were.
  pub my_request-total :
      (fuel : ℕ) (q : Queue) (s : State) (a : ℕ)
      → IsPlaced s.disk
      → ((r : Request) → b.cur_sectors r < 2 ^ 22)
      → law.work q < fuel
      → s.disk.disk_size ≤ a
      → (q' : Queue) × (s' : State) × (request b fuel q s ≡ some (q', s')) × IsKept s s' a
  unfolding request
  my_request-total fuel q s a placed short enough behind =
      request_loop-IsKept s a placed behind short fuel (b.fetch q).0 (b.fetch q).1 s
        (omega (arith, ahead-first law q)) (record { size = refl; address = refl; behind = refl })

  -- A request that is no file system request is skipped: a step changes nothing.
  pub serve-skipped : (s : State) (r : Request) → b.is_fs r ≡ false → serve b s r ≡ s
  unfolding serve
  serve-skipped s r skip = ground arith
