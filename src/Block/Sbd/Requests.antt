-- ===== src/Block/Sbd/Requests.antt =====
-- `sbd_request` of block/sbd.c: the loop over the requests of a queue.
use ldd_samples.Prelude.{
  ℕ, zero, suc, ◌+◌, ◌*◌, ◌^◌, inl, inr, ◌≤◌, ◌<◌, ◌≡◌, refl, ◌∙◌, true, false, Option, none, some,
  arith, Option-cases,
}
use ldd_samples.Kernel.Blk.{BlockOps, IsBlockLayer, ahead, ahead-more, ahead-next, ahead-first}
use ldd_samples.Kernel.Memory.{memcpy}
use ldd_samples.Block.Sbd.{State, transfer, serve, request_loop, request}

module _ {Queue Request : Type 0} (b : BlockOps Queue Request) where
  -- A request that is no file system request holds the loop for ever: however many rounds it is
  -- given, it does not end.
  pub request_loop-stuck :
      (r : Request)
      → b.is_fs r ≡ false
      → (fuel : ℕ) (q : Queue) (s : State) → request_loop b fuel (some r) q s ≡ none
  unfolding request_loop
  request_loop-stuck r skip zero q s = refl
  request_loop-stuck r skip (suc fuel) q s =
      rw skip (request_loop-stuck r skip fuel (b.end_all r q) s)

  serve-size :
      (t : State) (r : Request)
      → ((serve b t r).dev.size ≡ t.dev.size)
        × ((serve b t r).dev.logical_block_size ≡ t.dev.logical_block_size)
  unfolding serve transfer
  serve-size t r = ground arith

  serve-behind :
      (a : ℕ) (t : State) (r : Request)
      → t.dev.size ≤ a
      → b.rq_pos r * t.dev.logical_block_size + b.cur_sectors r * t.dev.logical_block_size < 2 ^ 64
      → (serve b t r).dev.contents a ≡ t.dev.contents a
  unfolding serve transfer memcpy
  serve-behind a t r behind small = ground arith

  module _ (law : IsBlockLayer b) (all_fs : (r : Request) → b.is_fs r ≡ true) where
    -- A property of the state that each request keeps holds at the end of the loop, and the loop
    -- ends if it has a round for each segment.
    request_loop-ends :
        (P : State → Type 0)
        → ((s : State) (r : Request) → P s → P (serve b s r))
        → (fuel : ℕ) (o : Option Request) (q : Queue) (s : State) → ahead law o q < fuel
        → P s
        → (q' : Queue) × (s' : State) × (request_loop b fuel o q s ≡ some (q', s')) × P s'
    unfolding request_loop
    request_loop-ends P keep zero o q s enough p = absurd (omega arith)
    request_loop-ends P keep (suc fuel) none q s enough p = (q, s, refl, p)
    request_loop-ends P keep (suc fuel) (some r) q s enough p =
        elim (Option-cases (b.end_cur r q).0) [
          | inr (r', e) ↦
              rw (all_fs r, e)
                (request_loop-ends P keep fuel (some r') (b.end_cur r q).1 (serve b s r)
                  (omega (arith, ahead-more law q r r' e)) (keep s r p))
          | inl e ↦
              rw (all_fs r, e)
                (request_loop-ends P keep fuel (b.fetch (b.end_cur r q).1).0
                  (b.fetch (b.end_cur r q).1).1 (serve b s r) (omega (arith, ahead-next law q r e))
                  (keep s r p))
        ]

    -- With a queue of file system requests, none of whose byte ranges wraps round, the request
    -- function ends within one round more than there are segments, and leaves the disk's size and
    -- every byte behind the disk's end as they were.
    pub request-total :
        (fuel : ℕ) (q : Queue) (s : State) (a : ℕ)
        → ((r : Request)
            → b.rq_pos r * s.dev.logical_block_size + b.cur_sectors r * s.dev.logical_block_size
              < 2 ^ 64)
        → law.work q < fuel
        → s.dev.size ≤ a
        → (q' : Queue) × (s' : State) × (request b fuel q s ≡ some (q', s'))
          × (s'.dev.size ≡ s.dev.size)
          × (s'.dev.contents a ≡ s.dev.contents a)
    unfolding request
    request-total fuel q s a small enough behind =
        let (q', s', e, (sz, bs, m)) =
          request_loop-ends
            (λ t.
              (t.dev.size ≡ s.dev.size)
              × (t.dev.logical_block_size ≡ s.dev.logical_block_size)
              × (t.dev.contents a ≡ s.dev.contents a))
            (λ t r (sz, bs, m).
              let (sz', bs') = serve-size t r in
              (sz' ∙ sz, bs' ∙ bs, serve-behind a t r (omega arith) (rw bs (small r)) ∙ m))
            fuel (b.fetch q).0 (b.fetch q).1 s (omega (arith, ahead-first law q))
            (refl, refl, refl) in
        (q', s', e, sz, m)
