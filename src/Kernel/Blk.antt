-- ===== src/Kernel/Blk.antt =====
-- The block layer as the request functions see it: a parameter, with the laws that a loop over
-- requests needs to end, and one layer that keeps its requests in a list.
use ldd_samples.Prelude.{
  ℕ, suc, ◌+◌, ◌≤◌, ◌<◌, ◌≡◌, refl, ap, Bool, Option, none, some, List, [], ◌∷◌, arith, length,
}

-- `fetch` is `blk_fetch_request`. `end_cur` is `__blk_end_request_cur`: the request with its
-- current segment done, or `none` when no segment is left (C's false). `end_all` is
-- `__blk_end_request_all`. Positions and lengths count sectors of 512 bytes.
pub record BlockOps (Queue Request : Type 0) : Type 0 where
  pub fetch : Queue → Option Request × Queue
  pub is_fs : Request → Bool
  pub rq_pos : Request → ℕ
  pub cur_sectors : Request → ℕ
  pub buffer : Request → ℕ
  pub is_write : Request → Bool
  pub end_cur : Request → Queue → Option Request × Queue
  pub end_all : Request → Queue → Queue

-- The segments that wait in a queue and in a request bound the work: fetching makes none, a request
-- has at least one, and ending the current one takes one away.
pub record IsBlockLayer {Queue Request : Type 0} (b : BlockOps Queue Request) : Type 0 where
  pub work : Queue → ℕ
  pub load : Request → ℕ
  pub fetched : (q q' : Queue) (r : Request) → b.fetch q ≡ (some r, q') → load r + work q' ≤ work q
  pub loaded : (r : Request) → 0 < load r
  pub ended :
      (q q' : Queue) (r r' : Request)
      → b.end_cur r q ≡ (some r', q')
      → load r' + work q' < load r + work q
  pub finished : (q q' : Queue) (r : Request) → b.end_cur r q ≡ (none, q') → work q' ≤ work q

module _ {Queue Request : Type 0} {b : BlockOps Queue Request} (law : IsBlockLayer b) where
  -- The segments ahead of a loop that holds the request `o`; after its last request it is done.
  abbrev pub ahead : Option Request → Queue → ℕ
  ahead none q = 0
  ahead (some r) q = law.load r + law.work q

  ahead-le : (q q' : Queue) (o : Option Request) → b.fetch q ≡ (o, q') → ahead o q' ≤ law.work q
  ahead-le q q' none e = omega arith
  ahead-le q q' (some r) e = law.fetched q q' r e

  pub ahead-more :
      (q : Queue) (r r' : Request)
      → (b.end_cur r q).0 ≡ some r'
      → ahead (some r') (b.end_cur r q).1 < ahead (some r) q
  ahead-more q r r' e = law.ended q (b.end_cur r q).1 r r' (λ i. (e i, (b.end_cur r q).1))

  pub ahead-next :
      (q : Queue) (r : Request)
      → (b.end_cur r q).0 ≡ none
      → ahead (b.fetch (b.end_cur r q).1).0 (b.fetch (b.end_cur r q).1).1 < ahead (some r) q
  ahead-next q r e = omega (
    arith,
    law.loaded r,
    law.finished q (b.end_cur r q).1 r (λ i. (e i, (b.end_cur r q).1)),
    ahead-le (b.end_cur r q).1 (b.fetch (b.end_cur r q).1).1 (b.fetch (b.end_cur r q).1).0 refl,
  )

  pub ahead-first : (q : Queue) → ahead (b.fetch q).0 (b.fetch q).1 ≤ law.work q
  ahead-first q = ahead-le q (b.fetch q).1 (b.fetch q).0 refl

-- A layer that keeps its requests, each with its later segments, in a list.
pub record ListRequest : Type 0 where
  pub is_write : Bool
  pub pos : ℕ
  pub sectors : ℕ
  pub buffer : ℕ
  pub later : List (ℕ × ℕ)

abbrev pub list_fetch : List ListRequest → Option ListRequest × List ListRequest
list_fetch [] = (none, [])
list_fetch (r ∷ q) = (some r, q)

abbrev pub list_end : ListRequest → List (ℕ × ℕ) → Option ListRequest
list_end r [] = none
list_end r ((n, a) ∷ later) =
    some (record r { pos = r.pos + r.sectors; sectors = n; buffer = a; later = later })

abbrev pub list_layer : (ListRequest → Bool) → BlockOps (List ListRequest) ListRequest
list_layer fs = record {
  fetch = list_fetch;
  is_fs = fs;
  rq_pos = λ r. r.pos;
  cur_sectors = λ r. r.sectors;
  buffer = λ r. r.buffer;
  is_write = λ r. r.is_write;
  end_cur = λ r q. (list_end r r.later, q);
  end_all = λ r q. q;
}

abbrev list_load : ListRequest → ℕ
list_load r = suc (length r.later)

abbrev list_work : List ListRequest → ℕ
list_work [] = 0
list_work (r ∷ q) = list_load r + list_work q

list_fetched :
    (q q' : List ListRequest) (r : ListRequest)
    → list_fetch q ≡ (some r, q')
    → list_load r + list_work q' ≤ list_work q
list_fetched [] q' r e = ground arith
list_fetched (s ∷ q) q' r e = ground arith

list_ended :
    (r r' : ListRequest) (later : List (ℕ × ℕ))
    → list_end r later ≡ some r'
    → list_load r' < suc (length later)
list_ended r r' [] e = cc
list_ended r r' ((n, a) ∷ later) e = ground arith

pub list_layer-law : (fs : ListRequest → Bool) → IsBlockLayer (list_layer fs)
list_layer-law fs = record {
  work = list_work;
  load = list_load;
  fetched = list_fetched;
  loaded = λ r. omega arith;
  ended = λ q q' r r' e. omega (
    arith,
    list_ended r r' r.later (ap (λ (p : Option ListRequest × List ListRequest). p.0) e),
    ap (λ (p : Option ListRequest × List ListRequest). list_work p.1) e,
  );
  finished = λ q q' r e.
      omega (arith, ap (λ (p : Option ListRequest × List ListRequest). list_work p.1) e);
}
