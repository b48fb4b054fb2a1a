-- ===== src/Hashtable/Bag.antt =====
-- The hash table of data/lab4_data_hashtable.c as a bag.
use ldd_samples.Prelude.{
  ℕ, zero, suc, ◌+◌, ◌-◌, ◌<◌, ◌≡◌, ◌≢◌, refl, ◌∙◌, ap, sym, List, [], ◌∷◌, ◌++◌, arith, ◌==◌,
  if◌then◌else◌,
}
use ldd_samples.Hashtable.Table.{
  IsHash, Table, del_first, Op, adding, deleting, hash_func, bucket, add_node, del_node, perform,
  perform_all, print_nodes,
}

-- How often a number stands in a list.
abbrev pub count : ℕ → List ℕ → ℕ
count x [] = 0
count x (y ∷ ys) = if y == x then suc (count x ys) else count x ys

-- A bag tells how often it has each number. Deleting what is not there changes nothing.
abbrev pub Bag : Type 0
Bag = ℕ → ℕ

abbrev pub after : Op → Bag → Bag
after (adding datum) bag x = if x == datum then bag x + 1 else bag x
after (deleting datum) bag x = if x == datum then bag x - 1 else bag x

abbrev pub after_all : List Op → Bag → Bag
after_all [] bag = bag
after_all (op ∷ ops) bag = after_all ops (after op bag)

count-append : (x : ℕ) (xs ys : List ℕ) → count x (xs ++ ys) ≡ count x xs + count x ys
count-append x [] ys = omega arith
count-append x (y ∷ xs) ys = ground (arith, count-append x xs ys)

count-del_first :
    (x datum : ℕ) (xs : List ℕ)
    → count x (del_first datum xs) ≡ (if x == datum then count x xs - 1 else count x xs)
count-del_first x datum [] = ground arith
count-del_first x datum (y ∷ xs) = ground (arith, count-del_first x datum xs)

module _ {hash_min : ℕ → ℕ} (is_hash : IsHash hash_min) where
  -- Each number stands in its own bucket only.
  pub record IsPlaced (t : Table) : Type 0 where
    pub placed : (b x : ℕ) → b ≢ bucket hash_min x → count x (t b) ≡ 0

  same-bucket : (x y : ℕ) → x ≡ y → bucket hash_min x ≡ bucket hash_min y
  same-bucket x y e = ap (bucket hash_min) e

  perform-IsPlaced : (op : Op) (t : Table) → IsPlaced t → IsPlaced (perform hash_min op t)
  unfolding perform add_node del_node
  perform-IsPlaced (adding datum) t h = record {
    placed = λ b x away. ground (arith, away, h.placed b x away, same-bucket datum x);
  }
  perform-IsPlaced (deleting datum) t h = record {
    placed = λ b x away. ground (arith, away, h.placed b x away, count-del_first x datum (t b));
  }

  -- Both buckets together have a number as often as its own.
  in_bucket :
      (t : Table) (x : ℕ) → IsPlaced t → count x (print_nodes t) ≡ count x (t (bucket hash_min x))
  unfolding print_nodes bucket
  in_bucket t x h = count-append x (t 0) (t 1) ∙ pick (bucket hash_min x) refl (small x)
    where
      small : (x : ℕ) → bucket hash_min x < 2
      small x = is_hash.small (hash_func x)

      pick : (b : ℕ) → bucket hash_min x ≡ b → b < 2 → count x (t 0) + count x (t 1) ≡ count x (t b)
      pick zero e lt = omega (arith, h.placed 1 x (λ z. omega (arith, z, e)))
      pick (suc zero) e lt = omega (arith, h.placed 0 x (λ z. omega (arith, z, e)))
      pick (suc (suc b)) e lt = absurd (omega (arith, lt))

  own_bucket :
      (op : Op) (t : Table) (x : ℕ)
      → count x (perform hash_min op t (bucket hash_min x))
        ≡ after op (λ y. count y (t (bucket hash_min y))) x
  unfolding perform add_node del_node
  own_bucket (adding datum) t x = ground (arith, same-bucket datum x)
  own_bucket (deleting datum) t x =
      ground (arith, same-bucket datum x, count-del_first x datum (t (bucket hash_min x)))

  after-cong :
      (op : Op) (bag bag' : Bag)
      → ((x : ℕ) → bag x ≡ bag' x)
      → (x : ℕ) → after op bag x ≡ after op bag' x
  after-cong (adding datum) bag bag' h x = ground (arith, h x)
  after-cong (deleting datum) bag bag' h x = ground (arith, h x)

  -- Over any calls of `add_node` and `del_node`, from a table whose nodes stand in their own buckets, the table
  -- has each number as often as a bag that starts with the same numbers, and its nodes stand in their own buckets.
  pub perform_all-bag :
      (ops : List Op) (t : Table) (bag : Bag)
      → IsPlaced t
      → ((x : ℕ) → count x (print_nodes t) ≡ bag x)
      → IsPlaced (perform_all hash_min ops t)
        × ((x : ℕ) → count x (print_nodes (perform_all hash_min ops t)) ≡ after_all ops bag x)
  unfolding perform_all
  perform_all-bag [] t bag placed same = (placed, same)
  perform_all-bag (op ∷ ops) t bag placed same =
      let placed' = perform-IsPlaced op t placed in
      perform_all-bag ops (perform hash_min op t) (after op bag) placed' (λ x.
        in_bucket (perform hash_min op t) x placed'
        ∙ own_bucket op t x
        ∙ after-cong op (λ y. count y (t (bucket hash_min y))) bag
            (λ y. sym (in_bucket t y placed) ∙ same y) x)
