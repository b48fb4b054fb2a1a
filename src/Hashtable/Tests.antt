-- ===== src/Hashtable/Tests.antt =====
-- The calls of `hashtable_init` on an empty table.
use ldd_samples.Prelude.{ℕ, ◌≡◌, ◌%◌, refl, List, [], ◌∷◌, arith}
use ldd_samples.Hashtable.Table
use ldd_samples.Hashtable.Bag

abbrev odd : ℕ → ℕ
odd key = key % 2

odd-IsHash : Table.IsHash odd
odd-IsHash = record { small = λ key. omega arith }

abbrev empty : Table.Table
empty b = []

hashtable_init_test : Table.print_nodes (Table.hashtable_init odd empty).0 ≡ 2 ∷ 7 ∷ []
unfolding Table.hashtable_init Table.add_node Table.del_node Table.print_nodes
hashtable_init_test = refl

abbrev ops : List Table.Op
ops = Table.adding 5 ∷ Table.adding 2 ∷ Table.deleting 5 ∷ []

perform_all-bag_example :
    Bag.IsPlaced odd-IsHash (Table.perform_all odd ops empty)
    × ((x : ℕ)
        → Bag.count x (Table.print_nodes (Table.perform_all odd ops empty))
          ≡ Bag.after_all ops (λ y. 0) x)
unfolding Table.print_nodes
perform_all-bag_example =
    Bag.perform_all-bag odd-IsHash ops empty (λ x. 0) (record { placed = λ b x away. refl })
      (λ x. refl)
