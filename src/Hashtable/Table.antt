-- ===== src/Hashtable/Table.antt =====
-- `add_node`, `del_node`, `print_nodes` and `hashtable_init` of data/lab4_data_hashtable.c. The kernel's `hash_min`,
-- which spreads a key over the two buckets, is a parameter; nodes are told apart by their data.
use ldd_samples.Prelude.{ℕ, ◌-◌, ◌%◌, ◌^◌, ◌<◌, List, [], ◌∷◌, ◌++◌, ltb, ◌==◌, if◌then◌else◌}
use ldd_samples.Kernel.{Ret, fail, einval}

-- What is documented of `hash_min` with one bit.
pub record IsHash (hash_min : ℕ → ℕ) : Type 0 where
  pub small : (key : ℕ) → hash_min key < 2

-- `data_hash`: the lists at its buckets, the head first. The data are patterns of an `int`.
abbrev pub Table : Type 0
Table = ℕ → List ℕ

-- `data % 2`, which is -1 for a negative odd number.
unfoldable pub hash_func : ℕ → ℕ
hash_func datum = if datum % 2 == 0 then 0 else if ltb datum (2 ^ 31) then 1 else 2 ^ 32 - 1

-- `hash_del` of the first node of a list that has the data.
abbrev pub del_first : ℕ → List ℕ → List ℕ
del_first datum [] = []
del_first datum (entry ∷ entries) =
    if entry == datum then entries else entry ∷ del_first datum entries

-- The calls of the module.
pub data Op : Type 0 where
  adding deleting : (datum : ℕ) → Op

module _ (hash_min : ℕ → ℕ) where
  -- The bucket of a node.
  unfoldable pub bucket : ℕ → ℕ
  unfolding hash_func
  bucket datum = hash_min (hash_func datum)

  -- `hash_add` puts the node at the head of its list.
  unfoldable pub add_node : ℕ → Table → Table
  unfolding bucket
  add_node datum t b = if b == bucket datum then datum ∷ t b else t b

  unfoldable pub del_node : ℕ → Table → Table
  unfolding bucket
  del_node datum t b = if b == bucket datum then del_first datum (t b) else t b

  unfoldable pub perform : Op → Table → Table
  unfolding add_node del_node
  perform (adding datum) t = add_node datum t
  perform (deleting datum) t = del_node datum t

  unfoldable pub perform_all : List Op → Table → Table
  unfolding perform
  perform_all [] t = t
  perform_all (op ∷ ops) t = perform_all ops (perform op t)

-- What `print_nodes` prints.
unfoldable pub print_nodes : Table → List ℕ
print_nodes t = t 0 ++ t 1

-- The calls of `hashtable_init` that change the table, and its result.
unfoldable pub hashtable_init : (hash_min : ℕ → ℕ) → Table → Table × Ret
unfolding perform_all
hashtable_init hash_min t =
    (perform_all hash_min (adding 5 ∷ adding 2 ∷ adding 7 ∷ deleting 5 ∷ []) t, fail einval)
