-- ===== src/Hashtable.antt =====
-- The hash table of data/lab4_data_hashtable.c.
pub mod Table
pub mod Bag
mod Tests
