-- ===== src/Database/Session/Tests.antt =====
-- A run of the commands.
use mipt_informatics.Base.{ℕ, ◌≡◌, ◌<◌, refl, List, [], ◌∷◌}
use mipt_informatics.Base.Int.{pos, negsuc}
use mipt_informatics.Base.Run.{done}
use mipt_informatics.Database.{
  Hashtable, Value, bucket_count, hash_find_add, hash_get_bucket, key_A, key_B, same, pool_get,
}
use mipt_informatics.Database.Session.{
  Database, add, Command, add_item, count_items, delete_items, step, run_commands, start,
}
use mipt_informatics.Database.Bag.{bag_step, bag_commands}
use mipt_informatics.Database.Session.Holds.{IsDatabase, Agrees}
use mipt_informatics.Database.Session.Holds.Add.{add-bag}
use mipt_informatics.Database.Session.Refine.{
  start-IsDatabase, step-bag_step, run_commands-bag_commands,
}
use mipt_informatics.Database.Table.FindAdd.{Places, hash_find_add-Places}
use mipt_informatics.Database.Residue.{IsResidue, hash_get_bucket-IsResidue}

abbrev pair : ℕ → ℕ → Value
pair m n = record { a = pos m; b = pos n }

abbrev sample : List Command
sample =
    add_item (pair 1 2)
    ∷ add_item (pair 1 2)
    ∷ add_item (pair 1 3)
    ∷ count_items b'a' (pos 1)
    ∷ delete_items b'B' (pos 2)
    ∷ count_items b'A' (pos 1)
    ∷ add_item (pair 1 2)
    ∷ add_item (pair 100004 2)
    ∷ delete_items b'a' (pos 1)
    ∷ count_items b'b' (pos 2)
    ∷ []

run_commands_run : run_commands start sample ≡ bag_commands [] sample
unfolding run_commands start hash_get_bucket key_A key_B same pool_get
run_commands_run = refl

run_commands-bag_commands_example : run_commands start sample ≡ bag_commands [] sample
run_commands-bag_commands_example = run_commands-bag_commands sample

-- a database with one item
abbrev one_item :
    (db : Database) × (add start (pair 1 2) ≡ done (1, db)) × IsDatabase db (pair 1 2 ∷ [])
one_item = add-bag start [] (pair 1 2) start-IsDatabase

abbrev one_table : Hashtable
one_table = one_item.2.0

step-bag_step_example :
    Agrees
      (step one_item.0 (delete_items b'a' (pos 1)))
      (bag_step (pair 1 2 ∷ []) (delete_items b'a' (pos 1)))
step-bag_step_example =
    step-bag_step one_item.0 (pair 1 2 ∷ []) (delete_items b'a' (pos 1)) one_item.2

hash_find_add-Places_example :
    Places one_item.0.pool.cells one_table
      (pair 1 3)
      one_item.2.3.table_0
      (hash_find_add one_table one_item.0.pool.cells (pair 1 3))
hash_find_add-Places_example =
    hash_find_add-Places one_item.0.pool.cells one_table (pair 1 3) one_item.2.3.table_0

hash_get_bucket-IsResidue_example :
    (hash_get_bucket (negsuc 4) < bucket_count) × IsResidue (negsuc 4) (hash_get_bucket (negsuc 4))
hash_get_bucket-IsResidue_example = hash_get_bucket-IsResidue (negsuc 4)
