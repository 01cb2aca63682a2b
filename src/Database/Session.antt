-- ===== src/Database/Session.antt =====
-- The array of the hash tables and the commands of `main` of database.c. A field is its character
-- code. The list of the commands is what `main` reads, `command_count` of them.
pub mod Holds
pub mod Refine
pub mod Tests
use mipt_informatics.Base.{
  ℕ, zero, suc, ◌+◌, Bool, true, false, ◌||◌, Option, none, some, List, [], ◌∷◌, ltb, ◌==◌,
  if◌then◌else◌, get_elem?, set,
}
use mipt_informatics.Base.Int.{ℤ}
use mipt_informatics.Base.Run.{Run, done, fault, ◌>>=◌}
use mipt_informatics.Database.{
  Value, Pool, pool_add, pool_get, Item, PoolIndex, Hashtable, bucket_of, hash_get_count_in_bucket,
  hash_force_add, hash_find_add, set_place, set_count, hash_iterate_by_key, hash_create, key_A,
  key_B,
}

pub record Database : Type 0 where
  pub tables : List Hashtable
  pub pool : Pool Item

-- a bucket is smaller than the smallest so far; `none` is `(size_t) -1`, above every size
abbrev pub is_smaller : ℕ → Option ℕ → Bool
is_smaller n none = true
is_smaller n (some m) = ltb n m

-- the loop of `pick_smallest` from the table `i` on; `none` is `NULL`
pub pick_loop : Value → List Hashtable → (i : ℕ) → (smallest size : Option ℕ) → Option ℕ
unfolding hash_get_count_in_bucket
pick_loop v [] i smallest size = smallest
pick_loop v (h ∷ tables) i smallest size =
    let n = hash_get_count_in_bucket h v in
    let less = is_smaller n size in
    let rest =
      pick_loop v tables (i + 1) (if less then some i else smallest)
        (if less then some n else size) in
    if n == 0 then none else rest

pub pick_smallest : List Hashtable → Value → Option ℕ
unfolding pick_loop
pick_smallest tables v = pick_loop v tables 0 none none

pub add_to_all : List Hashtable → Value → ℕ → List Hashtable
unfolding hash_force_add
add_to_all [] v index = []
add_to_all (h ∷ tables) v index = (hash_force_add h v (some index)).1 ∷ add_to_all tables v index

-- from the table `i` on
pub add_to_all_other : (i : ℕ) → List Hashtable → (ignore : ℕ) → Value → ℕ → List Hashtable
unfolding hash_force_add
add_to_all_other i [] ignore v index = []
add_to_all_other i (h ∷ tables) ignore v index =
    let h' = (hash_force_add h v (some index)).1 in
    (if i == ignore then h else h') ∷ add_to_all_other (i + 1) tables ignore v index

abbrev pub new_item : Value → Item
new_item v = record { value = v; count = 1 }

-- `add`, where no table was picked
pub add_everywhere : Database → Value → ℕ × Database
unfolding pool_add add_to_all
add_everywhere db v =
    let (index, pool) = pool_add db.pool (new_item v) in
    (1, record { tables = add_to_all db.tables v index; pool = pool })

-- `add`, where `*place` in the bucket of the table `i` is `NO_ITEM`, behind `hash_find_add`
pub add_at : Database → Value → ℕ → Hashtable → (place : ℕ) → ℕ × Database
unfolding pool_add set_place add_to_all_other
add_at db v i h place =
    let (index, pool) = pool_add db.pool (new_item v) in
    let tables = set db.tables i (set_place h v place (some index)) in
    (1, record { tables = add_to_all_other 0 tables i v index; pool = pool })

-- `++item->count`
pub add_again : Database → ℕ → Hashtable → ℕ → Item → ℕ × Database
add_again db i h index item =
    let count = item.count + 1 in
    (
      count,
      record {
        tables = set db.tables i h;
        pool = record (db.pool) { cells = set_count db.pool.cells index count };
      },
    )

-- `place && *place != NO_ITEM`
pub add_found : Database → Value → ℕ → Hashtable → ℕ → PoolIndex → Run (ℕ × Database)
unfolding add_again add_at
add_found db v i h place none = done (add_at db v i h place)
add_found db v i h place (some index) = do
  item ← pool_get db.pool.cells index
  done (add_again db i h index item)

-- `add`, where the table `i` was picked
pub add_picked : Database → Value → ℕ → Hashtable → Run (ℕ × Database)
unfolding hash_find_add add_found
add_picked db v i h = do
  (place, h') ← hash_find_add h db.pool.cells v
  index ← pool_get (bucket_of h' v) place
  add_found db v i h' place index

abbrev pub add_to : Database → Value → Option ℕ → Run (ℕ × Database)
unfolding add_everywhere add_picked
add_to db v none = done (add_everywhere db v)
add_to db v (some i) = pool_get db.tables i >>= λ h. add_picked db v i h

pub add : Database → Value → Run (ℕ × Database)
unfolding pick_smallest add_to
add db v = add_to db v (pick_smallest db.tables v)

-- the switch over the field: the index of the table
abbrev pub table_of : ℕ → Option ℕ
table_of field =
    if field == b'a' || field == b'A'
    then some 0
    else if field == b'b' || field == b'B'
    then some 1
    else none

-- `count`, and with `delete` set `delete`
abbrev pub iterate_field : Database → ℤ → Bool → Option ℕ → Run (ℕ × Database)
unfolding hash_iterate_by_key
iterate_field db value delete none = fault
iterate_field db value delete (some i) = do
  h ← pool_get db.tables i
  (h', pool, n) ← hash_iterate_by_key h db.pool.cells value delete
  done (n, record { tables = set db.tables i h'; pool = record (db.pool) { cells = pool } })

pub data Command : Type 0 where
  add_item : Value → Command
  count_items : (field : ℕ) → ℤ → Command
  delete_items : (field : ℕ) → ℤ → Command
  invalid : Command

pub step : Database → Command → Run (ℕ × Database)
unfolding add iterate_field
step db (add_item v) = add db v
step db (count_items field value) = iterate_field db value false (table_of field)
step db (delete_items field value) = iterate_field db value true (table_of field)
step db invalid = fault

-- what is printed for the commands
pub run_commands : Database → List Command → Run (List ℕ)
unfolding step
run_commands db [] = done []
run_commands db (command ∷ commands) = do
  (n, db') ← step db command
  printed ← run_commands db' commands
  done (n ∷ printed)

pub start : Database
unfolding hash_create
start = record {
  tables = hash_create key_A ∷ hash_create key_B ∷ [];
  pool = record { cells = []; allocated = 0 };
}
