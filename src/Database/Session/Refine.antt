-- ===== src/Database/Session/Refine.antt =====
-- The commands over two hash tables print what the commands over a bag print.
use mipt_informatics.Base.{◌+◌, ◌≡◌, refl, inl, inr, List, [], ◌∷◌, arith}
use mipt_informatics.Base.{true, false}
use mipt_informatics.Base.Int.{ℤ}
use mipt_informatics.Database.{Value, same, key_A, key_B, hash_create}
use mipt_informatics.Database.Bag.{count_if, bag_step, bag_commands}
use mipt_informatics.Database.Table.{IsTable}
use mipt_informatics.Database.Session.{
  Database, Command, add_item, count_items, delete_items, invalid, step, run_commands, start,
}
use mipt_informatics.Database.Session.Holds.{IsDatabase, Agrees}
use mipt_informatics.Database.Session.Holds.Iterate.{iterate_field-bag_field}
use mipt_informatics.Database.Session.Holds.Add.{add-bag}

-- Of a database that holds a bag of values, each item that is alive standing once in its bucket of
-- both tables and no two of them with the same value: a command faults where the command on the bag
-- does, and else it prints the same number and the new database holds the new bag.
pub step-bag_step :
    (db : Database) (bag : List Value) (c : Command)
    → IsDatabase db bag
    → Agrees (step db c) (bag_step bag c)
unfolding step
step-bag_step db bag (add_item v) s =
    let (db', run, holds) = add-bag db bag v s in
    inr (count_if (same v) bag + 1, db', v ∷ bag, run, refl, holds)
step-bag_step db bag (count_items field k) s = iterate_field-bag_field db bag k false field s
step-bag_step db bag (delete_items field k) s = iterate_field-bag_field db bag k true field s
step-bag_step db bag invalid s = inl (refl, refl)

IsTable-create : (get_key : Value → ℤ) → IsTable [] (hash_create get_key)
unfolding hash_create
IsTable-create get_key = record { below = λ s. tt; once = λ i item l. cc (l.0) }

pub start-IsDatabase : IsDatabase start []
unfolding start hash_create
start-IsDatabase = (
  hash_create key_A,
  hash_create key_B,
  refl,
  record {
    key_0 = refl;
    key_1 = refl;
    table_0 = IsTable-create key_A;
    table_1 = IsTable-create key_B;
    distinct = λ v. omega arith;
    counts = λ p. refl;
  },
)

pub run_commands-from :
    (db : Database) (bag : List Value) (commands : List Command)
    → IsDatabase db bag
    → run_commands db commands ≡ bag_commands bag commands
unfolding run_commands
run_commands-from db bag [] s = refl
run_commands-from db bag (c ∷ commands) s = elim (step-bag_step db bag c s) [
  | inl (e, f) ↦ rw (e, f)
  | inr (n, db', bag', e, f, s') ↦ rw (e, f, run_commands-from db' bag' commands s')
]

-- What the commands print, from the empty tables on, is what they print over the empty bag.
pub run_commands-bag_commands :
    (commands : List Command) → run_commands start commands ≡ bag_commands [] commands
run_commands-bag_commands commands = run_commands-from start [] commands start-IsDatabase
