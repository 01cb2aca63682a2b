-- ===== src/Database/Bag.antt =====
-- The abstract view: a bag of values, as a list.
use mipt_informatics.Base.{
  ℕ, ◌+◌, Bool, true, false, not, ◌||◌, Option, none, some, List, [], ◌∷◌, ◌==◌, if◌then◌else◌,
}
use mipt_informatics.Base.Int.{ℤ, eqb_ℤ}
use mipt_informatics.Base.Run.{Run, done, fault, ◌>>=◌}
use mipt_informatics.Database.{Value, same}
use mipt_informatics.Database.Session.{Command, add_item, count_items, delete_items, invalid}

-- how many values satisfy a test
abbrev pub count_if : (Value → Bool) → List Value → ℕ
count_if p [] = 0
count_if p (v ∷ bag) = (if p v then 1 else 0) + count_if p bag

-- the values that satisfy a test
abbrev pub keep : (Value → Bool) → List Value → List Value
keep p [] = []
keep p (v ∷ bag) = if p v then v ∷ keep p bag else keep p bag

-- the projection that a field names
abbrev pub field_of : ℕ → Option (Value → ℤ)
field_of field =
    if field == b'a' || field == b'A'
    then some (λ v. v.a)
    else if field == b'b' || field == b'B'
    then some (λ v. v.b)
    else none

abbrev pub has : (Value → ℤ) → ℤ → Value → Bool
has get_key k v = eqb_ℤ k (get_key v)

-- the number that is printed, and the bag
abbrev pub bag_field : List Value → ℤ → Bool → Option (Value → ℤ) → Run (ℕ × List Value)
bag_field bag k delete none = fault
bag_field bag k delete (some get_key) =
    done (
      count_if (has get_key k) bag,
      (if delete then keep (λ v. not (has get_key k v)) bag else bag),
    )

abbrev pub bag_step : List Value → Command → Run (ℕ × List Value)
bag_step bag (add_item v) = done (count_if (same v) bag + 1, v ∷ bag)
bag_step bag (count_items field k) = bag_field bag k false (field_of field)
bag_step bag (delete_items field k) = bag_field bag k true (field_of field)
bag_step bag invalid = fault

-- what the commands print
abbrev pub bag_commands : List Value → List Command → Run (List ℕ)
bag_commands bag [] = done []
bag_commands bag (command ∷ commands) = do
  (n, bag') ← bag_step bag command
  printed ← bag_commands bag' commands
  done (n ∷ printed)
