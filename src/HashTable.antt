-- ===== src/HashTable.antt =====
-- course1-1/12-seminar-datacenter/data_hash.c: for each number of the input the table holds the
-- number that followed it last, and the program prints what the table holds for the last number.
-- The input is the list of the numbers in front of the end of the file; `realloc` succeeds.
pub mod Buckets
pub mod Predict
pub mod Tests
use mipt_informatics.Base.{
  ℕ, zero, suc, ◌+◌, ◌*◌, ◌%◌, Option, none, some, List, [], ◌∷◌, ◌++◌, leb, ◌==◌, if◌then◌else◌,
  length, get_elem?,
}
use mipt_informatics.Base.Int.{ℤ, pos, negsuc, ◌+ℤ◌, pos_part, ltb_ℤ, eqb_ℤ}
use mipt_informatics.Base.Run.{Run, done, fault, out_of_fuel, ◌>>=◌}

abbrev pub buckets : ℕ
buckets = 100003

pub record Object : Type 0 where
  pub key : ℤ
  pub value : ℤ

-- `data` are the `n` objects of the bucket
pub record Bucket : Type 0 where
  pub data_n : List Object
  pub allocated : ℕ

abbrev pub Hashtable : Type 0
Hashtable = ℕ → Bucket

-- a pointer into the data of a bucket
pub record Pointer : Type 0 where
  pub bucket : ℕ
  pub index : ℕ

-- `while (hash < 0) { hash += BUCKETS; }`
pub raise_hash : ℕ → ℤ → Run ℤ
raise_hash zero hash = out_of_fuel
raise_hash (suc fuel) hash =
    let rest = raise_hash fuel (hash +ℤ pos buckets) in
    if ltb_ℤ hash (pos 0) then rest else done hash

-- the loop over the bucket: the index of the first object with the key
pub find_key : ℤ → List Object → Option ℕ
find_key k [] = none
find_key k (object ∷ objects) =
    let rest = find_key k objects in
    if eqb_ℤ k object.key then some 0 else elim rest [ none ↦ none | some i ↦ some (suc i) ]

-- the bucket behind the growth of its array
pub add_object : Bucket → Object → Bucket
add_object b object = record {
  data_n = b.data_n ++ object ∷ [];
  allocated =
      if leb b.allocated (length b.data_n)
      then 2 * (if b.allocated == 0 then 1 else b.allocated)
      else b.allocated;
}

abbrev pub set_bucket : Hashtable → ℕ → Bucket → Hashtable
set_bucket h i b j = if j == i then b else h j

-- behind the loop over the bucket `i`: the object that was found, or a new one
abbrev pub found_or_added : Hashtable → ℕ → Object → Option ℕ → Hashtable × Pointer
found_or_added h i object (some index) = (h, record { bucket = i; index = index })
found_or_added h i object none =
    (set_bucket h i (add_object (h i) object), record { bucket = i; index = length (h i).data_n })

pub find_in_bucket : Hashtable → ℕ → ℤ → ℤ → Hashtable × Pointer
find_in_bucket h i k v =
    found_or_added h i (record { key = k; value = v }) (find_key k (h i).data_n)

pub hash_find_or_add : ℕ → Hashtable → ℤ → ℤ → Run (Hashtable × Pointer)
unfolding raise_hash find_in_bucket
hash_find_or_add fuel h k v = do
  hash ← raise_hash fuel k
  done (find_in_bucket h (pos_part hash % buckets) k v)

pub hash_create : Hashtable
hash_create i = record { data_n = []; allocated = 0 }

pub set_at : ℕ → ℤ → List Object → List Object
set_at i v [] = []
set_at zero v (object ∷ objects) = record object { value = v } ∷ objects
set_at (suc i) v (object ∷ objects) = object ∷ set_at i v objects

-- `obj->value = value`
pub set_value : Hashtable → Pointer → ℤ → Hashtable
unfolding set_at
set_value h obj v =
    set_bucket h obj.bucket
      (record (h obj.bucket) { data_n = set_at obj.index v (h obj.bucket).data_n })

-- `obj->value`
pub get_value : Hashtable → Pointer → Run ℤ
get_value h obj = elim (get_elem? (h obj.bucket).data_n obj.index) [
  | none ↦ fault
  | some object ↦ done object.value
]

-- the loop of `main` with a pointer in `obj`, and the `printf` behind it
pub read_values : ℕ → Hashtable → Pointer → List ℤ → Run ℤ
unfolding hash_find_or_add set_value get_value
read_values fuel h obj [] = get_value h obj
read_values fuel h obj (value ∷ values) = do
  (h', obj') ← hash_find_or_add fuel (set_value h obj value) value (negsuc 0)
  read_values fuel h' obj' values

-- `main`; with no input `obj` is `NULL`
pub predict : ℕ → List ℤ → Run ℤ
unfolding read_values hash_create
predict fuel [] = fault
predict fuel (value ∷ values) = do
  (h, obj) ← hash_find_or_add fuel hash_create value (negsuc 0)
  read_values fuel h obj values
