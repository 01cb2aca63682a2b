-- ===== src/HashTable/Buckets.antt =====
-- The table as a map from keys to values, where a key that is absent has the value -1.
use mipt_informatics.Base.{
  ℕ, zero, suc, ◌+◌, ◌-◌, ◌/◌, ◌%◌, ◌^◌, ◌<◌, ◌≤◌, ◌≡◌, refl, none, some, List, [], ◌∷◌, ◌++◌,
  arith, if◌then◌else◌, length, get_elem?,
}
use mipt_informatics.Base.Int.{ℤ, pos, negsuc, eqb_ℤ, ◌+ℤ◌}
use mipt_informatics.Base.Order.{eqb_iff_ℤ}
use mipt_informatics.Base.Run.{done}
use mipt_informatics.HashTable.{
  buckets, Object, Hashtable, raise_hash, find_key, find_in_bucket, hash_find_or_add, set_at,
}

-- the bucket of a key
abbrev pub slot : ℤ → ℕ
slot (pos n) = n % buckets
slot (negsuc n) = buckets - 1 - n % buckets

-- the keys of the type `int`
abbrev pub IsInt : ℤ → Type 0
IsInt (pos n) = n < 2 ^ 31
IsInt (negsuc n) = n < 2 ^ 31

add_low : (n : ℕ) → n < buckets → negsuc n +ℤ pos buckets ≡ pos (buckets - 1 - n)
unfolding ◌+ℤ◌
add_low n h = ground arith

add_high : (n : ℕ) → buckets ≤ n → negsuc n +ℤ pos buckets ≡ negsuc (n - buckets)
unfolding ◌+ℤ◌
add_high n h = ground arith

raise_hash-pos : (fuel n : ℕ) → raise_hash (suc fuel) (pos n) ≡ done (pos n)
unfolding raise_hash
raise_hash-pos fuel n = ground arith

raise_hash-slot :
    (fuel n : ℕ)
    → n / buckets + 1 < fuel
    → raise_hash fuel (negsuc n) ≡ done (pos (slot (negsuc n)))
unfolding raise_hash
raise_hash-slot zero n h = absurd (omega arith)
raise_hash-slot (suc zero) n h = absurd (omega arith)
raise_hash-slot (suc (suc fuel)) n h = ground (
  arith,
  add_low n,
  add_high n,
  raise_hash-slot (suc fuel) (n - buckets),
  raise_hash-pos fuel (buckets - 1 - n),
)

-- enough rounds for every `int`
abbrev pub enough_rounds : ℕ
enough_rounds = 2 ^ 31 / buckets + 1

pub hash_find_or_add-slot :
    (fuel : ℕ) (h : Hashtable) (k v : ℤ)
    → enough_rounds < fuel
    → IsInt k
    → hash_find_or_add fuel h k v ≡ done (find_in_bucket h (slot k) k v)
unfolding hash_find_or_add
hash_find_or_add-slot zero h (pos n) v long small = absurd (omega arith)
hash_find_or_add-slot (suc fuel) h (pos n) v long small = rw (raise_hash-pos fuel n)
hash_find_or_add-slot fuel h (negsuc n) v long small =
    let small_slot : slot (negsuc n) % buckets ≡ slot (negsuc n) = omega arith in
    rw (raise_hash-slot fuel n (omega arith), small_slot)

-- the value of a key in a bucket
abbrev pub value_of : ℤ → List Object → ℤ
value_of x [] = negsuc 0
value_of x (object ∷ objects) = if eqb_ℤ x object.key then object.value else value_of x objects

abbrev pub lookup : Hashtable → ℤ → ℤ
lookup h x = value_of x (h (slot x)).data_n

pub value_of-append :
    (k x : ℤ) (objects : List Object)
    → value_of x (objects ++ record { key = k; value = negsuc 0 } ∷ []) ≡ value_of x objects
value_of-append k x [] = ground arith
value_of-append k x (object ∷ objects) = ground (arith, value_of-append k x objects)

pub find_key-append :
    (k v : ℤ) (objects : List Object)
    → find_key k objects ≡ none
    → find_key k (objects ++ record { key = k; value = v } ∷ []) ≡ some (length objects)
unfolding find_key
find_key-append k v [] h = ground arith
find_key-append k v (object ∷ objects) h = ground (arith, find_key-append k v objects)

pub value_of-set_at :
    (k x v : ℤ) (i : ℕ) (objects : List Object)
    → find_key k objects ≡ some i
    → value_of x (set_at i v objects) ≡ (if eqb_ℤ k x then v else value_of x objects)
unfolding find_key set_at
value_of-set_at k x v i [] h = cc
value_of-set_at k x v zero (object ∷ objects) h = ground (arith)
value_of-set_at k x v (suc i) (object ∷ objects) h =
    ground (arith, value_of-set_at k x v i objects, eqb_iff_ℤ k x)

pub get_elem?-find_key :
    (k : ℤ) (i : ℕ) (objects : List Object)
    → find_key k objects ≡ some i
    → (object : Object) × (get_elem? objects i ≡ some object) × (object.value ≡ value_of k objects)
unfolding find_key
get_elem?-find_key k i [] h = cc
get_elem?-find_key k zero (object ∷ objects) h = (object, refl, ground arith)
get_elem?-find_key k (suc i) (object ∷ objects) h =
    let (found, at, eq) = get_elem?-find_key k i objects (ground arith) in (found, at, ground arith)
