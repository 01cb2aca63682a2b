-- ===== src/Database.antt =====
-- course1-1/12-seminar-datacenter/database.c: a bag of pairs of numbers with the commands add,
-- count and delete, over a pool of items and two hash tables of indices into it. A pointer to a
-- hash table is its index in the array `tables`, a pointer into a bucket the index there. A `fault`
-- is `abort` or an access out of bounds; `realloc` succeeds, the numbers that are read fit an `int`,
-- and the counts do not overflow.
pub mod Session
pub mod Bag
pub mod Weight
pub mod Table
pub mod Residue
use mipt_informatics.Base.{
  ℕ, zero, suc, ◌+◌, ◌-◌, ◌*◌, ◌%◌, Bool, true, false, not, ◌&&◌, ◌||◌, Option, none, some, List,
  [], ◌∷◌, ◌++◌, ltb, leb, ◌==◌, if◌then◌else◌, length, get_elem?, set,
}
use mipt_informatics.Base.Int.{ℤ, pos, negsuc, ◌+ℤ◌, ◌-ℤ◌, pos_part, ltb_ℤ, eqb_ℤ}
use mipt_informatics.Base.Run.{Run, done, fault, ◌>>=◌}

abbrev pub bucket_count : ℕ
bucket_count = 100003

pub record Value : Type 0 where
  pub a : ℤ
  pub b : ℤ

-- `!memcmp (v, w, sizeof (*v))`
pub same : Value → Value → Bool
same v w = eqb_ℤ v.a w.a && eqb_ℤ v.b w.b

-- `data` are the `n` cells
pub record Pool (A : Type 0) : Type 0 where
  pub cells : List A
  pub allocated : ℕ

-- `pool_add` and the write to the new cell: its index and the new pool
pub pool_add : {A : Type 0} → Pool A → A → ℕ × Pool A
pool_add p x = (
  length p.cells,
  record {
    cells = p.cells ++ x ∷ [];
    allocated =
        if leb p.allocated (length p.cells)
        then 2 * (if p.allocated == 0 then 1 else p.allocated)
        else p.allocated;
  },
)

-- `pool_get`
pub pool_get : {A : Type 0} → List A → ℕ → Run A
pool_get cells i = elim (get_elem? cells i) [ none ↦ fault | some x ↦ done x ]

pub record Item : Type 0 where
  pub value : Value
  pub count : ℕ

-- a `PoolIndex`; `none` is `NO_ITEM`
abbrev pub PoolIndex : Type 0
PoolIndex = Option ℕ

abbrev pub Bucket : Type 0
Bucket = Pool PoolIndex

pub record Hashtable : Type 0 where
  pub buckets : ℕ → Bucket
  pub get_key : Value → ℤ

-- `HASH (k) % BUCKETS`, with the sign of `k`
abbrev pub remainder : ℤ → ℤ
remainder (pos n) = pos (n % bucket_count)
remainder (negsuc n) = let r = (n + 1) % bucket_count in if r == 0 then pos 0 else negsuc (r - 1)

pub raise : ℕ → ℤ → ℤ
raise zero hash = hash
raise (suc fuel) hash =
    let rest = raise fuel (hash +ℤ pos bucket_count) in if ltb_ℤ hash (pos 0) then rest else hash

pub lower : ℕ → ℤ → ℤ
lower zero hash = hash
lower (suc fuel) hash =
    let rest = lower fuel (hash -ℤ pos bucket_count) in
    if ltb_ℤ hash (pos bucket_count) then hash else rest

-- the index of the bucket; each loop makes one round at most
pub hash_get_bucket : ℤ → ℕ
unfolding raise lower ◌+ℤ◌ ◌-ℤ◌
hash_get_bucket k = pos_part (lower 2 (raise 2 (remainder k)))

-- the cells of the bucket of a value
abbrev pub bucket_of : Hashtable → Value → List PoolIndex
bucket_of h v = (h.buckets (hash_get_bucket (h.get_key v))).cells

abbrev pub set_bucket : Hashtable → ℕ → Bucket → Hashtable
set_bucket h i b = record h { buckets = λ j. if j == i then b else h.buckets j }

pub hash_get_count_in_bucket : Hashtable → Value → ℕ
hash_get_count_in_bucket h v = length (bucket_of h v)

-- what the loop of `hash_find_add` comes to: an index in the bucket, or `first_deleted`
pub data Search : Type 0 where
  found : ℕ → Search
  absent : Option ℕ → Search

abbrev pub first : Option ℕ → ℕ → Option ℕ
first none i = some i
first (some d) i = some d

pub find_loop : List Item → Value → List PoolIndex → ℕ → Option ℕ → Run Search
find_loop pool v [] i first_deleted = done (absent first_deleted)
find_loop pool v (none ∷ b) i first_deleted = find_loop pool v b (i + 1) (first first_deleted i)
find_loop pool v (some index ∷ b) i first_deleted =
    let rest = find_loop pool v b (i + 1) first_deleted in
    pool_get pool index >>= λ item.
    if item.count == 0 then rest else if same v item.value then done (found i) else rest

-- `bucket_add` of the bucket of `v`: the place, and the table
pub hash_force_add : Hashtable → Value → PoolIndex → ℕ × Hashtable
unfolding pool_add
hash_force_add h v index =
    let i = hash_get_bucket (h.get_key v) in
    let (place, b) = pool_add (h.buckets i) index in (place, set_bucket h i b)

-- the place, and the table
abbrev pub place_for : Hashtable → Value → Search → ℕ × Hashtable
place_for h v (found i) = (i, h)
place_for h v (absent (some first_deleted)) = (first_deleted, h)
place_for h v (absent none) = hash_force_add h v none

pub hash_find_add : Hashtable → List Item → Value → Run (ℕ × Hashtable)
unfolding find_loop hash_force_add
hash_find_add h pool v = do r ← find_loop pool v (bucket_of h v) 0 none; done (place_for h v r)

-- `*place = index`, for a place in the bucket of `v`
pub set_place : Hashtable → Value → ℕ → PoolIndex → Hashtable
set_place h v place index =
    let i = hash_get_bucket (h.get_key v) in
    set_bucket h i (record (h.buckets i) { cells = set (h.buckets i).cells place index })

-- `item->count = n`
abbrev pub set_count : List Item → ℕ → ℕ → List Item
set_count [] i n = []
set_count (item ∷ pool) zero n = record item { count = n } ∷ pool
set_count (item ∷ pool) (suc i) n = item ∷ set_count pool i n

-- the loop of `hash_iterate_by_key`, without an iterator, from some cell of the bucket on: the cells,
-- the pool and the count
pub iterate :
    (Value → ℤ) → ℤ → Bool → List PoolIndex → List Item → Run (List PoolIndex × List Item × ℕ)
iterate get_key k delete [] pool = done ([], pool, 0)
iterate get_key k delete (none ∷ b) pool = do
  (b', pool', count) ← iterate get_key k delete b pool
  done (none ∷ b', pool', count)
iterate get_key k delete (some index ∷ b) pool = do
  item ← pool_get pool index
  let hit = not (item.count == 0) && eqb_ℤ k (get_key item.value)
  let gone = hit && delete
  (b', pool', count) ← iterate get_key k delete b (if gone then set_count pool index 0 else pool)
  done ((if gone then none else some index) ∷ b', pool', (if hit then item.count else 0) + count)

pub hash_iterate_by_key : Hashtable → List Item → ℤ → Bool → Run (Hashtable × List Item × ℕ)
unfolding iterate
hash_iterate_by_key h pool k delete = do
  let i = hash_get_bucket k
  (b, pool', count) ← iterate h.get_key k delete (h.buckets i).cells pool
  done (set_bucket h i (record (h.buckets i) { cells = b }), pool', count)

pub hash_create : (Value → ℤ) → Hashtable
hash_create get_key = record {
  buckets = λ i. record { cells = []; allocated = 0 };
  get_key = get_key;
}

pub key_A : Value → ℤ
key_A v = v.a

pub key_B : Value → ℤ
key_B v = v.b
