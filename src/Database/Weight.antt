-- ===== src/Database/Weight.antt =====
-- The items of a pool that are alive, which are those with a count that is not 0, and their counts.
use mipt_informatics.Base.{
  ℕ, zero, suc, ◌+◌, ◌≤◌, ◌<◌, ◌≡◌, refl, Bool, true, false, ◌&&◌, some, List, [], ◌∷◌, ◌++◌, ◌⊎◌,
  inl, inr, arith, ◌==◌, ltb, if◌then◌else◌, length, get_elem?,
}
use mipt_informatics.Base.Run.{done}
use mipt_informatics.Database.{pool_get, Value, same, Item, set_count}

-- the counts of the items whose values satisfy a test
abbrev pub weight : (Value → Bool) → List Item → ℕ
weight p [] = 0
weight p (item ∷ pool) = (if p item.value then item.count else 0) + weight p pool

-- the items with the value `v` that are alive
abbrev pub alive : Value → List Item → ℕ
alive v [] = 0
alive v (item ∷ pool) = (if ltb 0 item.count && same v item.value then 1 else 0) + alive v pool

abbrev pub IsAlive : List Item → ℕ → Item → Type 0
IsAlive pool i item = (get_elem? pool i ≡ some item) × (0 < item.count)

pub weight-append :
    (p : Value → Bool) (xs ys : List Item) → weight p (xs ++ ys) ≡ weight p xs + weight p ys
weight-append p [] ys = omega arith
weight-append p (x ∷ xs) ys = omega (arith, weight-append p xs ys)

pub alive-append : (v : Value) (xs ys : List Item) → alive v (xs ++ ys) ≡ alive v xs + alive v ys
alive-append v [] ys = omega arith
alive-append v (x ∷ xs) ys = omega (arith, alive-append v xs ys)

pub length-set_count : (pool : List Item) (i n : ℕ) → length (set_count pool i n) ≡ length pool
length-set_count [] i n = refl
length-set_count (item ∷ pool) zero n = refl
length-set_count (item ∷ pool) (suc i) n = ground (arith, length-set_count pool i n)

pub weight-set_count :
    (p : Value → Bool) (pool : List Item) (i n : ℕ) (item : Item)
    → get_elem? pool i ≡ some item
    → weight p (set_count pool i n) + (if p item.value then item.count else 0)
      ≡ weight p pool + (if p item.value then n else 0)
weight-set_count p [] i n item h = cc
weight-set_count p (x ∷ pool) zero n item h = ground arith
weight-set_count p (x ∷ pool) (suc i) n item h = omega (arith, weight-set_count p pool i n item h)

-- a change of a count, of an item that is alive or to 0
pub alive-set_count :
    (v : Value) (pool : List Item) (i n : ℕ) (item : Item)
    → get_elem? pool i ≡ some item
    → (0 < item.count) ⊎ (n ≡ 0)
    → alive v (set_count pool i n) ≤ alive v pool
alive-set_count v [] i n item h c = cc
alive-set_count v (x ∷ pool) zero n item h c = ground arith
alive-set_count v (x ∷ pool) (suc i) n item h c = omega (arith, alive-set_count v pool i n item h c)

pub get_elem?-set_count_self :
    (pool : List Item) (i n : ℕ) (item : Item)
    → get_elem? pool i ≡ some item
    → get_elem? (set_count pool i n) i ≡ some (record item { count = n })
get_elem?-set_count_self [] i n item h = cc
get_elem?-set_count_self (x ∷ pool) zero n item h = ground arith
get_elem?-set_count_self (x ∷ pool) (suc i) n item h = get_elem?-set_count_self pool i n item h

pub get_elem?-set_count_ne :
    (pool : List Item) (i j n : ℕ)
    → (i == j) ≡ false
    → get_elem? (set_count pool i n) j ≡ get_elem? pool j
get_elem?-set_count_ne [] i j n h = refl
get_elem?-set_count_ne (x ∷ pool) zero zero n h = ground arith
get_elem?-set_count_ne (x ∷ pool) zero (suc j) n h = refl
get_elem?-set_count_ne (x ∷ pool) (suc i) zero n h = refl
get_elem?-set_count_ne (x ∷ pool) (suc i) (suc j) n h =
    get_elem?-set_count_ne pool i j n (ground arith)

-- what stands in a pool with one more item
pub get_elem?-snoc {ℓ} :
    {A : Type ℓ} (xs : List A) (x y : A) (i : ℕ)
    → get_elem? (xs ++ x ∷ []) i ≡ some y
    → (get_elem? xs i ≡ some y) ⊎ ((i ≡ length xs) × (y ≡ x))
get_elem?-snoc [] x y zero h = inr (refl, cc)
get_elem?-snoc [] x y (suc i) h = cc
get_elem?-snoc (z ∷ xs) x y zero h = inl h
get_elem?-snoc (z ∷ xs) x y (suc i) h = elim (get_elem?-snoc xs x y i h) [
  | inl e ↦ inl e
  | inr (e, f) ↦ inr (omega (arith, e), f)
]

pub weight-eq-zero :
    (p : Value → Bool) (pool : List Item)
    → ((i : ℕ) (item : Item) → IsAlive pool i item → p item.value ≡ false)
    → weight p pool ≡ 0
weight-eq-zero p [] h = refl
weight-eq-zero p (x ∷ pool) h =
    let rest : weight p pool ≡ 0 = weight-eq-zero p pool (λ i item l. h (suc i) item l) in
    let here : 0 < x.count → p x.value ≡ false = λ l. h 0 x (refl, l) in ground (arith, rest, here)

pub alive-pos :
    (v : Value) (pool : List Item) (i : ℕ) (item : Item)
    → IsAlive pool i item
    → same v item.value ≡ true
    → 1 ≤ alive v pool
alive-pos v [] i item l e = cc (l.0)
alive-pos v (x ∷ pool) zero item l e = ground (arith, l.0, l.1)
alive-pos v (x ∷ pool) (suc i) item l e = omega (arith, alive-pos v pool i item l e)

pub weight-not_alive : (v : Value) (pool : List Item) → alive v pool ≡ 0 → weight (same v) pool ≡ 0
weight-not_alive v [] h = refl
weight-not_alive v (x ∷ pool) h = ground (arith, weight-not_alive v pool)

-- If one item at most has the value `v` and is alive, its count is the weight of `v`.
pub weight-alive :
    (v : Value) (pool : List Item) (i : ℕ) (item : Item)
    → IsAlive pool i item
    → same v item.value ≡ true
    → alive v pool ≤ 1
    → weight (same v) pool ≡ item.count
weight-alive v [] i item l e one = cc (l.0)
weight-alive v (x ∷ pool) zero item l e one = ground (arith, l.0, l.1, weight-not_alive v pool)
weight-alive v (x ∷ pool) (suc i) item l e one =
    let some_left = alive-pos v pool i item l e in
    ground (arith, some_left, weight-alive v pool i item l e)

pub pool_get-some :
    {A : Type 0} (cells : List A) (i : ℕ) (x : A)
    → get_elem? cells i ≡ some x
    → pool_get cells i ≡ done x
unfolding pool_get
pool_get-some cells i x e = ground (arith, e)

pub get_elem?-lt {ℓ} :
    {A : Type ℓ} (xs : List A) (i : ℕ) (x : A) → get_elem? xs i ≡ some x → i < length xs
get_elem?-lt [] i x e = cc
get_elem?-lt (y ∷ xs) zero x e = omega arith
get_elem?-lt (y ∷ xs) (suc i) x e = omega (arith, get_elem?-lt xs i x e)

pub get_elem?-some {ℓ} :
    {A : Type ℓ} (xs : List A) (i : ℕ) → i < length xs → (x : A) × (get_elem? xs i ≡ some x)
get_elem?-some [] i h = absurd (omega arith)
get_elem?-some (x ∷ xs) zero h = (x, refl)
get_elem?-some (x ∷ xs) (suc i) h = get_elem?-some xs i (omega arith)
