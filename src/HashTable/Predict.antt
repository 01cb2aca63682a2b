-- ===== src/HashTable/Predict.antt =====
-- What data_hash.c prints, described on the input alone.
use mipt_informatics.Base.{
  ℕ, ◌⊎◌, ◌<◌, ◌≡◌, refl, sym, ap, ◌∙◌, inl, inr, Option, none, some, List, [], ◌∷◌, arith,
  if◌then◌else◌, get_elem?,
}
use mathlib.Core.Path.{subst}
use mipt_informatics.Base.Int.{ℤ, negsuc, eqb_ℤ}
use mipt_informatics.Base.Run.{done}
use mipt_informatics.HashTable.{
  Object, Hashtable, Pointer, find_key, found_or_added, add_object, find_in_bucket, hash_create,
  set_value, get_value, read_values, predict,
}
use mipt_informatics.HashTable.Buckets.{
  slot, IsInt, enough_rounds, hash_find_or_add-slot, lookup, value_of-append, find_key-append,
  value_of-set_at, get_elem?-find_key,
}

-- `obj` points to the pair of the key `k`
abbrev IsAt : Hashtable → Pointer → ℤ → Type 0
IsAt h obj k = (obj.bucket ≡ slot k) × (find_key k (h (slot k)).data_n ≡ some obj.index)

Option-cases : (r : Option ℕ) → (r ≡ none) ⊎ ((i : ℕ) × (r ≡ some i))
Option-cases none = inl refl
Option-cases (some i) = inr (i, refl)

-- a table and a pointer to the pair of `k` in it that agree with `h`
abbrev Keeps : Hashtable → ℤ → Hashtable × Pointer → Type 0
Keeps h k (h', obj) = IsAt h' obj k × ((x : ℤ) → lookup h' x ≡ lookup h x)

find_in_bucket-Keeps : (h : Hashtable) (k : ℤ) → Keeps h k (find_in_bucket h (slot k) k (negsuc 0))
unfolding add_object find_in_bucket
find_in_bucket-Keeps h k =
    let added = found_or_added h (slot k) (record { key = k; value = negsuc 0 }) in
    elim (Option-cases (find_key k (h (slot k)).data_n)) [
      | inl e ↦
          subst (λ r. Keeps h k (added r)) (sym e)
            (
              (refl, ground (arith, find_key-append k (negsuc 0) (h (slot k)).data_n)),
              λ x. ground (arith, value_of-append k x (h (slot k)).data_n),
            )
      | inr (index, e) ↦ subst (λ r. Keeps h k (added r)) (sym e) ((refl, e), λ x. refl)
    ]

lookup-set_value :
    (h : Hashtable) (obj : Pointer) (k v x : ℤ)
    → IsAt h obj k
    → lookup (set_value h obj v) x ≡ (if eqb_ℤ k x then v else lookup h x)
unfolding set_value
lookup-set_value h obj k v x (b, at) =
    ground (arith, value_of-set_at k x v obj.index (h (slot k)).data_n at)

get_value-some :
    (h : Hashtable) (obj : Pointer) (i : ℕ) (object : Object)
    → obj.bucket ≡ i
    → get_elem? (h i).data_n obj.index ≡ some object
    → get_value h obj ≡ done object.value
unfolding get_value
get_value-some h obj i object b e = ground (arith, b, e)

get_value-lookup :
    (h : Hashtable) (obj : Pointer) (k : ℤ) → IsAt h obj k → get_value h obj ≡ done (lookup h k)
get_value-lookup h obj k (b, at) =
    let (object, found, eq) = get_elem?-find_key k obj.index (h (slot k)).data_n at in
    get_value-some h obj (slot k) object b found ∙ ap done eq

-- the number behind the last occurrence of `x` that has one behind it
abbrev pub follower : ℤ → List ℤ → Option ℤ
follower x [] = none
follower x (a ∷ []) = none
follower x (a ∷ b ∷ rest) = elim (follower x (b ∷ rest)) [
  | some next ↦ some next
  | none ↦ if eqb_ℤ a x then some b else none
]

abbrev pub last_of : ℤ → List ℤ → ℤ
last_of x [] = x
last_of x (y ∷ ys) = last_of y ys

abbrev pub or_else : Option ℤ → ℤ → ℤ
or_else none d = d
or_else (some x) d = x

abbrev pub AreInts : List ℤ → Type 0
AreInts [] = Unit
AreInts (x ∷ xs) = IsInt x × AreInts xs

follower-cons :
    (z k v : ℤ) (vs : List ℤ) (d : ℤ)
    → or_else (follower z (v ∷ vs)) (if eqb_ℤ k z then v else d)
      ≡ or_else (follower z (k ∷ v ∷ vs)) d
follower-cons z k v vs d = step (follower z (v ∷ vs))
  where
    step :
        (r : Option ℤ)
        → or_else r (if eqb_ℤ k z then v else d)
          ≡ or_else (elim r [ some next ↦ some next | none ↦ if eqb_ℤ k z then some v else none ]) d
    step none = ground arith
    step (some x) = refl

read_values-follower :
    (fuel : ℕ) (h : Hashtable) (obj : Pointer) (k : ℤ) (values : List ℤ)
    → enough_rounds < fuel
    → AreInts values
    → IsAt h obj k
    → read_values fuel h obj values
      ≡ done (or_else (follower (last_of k values) (k ∷ values)) (lookup h (last_of k values)))
unfolding read_values
read_values-follower fuel h obj k [] long ints at = get_value-lookup h obj k at
read_values-follower fuel h obj k (v ∷ vs) long (int, ints) at =
    let h' = set_value h obj v in
    let (at', same) = find_in_bucket-Keeps h' v in
    let r = find_in_bucket h' (slot v) v (negsuc 0) in
    let z = last_of v vs in
    rw (hash_find_or_add-slot fuel h' v (negsuc 0) long int) (
      read_values-follower fuel r.0 r.1 v vs long ints at'
      ∙ ap (λ d. done (or_else (follower z (v ∷ vs)) d)) (same z ∙ lookup-set_value h obj k v z at)
      ∙ ap done (follower-cons z k v vs (lookup h z)))

-- With fuel for the hash of an `int`, on an input of `int`s that is not empty, the program prints
-- the number that followed the last number of the input at its last earlier occurrence, and -1 if
-- there is none.
pub predict-follower :
    (fuel : ℕ) (v : ℤ) (vs : List ℤ)
    → enough_rounds < fuel
    → AreInts (v ∷ vs)
    → predict fuel (v ∷ vs) ≡ done (or_else (follower (last_of v vs) (v ∷ vs)) (negsuc 0))
unfolding predict hash_create
predict-follower fuel v vs long (int, ints) =
    let (at, same) = find_in_bucket-Keeps hash_create v in
    let r = find_in_bucket hash_create (slot v) v (negsuc 0) in
    let z = last_of v vs in
    rw (hash_find_or_add-slot fuel hash_create v (negsuc 0) long int) (
      read_values-follower fuel r.0 r.1 v vs long ints at
      ∙ ap (λ d. done (or_else (follower z (v ∷ vs)) d)) (same z))
