-- ===== src/Database/Table/Find.antt =====
-- The search for a value in its bucket, and the places that it gives.
use mipt_informatics.Base.{
  ℕ, suc, ◌+◌, ◌<◌, ◌≡◌, refl, sym, ap, ◌∙◌, Bool-cases, true, false, ◌&&◌, Option, none, some,
  List, [], ◌∷◌, ◌++◌, ◌⊎◌, inl, inr, arith, ltb, length, get_elem?, set,
}
use mathlib.Core.Path.{subst}
use mipt_informatics.Base.Run.{Run, done}
use mipt_informatics.Database.{
  Value, same, pool_add, Item, PoolIndex, Hashtable, bucket_of, Search, found, absent, first,
  find_loop, hash_force_add, set_place,
}
use mipt_informatics.Database.Weight.{IsAlive, pool_get-some, get_elem?-some}
use mipt_informatics.Database.Table.{
  occurrences, AllBelow, IsTable, AllBelow-le, occurrences-snoc, AllBelow-snoc,
  occurrences-snoc_none, AllBelow-snoc_none, occurrences-set, AllBelow-set, cells_at, slot,
  IsTable-same, IsTable-new,
}

-- no item with the value `v` that is alive stands in the bucket
abbrev pub Lacks : List Item → Value → List PoolIndex → Type 0
Lacks pool v b =
    (index : ℕ) (item : Item)
    → IsAlive pool index item
    → same v item.value ≡ true
    → occurrences index b ≡ 0

-- the place is the one that was known before, or a deleted one of the bucket
abbrev Vacant : List PoolIndex → ℕ → Option ℕ → Option ℕ → Type 0
Vacant b i known none = Unit
Vacant b i known (some place) =
    (known ≡ some place) ⊎ ((j : ℕ) × (place ≡ i + j) × (get_elem? b j ≡ some none))

-- the item of the index at `place`, which is alive and has the value `v`
abbrev pub FoundAt : List Item → Value → List PoolIndex → ℕ → Type 0
FoundAt pool v b place =
    (index : ℕ) × (item : Item) × (get_elem? b place ≡ some (some index))
    × IsAlive pool index item
    × (same v item.value ≡ true)

abbrev Finds : List Item → Value → List PoolIndex → ℕ → Option ℕ → Run Search → Type 0
Finds pool v b i known r =
    ((j : ℕ) × (r ≡ done (found (i + j))) × FoundAt pool v b j)
    ⊎ ((place : Option ℕ) × (r ≡ done (absent place)) × Lacks pool v b × Vacant b i known place)

Vacant-none :
    (b : List PoolIndex) (i : ℕ) (known place : Option ℕ)
    → Vacant b (i + 1) (first known i) place
    → Vacant (none ∷ b) i known place
Vacant-none b i known none h = tt
Vacant-none b i none (some place) (inl e) = inr (0, ground (arith, e), refl)
Vacant-none b i (some k) (some place) (inl e) = inl e
Vacant-none b i known (some place) (inr (j, e, f)) = inr (suc j, omega (arith, e), f)

Vacant-some :
    (b : List PoolIndex) (i index : ℕ) (known place : Option ℕ)
    → Vacant b (i + 1) known place
    → Vacant (some index ∷ b) i known place
Vacant-some b i index known none h = tt
Vacant-some b i index known (some place) (inl e) = inl e
Vacant-some b i index known (some place) (inr (j, e, f)) = inr (suc j, omega (arith, e), f)

module _ (pool : List Item) (v : Value) where
  Finds-none :
      (b : List PoolIndex) (i : ℕ) (known : Option ℕ) {r : Run Search}
      → Finds pool v b (i + 1) (first known i) r
      → Finds pool v (none ∷ b) i known r
  Finds-none b i known (inl (j, e, f)) = inl (suc j, e ∙ ap (λ k. done (found k)) (omega arith), f)
  Finds-none b i known (inr (place, e, l, w)) = inr (place, e, l, Vacant-none b i known place w)

  Finds-some :
      (b : List PoolIndex) (i index : ℕ) (known : Option ℕ) (item : Item) {r : Run Search}
      → get_elem? pool index ≡ some item
      → (0 < item.count → same v item.value ≡ false)
      → Finds pool v b (i + 1) known r
      → Finds pool v (some index ∷ b) i known r
  Finds-some b i index known item at off (inl (j, e, f)) =
      inl (suc j, e ∙ ap (λ k. done (found k)) (omega arith), f)
  Finds-some b i index known item at off (inr (place, e, l, w)) = inr (
    place,
    e,
    λ k other live sm. ground (arith, l k other live sm, at, live.0, live.1, sm, off),
    Vacant-some b i index known place w,
  )

  find_loop-skip :
      (b : List PoolIndex) (i index : ℕ) (known : Option ℕ) (item : Item)
      → get_elem? pool index ≡ some item
      → (0 < item.count → same v item.value ≡ false)
      → find_loop pool v (some index ∷ b) i known ≡ find_loop pool v b (i + 1) known
  unfolding find_loop
  find_loop-skip b i index known item at off =
      rw (pool_get-some pool index item at) (ground (arith, off))

  find_loop-hit :
      (b : List PoolIndex) (i index : ℕ) (known : Option ℕ) (item : Item)
      → IsAlive pool index item
      → same v item.value ≡ true
      → find_loop pool v (some index ∷ b) i known ≡ done (found i)
  unfolding find_loop
  find_loop-hit b i index known item live e =
      rw (pool_get-some pool index item live.0) (ground (arith, live.1, e))

  pub find_loop-Finds :
      (b : List PoolIndex) (i : ℕ) (known : Option ℕ)
      → AllBelow (length pool) b
      → Finds pool v b i known (find_loop pool v b i known)
  unfolding find_loop
  find_loop-Finds [] i known a = inr (known, refl, λ k item l e. refl, known_place known)
    where
      known_place : (known : Option ℕ) → Vacant [] i known known
      known_place none = tt
      known_place (some k) = inl refl
  find_loop-Finds (none ∷ b) i known a =
      Finds-none b i known (find_loop-Finds b (i + 1) (first known i) a)
  find_loop-Finds (some index ∷ b) i known (bound, a) =
      let (item, at) = get_elem?-some pool index bound in
      let rest = find_loop-Finds b (i + 1) known a in
      elim (Bool-cases (ltb 0 item.count && same v item.value)) [
        | inr off ↦
            let skip : 0 < item.count → same v item.value ≡ false = λ h. ground (arith, off, h) in
            subst (Finds pool v (some index ∷ b) i known)
              (sym (find_loop-skip b i index known item at skip))
              (Finds-some b i index known item at skip rest)
        | inl hit ↦
            let live : IsAlive pool index item = (at, ground (arith, hit)) in
            let e : same v item.value ≡ true = ground (arith, hit) in
            inl (
              0,
              find_loop-hit b i index known item live e ∙ ap (λ k. done (found k)) (omega arith),
              (index, item, refl, live, e),
            )
      ]

-- what a push of an index onto the bucket of a value does to the table
module _ (pool : List Item) (h : Hashtable) (v : Value) (t : IsTable pool h) where
  pub hash_force_add-IsTable :
      (new : Item)
      → new.value ≡ v
      → IsTable (pool ++ new ∷ []) (hash_force_add h v (some (length pool))).1
  unfolding hash_force_add pool_add slot
  hash_force_add-IsTable new e =
      let s = slot h v in
      IsTable-new pool h s t (pool_add (h.buckets s) (some (length pool))).1 new (ap (slot h) e)
        (λ i. occurrences-snoc i (length pool) (cells_at h s))
        (AllBelow-snoc (length pool + 1) (length pool) (cells_at h s)
          (AllBelow-le (length pool) (length pool + 1) (cells_at h s) (omega arith) (t.below s))
          (omega arith))

  pub hash_force_add-none : IsTable pool (hash_force_add h v none).1
  unfolding hash_force_add pool_add slot
  hash_force_add-none =
      let s = slot h v in
      IsTable-same pool h s t pool (pool_add (h.buckets s) none).1 refl
        (λ i item l. (item, l, refl)) (λ i item l. occurrences-snoc_none i (cells_at h s))
        (AllBelow-snoc_none (length pool) (cells_at h s) (t.below s))

  pub set_place-IsTable :
      (place : ℕ) (new : Item)
      → new.value ≡ v
      → get_elem? (bucket_of h v) place ≡ some none
      → IsTable (pool ++ new ∷ []) (set_place h v place (some (length pool)))
  unfolding set_place slot
  set_place-IsTable place new e free =
      let s = slot h v in
      IsTable-new pool h s t
        (record (h.buckets s) { cells = set (cells_at h s) place (some (length pool)) }) new
        (ap (slot h) e) (λ i. occurrences-set i (length pool) place (cells_at h s) free)
        (AllBelow-set (length pool + 1) (length pool) place (cells_at h s)
          (AllBelow-le (length pool) (length pool + 1) (cells_at h s) (omega arith) (t.below s))
          (omega arith))
