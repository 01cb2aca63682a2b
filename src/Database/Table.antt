-- ===== src/Database/Table.antt =====
-- What a hash table holds of a pool: the index of each item that is alive stands once in its bucket.
pub mod Find
pub mod Sweep
pub mod FindAdd
pub mod Iterate
use mipt_informatics.Base.{
  ℕ, zero, suc, ◌+◌, ◌≤◌, ◌<◌, ◌≡◌, refl, sym, ap, ◌∙◌, Bool, Bool-cases, true, false, ◌&&◌, Option,
  none, some, List, [], ◌∷◌, ◌++◌, ◌⊎◌, inl, inr, arith, ◌==◌, if◌then◌else◌, length, get_elem?,
  set, length-append,
}
use mathlib.Core.Path.{subst}
use mipt_informatics.Base.Int.{ℤ, eqb_ℤ}
use mipt_informatics.Database.{
  Value, same, Pool, pool_add, Item, PoolIndex, Bucket, Hashtable, hash_get_bucket, bucket_of,
  set_bucket, hash_force_add, set_place,
}
use mipt_informatics.Database.Weight.{IsAlive, get_elem?-snoc, get_elem?-lt}

-- how often an index stands in a bucket
abbrev pub occurrences : ℕ → List PoolIndex → ℕ
occurrences i [] = 0
occurrences i (none ∷ b) = occurrences i b
occurrences i (some j ∷ b) = (if i == j then 1 else 0) + occurrences i b

-- the indices in a bucket are below `n`
abbrev pub AllBelow : ℕ → List PoolIndex → Type 0
AllBelow n [] = Unit
AllBelow n (none ∷ b) = AllBelow n b
AllBelow n (some j ∷ b) = (j < n) × AllBelow n b

pub record IsTable (pool : List Item) (h : Hashtable) : Type 0 where
  pub below : (s : ℕ) → AllBelow (length pool) (h.buckets s).cells
  pub once :
      (i : ℕ) (item : Item) → IsAlive pool i item → occurrences i (bucket_of h item.value) ≡ 1

pub AllBelow-le : (m n : ℕ) (b : List PoolIndex) → m ≤ n → AllBelow m b → AllBelow n b
AllBelow-le m n [] h a = tt
AllBelow-le m n (none ∷ b) h a = AllBelow-le m n b h a
AllBelow-le m n (some j ∷ b) h a = (omega (arith, a.0), AllBelow-le m n b h a.1)

pub occurrences-below : (n i : ℕ) (b : List PoolIndex) → AllBelow n b → n ≤ i → occurrences i b ≡ 0
occurrences-below n i [] a h = refl
occurrences-below n i (none ∷ b) a h = occurrences-below n i b a h
occurrences-below n i (some j ∷ b) a h = ground (arith, a.0, occurrences-below n i b a.1)

pub occurrences-snoc :
    (i j : ℕ) (b : List PoolIndex)
    → occurrences i (b ++ some j ∷ []) ≡ occurrences i b + (if i == j then 1 else 0)
occurrences-snoc i j [] = omega arith
occurrences-snoc i j (none ∷ b) = occurrences-snoc i j b
occurrences-snoc i j (some k ∷ b) = omega (arith, occurrences-snoc i j b)

pub AllBelow-snoc :
    (n j : ℕ) (b : List PoolIndex) → AllBelow n b → j < n → AllBelow n (b ++ some j ∷ [])
AllBelow-snoc n j [] a h = (h, tt)
AllBelow-snoc n j (none ∷ b) a h = AllBelow-snoc n j b a h
AllBelow-snoc n j (some k ∷ b) a h = (a.0, AllBelow-snoc n j b a.1 h)

pub occurrences-snoc_none :
    (i : ℕ) (b : List PoolIndex) → occurrences i (b ++ none ∷ []) ≡ occurrences i b
occurrences-snoc_none i [] = refl
occurrences-snoc_none i (none ∷ b) = occurrences-snoc_none i b
occurrences-snoc_none i (some k ∷ b) = omega (arith, occurrences-snoc_none i b)

pub AllBelow-snoc_none : (n : ℕ) (b : List PoolIndex) → AllBelow n b → AllBelow n (b ++ none ∷ [])
AllBelow-snoc_none n [] a = tt
AllBelow-snoc_none n (none ∷ b) a = AllBelow-snoc_none n b a
AllBelow-snoc_none n (some k ∷ b) a = (a.0, AllBelow-snoc_none n b a.1)

pub occurrences-set :
    (i j place : ℕ) (b : List PoolIndex)
    → get_elem? b place ≡ some none
    → occurrences i (set b place (some j)) ≡ occurrences i b + (if i == j then 1 else 0)
occurrences-set i j place [] h = cc
occurrences-set i j zero (none ∷ b) h = omega arith
occurrences-set i j zero (some k ∷ b) h = cc
occurrences-set i j (suc place) (none ∷ b) h = occurrences-set i j place b h
occurrences-set i j (suc place) (some k ∷ b) h = omega (arith, occurrences-set i j place b h)

pub AllBelow-set :
    (n j place : ℕ) (b : List PoolIndex) → AllBelow n b → j < n → AllBelow n (set b place (some j))
AllBelow-set n j place [] a h = tt
AllBelow-set n j zero (none ∷ b) a h = (h, a)
AllBelow-set n j zero (some k ∷ b) a h = (h, a.1)
AllBelow-set n j (suc place) (none ∷ b) a h = AllBelow-set n j place b a h
AllBelow-set n j (suc place) (some k ∷ b) a h = (a.0, AllBelow-set n j place b a.1 h)

-- the cells of a bucket of a table in which one bucket was set
abbrev pub cells_at : Hashtable → ℕ → List PoolIndex
cells_at h s = (h.buckets s).cells

pub cells_at-set_self :
    (h : Hashtable) (s j : ℕ) (b : Bucket) → j ≡ s → cells_at (set_bucket h s b) j ≡ b.cells
cells_at-set_self h s j b e = ground arith

cells_at-set_ne :
    (h : Hashtable) (s j : ℕ) (b : Bucket)
    → (j == s) ≡ false
    → cells_at (set_bucket h s b) j ≡ cells_at h j
cells_at-set_ne h s j b e = ground arith

pub slot : Hashtable → Value → ℕ
slot h v = hash_get_bucket (h.get_key v)

module _ (pool : List Item) (h : Hashtable) (s : ℕ) (t : IsTable pool h) where
  -- a bucket with the same indices of the items that are alive, in a pool where no item has come to
  -- life
  pub IsTable-same :
      (pool' : List Item) (b : Bucket)
      → length pool' ≡ length pool
      → ((i : ℕ) (item : Item)
          → IsAlive pool' i item
          → (old : Item) × IsAlive pool i old × (old.value ≡ item.value))
      → ((i : ℕ) (item : Item)
          → IsAlive pool' i item
          → occurrences i b.cells ≡ occurrences i (cells_at h s))
      → AllBelow (length pool) b.cells
      → IsTable pool' (set_bucket h s b)
  unfolding slot
  IsTable-same pool' b long live occ all = record {
    below = λ j. elim (Bool-cases (j == s)) [
      | inl e ↦
          subst (λ c. AllBelow (length pool') c) (sym (cells_at-set_self h s j b (ground arith)))
            (rw long all)
      | inr e ↦
          subst (λ c. AllBelow (length pool') c) (sym (cells_at-set_ne h s j b e))
            (rw long (t.below j))
    ];
    once = λ i item l.
        let (old, lo, eq) = live i item l in
        let j = slot h item.value in
        let one : occurrences i (cells_at h j) ≡ 1 =
          subst (λ w. occurrences i (bucket_of h w) ≡ 1) eq (t.once i old lo) in
        elim (Bool-cases (j == s)) [
          | inl e ↦
              let at : j ≡ s = ground arith in
              ap (occurrences i) (cells_at-set_self h s j b at)
              ∙ occ i item l
              ∙ ap (λ k. occurrences i (cells_at h k)) (sym at)
              ∙ one
          | inr e ↦ ap (occurrences i) (cells_at-set_ne h s j b e) ∙ one
        ];
  }

  -- a bucket with the index of a new item of the pool
  pub IsTable-new :
      (b : Bucket) (new : Item)
      → slot h new.value ≡ s
      → ((i : ℕ)
          → occurrences i b.cells
            ≡ occurrences i (cells_at h s) + (if i == length pool then 1 else 0))
      → AllBelow (length pool + 1) b.cells
      → IsTable (pool ++ new ∷ []) (set_bucket h s b)
  unfolding slot
  IsTable-new b new at_s occ all = record {
    below = λ j. rw (length-append pool (new ∷ [])) (elim (Bool-cases (j == s)) [
      | inl e ↦
          subst (AllBelow (length pool + 1)) (sym (cells_at-set_self h s j b (ground arith))) all
      | inr e ↦
          subst (AllBelow (length pool + 1)) (sym (cells_at-set_ne h s j b e))
            (AllBelow-le (length pool) (length pool + 1) (cells_at h j) (omega arith) (t.below j))
    ]);
    once = λ i item l.
        let j = slot h item.value in
        elim (get_elem?-snoc pool new item i l.0) [
          | inl old ↦
              let bound : i < length pool = get_elem?-lt pool i item old in
              let one : occurrences i (cells_at h j) ≡ 1 = t.once i item (old, l.1) in
              elim (Bool-cases (j == s)) [
                | inl e ↦
                    let at : j ≡ s = ground arith in
                    let one' : occurrences i (cells_at h s) ≡ 1 =
                      ap (λ k. occurrences i (cells_at h k)) (sym at) ∙ one in
                    ap (occurrences i) (cells_at-set_self h s j b at)
                    ∙ ground (arith, occ i, one', bound)
                | inr e ↦ ap (occurrences i) (cells_at-set_ne h s j b e) ∙ one
              ]
          | inr (end, eq) ↦
              let at : j ≡ s = ap (λ (w : Item). slot h w.value) eq ∙ at_s in
              let none_yet =
                occurrences-below (length pool) i (cells_at h s) (t.below s) (omega arith) in
              ap (occurrences i) (cells_at-set_self h s j b at)
              ∙ ground (arith, occ i, none_yet, end)
        ];
  }

-- a pool that is as long, where no item has come to life
pub IsTable-pool :
    (pool pool' : List Item) (h : Hashtable)
    → IsTable pool h
    → length pool' ≡ length pool
    → ((i : ℕ) (item : Item)
        → IsAlive pool' i item
        → (old : Item) × IsAlive pool i old × (old.value ≡ item.value))
    → IsTable pool' h
IsTable-pool pool pool' h t long live = record {
  below = λ s. subst (λ n. AllBelow n (cells_at h s)) (sym long) (t.below s);
  once = λ i item l.
      let (old, lo, eq) = live i item l in
      subst (λ w. occurrences i (bucket_of h w) ≡ 1) eq (t.once i old lo);
}
