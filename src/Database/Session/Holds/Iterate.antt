-- ===== src/Database/Session/Holds/Iterate.antt =====
-- The commands that go through one bucket of one of the tables keep the bag.
use mipt_informatics.Base.{
  ℕ, ◌+◌, ◌≤◌, ◌≡◌, refl, sym, ◌∙◌, Bool, Bool-cases, true, false, not, ◌&&◌, ◌||◌, ◌==◌, none,
  some, inl, inr, List, [], ◌∷◌, arith, if◌then◌else◌,
}
use mipt_informatics.Base.Int.{ℤ}
use mathlib.Core.Path.{subst}
use mipt_informatics.Base.Run.{Run, done}
use mipt_informatics.Database.{Value, pool_get, Item, Hashtable, hash_get_bucket, key_A, key_B}
use mipt_informatics.Database.Bag.{count_if, keep, has, field_of, bag_field}
use mipt_informatics.Database.Weight.{weight}
use mipt_informatics.Database.Session.{Database, table_of, iterate_field}
use mipt_informatics.Database.Session.Holds.{Holds, IsDatabase, Agrees}
use mipt_informatics.Database.Table.{cells_at, IsTable-pool}
use mipt_informatics.Database.Table.Iterate.{
  with_cells, hash_iterate_by_key-count, hash_iterate_by_key-delete,
}

pub count_if-keep :
    (p q : Value → Bool) (bag : List Value)
    → count_if p (keep q bag) ≡ count_if (λ v. p v && q v) bag
count_if-keep p q [] = refl
count_if-keep p q (v ∷ bag) = ground (arith, count_if-keep p q bag)

weight-split :
    (p q : Value → Bool) (pool : List Item)
    → weight p pool ≡ weight (λ v. p v && q v) pool + weight (λ v. p v && not (q v)) pool
weight-split p q [] = omega arith
weight-split p q (x ∷ pool) = ground (arith, weight-split p q pool)

weight-le : (p q : Value → Bool) (pool : List Item) → weight (λ v. p v && q v) pool ≤ weight q pool
weight-le p q [] = omega arith
weight-le p q (x ∷ pool) = ground (arith, weight-le p q pool)

-- the pool that is left when the items of one kind are gone and the others are as before
pub weight-keep :
    (p q : Value → Bool) (pool items : List Item) (bag : List Value)
    → ((r : Value → Bool) → weight r pool ≡ count_if r bag)
    → weight q items ≡ 0
    → ((r : Value → Bool)
        → ((v : Value) → r v ≡ true → q v ≡ false)
        → weight r items ≡ weight r pool)
    → weight p items ≡ count_if p (keep (λ v. not (q v)) bag)
weight-keep p q pool items bag counts gone others =
    let r : Value → Bool = λ v. p v && not (q v) in
    let kept : weight r items ≡ weight r pool = others r (λ v e. ground (arith, e)) in
    let split = weight-split p q items in
    let less = weight-le p q items in
    let left : weight p items ≡ weight r items = omega (arith, split, less, gone) in
    left ∙ kept ∙ counts r ∙ sym (count_if-keep p (λ v. not (q v)) bag)

-- the key that a field names, and its table
data Which (field : ℕ) : Type 0 where
  field_a : table_of field ≡ some 0 → field_of field ≡ some key_A → Which field
  field_b : table_of field ≡ some 1 → field_of field ≡ some key_B → Which field
  no_field : table_of field ≡ none → field_of field ≡ none → Which field

which : (field : ℕ) → Which field
unfolding key_A key_B
which field = elim (Bool-cases (field == b'a' || field == b'A')) [
  | inl e ↦ field_a (rw e) (rw e)
  | inr e ↦ elim (Bool-cases (field == b'b' || field == b'B')) [
    | inl f ↦ field_b (rw (e, f)) (rw (e, f))
    | inr f ↦ no_field (rw (e, f)) (rw (e, f))
  ]
]

module _ (t0 t1 : Hashtable) (allocated : ℕ) (pool : List Item) (bag : List Value)
    (s : Holds t0 t1 pool bag) where
  abbrev database : Database
  database = record { tables = t0 ∷ t1 ∷ []; pool = record { cells = pool; allocated = allocated } }

  -- the bag after a command on the table of a key
  pub Iterates : (Value → ℤ) → ℤ → Bool → Run (ℕ × Database) → Type 0
  Iterates get_key k delete r =
      (db : Database) × (r ≡ done (count_if (has get_key k) bag, db))
      × IsDatabase db (if delete then keep (λ v. not (has get_key k v)) bag else bag)

  iterate-Iterates_0 :
      (k : ℤ) (delete : Bool)
      → Iterates t0.get_key k delete (iterate_field database k delete (some 0))
  unfolding Iterates pool_get iterate_field
  iterate-Iterates_0 k false =
      let t = with_cells t0 k (cells_at t0 (hash_get_bucket k)) in
      let (run, table) = hash_iterate_by_key-count pool t0 k s.table_0 in
      (
        record { tables = t ∷ t1 ∷ []; pool = record { cells = pool; allocated = allocated } },
        rw (run, s.counts (has t0.get_key k)),
        (
          t,
          t1,
          refl,
          record {
            key_0 = s.key_0;
            key_1 = s.key_1;
            table_0 = table;
            table_1 = s.table_1;
            distinct = s.distinct;
            counts = s.counts;
          },
        ),
      )
  iterate-Iterates_0 k true =
      let d = hash_iterate_by_key-delete pool t0 k s.table_0 in
      let t = with_cells t0 k d.cells in
      (
        record { tables = t ∷ t1 ∷ []; pool = record { cells = d.items; allocated = allocated } },
        rw (d.run, s.counts (has t0.get_key k)),
        (
          t,
          t1,
          refl,
          record {
            key_0 = s.key_0;
            key_1 = s.key_1;
            table_0 = d.table;
            table_1 =
                IsTable-pool pool d.items t1 s.table_1 d.long
                  (λ i item l. (item, d.live i item l, refl));
            distinct = λ v. omega (arith, d.fewer v, s.distinct v);
            counts =
                λ p. weight-keep p (has t0.get_key k) pool d.items bag s.counts d.gone d.others;
          },
        ),
      )

  iterate-Iterates_1 :
      (k : ℤ) (delete : Bool)
      → Iterates t1.get_key k delete (iterate_field database k delete (some 1))
  unfolding Iterates pool_get iterate_field
  iterate-Iterates_1 k false =
      let t = with_cells t1 k (cells_at t1 (hash_get_bucket k)) in
      let (run, table) = hash_iterate_by_key-count pool t1 k s.table_1 in
      (
        record { tables = t0 ∷ t ∷ []; pool = record { cells = pool; allocated = allocated } },
        rw (run, s.counts (has t1.get_key k)),
        (
          t0,
          t,
          refl,
          record {
            key_0 = s.key_0;
            key_1 = s.key_1;
            table_1 = table;
            table_0 = s.table_0;
            distinct = s.distinct;
            counts = s.counts;
          },
        ),
      )
  iterate-Iterates_1 k true =
      let d = hash_iterate_by_key-delete pool t1 k s.table_1 in
      let t = with_cells t1 k d.cells in
      (
        record { tables = t0 ∷ t ∷ []; pool = record { cells = d.items; allocated = allocated } },
        rw (d.run, s.counts (has t1.get_key k)),
        (
          t0,
          t,
          refl,
          record {
            key_0 = s.key_0;
            key_1 = s.key_1;
            table_1 = d.table;
            table_0 =
                IsTable-pool pool d.items t0 s.table_0 d.long
                  (λ i item l. (item, d.live i item l, refl));
            distinct = λ v. omega (arith, d.fewer v, s.distinct v);
            counts =
                λ p. weight-keep p (has t1.get_key k) pool d.items bag s.counts d.gone d.others;
          },
        ),
      )

  Agrees-field :
      (k : ℤ) (delete : Bool) (field : ℕ)
      → Agrees
          (iterate_field database k delete (table_of field))
          (bag_field bag k delete (field_of field))
  unfolding Iterates iterate_field
  Agrees-field k delete field = elim (which field) [
    | no_field e f ↦ rw (e, f) (inl (refl, refl))
    | field_a e f ↦
        let (db, run, holds) =
          subst (λ g. Iterates g k delete (iterate_field database k delete (some 0))) s.key_0
            (iterate-Iterates_0 k delete) in
        rw (e, f) (inr (count_if (has key_A k) bag, db, _, run, refl, holds))
    | field_b e f ↦
        let (db, run, holds) =
          subst (λ g. Iterates g k delete (iterate_field database k delete (some 1))) s.key_1
            (iterate-Iterates_1 k delete) in
        rw (e, f) (inr (count_if (has key_B k) bag, db, _, run, refl, holds))
  ]

-- A command on a field, in the detailed and in the abstract view.
pub iterate_field-bag_field :
    (db : Database) (bag : List Value) (k : ℤ) (delete : Bool) (field : ℕ)
    → IsDatabase db bag
    → Agrees (iterate_field db k delete (table_of field)) (bag_field bag k delete (field_of field))
iterate_field-bag_field db bag k delete field (t0, t1, e, s) =
    subst
      (λ ts.
        Agrees (iterate_field (record { tables = ts; pool = db.pool }) k delete (table_of field))
          (bag_field bag k delete (field_of field)))
      (sym e) (Agrees-field t0 t1 db.pool.allocated db.pool.cells bag s k delete field)
