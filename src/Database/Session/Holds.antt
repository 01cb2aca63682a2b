-- ===== src/Database/Session/Holds.antt =====
-- When the two tables and the pool of database.c hold a bag of values.
pub mod Iterate
pub mod Add
use mipt_informatics.Base.{
  ℕ, zero, suc, ◌+◌, ◌≤◌, ◌<◌, ◌≡◌, refl, sym, ap, ◌∙◌, Bool, Bool-cases, true, false, not, ◌&&◌,
  Option, none, some, List, [], ◌∷◌, ◌++◌, ◌⊎◌, inl, inr, arith, ◌==◌, if◌then◌else◌, length,
  get_elem?,
}
use mipt_informatics.Base.Int.{ℤ, eqb_ℤ}
use mipt_informatics.Base.Run.{Run, done, fault}
use mipt_informatics.Database.{Value, same, Pool, Item, Hashtable, set_count, key_A, key_B}
use mipt_informatics.Database.Bag.{count_if, keep, has}
use mipt_informatics.Database.Session.{Database, new_item}
use mipt_informatics.Database.Weight.{
  IsAlive, alive, weight, alive-append, weight-append, alive-set_count, weight-set_count,
  length-set_count, get_elem?-set_count_self, get_elem?-set_count_ne, weight-alive,
  weight-not_alive,
}
use mipt_informatics.Database.Table.{IsTable, IsTable-pool}
use mipt_informatics.Database.Table.FindAdd.{same-eq}

pub record Holds (t0 t1 : Hashtable) (pool : List Item) (bag : List Value) : Type 0 where
  pub key_0 : t0.get_key ≡ key_A
  pub key_1 : t1.get_key ≡ key_B
  pub table_0 : IsTable pool t0
  pub table_1 : IsTable pool t1
  pub distinct : (v : Value) → alive v pool ≤ 1
  pub counts : (p : Value → Bool) → weight p pool ≡ count_if p bag

abbrev pub IsDatabase : Database → List Value → Type 0
IsDatabase db bag =
    (t0 : Hashtable) × (t1 : Hashtable) × (db.tables ≡ t0 ∷ t1 ∷ []) × Holds t0 t1 db.pool.cells bag

-- a run and its abstract view: both fault, or both print the same and the new database holds the new
-- bag
abbrev pub Agrees : Run (ℕ × Database) → Run (ℕ × List Value) → Type 0
Agrees r b =
    ((r ≡ fault) × (b ≡ fault))
    ⊎ ((n : ℕ) × (db : Database) × (bag : List Value) × (r ≡ done (n, db))
        × (b ≡ done (n, bag))
        × IsDatabase db bag)

module _ (t0 t1 : Hashtable) (pool : List Item) (bag : List Value) (s : Holds t0 t1 pool bag) where
  -- a new item with a value that was not alive
  pub Holds-new :
      (v : Value) (t0' t1' : Hashtable)
      → alive v pool ≡ 0
      → (t0'.get_key ≡ t0.get_key)
      → (t1'.get_key ≡ t1.get_key)
      → IsTable (pool ++ new_item v ∷ []) t0'
      → IsTable (pool ++ new_item v ∷ []) t1'
      → Holds t0' t1' (pool ++ new_item v ∷ []) (v ∷ bag)
  Holds-new v t0' t1' dead k0 k1 tab0 tab1 = record {
    key_0 = k0 ∙ s.key_0;
    key_1 = k1 ∙ s.key_1;
    table_0 = tab0;
    table_1 = tab1;
    distinct = λ w.
        let sum = alive-append w pool (new_item v ∷ []) in
        elim (Bool-cases (same w v)) [
          | inl e ↦
              let gone : alive w pool ≡ 0 = ap (λ u. alive u pool) (same-eq w v e) ∙ dead in
              ground (arith, sum, gone, e)
          | inr e ↦ ground (arith, sum, e, s.distinct w)
        ];
    counts = λ p. omega (arith, weight-append p pool (new_item v ∷ []), s.counts p);
  }

  -- the number that is printed for a value that was not alive
  pub count-new : (v : Value) → alive v pool ≡ 0 → count_if (same v) bag ≡ 0
  count-new v dead = sym (s.counts (same v)) ∙ weight-not_alive v pool dead

  -- one more of an item that is alive
  module _ (v : Value) (index : ℕ) (item : Item) (l : IsAlive pool index item)
      (e : same v item.value ≡ true) where
    abbrev pub more : List Item
    more = set_count pool index (item.count + 1)

    live-more :
        (i : ℕ) (other : Item)
        → IsAlive more i other
        → (old : Item) × IsAlive pool i old × (old.value ≡ other.value)
    live-more i other (at, c) = elim (Bool-cases (index == i)) [
      | inl eq ↦
          let now = get_elem?-set_count_self pool index (item.count + 1) item l.0 in
          let here : index ≡ i = ground arith in
          let eq' = sym now ∙ ap (get_elem? more) here ∙ at in
          (
            item,
            (ap (get_elem? pool) (sym here) ∙ l.0, l.1),
            ap (λ o. elim o [ none ↦ item.value | some x ↦ x.value ]) eq',
          )
      | inr ne ↦
          (other, (sym (get_elem?-set_count_ne pool index i (item.count + 1) ne) ∙ at, c), refl)
    ]

    IsTable-more : (h : Hashtable) → IsTable pool h → IsTable more h
    IsTable-more h t =
        IsTable-pool pool more h t (length-set_count pool index (item.count + 1)) live-more

    pub Holds-more : Holds t0 t1 more (v ∷ bag)
    Holds-more = record {
      key_0 = s.key_0;
      key_1 = s.key_1;
      table_0 = IsTable-more t0 s.table_0;
      table_1 = IsTable-more t1 s.table_1;
      distinct = λ w.
          omega
            (arith, s.distinct w, alive-set_count w pool index (item.count + 1) item l.0 (inl l.1));
      counts = λ p.
          let same_value = ap p (same-eq v item.value e) in
          let change = weight-set_count p pool index (item.count + 1) item l.0 in
          ground (arith, change, s.counts p, same_value);
    }

    pub count-more : item.count + 1 ≡ count_if (same v) bag + 1
    count-more = omega (arith, weight-alive v pool index item l e (s.distinct v), s.counts (same v))
