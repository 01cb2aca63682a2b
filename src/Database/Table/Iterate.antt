-- ===== src/Database/Table/Iterate.antt =====
-- What `hash_iterate_by_key` yields of a table.
use mipt_informatics.Base.{ℕ, ◌≤◌, ◌≡◌, refl, sym, ap, ◌∙◌, Bool, true, false, List, arith, length}
use mathlib.Core.Path.{subst}
use mipt_informatics.Base.Run.{done}
use mipt_informatics.Base.Int.{ℤ}
use mipt_informatics.Base.Order.{eqb_iff_ℤ}
use mipt_informatics.Database.{
  Value, Item, PoolIndex, Hashtable, hash_get_bucket, set_bucket, hash_iterate_by_key,
}
use mipt_informatics.Database.Bag.{has}
use mipt_informatics.Database.Weight.{IsAlive, alive, weight, weight-eq-zero}
use mipt_informatics.Database.Table.{occurrences, IsTable, cells_at, IsTable-same}
use mipt_informatics.Database.Table.Sweep.{Once, Sweeps, sweep, sweep-Sweeps, iterate-hits}

-- the table, with the cells of the bucket of the key replaced
abbrev pub with_cells : Hashtable → ℤ → List PoolIndex → Hashtable
with_cells h k b = let i = hash_get_bucket k in set_bucket h i (record (h.buckets i) { cells = b })

module _ (pool : List Item) (h : Hashtable) (k : ℤ) (t : IsTable pool h) where
  abbrev place : ℕ
  place = hash_get_bucket k

  Once-bucket : Once h.get_key k (cells_at h place) pool
  Once-bucket i item l e =
      subst (λ x. occurrences i (cells_at h (hash_get_bucket x)) ≡ 1)
        (sym ((eqb_iff_ℤ k (h.get_key item.value)).0 e)) (t.once i item l)

  abbrev swept :
      Sweeps h.get_key k (cells_at h place) pool (sweep h.get_key k (cells_at h place) pool)
  swept = sweep-Sweeps h.get_key k (cells_at h place) pool (t.below place)

  -- nothing with the key is left, so the count is the weight
  swept-weight :
      (swept.count ≡ weight (has h.get_key k) pool) × (weight (has h.get_key k) swept.items ≡ 0)
  swept-weight =
      let none_left = weight-eq-zero (has h.get_key k) swept.items (swept.gone Once-bucket) in
      (omega (arith, swept.counted, none_left), none_left)

  pub hash_iterate_by_key-count :
      (hash_iterate_by_key h pool k false
        ≡ done (with_cells h k (cells_at h place), pool, weight (has h.get_key k) pool))
      × IsTable pool (with_cells h k (cells_at h place))
  unfolding hash_iterate_by_key
  hash_iterate_by_key-count = (
    rw (iterate-hits h.get_key k (cells_at h place) pool (t.below place)) (
        ap (λ n. done (with_cells h k (cells_at h place), pool, n))
          (sym (swept.sum Once-bucket) ∙ swept-weight.0)),
    IsTable-same pool h place t pool (record (h.buckets place) { cells = cells_at h place }) refl
        (λ i item l. (item, l, refl)) (λ i item l. refl) (t.below place),
  )

  pub record Deletes : Type 0 where
    pub cells : List PoolIndex
    pub items : List Item
    pub run :
        hash_iterate_by_key h pool k true
        ≡ done (with_cells h k cells, items, weight (has h.get_key k) pool)
    pub table : IsTable items (with_cells h k cells)
    pub long : length items ≡ length pool
    pub live : (i : ℕ) (item : Item) → IsAlive items i item → IsAlive pool i item
    pub fewer : (v : Value) → alive v items ≤ alive v pool
    pub gone : weight (has h.get_key k) items ≡ 0
    pub others :
        (p : Value → Bool)
        → ((v : Value) → p v ≡ true → has h.get_key k v ≡ false)
        → weight p items ≡ weight p pool

  pub hash_iterate_by_key-delete : Deletes
  unfolding hash_iterate_by_key
  hash_iterate_by_key-delete = record {
    cells = swept.cells;
    items = swept.items;
    run = rw (swept.run, swept-weight.0);
    table =
        IsTable-same pool h place t swept.items (record (h.buckets place) { cells = swept.cells })
          swept.long (λ i item l. (item, swept.live i item l, refl)) swept.same_place
          (swept.below (length pool) (t.below place));
    long = swept.long;
    live = swept.live;
    fewer = swept.fewer;
    gone = swept-weight.1;
    others = swept.others;
  }
