-- ===== src/Database/Session/Holds/Add.antt =====
-- The command add keeps the bag.
use mipt_informatics.Base.{
  ℕ, ◌+◌, ◌≡◌, refl, sym, ap, ◌∙◌, Bool-cases, true, ◌==◌, Option, none, some, ◌⊎◌, inl, inr, List,
  [], ◌∷◌, ◌++◌, arith, ltb, length, get_elem?,
}
use mathlib.Core.Path.{subst}
use mipt_informatics.Base.Run.{Run, done}
use mipt_informatics.Database.{
  Value, same, pool_add, pool_get, Item, PoolIndex, Hashtable, bucket_of, hash_get_count_in_bucket,
  hash_force_add, hash_find_add, set_place, set_count,
}
use mipt_informatics.Database.Bag.{count_if}
use mipt_informatics.Database.Weight.{IsAlive, alive, pool_get-some}
use mipt_informatics.Database.Session.{
  Database, pick_loop, pick_smallest, add_to_all, add_to_all_other, new_item, add_everywhere,
  add_at, add_again, add_found, add_picked, add_to, add,
}
use mipt_informatics.Database.Session.Holds.{
  Holds, IsDatabase, Holds-new, count-new, Holds-more, count-more,
}
use mipt_informatics.Database.Table.{IsTable, occurrences}
use mipt_informatics.Database.Table.Find.{hash_force_add-IsTable, set_place-IsTable}
use mipt_informatics.Database.Table.FindAdd.{Lacks-alive, hash_find_add-Places}

no_cells : (b : List PoolIndex) → (length b == 0) ≡ true → b ≡ []
no_cells [] e = refl
no_cells (x ∷ b) e = ground arith

-- which of two tables is picked
Picks : Hashtable → Hashtable → Value → Option ℕ → Type 0
Picks t0 t1 v r =
    ((r ≡ none) × ((bucket_of t0 v ≡ []) ⊎ (bucket_of t1 v ≡ []))) ⊎ (r ≡ some 0) ⊎ (r ≡ some 1)

pick_smallest-Picks :
    (t0 t1 : Hashtable) (v : Value) → Picks t0 t1 v (pick_smallest (t0 ∷ t1 ∷ []) v)
unfolding pick_smallest pick_loop hash_get_count_in_bucket Picks
pick_smallest-Picks t0 t1 v = elim (Bool-cases (length (bucket_of t0 v) == 0)) [
  | inl e ↦ inl (rw e, inl (no_cells (bucket_of t0 v) e))
  | inr e ↦ elim (Bool-cases (length (bucket_of t1 v) == 0)) [
    | inl f ↦ inl (rw (e, f), inr (no_cells (bucket_of t1 v) f))
    | inr f ↦ elim (Bool-cases (ltb (length (bucket_of t1 v)) (length (bucket_of t0 v)))) [
      | inl l ↦ inr (inr (rw (e, f, l)))
      | inr l ↦ inr (inl (rw (e, f, l)))
    ]
  ]
]

module _ (db : Database) (v : Value) (i : ℕ) (h h' : Hashtable) (place : ℕ)
    (run : hash_find_add h db.pool.cells v ≡ done (place, h')) where
  add_picked-again :
      (index : ℕ) (item : Item)
      → get_elem? (bucket_of h' v) place ≡ some (some index)
      → get_elem? db.pool.cells index ≡ some item
      → add_picked db v i h ≡ done (add_again db i h' index item)
  unfolding add_picked add_found
  add_picked-again index item at at' = rw (
    run,
    pool_get-some (bucket_of h' v) place (some index) at,
    pool_get-some db.pool.cells index item at',
  )

  add_picked-at :
      get_elem? (bucket_of h' v) place ≡ some none
      → add_picked db v i h ≡ done (add_at db v i h' place)
  unfolding add_picked add_found
  add_picked-at at = rw (run, pool_get-some (bucket_of h' v) place none at)

module _ (t0 t1 : Hashtable) (allocated : ℕ) (pool : List Item) (bag : List Value)
    (s : Holds t0 t1 pool bag) (v : Value) where
  abbrev database : Database
  database = record { tables = t0 ∷ t1 ∷ []; pool = record { cells = pool; allocated = allocated } }

  Adds : Run (ℕ × Database) → Type 0
  Adds r = (db : Database) × (r ≡ done (count_if (same v) bag + 1, db)) × IsDatabase db (v ∷ bag)

  -- the new item with its index in both tables
  Adds-new :
      (t0' t1' : Hashtable) (db : Database)
      → alive v pool ≡ 0
      → (t0'.get_key ≡ t0.get_key)
      → (t1'.get_key ≡ t1.get_key)
      → IsTable (pool ++ new_item v ∷ []) t0'
      → IsTable (pool ++ new_item v ∷ []) t1'
      → db.tables ≡ t0' ∷ t1' ∷ []
      → db.pool.cells ≡ pool ++ new_item v ∷ []
      → Adds (done (1, db))
  unfolding Adds
  Adds-new t0' t1' db dead k0 k1 tab0 tab1 e f = (
    db,
    ap (λ n. done (n, db)) (omega (arith, count-new t0 t1 pool bag s v dead)),
    (
      t0',
      t1',
      e,
      subst (λ c. Holds t0' t1' c (v ∷ bag)) (sym f)
          (Holds-new t0 t1 pool bag s v t0' t1' dead k0 k1 tab0 tab1),
    ),
  )

  Adds-everywhere : alive v pool ≡ 0 → Adds (done (add_everywhere database v))
  unfolding add_everywhere add_to_all pool_add hash_force_add
  Adds-everywhere dead =
      let db = (add_everywhere database v).1 in
      Adds-new (hash_force_add t0 v (some (length pool))).1
        (hash_force_add t1 v (some (length pool))).1 db dead refl refl
        (hash_force_add-IsTable pool t0 v s.table_0 (new_item v) refl)
        (hash_force_add-IsTable pool t1 v s.table_1 (new_item v) refl) refl refl

  Adds-again :
      (r : Run (ℕ × Database)) (index : ℕ) (item : Item) (db : Database)
      → IsAlive pool index item
      → same v item.value ≡ true
      → r ≡ done (item.count + 1, db)
      → db.tables ≡ t0 ∷ t1 ∷ []
      → db.pool.cells ≡ set_count pool index (item.count + 1)
      → Adds r
  unfolding Adds
  Adds-again r index item db l e run tables cells = (
    db,
    run ∙ ap (λ n. done (n, db)) (count-more t0 t1 pool bag s v index item l e),
    (
      t0,
      t1,
      tables,
      subst (λ c. Holds t0 t1 c (v ∷ bag)) (sym cells)
          (Holds-more t0 t1 pool bag s v index item l e),
    ),
  )

  Adds-0 : Adds (add_picked database v 0 t0)
  unfolding add_at add_again add_to_all_other hash_force_add set_place pool_add
  Adds-0 = elim (hash_find_add-Places pool t0 v s.table_0) [
    | inl (place, run, (index, item, at, l, e)) ↦
        Adds-again (add_picked database v 0 t0) index item (add_again database 0 t0 index item).1 l
          e (add_picked-again database v 0 t0 t0 place run index item at l.0) refl refl
    | inr (place, t, run, key, table, free, dead) ↦
        subst Adds (sym (add_picked-at database v 0 t0 t place run free)) (
          Adds-new (set_place t v place (some (length pool)))
            (hash_force_add t1 v (some (length pool))).1 (add_at database v 0 t place).1 dead key
            refl (set_place-IsTable pool t v table place (new_item v) refl free)
            (hash_force_add-IsTable pool t1 v s.table_1 (new_item v) refl) refl refl)
  ]

  Adds-1 : Adds (add_picked database v 1 t1)
  unfolding add_at add_again add_to_all_other hash_force_add set_place pool_add
  Adds-1 = elim (hash_find_add-Places pool t1 v s.table_1) [
    | inl (place, run, (index, item, at, l, e)) ↦
        Adds-again (add_picked database v 1 t1) index item (add_again database 1 t1 index item).1 l
          e (add_picked-again database v 1 t1 t1 place run index item at l.0) refl refl
    | inr (place, t, run, key, table, free, dead) ↦
        subst Adds (sym (add_picked-at database v 1 t1 t place run free)) (
          Adds-new (hash_force_add t0 v (some (length pool))).1
            (set_place t v place (some (length pool))) (add_at database v 1 t place).1 dead refl key
            (hash_force_add-IsTable pool t0 v s.table_0 (new_item v) refl)
            (set_place-IsTable pool t v table place (new_item v) refl free) refl refl)
  ]

  -- a value with an empty bucket is not alive
  empty-dead : (h : Hashtable) → IsTable pool h → bucket_of h v ≡ [] → alive v pool ≡ 0
  empty-dead h t e = Lacks-alive pool h v t (λ index item l f. ap (occurrences index) e)

  add-Adds : Adds (add database v)
  unfolding add add_to Picks pool_get
  add-Adds = elim (pick_smallest-Picks t0 t1 v) [
    | inl (e, inl b) ↦ rw e (Adds-everywhere (empty-dead t0 s.table_0 b))
    | inl (e, inr b) ↦ rw e (Adds-everywhere (empty-dead t1 s.table_1 b))
    | inr (inl e) ↦ rw e Adds-0
    | inr (inr e) ↦ rw e Adds-1
  ]

-- The command add, in the detailed and in the abstract view.
pub add-bag :
    (db : Database) (bag : List Value) (v : Value)
    → IsDatabase db bag
    → (db' : Database) × (add db v ≡ done (count_if (same v) bag + 1, db'))
      × IsDatabase db' (v ∷ bag)
unfolding Adds
add-bag db bag v (t0, t1, e, s) =
    subst
      (λ ts.
        (db' : Database) × (add (record { tables = ts; pool = db.pool }) v
          ≡ done (count_if (same v) bag + 1, db'))
        × IsDatabase db' (v ∷ bag))
      (sym e) (add-Adds t0 t1 db.pool.allocated db.pool.cells bag s v)
