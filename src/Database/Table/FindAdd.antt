-- ===== src/Database/Table/FindAdd.antt =====
-- What `hash_find_add` yields of a table.
use mipt_informatics.Base.{
  ℕ, suc, ◌<◌, ◌≡◌, refl, sym, ap, ◌∙◌, Bool-cases, true, false, none, some, List, [], ◌∷◌, ◌++◌,
  ◌⊎◌, inl, inr, arith, length, get_elem?,
}
use mipt_informatics.Base.Run.{Run, done}
use mipt_informatics.Base.Order.{eqb_iff_ℤ}
use mipt_informatics.Database.{
  Value, same, pool_add, Item, PoolIndex, Hashtable, hash_get_bucket, bucket_of, hash_force_add,
  hash_find_add,
}
use mipt_informatics.Database.Weight.{IsAlive, alive}
use mipt_informatics.Database.Table.{occurrences, IsTable, slot, cells_at, cells_at-set_self}
use mipt_informatics.Database.Table.Find.{Lacks, FoundAt, find_loop-Finds, hash_force_add-none}

pub same-eq : (v w : Value) → same v w ≡ true → v ≡ w
unfolding same
same-eq v w e = ground (arith, e, eqb_iff_ℤ v.a w.a, eqb_iff_ℤ v.b w.b)

pub alive-none :
    (v : Value) (pool : List Item)
    → ((i : ℕ) (item : Item) → IsAlive pool i item → same v item.value ≡ false)
    → alive v pool ≡ 0
alive-none v [] h = refl
alive-none v (x ∷ pool) h =
    let rest : alive v pool ≡ 0 = alive-none v pool (λ i item l. h (suc i) item l) in
    let here : 0 < x.count → same v x.value ≡ false = λ l. h 0 x (refl, l) in
    ground (arith, rest, here)

get_elem?-snoc_last :
    (b : List PoolIndex) (x : PoolIndex) → get_elem? (b ++ x ∷ []) (length b) ≡ some x
get_elem?-snoc_last [] x = refl
get_elem?-snoc_last (y ∷ b) x = get_elem?-snoc_last b x

module _ (pool : List Item) (h : Hashtable) (v : Value) (t : IsTable pool h) where
  -- a value that its bucket lacks is not alive
  pub Lacks-alive : Lacks pool v (bucket_of h v) → alive v pool ≡ 0
  Lacks-alive lacks = alive-none v pool (λ i item l. elim (Bool-cases (same v item.value)) [
    | inr e ↦ e
    | inl e ↦
        let one = t.once i item l in
        let zero_times = lacks i item l e in
        let eq : bucket_of h v ≡ bucket_of h item.value =
          ap (bucket_of h) (same-eq v item.value e) in
        cc (sym one ∙ ap (occurrences i) (sym eq) ∙ zero_times)
  ])

  -- what the search comes to: the place of an item, or an empty place for a value that is not alive
  abbrev pub Places : Run (ℕ × Hashtable) → Type 0
  Places r =
      ((place : ℕ) × (r ≡ done (place, h)) × FoundAt pool v (bucket_of h v) place)
      ⊎ ((place : ℕ) × (h' : Hashtable) × (r ≡ done (place, h'))
          × (h'.get_key ≡ h.get_key)
          × IsTable pool h'
          × (get_elem? (bucket_of h' v) place ≡ some none)
          × (alive v pool ≡ 0))

  force_add-place :
      get_elem? (bucket_of (hash_force_add h v none).1 v) (hash_force_add h v none).0 ≡ some none
  unfolding hash_force_add pool_add
  force_add-place =
      let s = hash_get_bucket (h.get_key v) in
      rw (cells_at-set_self h s s (pool_add (h.buckets s) none).1 refl)
        (get_elem?-snoc_last (cells_at h s) none)

  -- In a table where each item of the pool that is alive stands once in its bucket, the search ends
  -- without a read out of bounds: it gives the table as it was and the place of an item that is alive
  -- and has the value, or, if none is, an empty place in the bucket and such a table again.
  pub hash_find_add-Places : Places (hash_find_add h pool v)
  unfolding hash_find_add slot
  hash_find_add-Places = elim (find_loop-Finds pool v (bucket_of h v) 0 none (t.below (slot h v))) [
    | inl (j, e, f) ↦ inl (j, rw e (ap (λ i. done (i, h)) (omega arith)), f)
    | inr (none, e, lacks, w) ↦ inr (
      (hash_force_add h v none).0,
      (hash_force_add h v none).1,
      rw e,
      refl,
      hash_force_add-none pool h v t,
      force_add-place,
      Lacks-alive lacks,
    )
    | inr (some place, e, lacks, inl known) ↦ cc
    | inr (some place, e, lacks, inr (j, eq, free)) ↦
        inr (place, h, rw e, refl, t, ground (arith, eq, free), Lacks-alive lacks)
  ]
