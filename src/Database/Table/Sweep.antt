-- ===== src/Database/Table/Sweep.antt =====
-- `hash_iterate_by_key` over the cells of a bucket.
use mipt_informatics.Base.{
  ℕ, ◌+◌, ◌≤◌, ◌<◌, ◌≡◌, refl, sym, ap, ◌∙◌, Bool, Bool-cases, not, true, false, ◌&&◌, Option, none,
  some, List, [], ◌∷◌, inl, inr, arith, ◌==◌, if◌then◌else◌, length, get_elem?,
}
use mipt_informatics.Base.Int.{ℤ, eqb_ℤ}
use mipt_informatics.Base.Run.{Run, done}
use mipt_informatics.Database.{Value, Item, PoolIndex, set_count, iterate}
use mipt_informatics.Database.Bag.{has}
use mipt_informatics.Database.Weight.{
  IsAlive, weight, alive, weight-set_count, alive-set_count, length-set_count,
  get_elem?-set_count_self, get_elem?-set_count_ne, pool_get-some, get_elem?-some,
}
use mipt_informatics.Database.Table.{occurrences, AllBelow}

module _ (get_key : Value → ℤ) (k : ℤ) where
  -- the item is alive and has the key
  pub hit : Item → Bool
  hit item = not (item.count == 0) && eqb_ℤ k (get_key item.value)

  abbrev hits_at : Option Item → ℕ
  hits_at none = 0
  hits_at (some item) = if hit item then item.count else 0

  -- what the items in the bucket count
  abbrev pub hits : List PoolIndex → List Item → ℕ
  hits [] pool = 0
  hits (none ∷ b) pool = hits b pool
  hits (some i ∷ b) pool = hits_at (get_elem? pool i) + hits b pool

  -- each item that has the key and is alive stands once among the cells
  abbrev pub Once : List PoolIndex → List Item → Type 0
  Once b pool =
      (i : ℕ) (item : Item)
      → IsAlive pool i item
      → has get_key k item.value ≡ true
      → occurrences i b ≡ 1

  hits-set_count :
      (b : List PoolIndex) (pool : List Item) (i n : ℕ)
      → occurrences i b ≡ 0
      → hits b (set_count pool i n) ≡ hits b pool
  hits-set_count [] pool i n e = refl
  hits-set_count (none ∷ b) pool i n e = hits-set_count b pool i n e
  hits-set_count (some j ∷ b) pool i n e =
      let other : (i == j) ≡ false = ground arith in
      let rest : occurrences i b ≡ 0 = ground arith in
      rw (get_elem?-set_count_ne pool i j n other, hits-set_count b pool i n rest)

  IsAlive-set_zero :
      (pool : List Item) (i j : ℕ) (old item : Item)
      → get_elem? pool i ≡ some old
      → IsAlive (set_count pool i 0) j item
      → ((i == j) ≡ false) × IsAlive pool j item
  IsAlive-set_zero pool i j old item at (e, l) = elim (Bool-cases (i == j)) [
    | inl eq ↦
        let at' = get_elem?-set_count_self pool i 0 old at in absurd (ground (arith, eq, at', e, l))
    | inr ne ↦ (ne, (sym (get_elem?-set_count_ne pool i j 0 ne) ∙ e, l))
  ]

  -- the cells, the pool and the count that a deletion yields
  pub record Sweeps (b : List PoolIndex) (pool : List Item)
      (r : Run (List PoolIndex × List Item × ℕ)) : Type 0 where
    pub cells : List PoolIndex
    pub items : List Item
    pub count : ℕ
    pub run : r ≡ done (cells, items, count)
    pub long : length items ≡ length pool
    pub live : (i : ℕ) (item : Item) → IsAlive items i item → IsAlive pool i item
    pub same_place :
        (i : ℕ) (item : Item) → IsAlive items i item → occurrences i cells ≡ occurrences i b
    pub below : (m : ℕ) → AllBelow m b → AllBelow m cells
    pub others :
        (p : Value → Bool)
        → ((v : Value) → p v ≡ true → has get_key k v ≡ false)
        → weight p items ≡ weight p pool
    pub fewer : (v : Value) → alive v items ≤ alive v pool
    pub counted : count + weight (has get_key k) items ≡ weight (has get_key k) pool
    pub gone :
        Once b pool
        → (i : ℕ) (item : Item) → IsAlive items i item
        → has get_key k item.value ≡ false
    pub sum : Once b pool → count ≡ hits b pool

  abbrev pub sweep : List PoolIndex → List Item → Run (List PoolIndex × List Item × ℕ)
  sweep = iterate get_key k true

  Sweeps-none :
      (b : List PoolIndex) (pool : List Item)
      → Sweeps b pool (sweep b pool)
      → Sweeps (none ∷ b) pool (sweep (none ∷ b) pool)
  unfolding iterate
  Sweeps-none b pool w = record {
    cells = none ∷ w.cells;
    items = w.items;
    count = w.count;
    run = rw (w.run);
    long = w.long;
    live = w.live;
    same_place = w.same_place;
    below = w.below;
    others = w.others;
    fewer = w.fewer;
    counted = w.counted;
    gone = w.gone;
    sum = w.sum;
  }

  module _ (b : List PoolIndex) (pool : List Item) (index : ℕ) (item : Item)
      (at : get_elem? pool index ≡ some item) where
    sweep-miss :
        (cells : List PoolIndex) (items : List Item) (n : ℕ)
        → hit item ≡ false
        → sweep b pool ≡ done (cells, items, n)
        → sweep (some index ∷ b) pool ≡ done (some index ∷ cells, items, n)
    unfolding iterate hit
    sweep-miss cells items n off run =
        rw (pool_get-some pool index item at, off, run)
          (ap (λ m. done (some index ∷ cells, items, m)) (omega arith))

    sweep-hit :
        (cells : List PoolIndex) (items : List Item) (n : ℕ)
        → hit item ≡ true
        → sweep b (set_count pool index 0) ≡ done (cells, items, n)
        → sweep (some index ∷ b) pool ≡ done (none ∷ cells, items, item.count + n)
    unfolding iterate hit
    sweep-hit cells items n e run = rw (pool_get-some pool index item at, e, run)

    Once-miss : hit item ≡ false → Once (some index ∷ b) pool → Once b pool
    unfolding hit
    Once-miss off once i other l has_k =
        let one = once i other l has_k in ground (arith, at, l.0, l.1, off, has_k, one)

    Sweeps-miss :
        hit item ≡ false
        → Sweeps b pool (sweep b pool)
        → Sweeps (some index ∷ b) pool (sweep (some index ∷ b) pool)
    Sweeps-miss off w = record {
      cells = some index ∷ w.cells;
      items = w.items;
      count = w.count;
      run = sweep-miss w.cells w.items w.count off w.run;
      long = w.long;
      live = w.live;
      same_place = λ i other l. omega (arith, w.same_place i other l);
      below = λ m h. (h.0, w.below m h.1);
      others = w.others;
      fewer = w.fewer;
      counted = w.counted;
      gone = λ once. w.gone (Once-miss off once);
      sum = λ once. rw (at, off) (w.sum (Once-miss off once) ∙ omega arith);
    }

    abbrev swept : List Item
    swept = set_count pool index 0

    hit-has : hit item ≡ true → (0 < item.count) × (has get_key k item.value ≡ true)
    unfolding hit
    hit-has e = ground arith

    Once-hit :
        hit item ≡ true → Once (some index ∷ b) pool → Once b swept × (occurrences index b ≡ 0)
    Once-hit e once =
        let (l, has_k) = hit-has e in
        let one = once index item (at, l) has_k in
        (
          λ i other alive_i h.
              let (ne, old) = IsAlive-set_zero pool index i item other at alive_i in
              let one' = once i other old h in ground (arith, one', ne),
          ground (arith, one),
        )

    Sweeps-hit :
        hit item ≡ true
        → Sweeps b swept (sweep b swept)
        → Sweeps (some index ∷ b) pool (sweep (some index ∷ b) pool)
    Sweeps-hit e w =
        let (l, has_k) = hit-has e in
        record {
          cells = none ∷ w.cells;
          items = w.items;
          count = item.count + w.count;
          run = sweep-hit w.cells w.items w.count e w.run;
          long = w.long ∙ length-set_count pool index 0;
          live = λ i other al. (IsAlive-set_zero pool index i item other at (w.live i other al)).1;
          same_place = λ i other al.
              let (ne, old) = IsAlive-set_zero pool index i item other at (w.live i other al) in
              let same' = w.same_place i other al in ground (arith, same', ne);
          below = λ m h. w.below m h.1;
          others = λ p off.
              let kept = w.others p off in
              let change = weight-set_count p pool index 0 item at in
              let not_p = off item.value in ground (arith, kept, change, not_p, has_k);
          fewer = λ v. omega (arith, w.fewer v, alive-set_count v pool index 0 item at (inr refl));
          counted =
              let change = weight-set_count (has get_key k) pool index 0 item at in
              let rest = w.counted in ground (arith, change, has_k, rest);
          gone = λ once. w.gone (Once-hit e once).0;
          sum = λ once.
              let (once', zero_left) = Once-hit e once in
              rw (at, e) (omega (arith, w.sum once', hits-set_count b pool index 0 zero_left));
        }

  -- A sweep over indices of the pool.
  pub sweep-Sweeps :
      (b : List PoolIndex) (pool : List Item)
      → AllBelow (length pool) b
      → Sweeps b pool (sweep b pool)
  unfolding iterate
  sweep-Sweeps [] pool a = record {
    cells = [];
    items = pool;
    count = 0;
    run = refl;
    long = refl;
    live = λ i item l. l;
    same_place = λ i item l. refl;
    below = λ m h. h;
    others = λ p h. refl;
    fewer = λ v. omega arith;
    counted = omega arith;
    gone = λ once i item l. elim (Bool-cases (has get_key k item.value)) [
      | inl e ↦ cc (once i item l e)
      | inr e ↦ e
    ];
    sum = λ once. refl;
  }
  sweep-Sweeps (none ∷ b) pool a = Sweeps-none b pool (sweep-Sweeps b pool a)
  sweep-Sweeps (some index ∷ b) pool (bound, a) =
      let (item, at) = get_elem?-some pool index bound in
      elim (Bool-cases (hit item)) [
        | inr off ↦ Sweeps-miss b pool index item at off (sweep-Sweeps b pool a)
        | inl e ↦
            let long = length-set_count pool index 0 in
            Sweeps-hit b pool index item at e (sweep-Sweeps b (set_count pool index 0) (rw long a))
      ]

  count-hit :
      (b : List PoolIndex) (pool : List Item) (index n : ℕ) (item : Item)
      → get_elem? pool index ≡ some item
      → iterate get_key k false b pool ≡ done (b, pool, n)
      → iterate get_key k false (some index ∷ b) pool
        ≡ done (some index ∷ b, pool, (if hit item then item.count else 0) + n)
  unfolding iterate hit
  count-hit b pool index n item at run = elim (Bool-cases (hit item)) [
    | inl e ↦ rw (pool_get-some pool index item at, e, run)
    | inr e ↦ rw (pool_get-some pool index item at, e, run)
  ]

  -- Counting reads the items and changes nothing.
  pub iterate-hits :
      (b : List PoolIndex) (pool : List Item)
      → AllBelow (length pool) b
      → iterate get_key k false b pool ≡ done (b, pool, hits b pool)
  unfolding iterate
  iterate-hits [] pool a = refl
  iterate-hits (none ∷ b) pool a = rw (iterate-hits b pool a)
  iterate-hits (some index ∷ b) pool (bound, a) =
      let (item, at) = get_elem?-some pool index bound in
      count-hit b pool index (hits b pool) item at (iterate-hits b pool a)
      ∙ ap (λ o. done (some index ∷ b, pool, hits_at o + hits b pool)) (sym at)
