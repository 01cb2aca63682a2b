-- ===== src/Ring/Remove.antt =====
-- Nodes that are removed from a ring, and the walk over a ring.
use mipt_informatics.Base.{
  ℕ, zero, suc, ◌<◌, ◌≡◌, refl, sym, ◌↔◌, true, List, [], ◌∷◌, arith, ◌==◌, if◌then◌else◌, length,
}
use mipt_informatics.Base.Int.{ℤ}
use mipt_informatics.Base.Run.{done}
use mipt_informatics.Ring.{
  Store, list_init, list_remove, list_delete, list_pop_front, foreach_from, list_foreach,
  list_is_empty,
}
use mipt_informatics.Ring.Chain.{Fresh, Distinct, Chain, IsRing, values, Chain-frame}

next-remove :
    (h : Store) (t i : ℕ)
    → (list_remove h t).next i ≡ (if i == h.prev t then h.next t else h.next i)
unfolding list_remove
next-remove h t i = refl

prev-remove :
    (h : Store) (t i : ℕ)
    → (list_remove h t).prev i ≡ (if i == h.next t then h.prev t else h.prev i)
unfolding list_remove
prev-remove h t i = refl

Chain-remove :
    (h : Store) (list x : ℕ) (xs : List ℕ)
    → Chain h list (x ∷ xs) list
    → Distinct (list ∷ x ∷ xs)
    → Chain (list_remove h x) list xs list
Chain-remove h list x [] c d = (
  ground (arith, next-remove h x list, c.1, c.2.0),
  ground (arith, prev-remove h x list, c.1, c.2.0),
)
Chain-remove h list x (y ∷ ys) c d = (
  ground (arith, next-remove h x list, c.1, c.2.0),
  ground (arith, prev-remove h x y, c.1, c.2.0),
  Chain-frame h (list_remove h x) y ys list list y x
      (λ i e k. ground (arith, next-remove h x i, e, c.1))
      (λ i e k. ground (arith, prev-remove h x i, e, c.2.0)) d.0.1 ((λ e. d.0.1.0 (sym e)), d.1.1.0)
      ((λ e. d.0.0 (sym e)), d.1.0) c.2.2,
)

-- A pop at the front of a ring that is not empty returns the first value and leaves a ring of the
-- others.
pub list_pop_front-IsRing :
    (h : Store) (list x : ℕ) (xs : List ℕ)
    → IsRing h list (x ∷ xs)
    → let r = list_pop_front h list in
      (r.0 ≡ h.value x) × IsRing r.1 list xs × (values r.1 xs ≡ values h xs)
unfolding list_pop_front list_delete list_remove
list_pop_front-IsRing h list x xs r =
    let first : h.next list ≡ x = r.chain.0 in
    rw first (
      refl,
      record {
        chain = Chain-remove h list x xs r.chain r.distinct;
        distinct = (r.distinct.0.1, r.distinct.1.1);
      },
      refl,
    )

-- The head alone is a ring.
pub list_init-IsRing : (h : Store) (list : ℕ) → IsRing (list_init h list) list []
unfolding list_init
list_init-IsRing h list = record { chain = (ground arith, ground arith); distinct = (tt, tt) }

-- the calls of `func` for the values, in order
abbrev pub fold : {P : Type 0} → (ℤ → P → P) → List ℤ → P → P
fold func [] param = param
fold func (v ∷ vs) param = fold func vs (func v param)

foreach_from-fold :
    {P : Type 0} (fuel : ℕ) (h : Store) (list a : ℕ) (xs : List ℕ) (func : ℤ → P → P) (param : P)
    → length xs < fuel
    → Chain h a xs list
    → Fresh list xs
    → foreach_from fuel h list (h.next a) func param ≡ done (fold func (values h xs) param)
unfolding foreach_from
foreach_from-fold zero h list a xs func param long c f = absurd (omega arith)
foreach_from-fold (suc fuel) h list a [] func param long c f = ground (arith, c.0)
foreach_from-fold (suc fuel) h list a (x ∷ xs) func param long c f =
    let rest =
      foreach_from-fold fuel h list x xs func (func (h.value x) param) (omega arith) c.2 f.1 in
    ground (arith, c.0, rest, f.0)

-- With a round for each node and one more, `list_foreach` over a ring ends and calls the function
-- for each value once, in order.
pub list_foreach-fold :
    {P : Type 0} (fuel : ℕ) (h : Store) (list : ℕ) (xs : List ℕ) (func : ℤ → P → P) (param : P)
    → length xs < fuel
    → IsRing h list xs
    → list_foreach fuel h list func param ≡ done (fold func (values h xs) param)
unfolding list_foreach
list_foreach-fold fuel h list xs func param long r =
    foreach_from-fold fuel h list list xs func param long r.chain r.distinct.0

-- The test for an empty list is true exactly for the ring without nodes.
pub list_is_empty_iff :
    (h : Store) (list : ℕ) (xs : List ℕ)
    → IsRing h list xs
    → (list_is_empty h list ≡ true) ↔ (xs ≡ [])
unfolding list_is_empty
list_is_empty_iff h list [] r = (λ e. refl, λ e. ground (arith, r.chain.0, r.chain.1))
list_is_empty_iff h list (x ∷ xs) r =
    (λ e. absurd (ground (arith, r.chain.0, r.distinct.0.0)), λ e. cc)
