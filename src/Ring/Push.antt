-- ===== src/Ring/Push.antt =====
-- Nodes that are inserted into a ring.
use mipt_informatics.Base.{
  ℕ, ◌≡◌, refl, sym, ◌∙◌, ◌≢◌, List, [], ◌∷◌, ◌++◌, arith, ◌==◌, if◌then◌else◌,
}
use mipt_informatics.Base.Int.{ℤ}
use mipt_informatics.Ring.{
  Store, set_data, list_insert, list_insert_before, list_push_front, list_push_back,
}
use mipt_informatics.Ring.Chain.{
  Fresh, Distinct, Chain, IsRing, values, Chain-last, Fresh-last, Chain-frame,
}

next-insert_before :
    (h : Store) (b t i : ℕ)
    → t ≢ h.prev b
    → (list_insert_before h b t).next i
      ≡ (if i == h.prev b then t else if i == t then b else h.next i)
unfolding list_insert_before
next-insert_before h b t i e = ground arith

prev-insert_before :
    (h : Store) (b t i : ℕ)
    → t ≢ h.prev b
    → (list_insert_before h b t).prev i
      ≡ (if i == b then t else if i == t then h.prev b else h.prev i)
unfolding list_insert_before
prev-insert_before h b t i e = ground arith

module _ (h : Store) (b t : ℕ) where
  Chain-insert_before :
      (a : ℕ) (xs : List ℕ)
      → Chain h a xs b
      → Fresh t (b ∷ a ∷ xs)
      → Fresh b xs
      → Distinct (a ∷ xs)
      → Chain (list_insert_before h b t) a (xs ++ t ∷ []) b
  Chain-insert_before a [] c ft fb d =
      let far : t ≢ h.prev b = λ e. ft.1.0 (e ∙ c.1) in
      let next = λ (i : ℕ). next-insert_before h b t i far in
      let prev = λ (i : ℕ). prev-insert_before h b t i far in
      (
        ground (arith, next a, c.1),
        ground (arith, prev t, c.1, ft.0),
        (ground (arith, next t, far), ground (arith, prev b)),
      )
  Chain-insert_before a (x ∷ xs) c ft fb d =
      let far : t ≢ h.prev b =
        λ e. Fresh-last t x xs ft.1.1.0 ft.1.1.1 (e ∙ Chain-last h x xs b c.2) in
      let near : a ≢ h.prev b = λ e. Fresh-last a x xs d.0.0 d.0.1 (e ∙ Chain-last h x xs b c.2) in
      (
        ground (arith, next-insert_before h b t a far, near, c.0, ft.1.0),
        ground (arith, prev-insert_before h b t x far, c.1, fb.0, ft.1.1.0),
        Chain-insert_before x xs c.2 (ft.0, ft.1.1) fb.1 d.1,
      )

Fresh-snoc : (a t : ℕ) (xs : List ℕ) → Fresh a xs → a ≢ t → Fresh a (xs ++ t ∷ [])
Fresh-snoc a t [] f h = (h, tt)
Fresh-snoc a t (x ∷ xs) f h = (f.0, Fresh-snoc a t xs f.1 h)

Distinct-snoc : (t : ℕ) (xs : List ℕ) → Distinct xs → Fresh t xs → Distinct (xs ++ t ∷ [])
Distinct-snoc t [] d f = (tt, tt)
Distinct-snoc t (x ∷ xs) d f =
    (Fresh-snoc x t xs d.0 (λ e. f.0 (sym e)), Distinct-snoc t xs d.1 f.1)

values-set_data :
    (h : Store) (t : ℕ) (d : ℤ) (xs : List ℕ)
    → Fresh t xs
    → values (set_data h t d) (xs ++ t ∷ []) ≡ values h xs ++ d ∷ []
values-set_data h t d [] f = ground arith
values-set_data h t d (x ∷ xs) f = ground (arith, values-set_data h t d xs f.1, f.0)

-- A push of a fresh node at the back of a ring yields a ring with the new value at its end.
pub list_push_back-IsRing :
    (h : Store) (list node : ℕ) (d : ℤ) (xs : List ℕ)
    → IsRing h list xs
    → Fresh node (list ∷ xs)
    → IsRing (list_push_back h list node d) list (xs ++ node ∷ [])
      × (values (list_push_back h list node d) (xs ++ node ∷ []) ≡ values h xs ++ d ∷ [])
unfolding list_push_back list_insert_before
list_push_back-IsRing h list node d xs r f = (
  record {
    chain =
        Chain-insert_before (set_data h node d) list node list xs r.chain (f.0, f) r.distinct.0
          r.distinct;
    distinct = Distinct-snoc node (list ∷ xs) r.distinct f;
  },
  values-set_data h node d xs f.1,
)

next-insert :
    (h : Store) (list t i : ℕ)
    → t ≢ list
    → (list_insert h list t).next i
      ≡ (if i == list then t else if i == t then h.next list else h.next i)
unfolding list_insert
next-insert h list t i e = ground arith

prev-insert :
    (h : Store) (list t i : ℕ)
    → t ≢ list
    → (list_insert h list t).prev i
      ≡ (if i == h.next list then t else if i == t then list else h.prev i)
unfolding list_insert
prev-insert h list t i e = ground arith

Chain-insert :
    (h : Store) (list t : ℕ) (xs : List ℕ)
    → Chain h list xs list
    → Fresh t (list ∷ xs)
    → Distinct (list ∷ xs)
    → Chain (list_insert h list t) list (t ∷ xs) list
Chain-insert h list t [] c f d = (
  ground (arith, next-insert h list t list f.0),
  ground (arith, prev-insert h list t t f.0, c.0, f.0),
  (
    ground (arith, next-insert h list t t f.0, c.0, f.0),
    ground (arith, prev-insert h list t list f.0, c.0),
  ),
)
Chain-insert h list t (y ∷ ys) c f d = (
  ground (arith, next-insert h list t list f.0),
  ground (arith, prev-insert h list t t f.0, c.0, f.1.0),
  (
    ground (arith, next-insert h list t t f.0, c.0, f.0),
    ground (arith, prev-insert h list t y f.0, c.0),
    Chain-frame h (list_insert h list t) y ys list list y t
        (λ i e k. ground (arith, next-insert h list t i f.0, e, k))
        (λ i e k. ground (arith, prev-insert h list t i f.0, e, k, c.0)) d.0
        ((λ e. d.0.0 (sym e)), d.1.0) f c.2,
  ),
)

values-set_data_same :
    (h : Store) (t : ℕ) (d : ℤ) (xs : List ℕ)
    → Fresh t xs
    → values (set_data h t d) xs ≡ values h xs
values-set_data_same h t d [] f = refl
values-set_data_same h t d (x ∷ xs) f = ground (arith, values-set_data_same h t d xs f.1, f.0)

-- A push of a fresh node at the front of a ring yields a ring with the new value in front.
pub list_push_front-IsRing :
    (h : Store) (list node : ℕ) (d : ℤ) (xs : List ℕ)
    → IsRing h list xs
    → Fresh node (list ∷ xs)
    → IsRing (list_push_front h list node d) list (node ∷ xs)
      × (values (list_push_front h list node d) (node ∷ xs) ≡ d ∷ values h xs)
unfolding list_push_front list_insert
list_push_front-IsRing h list node d xs r f = (
  record {
    chain = Chain-insert (set_data h node d) list node xs r.chain f r.distinct;
    distinct = (((λ e. f.0 (sym e)), r.distinct.0), (f.1, r.distinct.1));
  },
  ground (arith, values-set_data_same h node d xs f.1),
)
