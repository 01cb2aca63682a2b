-- ===== src/Mpmc/Invariant/Order.antt =====
-- What the producers have inserted, by where they stand.
use mipt_informatics.Base.{
  ℕ, zero, suc, ◌<◌, ◌≤◌, ◌≡◌, refl, sym, inl, inr, true, false, Bool-cases, List, [], ◌∷◌, ◌++◌,
  arith, ◌==◌, if◌then◌else◌,
}
use native.Mathlib.Decide.{dec_lt}
use mathlib.Core.Path.{subst}
use mathlib.Core.List.{append-nil}
use mipt_informatics.Mpmc.{
  Document, insert, retrieve, Producer, sleeping, prepared, finished, System, Step, prepare, finish,
  lock_producer, wait_producer, insert_document, lock_consumer, wait_consumer, exit_consumer,
  retrieve_document, scan, interrupt, go_away, Reach, here, next,
}

-- the documents of the producer `i`
abbrev pub own : ℕ → List Document → List Document
own i [] = []
own i (d ∷ ds) = if d.prod_id == i then d ∷ own i ds else own i ds

abbrev pub document : ℕ → ℕ → Document
document i c = record { prod_id = i; doc_id = c }

-- the first `n` documents of the producer `i`, in order
abbrev pub first_documents : ℕ → ℕ → List Document
first_documents i zero = []
first_documents i (suc n) = first_documents i n ++ document i n ∷ []

own-append : (i : ℕ) (xs ys : List Document) → own i (xs ++ ys) ≡ own i xs ++ own i ys
own-append i [] ys = refl
own-append i (x ∷ xs) ys = ground (arith, own-append i xs ys)

module _ (amount i : ℕ) where
  -- the producer `i` has prepared `d`, with the counter then at `c`
  abbrev Pending : Document → ℕ → List Document → Type 0
  Pending d c ds =
      (k : ℕ) × (c ≡ suc k) × (d ≡ document i k) × (ds ≡ first_documents i k) × (c ≤ amount)

  -- what the producer `i` has inserted, by where it stands
  abbrev pub Progress : Producer → List Document → Type 0
  Progress (sleeping c) ds = (ds ≡ first_documents i c) × (c ≤ amount)
  Progress (prepared d c) ds = Pending d c ds
  Progress (Producer.locked d c) ds = Pending d c ds
  Progress (Producer.waiting d c) ds = Pending d c ds
  Progress finished ds = ds ≡ first_documents i amount

module _ (prod_nr amount : ℕ) where
  abbrev InOrder : (ℕ → Producer) → List Document → Type 0
  InOrder producers ds = (i : ℕ) → i < prod_nr → Progress amount i (producers i) (own i ds)

  pub record IsOrdered (s : System) : Type 0 where
    pub order : InOrder s.producers s.inserted
    pub others : (i : ℕ) → prod_nr ≤ i → s.producers i ≡ finished
    pub gone : s.q.queue_going_away ≡ true → (i : ℕ) → i < prod_nr → s.producers i ≡ finished

  -- the producer `j` moves to `p` and inserts the documents `more`, which are its own
  InOrder-set :
      (producers : ℕ → Producer) (ds more : List Document) (j : ℕ) (p : Producer)
      → InOrder producers ds
      → ((i : ℕ) → (i == j) ≡ false → own i more ≡ [])
      → (j < prod_nr → Progress amount j p (own j (ds ++ more)))
      → InOrder (λ i. if i == j then p else producers i) (ds ++ more)
  InOrder-set producers ds more j p v foreign at_j i h = elim (Bool-cases (i == j)) [
    | inl e ↦
        let same : i ≡ j = ground arith in
        rw e
          (subst (λ k. Progress amount k p (own k (ds ++ more))) (sym same) (at_j (rw same at h)))
    | inr e ↦ rw (e, own-append i ds more, foreign i e, append-nil) (v i h)
  ]

  InOrder-move :
      (producers : ℕ → Producer) (ds : List Document) (j : ℕ) (p : Producer)
      → InOrder producers ds
      → (j < prod_nr → Progress amount j p (own j ds))
      → InOrder (λ i. if i == j then p else producers i) ds
  InOrder-move producers ds j p v at_j =
      rw append-nil at
        (InOrder-set producers ds [] j p v (λ i e. refl) (λ h. rw append-nil (at_j h)))

  at :
      {s : System}
      → IsOrdered s
      → (j : ℕ) → j < prod_nr
      → {p : Producer} → s.producers j ≡ p
      → Progress amount j p (own j s.inserted)
  at {s} v j h e = subst (λ p. Progress amount j p (own j s.inserted)) e (v.order j h)

  insert-InOrder :
      {s : System} (j c : ℕ) (d : Document)
      → IsOrdered s
      → s.producers j ≡ Producer.locked d c
      → InOrder (λ i. if i == j then sleeping c else s.producers i) (s.inserted ++ d ∷ [])
  insert-InOrder {s} j c d v e = elim (dec_lt j prod_nr) [
    | no far ↦ absurd (cc (v.others j (omega arith)))
    | yes near ↦
        let (k, count, doc, eq, le) = at v j near e in
        InOrder-set s.producers s.inserted (d ∷ []) j (sleeping c) v.order
          (λ i other. rw doc (rw (flip i j other)))
          (λ h. (rw (own-append j s.inserted (d ∷ []), eq, count, doc, self j), le))
  ]
    where
      flip : (i j : ℕ) → (i == j) ≡ false → (j == i) ≡ false
      flip i j h = ground arith

      self : (j : ℕ) → (j == j) ≡ true
      self j = ground arith

  Step-order :
      {s t : System} → Step prod_nr amount s t → IsOrdered s → InOrder t.producers t.inserted
  Step-order {s} (prepare j c e h) v =
      InOrder-move s.producers s.inserted j _ v.order
        (λ hj. let (eq, le) = at v j hj e in (c, omega arith, refl, eq, omega arith))
  Step-order {s} (finish j c e h) v =
      InOrder-move s.producers s.inserted j _ v.order
        (λ hj. let (eq, le) = at v j hj e in let all : c ≡ amount = omega arith in rw all at eq)
  Step-order {s} (lock_producer j c d (inl e) h) v =
      InOrder-move s.producers s.inserted j _ v.order (λ hj. at v j hj e)
  Step-order {s} (lock_producer j c d (inr e) h) v =
      InOrder-move s.producers s.inserted j _ v.order (λ hj. at v j hj e)
  Step-order {s} (wait_producer j c d e h) v =
      InOrder-move s.producers s.inserted j _ v.order (λ hj. at v j hj e)
  Step-order (insert_document j c d e h) v = insert-InOrder j c d v e
  Step-order (lock_consumer j e h) v = v.order
  Step-order (wait_consumer j e h g) v = v.order
  Step-order (exit_consumer j e h g) v = v.order
  Step-order (retrieve_document j e h) v = v.order
  Step-order (scan j d e) v = v.order
  Step-order (interrupt j d e) v = v.order
  Step-order (go_away e h) v = v.order

  Step-others :
      {s t : System}
      → Step prod_nr amount s t
      → IsOrdered s
      → (i : ℕ) → prod_nr ≤ i
      → t.producers i ≡ finished
  Step-others (prepare j c e h) v i far = ground (arith, v.others i far)
  Step-others (finish j c e h) v i far = ground (arith, v.others i far)
  Step-others (lock_producer j c d (inl e) h) v i far = ground (arith, v.others i far)
  Step-others (lock_producer j c d (inr e) h) v i far = ground (arith, v.others i far)
  Step-others (wait_producer j c d e h) v i far = ground (arith, v.others i far)
  Step-others (insert_document j c d e h) v i far = ground (arith, v.others i far)
  Step-others (lock_consumer j e h) v i far = v.others i far
  Step-others (wait_consumer j e h g) v i far = v.others i far
  Step-others (exit_consumer j e h g) v i far = v.others i far
  Step-others (retrieve_document j e h) v i far = v.others i far
  Step-others (scan j d e) v i far = v.others i far
  Step-others (interrupt j d e) v i far = v.others i far
  Step-others (go_away e h) v i far = v.others i far

  Step-gone :
      {s t : System}
      → Step prod_nr amount s t
      → IsOrdered s
      → t.q.queue_going_away ≡ true
      → (i : ℕ) → i < prod_nr
      → t.producers i ≡ finished
  unfolding insert retrieve
  Step-gone (prepare j c e h) v g i near = ground (arith, v.gone g i near)
  Step-gone (finish j c e h) v g i near = ground (arith, v.gone g i near)
  Step-gone (lock_producer j c d (inl e) h) v g i near = ground (arith, v.gone g i near)
  Step-gone (lock_producer j c d (inr e) h) v g i near = ground (arith, v.gone g i near)
  Step-gone (wait_producer j c d e h) v g i near = ground (arith, v.gone g i near)
  Step-gone (insert_document j c d e h) v g i near = ground (arith, v.gone g i near)
  Step-gone (lock_consumer j e h) v g i near = v.gone g i near
  Step-gone (wait_consumer j e h g') v g i near = v.gone g i near
  Step-gone (exit_consumer j e h g') v g i near = v.gone g i near
  Step-gone (retrieve_document j e h) v g i near = v.gone g i near
  Step-gone (scan j d e) v g i near = v.gone g i near
  Step-gone (interrupt j d e) v g i near = v.gone g i near
  Step-gone (go_away e h) v g i near = e i near

  pub Reach-IsOrdered : {s t : System} → IsOrdered s → Reach prod_nr amount s t → IsOrdered t
  Reach-IsOrdered v here = v
  Reach-IsOrdered v (next r st) =
      let w = Reach-IsOrdered v r in
      record { order = Step-order st w; others = Step-others st w; gone = Step-gone st w }
