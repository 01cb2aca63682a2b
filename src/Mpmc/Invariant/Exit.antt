-- ===== src/Mpmc/Invariant/Exit.antt =====
-- The states in which a consumer has left its loop.
use mipt_informatics.Base.{
  ℕ, ◌<◌, ◌≡◌, refl, ap, sym, ◌∙◌, true, List, [], ◌++◌, arith, ltb, if◌then◌else◌,
}
use native.Mathlib.Decide.{dec_lt}
use mathlib.Core.Path.{subst}
use mathlib.Core.List.{append-nil}
use mipt_informatics.Mpmc.{
  Document, Queue, insert, retrieve, Producer, sleeping, finished, exited, System, Step, prepare,
  finish, lock_producer, wait_producer, insert_document, lock_consumer, wait_consumer,
  exit_consumer, retrieve_document, scan, interrupt, go_away, Reach, here, next, start,
}
use mipt_informatics.Mpmc.Buffer.{contents}
use mipt_informatics.Mpmc.Invariant.{Reach-fifo}
use mipt_informatics.Mpmc.Invariant.Order.{
  own, first_documents, IsOrdered, Progress, Reach-IsOrdered,
}

module _ (prod_nr cons_nr amount : ℕ) where
  -- the queue has been told to go away and is empty
  abbrev IsOver : System → Type 0
  IsOver s = (s.q.queue_going_away ≡ true) × (s.q.queue_used ≡ 0)

  abbrev Exits : System → Type 0
  Exits s = (j : ℕ) → j < cons_nr → s.consumers j ≡ exited → IsOver s

  no-insertion :
      {s : System} (i c : ℕ) (d : Document)
      → IsOrdered prod_nr amount s
      → s.q.queue_going_away ≡ true
      → ¬ (s.producers i ≡ Producer.locked d c)
  no-insertion {s} i c d o g e = elim (dec_lt i prod_nr) [
    | yes near ↦ absurd (cc (o.gone g i near))
    | no far ↦ absurd (cc (o.others i (omega arith)))
  ]

  Step-Exits :
      {s t : System} → Step prod_nr amount s t → IsOrdered prod_nr amount s → Exits s → Exits t
  unfolding insert retrieve
  Step-Exits (prepare i c e h) o v j hj x = v j hj x
  Step-Exits (finish i c e h) o v j hj x = v j hj x
  Step-Exits (lock_producer i c d e h) o v j hj x = v j hj x
  Step-Exits (wait_producer i c d e h) o v j hj x = v j hj x
  Step-Exits {s} (insert_document i c d e h) o v j hj x =
      let (g, u) = v j hj x in absurd (no-insertion i c d o g e)
  Step-Exits (lock_consumer i e h) o v j hj x = v j hj (ground arith)
  Step-Exits (wait_consumer i e h g) o v j hj x = v j hj (ground arith)
  Step-Exits (exit_consumer i e h g) o v j hj x = (g, omega arith)
  Step-Exits (retrieve_document i e h) o v j hj x =
      let (g, u) = v j hj (ground arith) in (g, omega arith)
  Step-Exits (scan i d e) o v j hj x = v j hj (ground arith)
  Step-Exits (interrupt i d e) o v j hj x = v j hj (ground arith)
  Step-Exits (go_away e h) o v j hj x = let (g, u) = v j hj x in (refl, u)

  Reach-Exits :
      {s t : System} → IsOrdered prod_nr amount s → Exits s → Reach prod_nr amount s t → Exits t
  Reach-Exits o v here = v
  Reach-Exits o v (next r st) =
      Step-Exits st (Reach-IsOrdered prod_nr amount o r) (Reach-Exits o v r)

  start-IsOrdered :
      (cells : ℕ → Document) (size : ℕ)
      → IsOrdered prod_nr amount (start cells size prod_nr cons_nr)
  unfolding start
  start-IsOrdered cells size = record {
    order = λ i h.
        subst (λ b. Progress amount i (if b then sleeping 0 else finished) []) (sym (near i h))
          (refl, omega arith);
    others = λ i h. ground arith;
    gone = λ g. absurd (ground arith);
  }
    where
      near : (i : ℕ) → i < prod_nr → ltb i prod_nr ≡ true
      near i h = ground arith

  start-Exits : (cells : ℕ → Document) (size : ℕ) → Exits (start cells size prod_nr cons_nr)
  unfolding start
  start-Exits cells size j h e = absurd (ground arith)

-- In a reachable state in which one of the `cons_nr` consumers has left its loop, the queue is empty,
-- and the documents that were retrieved contain those of each producer once each and in the order
-- in which it made them.
pub Reach-complete :
    (cells : ℕ → Document) (size prod_nr cons_nr amount : ℕ) {s : System}
    → Reach prod_nr amount (start cells size prod_nr cons_nr) s
    → (j : ℕ) → j < cons_nr
    → s.consumers j ≡ exited
    → (s.q.queue_used ≡ 0) × ((i : ℕ) → i < prod_nr → own i s.retrieved ≡ first_documents i amount)
Reach-complete cells size prod_nr cons_nr amount {s} r j hj e =
    let o = start-IsOrdered prod_nr cons_nr amount cells size in
    let (g, u) =
      Reach-Exits prod_nr cons_nr amount o (start-Exits prod_nr cons_nr amount cells size) r j hj
        e in
    let w = Reach-IsOrdered prod_nr amount o r in
    let (bound, fifo) = Reach-fifo cells size prod_nr cons_nr amount r in
    let all : s.inserted ≡ s.retrieved = fifo ∙ empty s.retrieved s.q u in
    (u, λ i hi. ap (own i) (sym all) ∙ done s w i hi g)
  where
    empty : (ds : List Document) (q : Queue) → q.queue_used ≡ 0 → ds ++ contents q ≡ ds
    empty ds q u = rw (u, append-nil)

    done :
        (s : System)
        → IsOrdered prod_nr amount s
        → (i : ℕ) → i < prod_nr
        → s.q.queue_going_away ≡ true
        → own i s.inserted ≡ first_documents i amount
    done s w i hi g =
        subst (λ p. Progress amount i p (own i s.inserted)) (w.gone g i hi) (w.order i hi)
