-- ===== src/Mpmc/Invariant/Release.antt =====
-- Who holds the mutex can always go on and give it back.
use mipt_informatics.Base.{
  ℕ, ◌≡◌, refl, Bool, true, false, Bool-cases, inl, inr, Option, none, some, arith, ◌==◌,
}
use native.Mathlib.Decide.{dec_lt}
use mathlib.Core.Path.{subst}
use mipt_informatics.Mpmc.{
  Document, Producer, Consumer, Thread, producer, consumer, System, set_producer, set_consumer,
  Step, prepare, finish, lock_producer, wait_producer, insert_document, lock_consumer,
  wait_consumer, exit_consumer, retrieve_document, scan, interrupt, go_away, Reach, here, next,
  start,
}

abbrev locks_producer : Producer → Bool
locks_producer (Producer.locked d c) = true
locks_producer _ = false

abbrev locks_consumer : Consumer → Bool
locks_consumer Consumer.locked = true
locks_consumer _ = false

-- The thread that the mutex has as its holder stands between the locking and the unlocking.
abbrev Holds : (ℕ → Producer) → (ℕ → Consumer) → Option Thread → Type 0
Holds producers consumers none = Unit
Holds producers consumers (some (producer i)) = locks_producer (producers i) ≡ true
Holds producers consumers (some (consumer i)) = locks_consumer (consumers i) ≡ true

Holds-set_producer :
    (s : System) (i : ℕ) (p : Producer) (o : Option Thread)
    → locks_producer (s.producers i) ≡ false
    → Holds s.producers s.consumers o
    → Holds (set_producer s i p) s.consumers o
Holds-set_producer s i p none e v = tt
Holds-set_producer s i p (some (producer j)) e v = elim (Bool-cases (j == i)) [
  | inl h ↦ let same : j ≡ i = ground (arith, h) in absurd (cc (rw same at v))
  | inr h ↦ rw h v
]
Holds-set_producer s i p (some (consumer j)) e v = v

Holds-set_consumer :
    (s : System) (i : ℕ) (c : Consumer) (o : Option Thread)
    → locks_consumer (s.consumers i) ≡ false
    → Holds s.producers s.consumers o
    → Holds s.producers (set_consumer s i c) o
Holds-set_consumer s i c none e v = tt
Holds-set_consumer s i c (some (producer j)) e v = v
Holds-set_consumer s i c (some (consumer j)) e v = elim (Bool-cases (j == i)) [
  | inl h ↦ let same : j ≡ i = ground (arith, h) in absurd (cc (rw same at v))
  | inr h ↦ rw h v
]

module _ {prod_nr amount : ℕ} where
  Step-Holds :
      {s t : System}
      → Step prod_nr amount s t
      → Holds s.producers s.consumers s.holder
      → Holds t.producers t.consumers t.holder
  Step-Holds {s} (prepare i c e h) v = Holds-set_producer s i _ s.holder (rw e refl) v
  Step-Holds {s} (finish i c e h) v = Holds-set_producer s i _ s.holder (rw e refl) v
  Step-Holds (lock_producer i c d e h) v = ground arith
  Step-Holds (wait_producer i c d e h) v = tt
  Step-Holds (insert_document i c d e h) v = tt
  Step-Holds (lock_consumer i e h) v = ground arith
  Step-Holds (wait_consumer i e h g) v = tt
  Step-Holds (exit_consumer i e h g) v = tt
  Step-Holds (retrieve_document i e h) v = tt
  Step-Holds {s} (scan i d e) v = Holds-set_consumer s i _ s.holder (rw e refl) v
  Step-Holds {s} (interrupt i d e) v = Holds-set_consumer s i _ s.holder (rw e refl) v
  Step-Holds (go_away e h) v = v

  Reach-Holds :
      {s t : System}
      → Reach prod_nr amount s t
      → Holds s.producers s.consumers s.holder
      → Holds t.producers t.consumers t.holder
  Reach-Holds here v = v
  Reach-Holds (next r st) v = Step-Holds st (Reach-Holds r v)

module _ (prod_nr amount : ℕ) where
  -- a step that unlocks the mutex
  abbrev Releases : System → Type 0
  Releases s = (t : System) × Step prod_nr amount s t × (t.holder ≡ none)

  producer-Releases :
      (s : System) (i : ℕ) (p : Producer) → s.producers i ≡ p → locks_producer p ≡ true → Releases s
  producer-Releases s i (Producer.locked d c) e h = elim (dec_lt s.q.queue_used s.q.queue_size) [
    | yes lt ↦ (_, insert_document i c d e lt, refl)
    | no ge ↦ (_, wait_producer i c d e (omega arith), refl)
  ]
  producer-Releases s i _ e h = cc

  consumer-Releases : (s : System) (i : ℕ) → locks_consumer (s.consumers i) ≡ true → Releases s
  consumer-Releases s i h =
      let at : s.consumers i ≡ Consumer.locked = is_locked (s.consumers i) h in
      elim (dec_lt s.q.queue_used 1) [
        | yes lt ↦ elim (Bool-cases s.q.queue_going_away) [
          | inl e ↦ (_, exit_consumer i at lt e, refl)
          | inr e ↦ (_, wait_consumer i at lt e, refl)
        ]
        | no ge ↦ (_, retrieve_document i at (omega arith), refl)
      ]
    where
      is_locked : (c : Consumer) → locks_consumer c ≡ true → c ≡ Consumer.locked
      is_locked c k = ground arith

  holder-Releases :
      (s : System) (a : Thread)
      → s.holder ≡ some a
      → Holds s.producers s.consumers (some a)
      → Releases s
  holder-Releases s (producer i) e v = producer-Releases s i (s.producers i) refl v
  holder-Releases s (consumer i) e v = consumer-Releases s i v

-- In every state that the program reaches, when a thread has the mutex, the program can take a step that gives
-- the mutex back: no thread waits or ends with the mutex locked.
pub mutex_released :
    (cells : ℕ → Document) (size prod_nr cons_nr amount : ℕ) {s : System} (a : Thread)
    → Reach prod_nr amount (start cells size prod_nr cons_nr) s
    → s.holder ≡ some a
    → (t : System) × Step prod_nr amount s t × (t.holder ≡ none)
unfolding start
mutex_released cells size prod_nr cons_nr amount {s} a r e =
    holder-Releases prod_nr amount s a e
      (subst (Holds s.producers s.consumers) e (Reach-Holds r tt))
