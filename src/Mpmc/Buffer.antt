-- ===== src/Mpmc/Buffer.antt =====
-- The circular buffer and the queue of documents that it holds.
use mipt_informatics.Base.{
  ℕ, zero, suc, ◌+◌, ◌-◌, ◌<◌, ◌≤◌, ◌≡◌, refl, ap, sym, ◌∙◌, List, [], ◌∷◌, ◌++◌, arith, ltb, ◌==◌,
  if◌then◌else◌,
}
use mathlib.Core.Path.{ap₂}
use native.Mathlib.Nat.{zero-add}
use mipt_informatics.Mpmc.{Document, Queue, advance, insert, retrieve}

-- the index that stands `k` places behind `h`
abbrev pub place : ℕ → ℕ → ℕ → ℕ
place size h k = if ltb (h + k) size then h + k else h + k - size

-- the documents from place `k` on, `n` of them
abbrev pub documents : (cells : ℕ → Document) → (size h k n : ℕ) → List Document
documents cells size h k zero = []
documents cells size h k (suc n) = cells (place size h k) ∷ documents cells size h (suc k) n

-- what the queue holds, the oldest document first
abbrev pub contents : Queue → List Document
contents q = documents q.queue q.queue_size q.queue_head 0 q.queue_used

pub record IsQueue (q : Queue) : Type 0 where
  pub bound : q.queue_used ≤ q.queue_size
  pub head : 0 < q.queue_size → q.queue_head < q.queue_size
  pub tail : q.queue_tail ≡ place q.queue_size q.queue_head q.queue_used

documents-insert :
    (cells : ℕ → Document) (d : Document) (size h t k n : ℕ)
    → h < size
    → k + n < size
    → t ≡ place size h (k + n)
    → documents (λ i. if i == t then d else cells i) size h k (suc n)
      ≡ documents cells size h k n ++ d ∷ []
documents-insert cells d size h t k zero hh hk e = ground arith
documents-insert cells d size h t k (suc n) hh hk e =
    ap₂ ◌∷◌ (ground arith)
      (documents-insert cells d size h t (suc k) n hh (omega arith) (ground arith))

documents-advance :
    (cells : ℕ → Document) (size h k n : ℕ)
    → h < size
    → k + n < size
    → documents cells size (advance size h) k n ≡ documents cells size h (suc k) n
unfolding advance
documents-advance cells size h k zero hh hk = refl
documents-advance cells size h k (suc n) hh hk =
    ap₂ ◌∷◌ (ap cells (ground arith)) (documents-advance cells size h (suc k) n hh (omega arith))

documents-first :
    (cells : ℕ → Document) (size h n : ℕ)
    → 1 ≤ n
    → documents cells size h 0 n ≡ cells (place size h 0) ∷ documents cells size h 1 (n - 1)
documents-first cells size h zero some_left = absurd (omega arith)
documents-first cells size h (suc n) some_left =
    let one_less : suc n - 1 ≡ n = omega arith in rw one_less

advance-place :
    (size h k : ℕ) → h < size → k < size → advance size (place size h k) ≡ place size h (k + 1)
unfolding advance
advance-place size h k hh hk = ground arith

place-advance :
    (size h k : ℕ) → h < size → k < size → place size (advance size h) k ≡ place size h (k + 1)
unfolding advance
place-advance size h k hh hk = ground arith

advance-lt : (size h : ℕ) → 0 < size → advance size h < size
unfolding advance
advance-lt size h p = ground arith

module _ (q : Queue) (v : IsQueue q) where
  -- An insertion into a buffer that is not full adds the document at the end of the queue.
  pub insert-IsQueue :
      (d : Document)
      → q.queue_used < q.queue_size
      → IsQueue (insert d q) × (contents (insert d q) ≡ contents q ++ d ∷ [])
  unfolding insert
  insert-IsQueue d room =
      let more : q.queue_used + 1 ≡ suc q.queue_used = omega arith in
      (
        record {
          bound = omega (arith, v.bound);
          head = v.head;
          tail =
              rw (v.tail)
                (advance-place q.queue_size q.queue_head q.queue_used (v.head (omega arith)) room);
        },
        rw more (
            documents-insert q.queue d q.queue_size q.queue_head q.queue_tail 0 q.queue_used
              (v.head (omega arith)) (omega arith) (rw zero-add v.tail)),
      )

  -- A retrieval from a buffer that is not empty takes the first document of the queue.
  pub retrieve-IsQueue :
      1 ≤ q.queue_used
      → IsQueue (retrieve q).1 × (contents q ≡ (retrieve q).0 ∷ contents (retrieve q).1)
  unfolding retrieve
  retrieve-IsQueue some_left =
      let size = q.queue_size in
      let h : q.queue_head < size = v.head (omega (arith, v.bound)) in
      let one_less : q.queue_used - 1 + 1 ≡ q.queue_used = omega arith in
      (
        record {
          bound = omega (arith, v.bound);
          head = advance-lt size q.queue_head;
          tail =
              v.tail
              ∙ sym (
                  place-advance size q.queue_head (q.queue_used - 1) h (omega (arith, v.bound))
                  ∙ ap (place size q.queue_head) one_less);
        },
        documents-first q.queue size q.queue_head q.queue_used some_left
            ∙ ap₂ ◌∷◌ (ap q.queue (ground arith)) (
                sym (
                  documents-advance q.queue size q.queue_head 0 (q.queue_used - 1) h
                    (omega (arith, v.bound)))),
      )
