-- ===== src/Mpmc/Invariant.antt =====
-- What holds in every state that the program reaches.
pub mod Release
pub mod Order
pub mod Exit
use mipt_informatics.Base.{
  ℕ, zero, suc, ◌+◌, ◌-◌, ◌<◌, ◌≤◌, ◌≡◌, refl, ap, sym, ◌∙◌, true, false, Bool, List, [], ◌∷◌, ◌++◌,
  none, some, arith, ltb, ◌==◌, if◌then◌else◌,
}
use mathlib.Core.List.{append_assoc, append-nil}
use mipt_informatics.Mpmc.{
  Document, Queue, insert, retrieve, Producer, sleeping, prepared, finished, Consumer, idle,
  scanning, exited, Thread, producer, consumer, System, Step, prepare, finish, lock_producer,
  wait_producer, insert_document, lock_consumer, wait_consumer, exit_consumer, retrieve_document,
  scan, interrupt, go_away, Reach, here, next, start,
}
use mipt_informatics.Mpmc.Buffer.{IsQueue, contents, insert-IsQueue, retrieve-IsQueue}

-- The buffer is a queue, and the documents come out in the order in which they went in.
pub record IsFifo (s : System) : Type 0 where
  pub queue : IsQueue s.q
  pub fifo : s.inserted ≡ s.retrieved ++ contents s.q

module _ {prod_nr amount : ℕ} where
  pub Step-IsFifo : {s t : System} → Step prod_nr amount s t → IsFifo s → IsFifo t
  Step-IsFifo (prepare i c e h) v = record { queue = v.queue; fifo = v.fifo }
  Step-IsFifo (finish i c e h) v = record { queue = v.queue; fifo = v.fifo }
  Step-IsFifo (lock_producer i c d e h) v = record { queue = v.queue; fifo = v.fifo }
  Step-IsFifo (wait_producer i c d e h) v = record { queue = v.queue; fifo = v.fifo }
  Step-IsFifo {s} (insert_document i c d e room) v =
      let (is, more) = insert-IsQueue s.q v.queue d room in
      record { queue = is; fifo = rw (more, v.fifo, append_assoc) }
  Step-IsFifo (lock_consumer i e h) v = record { queue = v.queue; fifo = v.fifo }
  Step-IsFifo (wait_consumer i e h g) v = record { queue = v.queue; fifo = v.fifo }
  Step-IsFifo (exit_consumer i e h g) v = record { queue = v.queue; fifo = v.fifo }
  Step-IsFifo {s} (retrieve_document i e some_left) v =
      let (is, less) = retrieve-IsQueue s.q v.queue some_left in
      record { queue = is; fifo = v.fifo ∙ rw (less, append_assoc) }
  Step-IsFifo (scan i d e) v = record { queue = v.queue; fifo = v.fifo }
  Step-IsFifo (interrupt i d e) v = record { queue = v.queue; fifo = v.fifo }
  Step-IsFifo (go_away e h) v = record {
    queue = record { bound = v.queue.bound; head = v.queue.head; tail = v.queue.tail };
    fifo = v.fifo;
  }

  -- In every state that is reached from one where it holds.
  pub Reach-IsFifo : {s t : System} → IsFifo s → Reach prod_nr amount s t → IsFifo t
  Reach-IsFifo v here = v
  Reach-IsFifo v (next r st) = Step-IsFifo st (Reach-IsFifo v r)

start-IsFifo :
    (cells : ℕ → Document) (size prod_nr cons_nr : ℕ) → IsFifo (start cells size prod_nr cons_nr)
unfolding start
start-IsFifo cells size prod_nr cons_nr = record { queue = ground arith; fifo = refl }

-- However the threads interleave, at most `queue_size` documents are in the buffer, and the
-- documents that were inserted are those that were retrieved, in the same order, followed by those
-- in the buffer.
pub Reach-fifo :
    (cells : ℕ → Document) (size prod_nr cons_nr amount : ℕ) {s : System}
    → Reach prod_nr amount (start cells size prod_nr cons_nr) s
    → (s.q.queue_used ≤ s.q.queue_size) × (s.inserted ≡ s.retrieved ++ contents s.q)
Reach-fifo cells size prod_nr cons_nr amount r =
    let v = Reach-IsFifo (start-IsFifo cells size prod_nr cons_nr) r in (v.queue.bound, v.fifo)
