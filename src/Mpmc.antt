-- ===== src/Mpmc.antt =====
-- course2-1/__non_canonical/For575/mpmc/mpmc.c: several producers and consumers over a circular
-- buffer, as a step relation. A step of a thread runs from one point where others may interleave to
-- the next; what it does under `queue_mutex` up to the unlocking or the waiting is one step. A
-- thread that waits on a condition variable may wake whenever the mutex is free, as POSIX allows,
-- and tests its condition again; so the relation needs no signals. The calls of the library
-- are taken to succeed, except that `nanosleep` may be interrupted.
pub mod Buffer
pub mod Invariant
pub mod Tests
use mipt_informatics.Base.{
  ℕ, zero, suc, ◌+◌, ◌-◌, ◌<◌, ◌≤◌, ◌≡◌, ◌⊎◌, Bool, true, false, List, [], ◌∷◌, ◌++◌, Option, none,
  some, ltb, ◌==◌, if◌then◌else◌,
}

pub record Document : Type 0 where
  pub prod_id : ℕ
  pub doc_id : ℕ

-- The globals; the pointers `queue_head` and `queue_tail` are indices of the array `queue`.
pub record Queue : Type 0 where
  pub queue : ℕ → Document
  pub queue_head : ℕ
  pub queue_tail : ℕ
  pub queue_size : ℕ
  pub queue_used : ℕ
  pub queue_going_away : Bool

-- the new value of the pointer that `queue_get_and_advance` moves
pub advance : ℕ → ℕ → ℕ
advance size ptr = if ltb (ptr + 1) size then ptr + 1 else 0

-- `*queue_get_and_advance (&queue_tail) = doc; ++queue_used;`
pub insert : Document → Queue → Queue
unfolding advance
insert doc q = record q {
  queue = λ i. if i == q.queue_tail then doc else q.queue i;
  queue_tail = advance q.queue_size q.queue_tail;
  queue_used = q.queue_used + 1;
}

-- `struct document doc = *queue_get_and_advance (&queue_head); --queue_used;`
pub retrieve : Queue → Document × Queue
unfolding advance
retrieve q = (
  q.queue q.queue_head,
  record q { queue_head = advance q.queue_size q.queue_head; queue_used = q.queue_used - 1 },
)

-- Where a producer stands, with its `doc_counter`, and the document that it has prepared.
pub data Producer : Type 0 where
  sleeping : ℕ → Producer
  prepared : Document → ℕ → Producer
  locked : Document → ℕ → Producer
  waiting : Document → ℕ → Producer
  finished : Producer

pub data Consumer : Type 0 where
  idle : Consumer
  locked : Consumer
  waiting : Consumer
  scanning : Document → Consumer
  exited : Consumer

pub data Thread : Type 0 where
  producer : ℕ → Thread
  consumer : ℕ → Thread

-- The whole program. `inserted`, `retrieved`, `scanned` and `lost` record what has happened: the
-- documents that went into and out of the queue, in order, and those that a consumer printed or
-- dropped, the latest first.
pub record System : Type 0 where
  pub q : Queue
  pub holder : Option Thread
  pub producers : ℕ → Producer
  pub consumers : ℕ → Consumer
  pub inserted : List Document
  pub retrieved : List Document
  pub scanned : List Document
  pub lost : List Document

abbrev pub set_producer : System → ℕ → Producer → ℕ → Producer
set_producer s i p j = if j == i then p else s.producers j

abbrev pub set_consumer : System → ℕ → Consumer → ℕ → Consumer
set_consumer s i c j = if j == i then c else s.consumers j

-- the program with `prod_nr` producers of `amount` documents each
module _ (prod_nr amount : ℕ) where
  pub data Step (s : System) : System → Type 0 where
    -- `producer_main`: the sleep and the next document, or the end of the loop
    prepare :
        (i c : ℕ)
        → s.producers i ≡ sleeping c
        → c < amount
        → Step s (record s {
          producers = set_producer s i (prepared (record { prod_id = i; doc_id = c }) (c + 1));
        })
    finish :
        (i c : ℕ)
        → s.producers i ≡ sleeping c
        → amount ≤ c
        → Step s (record s { producers = set_producer s i finished })
    lock_producer :
        (i c : ℕ) (d : Document)
        → (s.producers i ≡ prepared d c) ⊎ (s.producers i ≡ waiting d c)
        → s.holder ≡ none
        → Step s (record s {
          holder = some (producer i);
          producers = set_producer s i (Producer.locked d c);
        })
    -- `while (queue_used >= queue_size)`
    wait_producer :
        (i c : ℕ) (d : Document)
        → s.producers i ≡ Producer.locked d c
        → s.q.queue_size ≤ s.q.queue_used
        → Step s (record s { holder = none; producers = set_producer s i (Producer.waiting d c) })
    insert_document :
        (i c : ℕ) (d : Document)
        → s.producers i ≡ Producer.locked d c
        → s.q.queue_used < s.q.queue_size
        → Step s (record s {
          q = insert d s.q;
          holder = none;
          producers = set_producer s i (sleeping c);
          inserted = s.inserted ++ d ∷ [];
        })
    -- `consumer_main`
    lock_consumer :
        (i : ℕ)
        → (s.consumers i ≡ idle) ⊎ (s.consumers i ≡ Consumer.waiting)
        → s.holder ≡ none
        → Step s
            (record s { holder = some (consumer i); consumers = set_consumer s i Consumer.locked })
    -- `while (queue_used < 1)`, where the queue stays
    wait_consumer :
        (i : ℕ)
        → s.consumers i ≡ Consumer.locked
        → s.q.queue_used < 1
        → s.q.queue_going_away ≡ false
        → Step s (record s { holder = none; consumers = set_consumer s i Consumer.waiting })
    exit_consumer :
        (i : ℕ)
        → s.consumers i ≡ Consumer.locked
        → s.q.queue_used < 1
        → s.q.queue_going_away ≡ true
        → Step s (record s { holder = none; consumers = set_consumer s i exited })
    retrieve_document :
        (i : ℕ)
        → s.consumers i ≡ Consumer.locked
        → 1 ≤ s.q.queue_used
        → Step s (record s {
          q = (retrieve s.q).1;
          holder = none;
          consumers = set_consumer s i (scanning (retrieve s.q).0);
          retrieved = s.retrieved ++ (retrieve s.q).0 ∷ [];
        })
    -- the sleep ends, and the document is printed
    scan :
        (i : ℕ) (d : Document)
        → s.consumers i ≡ scanning d
        → Step s (record s { consumers = set_consumer s i idle; scanned = d ∷ s.scanned })
    -- the sleep is interrupted: `continue`
    interrupt :
        (i : ℕ) (d : Document)
        → s.consumers i ≡ scanning d
        → Step s (record s { consumers = set_consumer s i idle; lost = d ∷ s.lost })
    -- `main` has joined the producers
    go_away :
        ((i : ℕ) → i < prod_nr → s.producers i ≡ finished)
        → s.holder ≡ none
        → Step s (record s { q = record (s.q) { queue_going_away = true } })

  pub data Reach (s : System) : System → Type 0 where
    here : Reach s s
    next : {t u : System} → Reach s t → Step t u → Reach s u

-- what `main` sets up
pub start : (cells : ℕ → Document) → (queue_size prod_nr cons_nr : ℕ) → System
start cells size prod_nr cons_nr = record {
  q = record {
    queue = cells;
    queue_head = 0;
    queue_tail = 0;
    queue_size = size;
    queue_used = 0;
    queue_going_away = false;
  };
  holder = none;
  producers = λ i. if ltb i prod_nr then sleeping 0 else finished;
  consumers = λ i. if ltb i cons_nr then idle else exited;
  inserted = [];
  retrieved = [];
  scanned = [];
  lost = [];
}
