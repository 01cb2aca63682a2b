-- ===== src/Mpmc/Tests.antt =====
-- A run of the program with one producer of one document, one consumer and a queue of one place.
use mipt_informatics.Base.{
  ℕ, zero, suc, ◌+◌, ◌<◌, ◌≤◌, ◌≡◌, refl, inl, true, false, none, some, [], ◌∷◌, ◌++◌, arith,
}
use mipt_informatics.Mpmc.{
  Document, Queue, insert, retrieve, Producer, sleeping, prepared, finished, Consumer, idle,
  scanning, exited, producer, consumer, System, set_producer, set_consumer, prepare, finish,
  lock_producer, insert_document, lock_consumer, exit_consumer, retrieve_document, scan, go_away,
  Step, Reach, here, next, start,
}
use mipt_informatics.Mpmc.Buffer.{contents, IsQueue}
use mipt_informatics.Mpmc.Invariant.Release.{mutex_released}
use mipt_informatics.Mpmc.Invariant.{Reach-fifo}
use mipt_informatics.Mpmc.Invariant.Order.{own, document, first_documents}
use mipt_informatics.Mpmc.Invariant.Exit.{Reach-complete}

abbrev cells : ℕ → Document
cells i = document 9 9

abbrev first : Document
first = document 0 0

abbrev stage_0 : System
stage_0 = start cells 1 1 1

abbrev stage_1 : System
stage_1 = record stage_0 { producers = set_producer stage_0 0 (prepared first (0 + 1)) }

abbrev stage_2 : System
stage_2 = record stage_1 {
  holder = some (producer 0);
  producers = set_producer stage_1 0 (Producer.locked first 1);
}

abbrev stage_3 : System
stage_3 = record stage_2 {
  q = insert first stage_2.q;
  holder = none;
  producers = set_producer stage_2 0 (sleeping 1);
  inserted = stage_2.inserted ++ first ∷ [];
}

abbrev stage_4 : System
stage_4 = record stage_3 { producers = set_producer stage_3 0 finished }

abbrev stage_5 : System
stage_5 = record stage_4 {
  holder = some (consumer 0);
  consumers = set_consumer stage_4 0 Consumer.locked;
}

abbrev stage_6 : System
stage_6 = record stage_5 {
  q = (retrieve stage_5.q).1;
  holder = none;
  consumers = set_consumer stage_5 0 (scanning (retrieve stage_5.q).0);
  retrieved = stage_5.retrieved ++ (retrieve stage_5.q).0 ∷ [];
}

abbrev stage_7 : System
stage_7 = record stage_6 {
  consumers = set_consumer stage_6 0 idle;
  scanned = first ∷ stage_6.scanned;
}

abbrev stage_8 : System
stage_8 = record stage_7 { q = record (stage_7.q) { queue_going_away = true } }

abbrev stage_9 : System
stage_9 = record stage_8 {
  holder = some (consumer 0);
  consumers = set_consumer stage_8 0 Consumer.locked;
}

abbrev stage_10 : System
stage_10 = record stage_9 { holder = none; consumers = set_consumer stage_9 0 exited }

to_stage_2 : Reach 1 1 (start cells 1 1 1) stage_2
unfolding start
to_stage_2 =
    next (next here (prepare 0 0 refl (omega arith))) (lock_producer 0 1 first (inl refl) refl)

to_stage_3 : Reach 1 1 (start cells 1 1 1) stage_3
unfolding start
to_stage_3 = next to_stage_2 (insert_document 0 1 first refl (omega arith))

only_producer : (i : ℕ) → i < 1 → stage_7.producers i ≡ finished
unfolding start
only_producer zero h = refl
only_producer (suc i) h = absurd (omega arith)

to_stage_7 : Reach 1 1 (start cells 1 1 1) stage_7
unfolding start insert retrieve
to_stage_7 =
    next
      (next
        (next (next to_stage_3 (finish 0 1 refl (omega arith))) (lock_consumer 0 (inl refl) refl))
        (retrieve_document 0 refl (omega arith)))
      (scan 0 first refl)

to_stage_10 : Reach 1 1 (start cells 1 1 1) stage_10
unfolding start insert retrieve
to_stage_10 =
    next (next (next to_stage_7 (go_away only_producer refl)) (lock_consumer 0 (inl refl) refl))
      (exit_consumer 0 refl (omega arith) refl)

consumer-exited : stage_10.consumers 0 ≡ exited
consumer-exited = refl

Reach-complete_example :
    (stage_10.q.queue_used ≡ 0) × ((i : ℕ) → i < 1 → own i stage_10.retrieved ≡ first_documents i 1)
Reach-complete_example = Reach-complete cells 1 1 1 1 to_stage_10 0 (omega arith) consumer-exited

Reach-fifo_example :
    (stage_3.q.queue_used ≤ stage_3.q.queue_size)
    × (stage_3.inserted ≡ stage_3.retrieved ++ contents stage_3.q)
Reach-fifo_example = Reach-fifo cells 1 1 1 1 to_stage_3

mutex_released_example : (t : System) × Step 1 1 stage_2 t × (t.holder ≡ none)
mutex_released_example = mutex_released cells 1 1 1 1 (producer 0) to_stage_2 refl

-- a queue of two places of which one is taken, the last one
abbrev half_full : Queue
half_full = record {
  queue = cells;
  queue_head = 1;
  queue_tail = 0;
  queue_size = 2;
  queue_used = 1;
  queue_going_away = false;
}

half_full-IsQueue : IsQueue half_full
half_full-IsQueue = record { bound = omega arith; head = λ h. omega arith; tail = refl }
