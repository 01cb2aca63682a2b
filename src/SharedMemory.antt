-- ===== src/SharedMemory.antt =====
-- course2-1/seminar6: sender.c reads a file chunk by chunk into shared memory, receiver.c writes each
-- chunk out, and two semaphores pass the memory to and fro. A step is one access to the shared memory
-- or one call of one of the two processes, which may also die before any of their steps. The
-- states are those after both have done their set-up. In it the receiver arranges that its end adds
-- 2 to MEMORY; the sender's call asks semop_many for one operation, so that the second one, which
-- would add 2 to DATA at its end, is not done.
pub mod Invariant
pub mod Flight
pub mod Theorems
pub mod Tests
use mipt_informatics.Base.{
  ℕ, zero, suc, ◌+◌, ◌-◌, ◌<◌, ◌≤◌, ◌≡◌, ◌≢◌, Bool, true, false, List, [], ◌∷◌, ◌++◌, length, drop,
}
use mipt_informatics.Multiplexer.Actions.{slice, fill}

-- `DATA_MAX`, with the 24 bytes of `struct shared_memory` on a machine with words of 8 bytes
abbrev pub data_max : ℕ
data_max = 24 - 1

pub data RcvState : Type 0 where
  rcv_not_done : RcvState
  rcv_ok : RcvState
  rcv_ioerror : RcvState

pub data SndState : Type 0 where
  snd_not_done : SndState
  snd_ok : SndState
  snd_eof : SndState
  snd_ioerror : SndState

-- The sender: before `semop` on MEMORY, before the `switch`, before `read`, before each of the three
-- assignments, before `semop` on DATA, before the last test; before its `die_ret`, and after its
-- end by `return 0` or by any other way.
pub data Sender : Type 0 where
  at_memory : Sender
  checks_rcv : Sender
  reads : Sender
  filled : ℕ → Sender
  amounted : Sender
  stated : Sender
  passed : Sender
  tests_eof : Sender
  snd_fails : Sender
  snd_ended : Sender
  snd_gone : Sender

-- The receiver: before `semop` on DATA, before the `switch`, before `write`, before each of the two
-- assignments, before `semop` on MEMORY; before its `die_ret`, and after its end.
pub data Receiver : Type 0 where
  at_data : Receiver
  checks_snd : Receiver
  writes : Receiver
  written : Receiver
  acked : Receiver
  cleared : Receiver
  rcv_fails : Receiver
  rcv_ended : Receiver
  rcv_gone : Receiver

-- The processes, `struct shared_memory`, the two semaphores and the two files. `flight` records
-- what the sender has read and the receiver has not written.
pub record System : Type 0 where
  pub rest : List ℕ
  pub rcv_state : RcvState
  pub snd_state : SndState
  pub data_amount : ℕ
  pub bytes : ℕ → ℕ
  pub memory_sem : ℕ
  pub data_sem : ℕ
  pub output : List ℕ
  pub flight : List ℕ
  pub sender : Sender
  pub receiver : Receiver

abbrev pub snd_running : Sender → Bool
snd_running snd_ended = false
snd_running snd_gone = false
snd_running _ = true

abbrev pub rcv_running : Receiver → Bool
rcv_running rcv_ended = false
rcv_running rcv_gone = false
rcv_running _ = true

pub data Step (s : System) : System → Type 0 where
  snd_p :
      s.sender ≡ at_memory
      → 0 < s.memory_sem
      → Step s (record s { memory_sem = s.memory_sem - 1; sender = checks_rcv })
  snd_check_ok : s.sender ≡ checks_rcv → s.rcv_state ≡ rcv_ok → Step s (record s { sender = reads })
  snd_check_bad :
      s.sender ≡ checks_rcv → s.rcv_state ≢ rcv_ok → Step s (record s { sender = snd_fails })
  snd_read :
      (chunk left : List ℕ)
      → s.sender ≡ reads
      → s.rest ≡ chunk ++ left
      → chunk ≢ []
      → length chunk ≤ data_max
      → Step s (record s {
        rest = left;
        bytes = fill chunk s.bytes;
        flight = s.flight ++ chunk;
        sender = filled (length chunk);
      })
  snd_read_eof :
      s.sender ≡ reads → s.rest ≡ [] → Step s (record s { snd_state = snd_eof; sender = stated })
  snd_read_error :
      s.sender ≡ reads → Step s (record s { snd_state = snd_ioerror; sender = snd_fails })
  snd_amount :
      (k : ℕ) → s.sender ≡ filled k → Step s (record s { data_amount = k; sender = amounted })
  snd_store : s.sender ≡ amounted → Step s (record s { snd_state = snd_ok; sender = stated })
  snd_pass : s.sender ≡ stated → Step s (record s { rcv_state = rcv_not_done; sender = passed })
  snd_v : s.sender ≡ passed → Step s (record s { data_sem = s.data_sem + 1; sender = tests_eof })
  snd_last : s.sender ≡ tests_eof → s.snd_state ≡ snd_eof → Step s (record s { sender = snd_ended })
  snd_again :
      s.sender ≡ tests_eof → s.snd_state ≢ snd_eof → Step s (record s { sender = at_memory })
  snd_die : snd_running s.sender ≡ true → Step s (record s { sender = snd_gone })
  rcv_p :
      s.receiver ≡ at_data
      → 0 < s.data_sem
      → Step s (record s { data_sem = s.data_sem - 1; receiver = checks_snd })
  rcv_check_ok :
      s.receiver ≡ checks_snd → s.snd_state ≡ snd_ok → Step s (record s { receiver = writes })
  rcv_check_eof :
      s.receiver ≡ checks_snd
      → s.snd_state ≡ snd_eof
      → Step s (record s { memory_sem = s.memory_sem + 2; receiver = rcv_ended })
  rcv_check_bad :
      s.receiver ≡ checks_snd
      → s.snd_state ≢ snd_ok
      → s.snd_state ≢ snd_eof
      → Step s (record s { receiver = rcv_fails })
  rcv_write :
      s.receiver ≡ writes
      → Step s (record s {
        output = s.output ++ slice s.bytes 0 s.data_amount;
        flight = drop s.data_amount s.flight;
        receiver = written;
      })
  -- an error, or a short write of `k` bytes
  rcv_write_error :
      (k : ℕ)
      → s.receiver ≡ writes
      → k ≤ s.data_amount
      → Step s (record s {
        output = s.output ++ slice s.bytes 0 k;
        flight = drop k s.flight;
        rcv_state = rcv_ioerror;
        receiver = rcv_fails;
      })
  rcv_ack : s.receiver ≡ written → Step s (record s { rcv_state = rcv_ok; receiver = acked })
  rcv_clear :
      s.receiver ≡ acked → Step s (record s { snd_state = snd_not_done; receiver = cleared })
  rcv_v :
      s.receiver ≡ cleared → Step s (record s { memory_sem = s.memory_sem + 1; receiver = at_data })
  rcv_die :
      rcv_running s.receiver ≡ true
      → Step s (record s { memory_sem = s.memory_sem + 2; receiver = rcv_gone })

pub data Reach (s : System) : System → Type 0 where
  here : Reach s s
  next : {t u : System} → Reach s t → Step t u → Reach s u

-- what the set-up of the two programs leaves
unfoldable pub start : ℕ → (ℕ → ℕ) → List ℕ → System
start amount memory input = record {
  rest = input;
  rcv_state = rcv_ok;
  snd_state = snd_not_done;
  data_amount = amount;
  bytes = memory;
  memory_sem = 1;
  data_sem = 0;
  output = [];
  flight = [];
  sender = at_memory;
  receiver = at_data;
}
