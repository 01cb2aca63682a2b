-- ===== src/SharedMemory/Invariant.antt =====
-- Who has the memory, and what it holds.
use mipt_informatics.Base.{ℕ, ◌+◌, ◌≤◌, ◌<◌, ◌≡◌, ◌≢◌, [], ◌++◌, Bool, true, false, arith}
use mipt_informatics.SharedMemory.{
  RcvState, snd_ok, snd_eof, snd_running, rcv_ok, Sender, at_memory, checks_rcv, reads, filled,
  amounted, stated, passed, tests_eof, snd_fails, Receiver, at_data, checks_snd, writes, written,
  acked, cleared, rcv_fails, System, rcv_running, Step, snd_p, snd_check_ok, snd_check_bad,
  snd_read, snd_read_eof, snd_read_error, snd_amount, snd_store, snd_pass, snd_v, snd_last,
  snd_again, snd_die, rcv_p, rcv_check_ok, rcv_check_eof, rcv_check_bad, rcv_write, rcv_write_error,
  rcv_ack, rcv_clear, rcv_v, rcv_die,
}

-- between taking MEMORY and giving DATA, and between taking DATA and giving MEMORY
abbrev pub snd_has : Sender → ℕ
snd_has checks_rcv = 1
snd_has reads = 1
snd_has (filled _) = 1
snd_has amounted = 1
snd_has stated = 1
snd_has passed = 1
snd_has snd_fails = 1
snd_has _ = 0

abbrev pub rcv_has : Receiver → ℕ
rcv_has checks_snd = 1
rcv_has writes = 1
rcv_has written = 1
rcv_has acked = 1
rcv_has cleared = 1
rcv_has rcv_fails = 1
rcv_has _ = 0

-- before the sender stores its state
abbrev pub is_early : Sender → Bool
is_early checks_rcv = true
is_early reads = true
is_early (filled _) = true
is_early amounted = true
is_early _ = false

-- The receiver has written the chunk, and has not given the memory back.
abbrev pub is_late : Receiver → Bool
is_late written = true
is_late acked = true
is_late cleared = true
is_late _ = false

-- The sender has no chunk in the memory that it has not told of.
abbrev pub is_clean : Sender → Bool
is_clean at_memory = true
is_clean checks_rcv = true
is_clean reads = true
is_clean passed = true
is_clean tests_eof = true
is_clean _ = false

-- The receiver may still write what is in the memory.
abbrev pub is_waiting : Receiver → Bool
is_waiting at_data = true
is_waiting checks_snd = true
is_waiting writes = true
is_waiting _ = false

-- what MEMORY must have for a sender whose receiver has ended
abbrev pub ok_count : RcvState → ℕ
ok_count rcv_ok = 1
ok_count _ = 0

abbrev pub needed : Sender → RcvState → ℕ
needed at_memory r = 1 + ok_count r
needed checks_rcv r = ok_count r
needed reads r = 1
needed (filled _) r = 1
needed amounted r = 1
needed stated r = 1
needed passed r = 1 + ok_count r
needed tests_eof r = 1 + ok_count r
needed _ r = 0

-- The memory is with one of the semaphores or one of the processes; how many of the four say so.
abbrev pub holders : System → ℕ
holders s = s.memory_sem + snd_has s.sender + s.data_sem + rcv_has s.receiver

abbrev Baton : System → Type 0
Baton s = rcv_running s.receiver ≡ true → holders s ≤ 1

pub record IsTurned (s : System) : Type 0 where
  pub baton : Baton s
  pub enough : rcv_running s.receiver ≡ false → needed s.sender s.rcv_state ≤ s.memory_sem

-- the premises of a step, for the clauses that take all steps at once
abbrev pub Guard : {s t : System} → Step s t → Type 0
Guard {s} (snd_p _ _) = (s.sender ≡ at_memory) × (0 < s.memory_sem)
Guard {s} (snd_check_ok _ _) = (s.sender ≡ checks_rcv) × (s.rcv_state ≡ rcv_ok)
Guard {s} (snd_check_bad _ _) = (s.sender ≡ checks_rcv) × (s.rcv_state ≢ rcv_ok)
Guard {s} (snd_read chunk left _ _ _ _) =
    (s.sender ≡ reads) × (s.rest ≡ chunk ++ left) × (chunk ≢ [])
Guard {s} (snd_read_eof _ _) = (s.sender ≡ reads) × (s.rest ≡ [])
Guard {s} (snd_read_error _) = s.sender ≡ reads
Guard {s} (snd_amount k _) = s.sender ≡ filled k
Guard {s} (snd_store _) = s.sender ≡ amounted
Guard {s} (snd_pass _) = s.sender ≡ stated
Guard {s} (snd_v _) = s.sender ≡ passed
Guard {s} (snd_last _ _) = (s.sender ≡ tests_eof) × (s.snd_state ≡ snd_eof)
Guard {s} (snd_again _ _) = (s.sender ≡ tests_eof) × (s.snd_state ≢ snd_eof)
Guard {s} (snd_die _) = snd_running s.sender ≡ true
Guard {s} (rcv_p _ _) = (s.receiver ≡ at_data) × (0 < s.data_sem)
Guard {s} (rcv_check_ok _ _) = (s.receiver ≡ checks_snd) × (s.snd_state ≡ snd_ok)
Guard {s} (rcv_check_eof _ _) = (s.receiver ≡ checks_snd) × (s.snd_state ≡ snd_eof)
Guard {s} (rcv_check_bad _ _ _) =
    (s.receiver ≡ checks_snd) × (s.snd_state ≢ snd_ok) × (s.snd_state ≢ snd_eof)
Guard {s} (rcv_write _) = s.receiver ≡ writes
Guard {s} (rcv_write_error k _ _) = (s.receiver ≡ writes) × (k ≤ s.data_amount)
Guard {s} (rcv_ack _) = s.receiver ≡ written
Guard {s} (rcv_clear _) = s.receiver ≡ acked
Guard {s} (rcv_v _) = s.receiver ≡ cleared
Guard {s} (rcv_die _) = rcv_running s.receiver ≡ true

pub guard : {s t : System} (st : Step s t) → Guard st
guard (snd_p p q) = (p, q)
guard (snd_check_ok p q) = (p, q)
guard (snd_check_bad p q) = (p, q)
guard (snd_read chunk left p q r le) = (p, q, r)
guard (snd_read_eof p q) = (p, q)
guard (snd_read_error p) = p
guard (snd_amount k p) = p
guard (snd_store p) = p
guard (snd_pass p) = p
guard (snd_v p) = p
guard (snd_last p q) = (p, q)
guard (snd_again p q) = (p, q)
guard (snd_die p) = p
guard (rcv_p p q) = (p, q)
guard (rcv_check_ok p q) = (p, q)
guard (rcv_check_eof p q) = (p, q)
guard (rcv_check_bad p q r) = (p, q, r)
guard (rcv_write p) = p
guard (rcv_write_error k p q) = (p, q)
guard (rcv_ack p) = p
guard (rcv_clear p) = p
guard (rcv_v p) = p
guard (rcv_die p) = p

Step-Baton : {s t : System} → Step s t → IsTurned s → Baton t
Step-Baton {s} (snd_p p lt) v = ground arith
Step-Baton st v = ground (arith, guard st)

Step-enough :
    {s t : System}
    → Step s t
    → IsTurned s
    → (rcv_running t.receiver ≡ false → needed t.sender t.rcv_state ≤ t.memory_sem)
Step-enough {s} (snd_p p lt) v = ground arith
Step-enough st v = ground (arith, guard st)

-- The start has it, and every step keeps it.
pub Step-IsTurned : {s t : System} → Step s t → IsTurned s → IsTurned t
Step-IsTurned st v = record { baton = Step-Baton st v; enough = Step-enough st v }
