-- ===== src/SharedMemory/Theorems.antt =====
-- What the two programs promise, and where the receiver waits in vain.
use mipt_informatics.Base.{
  ℕ, suc, ◌+◌, ◌<◌, ◌≤◌, ◌≡◌, ◌⊎◌, refl, sym, ap, ◌∙◌, Bool, true, false, List, ◌++◌, if◌then◌else◌,
  arith,
}
use mipt_informatics.SharedMemory.{
  RcvState, rcv_ok, Sender, at_memory, checks_rcv, reads, filled, amounted, stated, passed,
  tests_eof, snd_fails, snd_die, snd_ended, snd_gone, at_data, rcv_ended, rcv_gone, System,
  snd_running, rcv_running, Step, Reach, here, next, start, snd_p, rcv_write, rcv_write_error,
}
use mathlib.Core.List.{append-nil}
use mipt_informatics.SharedMemory.Invariant.{guard, snd_has, rcv_has, IsTurned}
use mipt_informatics.SharedMemory.Flight.{IsTold, Step-IsTold, Step-whole}

start-IsTold : (amount : ℕ) (memory : ℕ → ℕ) (input : List ℕ) → IsTold (start amount memory input)
unfolding start
start-IsTold amount memory input = record {
  turned = record { baton = λ e. omega arith; enough = λ e. cc };
  early = λ e f. cc;
  free = λ e f. refl;
  clears = λ e. cc;
  writing = λ e. cc;
  told = λ e. cc;
  fills = tt;
  late = λ e. cc;
  clean = λ e f. refl;
  past = λ e. cc;
  ended = λ e. cc;
  at_end = λ e. cc;
}

Reach-IsTold : {s t : System} → IsTold s → Reach s t → IsTold t
Reach-IsTold v here = v
Reach-IsTold v (next r st) = Step-IsTold st (Reach-IsTold v r)

Reach-flow :
    {s t : System}
    → IsTold s
    → Reach s t
    → t.output ++ (t.flight ++ t.rest) ≡ s.output ++ (s.flight ++ s.rest)
Reach-flow v here = refl
Reach-flow v (next r st) = Step-whole st (Reach-IsTold v r) ∙ Reach-flow v r

-- From the state that the set-up leaves, whenever either process dies, the output followed by what
-- the sender has read and the receiver has not written and by the rest of the file is the file.
pub Reach-whole :
    (amount : ℕ) (memory : ℕ → ℕ) (input : List ℕ) {s : System}
    → Reach (start amount memory input) s
    → s.output ++ (s.flight ++ s.rest) ≡ input
unfolding start
Reach-whole amount memory input r = Reach-flow (start-IsTold amount memory input) r

-- When the receiver has returned 0, the output is the file, even if the sender has died since.
pub receiver_complete :
    (amount : ℕ) (memory : ℕ → ℕ) (input : List ℕ) {s : System}
    → Reach (start amount memory input) s
    → s.receiver ≡ rcv_ended
    → s.output ≡ input
receiver_complete amount memory input {s} r e =
    let v = Reach-IsTold (start-IsTold amount memory input) r in
    let (no_rest, no_flight) = v.at_end (v.ended e) in
    sym (append-nil s.output)
    ∙ (ap (λ l. s.output ++ l) (sym (rw (no_rest, no_flight) refl))
        ∙ Reach-whole amount memory input r)

-- The two processes are never both between taking the memory and giving it to the other.
pub Reach-one_holder :
    (amount : ℕ) (memory : ℕ → ℕ) (input : List ℕ) {s : System}
    → Reach (start amount memory input) s
    → snd_has s.sender + rcv_has s.receiver ≤ 1
Reach-one_holder amount memory input {s} r =
    exclusive_lem s (Reach-IsTold (start-IsTold amount memory input) r).turned
  where
    exclusive_lem : (u : System) → IsTurned u → snd_has u.sender + rcv_has u.receiver ≤ 1
    exclusive_lem u v = ground (arith, v.baton)

-- A sender whose receiver has ended, in any way and at any point, does not wait for MEMORY.
pub sender_awake :
    (amount : ℕ) (memory : ℕ → ℕ) (input : List ℕ) {s : System}
    → Reach (start amount memory input) s
    → rcv_running s.receiver ≡ false
    → s.sender ≡ at_memory
    → 0 < s.memory_sem
sender_awake amount memory input {s} r e p =
    awake_lem s (Reach-IsTold (start-IsTold amount memory input) r).turned e p
  where
    awake_lem :
        (u : System)
        → IsTurned u
        → rcv_running u.receiver ≡ false
        → u.sender ≡ at_memory
        → 0 < u.memory_sem
    awake_lem u v f q = ground (arith, v.enough)

-- The sender has ended, and the receiver waits for DATA or has been killed.
record IsStuck (s : System) : Type 0 where
  no_sender : snd_running s.sender ≡ false
  no_data : s.data_sem ≡ 0
  waits : (s.receiver ≡ at_data) ⊎ (s.receiver ≡ rcv_gone)

Step-IsStuck : {s t : System} → Step s t → IsStuck s → IsStuck t
Step-IsStuck {s} (snd_p p lt) v = ground (arith, v.waits)
Step-IsStuck st v = ground (arith, guard st, v.waits)

Step-output : {s t : System} → Step s t → IsStuck s → t.output ≡ s.output
Step-output {s} (rcv_write p) v = ground (arith, v.waits)
Step-output {s} (rcv_write_error k p le) v = ground (arith, v.waits)
Step-output other v = refl

Reach-IsStuck : {s t : System} → IsStuck s → Reach s t → IsStuck t × (t.output ≡ s.output)
Reach-IsStuck v here = (v, refl)
Reach-IsStuck v (next r st) =
    let (w, e) = Reach-IsStuck v r in (Step-IsStuck st w, Step-output st w ∙ e)

Step-gone :
    {s t : System}
    → IsTurned s
    → snd_has s.sender ≡ 1
    → rcv_running s.receiver ≡ true
    → Step s t
    → t.sender ≡ snd_gone
    → IsStuck t
Step-gone v has alive (snd_die a) gone = ground (arith, v.baton)
Step-gone v has alive st gone = ground (arith, guard st)

-- When the sender dies while it has the memory and the receiver runs, the receiver waits for DATA until it is
-- killed: no sequence of steps makes it end or write.
pub receiver_hangs :
    (amount : ℕ) (memory : ℕ → ℕ) (input : List ℕ) {s t u : System}
    → Reach (start amount memory input) s
    → snd_has s.sender ≡ 1
    → rcv_running s.receiver ≡ true
    → Step s t
    → t.sender ≡ snd_gone
    → Reach t u
    → ((u.receiver ≡ at_data) ⊎ (u.receiver ≡ rcv_gone)) × (u.output ≡ t.output)
receiver_hangs amount memory input r has alive st gone r' =
    let turned = (Reach-IsTold (start-IsTold amount memory input) r).turned in
    let (v, e) = Reach-IsStuck (Step-gone turned has alive st gone) r' in (v.waits, e)

abbrev is_ok : RcvState → Bool
is_ok rcv_ok = true
is_ok _ = false

-- the steps that are left to a sender whose receiver has ended
abbrev rank : Sender → Bool → ℕ
rank at_memory ok = if ok then 11 else 3
rank checks_rcv ok = if ok then 10 else 2
rank reads ok = 9
rank (filled _) ok = 8
rank amounted ok = 7
rank stated ok = 6
rank passed ok = if ok then 13 else 5
rank tests_eof ok = if ok then 12 else 4
rank snd_fails ok = 1
rank snd_ended ok = 0
rank snd_gone ok = 0

abbrev pub steps : {s t : System} → Reach s t → ℕ
steps here = 0
steps (next r st) = suc (steps r)

Step-rank :
    {s t : System}
    → Step s t
    → rcv_running s.receiver ≡ false
    → (rcv_running t.receiver ≡ false)
      × (rank t.sender (is_ok t.rcv_state) < rank s.sender (is_ok s.rcv_state))
Step-rank {s} (snd_p p lt) f = ground arith
Step-rank st f = ground (arith, guard st)

Reach-rank :
    {s t : System} (r : Reach s t)
    → rcv_running s.receiver ≡ false
    → (rcv_running t.receiver ≡ false)
      × (steps r + rank t.sender (is_ok t.rcv_state) ≤ rank s.sender (is_ok s.rcv_state))
Reach-rank here f = (f, omega arith)
Reach-rank (next r st) f =
    let (g, le) = Reach-rank r f in let (h, lt) = Step-rank st g in (h, omega arith)

rank_le : (c : Sender) (ok : Bool) → rank c ok ≤ 13
rank_le c ok = ground arith

-- When the receiver has ended, in any way and at any point, the sender takes at most 13 more steps.
pub sender_ends : (s t : System) (r : Reach s t) → rcv_running s.receiver ≡ false → steps r ≤ 13
sender_ends s t r f =
    let (_, le) = Reach-rank r f in omega (arith, rank_le s.sender (is_ok s.rcv_state))
