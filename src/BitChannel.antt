-- ===== src/BitChannel.antt =====
-- course2-1/seminar7/signal.c: a file is sent bit by bit as signals. The receiver asks for a bit
-- with SIGUSR1, and the sender answers SIGUSR1 for 0, SIGUSR2 for 1 and SIGTERM at the end. Each
-- process waits for the other, so that their steps alternate. The calls of `kill` and `sigwait` and
-- of the receiver's `write` are taken to succeed; a failing `read` is modelled.
pub mod Round
pub mod Transmit
pub mod Tests
use mipt_informatics.Base.{
  ℕ, zero, suc, ◌+◌, ◌*◌, ◌/◌, ◌%◌, Bool, true, false, not, ◌||◌, List, [], ◌∷◌, ◌++◌, Option, none,
  some, ◌==◌, if◌then◌else◌,
}
use mipt_informatics.Base.Run.{Run, done, fault, out_of_fuel, ◌>>=◌, ◌>>◌, assert}

-- `buffer & 0x80`, for a buffer of 8 bits
abbrev pub top_bit : ℕ → Bool
top_bit buffer = (buffer / 128) % 2 == 1

-- `buffer << 1`, for a buffer of 8 bits; the low bit is then 0, and `| 1` adds 1
abbrev pub shift_left : ℕ → ℕ
shift_left buffer = (buffer * 2) % 256

pub bitwise_init_rcv : ℕ
bitwise_init_rcv = 1

-- true stands for the result -1
pub bitwise_cleanup_rcv : ℕ → Bool
bitwise_cleanup_rcv buffer = not (buffer == 1)

-- the new buffer, and `*response_byte` where `*response_has_byte` is set
pub bitwise_push_lsb : ℕ → Bool → ℕ × Option ℕ
bitwise_push_lsb buffer bit =
    let buffer_full = top_bit buffer in
    let buffer' = shift_left buffer + (if bit then 1 else 0) in
    if buffer_full then (1, some buffer') else (buffer', none)

pub bitwise_init_snd : ℕ
bitwise_init_snd = 0x80

pub bitwise_cleanup_snd : ℕ → Bool
bitwise_cleanup_snd buffer = not (buffer == 0x80)

-- the bit, `*need_byte` and the new buffer
pub bitwise_pull : ℕ → Run (Bool × Bool × ℕ)
bitwise_pull buffer = do
  assert (not (buffer == 0x80))
  let buffer' = shift_left buffer
  done (top_bit buffer, (buffer' == 0x80), buffer')

pub bitwise_pull_next_byte : ℕ → ℕ → Run (Bool × ℕ)
bitwise_pull_next_byte buffer byte = do
  assert (buffer == 0x80)
  done (top_bit byte, shift_left byte + 1)

pub data Signal : Type 0 where
  sigusr1 sigusr2 sigterm : Signal

-- what `read (in_fd, &byte, 1)` gives; the list of the reads to come ends at the end of the file
pub data Read : Type 0 where
  byte : ℕ → Read
  failed : Read

-- the locals of `snd_main`
pub record Sender : Type 0 where
  pub buffer : ℕ
  pub need_byte : Bool
  pub input : List Read

-- A pass of the sender's loop goes on with a signal to the receiver, or leaves the loop.
pub data Reply : Type 0 where
  answer : Signal → Sender → Reply
  -- whether SIGTERM is sent, and `has_errors`
  leave : (kill_receiver has_errors : Bool) → Sender → Reply

abbrev pub bit_signal : Bool → Signal
bit_signal bit = if bit then sigusr2 else sigusr1

-- the branch of `case SIGUSR1` with `need_byte`
abbrev pub next_byte : List Read → Sender → Run Reply
next_byte [] s = done (leave true false s)
next_byte (failed ∷ input) s = done (leave true true (record s { input = input }))
next_byte (byte b ∷ input) s = do
  (bit, buffer) ← bitwise_pull_next_byte s.buffer b
  done (answer (bit_signal bit) (record { buffer = buffer; need_byte = false; input = input }))

-- one pass of the loop of `snd_main`; SIGUSR2 is not in the set of `sigwait`
pub snd_step : Sender → Signal → Run Reply
unfolding bitwise_pull bitwise_pull_next_byte
snd_step s sigterm = done (leave false true s)
snd_step s sigusr2 = fault
snd_step s sigusr1 = if s.need_byte then next_byte s.input s else (do
  (bit, need, buffer) ← bitwise_pull s.buffer
  done (answer (bit_signal bit) (record s { buffer = buffer; need_byte = need })))

-- the locals of `rcv_main`, and what it has written
pub record Receiver : Type 0 where
  pub buffer : ℕ
  pub output : List ℕ

abbrev pub write_byte : Receiver → ℕ × Option ℕ → Receiver
write_byte r (buffer, none) = record r { buffer = buffer }
write_byte r (buffer, some b) = record { buffer = buffer; output = r.output ++ b ∷ [] }

-- one pass of the loop of `rcv_main` behind `sigwait`; `none` is `goto out`
pub rcv_step : Receiver → Signal → Option Receiver
unfolding bitwise_push_lsb
rcv_step r sigusr1 = some (write_byte r (bitwise_push_lsb r.buffer false))
rcv_step r sigusr2 = some (write_byte r (bitwise_push_lsb r.buffer true))
rcv_step r sigterm = none

pub record Outcome : Type 0 where
  pub output : List ℕ
  pub rcv_errors : Bool
  pub snd_errors : Bool

-- behind the sender's loop
abbrev finish : Receiver → Bool → Bool → Sender → Run Outcome
finish r false errors s = fault
finish r true errors s = done (record {
  output = r.output;
  rcv_errors = false;
  snd_errors = errors || bitwise_cleanup_snd s.buffer;
})

-- The two loops together: in each round the receiver sends SIGUSR1 and the sender answers it.
pub session : ℕ → Receiver → Sender → Run Outcome
unfolding snd_step rcv_step bitwise_cleanup_snd
session zero r s = out_of_fuel
session (suc fuel) r s = do
  reply ← snd_step s sigusr1
  elim reply [
    | leave kill errors s' ↦ finish r kill errors s'
    | answer sig s' ↦ elim (rcv_step r sig) [ none ↦ fault | some r' ↦ session fuel r' s' ]
  ]

-- what both processes do with a file of the given bytes
pub transmit : ℕ → List Read → Run Outcome
unfolding session bitwise_init_rcv bitwise_init_snd
transmit fuel file =
    session fuel (record { buffer = bitwise_init_rcv; output = [] })
      (record { buffer = bitwise_init_snd; need_byte = true; input = file })
