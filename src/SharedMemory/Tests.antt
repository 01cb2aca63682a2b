-- ===== src/SharedMemory/Tests.antt =====
-- A file of one byte from end to end, and the two deaths: of the receiver, after which the sender goes
-- on to its end, and of the sender, after which the receiver waits for ever.
use mipt_informatics.Base.{ℕ, ◌+◌, ◌<◌, ◌≤◌, ◌≡◌, ◌≢◌, ◌⊎◌, refl, List, [], ◌∷◌, ◌++◌, arith}
use mipt_informatics.Multiplexer.Actions.{slice, fill}
use mipt_informatics.SharedMemory.{
  snd_not_done, snd_ok, snd_eof, at_data, rcv_gone, snd_gone, System, Step, Reach, here, next,
  start, snd_p, snd_check_ok, snd_read, snd_read_eof, snd_amount, snd_store, snd_pass, snd_v,
  snd_again, snd_die, rcv_p, rcv_check_ok, rcv_check_eof, rcv_write, rcv_ack, rcv_clear, rcv_v,
  rcv_die,
}
use mipt_informatics.SharedMemory.Invariant.{snd_has, rcv_has}
use mipt_informatics.SharedMemory.Theorems.{
  Reach-whole, receiver_complete, Reach-one_holder, sender_awake, receiver_hangs, steps,
  sender_ends,
}

cons-ne-nil : ◌≢◌ {A = List ℕ} (7 ∷ []) []
cons-ne-nil e = cc

abbrev begins : System
unfolding start
begins = start 0 (λ i. 0) (7 ∷ [])

infixl 20 ◌▸◌
◌▸◌ : {s t u : System} → Reach s t → Step t u → Reach s u
r ▸ st = next r st

abbrev Run : Type 0
Run = (s : System) × Reach begins s

-- the sender has read the byte, and has given the memory to the receiver
abbrev chunk_sent : Run
unfolding start slice fill
chunk_sent = (
  _,
  here
      ▸ snd_p refl (omega arith)
      ▸ snd_check_ok refl refl
      ▸ snd_read (7 ∷ []) [] refl refl cons-ne-nil (omega arith)
      ▸ snd_amount 1 refl
      ▸ snd_store refl
      ▸ snd_pass refl
      ▸ snd_v refl,
)

abbrev chunk_written : Run
unfolding start slice fill
chunk_written = (
  _,
  chunk_sent.1 ▸ rcv_p refl (omega arith) ▸ rcv_check_ok refl refl ▸ rcv_write refl ▸ rcv_ack refl,
)

ok-ne-eof : snd_ok ≢ snd_eof
ok-ne-eof e = cc

not_done-ne-eof : snd_not_done ≢ snd_eof
not_done-ne-eof e = cc

abbrev completed : Run
unfolding start slice fill
completed = (
  _,
  chunk_written.1
      ▸ rcv_clear refl
      ▸ rcv_v refl
      ▸ snd_again refl not_done-ne-eof
      ▸ snd_p refl (omega arith)
      ▸ snd_check_ok refl refl
      ▸ snd_read_eof refl refl
      ▸ snd_pass refl
      ▸ snd_v refl
      ▸ rcv_p refl (omega arith)
      ▸ rcv_check_eof refl refl,
)

receiver_complete_example : completed.0.output ≡ 7 ∷ []
unfolding start slice fill
receiver_complete_example = receiver_complete 0 (λ i. 0) (7 ∷ []) completed.1 refl

Reach-whole_example : chunk_sent.0.output ++ (chunk_sent.0.flight ++ chunk_sent.0.rest) ≡ 7 ∷ []
unfolding start slice fill
Reach-whole_example = Reach-whole 0 (λ i. 0) (7 ∷ []) chunk_sent.1

Reach-one_holder_example : snd_has chunk_written.0.sender + rcv_has chunk_written.0.receiver ≤ 1
unfolding start slice fill
Reach-one_holder_example = Reach-one_holder 0 (λ i. 0) (7 ∷ []) chunk_written.1

-- The receiver dies when it has written the chunk.
abbrev receiver_dead : Run
unfolding start slice fill
receiver_dead = (_, chunk_written.1 ▸ rcv_die refl ▸ snd_again refl ok-ne-eof)

sender_awake_example : 0 < receiver_dead.0.memory_sem
unfolding start slice fill
sender_awake_example = sender_awake 0 (λ i. 0) (7 ∷ []) receiver_dead.1 refl refl

abbrev two_steps : (t : System) × Reach receiver_dead.0 t
unfolding start slice fill
two_steps = (_, here ▸ snd_p refl (omega arith) ▸ snd_check_ok refl refl)

sender_ends_example : steps two_steps.1 ≤ 13
unfolding start slice fill
sender_ends_example = sender_ends receiver_dead.0 two_steps.0 two_steps.1 refl

-- The sender takes the memory and dies.
abbrev sender_took : Run
unfolding start
sender_took = (_, here ▸ snd_p refl (omega arith))

abbrev sender_dead : System
sender_dead = record sender_took.0 { sender = snd_gone }

receiver_hangs_example :
    ((sender_dead.receiver ≡ at_data) ⊎ (sender_dead.receiver ≡ rcv_gone))
    × (sender_dead.output ≡ sender_dead.output)
unfolding start
receiver_hangs_example =
    receiver_hangs 0 (λ i. 0) (7 ∷ []) {t = sender_dead} sender_took.1 refl refl (snd_die refl) refl
      here
