-- ===== src/BitChannel/Transmit.antt =====
-- The transmission of a whole file.
use mipt_informatics.Base.{
  ℕ, suc, ◌+◌, ◌*◌, ◌<◌, ◌≡◌, ◌∙◌, true, false, List, [], ◌∷◌, ◌++◌, arith, length,
}
use native.Mathlib.Nat.{zero-add}
use mathlib.Core.List.{append_assoc, append-nil}
use mipt_informatics.Base.Run.{done}
use mipt_informatics.BitChannel.{
  bitwise_init_rcv, bitwise_init_snd, Read, byte, failed, session, Outcome, transmit,
}
use mipt_informatics.BitChannel.Round.{receiver, idle, session-byte}

abbrev pub AreBytes : List ℕ → Type 0
AreBytes [] = Unit
AreBytes (b ∷ bs) = (b < 256) × AreBytes bs

-- the reads of a file
abbrev pub reads : List ℕ → List Read → List Read
reads [] end = end
reads (b ∷ bs) end = byte b ∷ reads bs end

abbrev outcome : List ℕ → Outcome
outcome output = record { output = output; rcv_errors = false; snd_errors = false }

session-reads :
    (bs out : List ℕ) (end : List Read) (fuel : ℕ)
    → AreBytes bs
    → session (8 * length bs + fuel) (receiver 1 out) (idle (reads bs end))
      ≡ session fuel (receiver 1 (out ++ bs)) (idle end)
session-reads [] out end fuel h = rw (zero-add, append-nil)
session-reads (b ∷ bs) out end fuel h =
    let count : 8 * length (b ∷ bs) + fuel
        ≡ suc (suc (suc (suc (suc (suc (suc (suc (8 * length bs + fuel)))))))) =
      omega arith in
    rw count (
      session-byte out (reads bs end) b h.0 (8 * length bs + fuel)
      ∙ rw (append_assoc out (b ∷ []) bs) at (session-reads bs (out ++ b ∷ []) end fuel h.1))

-- For a file of bytes, eight rounds for each byte and one more are enough: then the receiver has
-- written exactly the bytes of the file, and neither process reports an error.
pub transmit-reads :
    (bs : List ℕ)
    → AreBytes bs
    → transmit (8 * length bs + 1) (reads bs [])
      ≡ done (record { output = bs; rcv_errors = false; snd_errors = false })
unfolding transmit bitwise_init_rcv bitwise_init_snd
transmit-reads bs h = session-reads bs [] [] 1 h

-- Where the file stops being readable behind some bytes, eight rounds for each of them and one more
-- are enough: the receiver has written those bytes and
-- the sender reports an error.
pub transmit-failed :
    (bs : List ℕ) (more : List Read)
    → AreBytes bs
    → transmit (8 * length bs + 1) (reads bs (failed ∷ more))
      ≡ done (record { output = bs; rcv_errors = false; snd_errors = true })
unfolding transmit bitwise_init_rcv bitwise_init_snd
transmit-failed bs more h = session-reads bs [] (failed ∷ more) 1 h
