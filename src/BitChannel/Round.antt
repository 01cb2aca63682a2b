-- ===== src/BitChannel/Round.antt =====
-- The eight rounds that carry one byte from the sender to the receiver.
use mipt_informatics.Base.{
  ℕ, suc, ◌+◌, ◌*◌, ◌/◌, ◌%◌, ◌<◌, ◌≡◌, refl, ◌∙◌, true, false, List, ◌∷◌, [], ◌++◌, arith, ◌==◌,
  if◌then◌else◌,
}
use mipt_informatics.BitChannel.{
  top_bit, shift_left, bitwise_push_lsb, bitwise_pull, bitwise_pull_next_byte, Read, byte, Sender,
  Receiver, session,
}

abbrev pub receiver : ℕ → List ℕ → Receiver
receiver buffer output = record { buffer = buffer; output = output }

abbrev pub sending : ℕ → List Read → Sender
sending buffer input = record { buffer = buffer; need_byte = false; input = input }

abbrev pub idle : List Read → Sender
idle input = record { buffer = 128; need_byte = true; input = input }

-- the bit that a buffer sends next, as a number
abbrev bit_of : ℕ → ℕ
bit_of buffer = if top_bit buffer then 1 else 0

module _ (fuel : ℕ) (out : List ℕ) (rest : List Read) where
  round_first :
      (b r s : ℕ)
      → r ≡ 2 + bit_of b
      → s ≡ shift_left b + 1
      → session (suc fuel) (receiver 1 out) (idle (byte b ∷ rest))
        ≡ session fuel (receiver r out) (sending s rest)
  unfolding session bitwise_push_lsb bitwise_pull_next_byte
  round_first b r s er es = ground arith

  round_next :
      (r s r' s' : ℕ)
      → (s == 128) ≡ false
      → (s' == 128) ≡ false
      → top_bit r ≡ false
      → s' ≡ shift_left s
      → r' ≡ shift_left r + bit_of s
      → session (suc fuel) (receiver r out) (sending s rest)
        ≡ session fuel (receiver r' out) (sending s' rest)
  unfolding session bitwise_push_lsb bitwise_pull
  round_next r s r' s' ns ns' tr es er = ground arith

  round_last :
      (r s b : ℕ)
      → (s == 128) ≡ false
      → shift_left s ≡ 128
      → top_bit r ≡ true
      → b ≡ shift_left r + bit_of s
      → session (suc fuel) (receiver r out) (sending s rest)
        ≡ session fuel (receiver 1 (out ++ b ∷ [])) (idle rest)
  unfolding session bitwise_push_lsb bitwise_pull
  round_last r s b ns es tr eb = ground arith

-- Behind round `j` the receiver holds the high `j` bits of `b`, the sender the others.
module _ (out : List ℕ) (rest : List Read) (b : ℕ) (h : b < 256) where
  rounds_2_to_4 :
      (fuel : ℕ)
      → session
          (suc (suc (suc fuel)))
          (receiver (2 + b / 128) out)
          (sending ((b * 2) % 256 + 1) rest)
        ≡ session fuel (receiver (16 + b / 16) out) (sending ((b * 16) % 256 + 8) rest)
  rounds_2_to_4 fuel =
      round_next (suc (suc fuel)) out rest _ _ (4 + b / 64) ((b * 4) % 256 + 2) (ground arith)
        (ground arith) (ground arith) (omega arith) (ground arith)
      ∙ (round_next (suc fuel) out rest _ _ (8 + b / 32) ((b * 8) % 256 + 4) (ground arith)
            (ground arith) (ground arith) (omega arith) (ground arith)
          ∙ round_next fuel out rest _ _ (16 + b / 16) ((b * 16) % 256 + 8) (ground arith)
              (ground arith) (ground arith) (omega arith) (ground arith))

  rounds_5_to_7 :
      (fuel : ℕ)
      → session
          (suc (suc (suc fuel)))
          (receiver (16 + b / 16) out)
          (sending ((b * 16) % 256 + 8) rest)
        ≡ session fuel (receiver (128 + b / 2) out) (sending ((b * 128) % 256 + 64) rest)
  rounds_5_to_7 fuel =
      round_next (suc (suc fuel)) out rest _ _ (32 + b / 8) ((b * 32) % 256 + 16) (ground arith)
        (ground arith) (ground arith) (omega arith) (ground arith)
      ∙ (round_next (suc fuel) out rest _ _ (64 + b / 4) ((b * 64) % 256 + 32) (ground arith)
            (ground arith) (ground arith) (omega arith) (ground arith)
          ∙ round_next fuel out rest _ _ (128 + b / 2) ((b * 128) % 256 + 64) (ground arith)
              (ground arith) (ground arith) (omega arith) (ground arith))

  -- Eight rounds carry a byte over.
  pub session-byte :
      (fuel : ℕ)
      → session
          (suc (suc (suc (suc (suc (suc (suc (suc fuel))))))))
          (receiver 1 out)
          (idle (byte b ∷ rest))
        ≡ session fuel (receiver 1 (out ++ b ∷ [])) (idle rest)
  session-byte fuel =
      round_first _ out rest b (2 + b / 128) ((b * 2) % 256 + 1) (ground arith) refl
      ∙ (rounds_2_to_4 (suc (suc (suc (suc fuel))))
          ∙ (rounds_5_to_7 (suc fuel)
              ∙ round_last fuel out rest (128 + b / 2) ((b * 128) % 256 + 64) b (ground arith)
                  (omega arith) (ground arith) (ground arith)))
