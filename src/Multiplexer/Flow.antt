-- ===== src/Multiplexer/Flow.antt =====
-- What is under way: the bytes of the input that have not reached the output, by where they are.
pub mod Slices
pub mod Moves
pub mod Conservation
pub mod Bounds
use mipt_informatics.Base.{
  ℕ, zero, suc, ◌+◌, ◌-◌, ◌<◌, ◌≤◌, ◌≡◌, refl, sym, ap, ◌∙◌, List, [], ◌++◌, arith,
}
use native.Mathlib.Decide.{dec_lt}
use mathlib.Core.List.{append_assoc}
use mipt_informatics.Multiplexer.{Child, reading, writing, exited, failed, System}
use mipt_informatics.Multiplexer.Actions.{pending, source}

-- the bytes that a child has read and not written
abbrev pub held : Child → List ℕ
held reading = []
held (writing bytes) = bytes
held exited = []
held (failed bytes) = bytes

-- between the writing end of buffer `i` and the reading end of the next one
abbrev pub passing : System → ℕ → List ℕ
passing s i = s.from_child i ++ (held (s.children i) ++ s.to_child i)

-- All that has not reached the buffer `i`, and all that has not left it; the latest bytes last.
unfoldable pub behind : System → ℕ → List ℕ
behind s zero = s.rest
behind s (suc i) = passing s i ++ (pending (s.buffers i) ++ behind s i)

abbrev pub whole : System → ℕ → List ℕ
whole s i = pending (s.buffers i) ++ behind s i

module _ (s t : System) where
  -- Two states with the same bytes at each place, where a buffer and the pipe after it are one.
  pub behind_cong :
      (k : ℕ)
      → t.rest ≡ s.rest
      → ((i : ℕ)
          → i < k
          → passing t i ++ pending (t.buffers i) ≡ passing s i ++ pending (s.buffers i))
      → behind t k ≡ behind s k
  unfolding behind
  behind_cong zero r h = r
  behind_cong (suc k) r h =
      rw
        (
          sym (append_assoc (passing t k) (pending (t.buffers k)) (behind t k)),
          sym (append_assoc (passing s k) (pending (s.buffers k)) (behind s k)),
          h k (omega arith),
          behind_cong k r (λ i lt. h i (omega arith)),
        )
        refl

  -- Two states that agree after buffer `j`.
  pub whole_above :
      (j k : ℕ)
      → j ≤ k
      → whole t j ≡ whole s j
      → ((i : ℕ) → j ≤ i → passing t i ≡ passing s i)
      → ((i : ℕ) → j < i → pending (t.buffers i) ≡ pending (s.buffers i))
      → whole t k ≡ whole s k
  unfolding behind
  whole_above j zero le w p q = let e : j ≡ 0 = omega arith in rw e at w
  whole_above j (suc k) le w p q = elim (dec_lt j (suc k)) [
    | yes lt ↦ rw (q (suc k) lt, p k (omega arith), whole_above j k (omega arith) w p q) refl
    | no new ↦ let e : j ≡ suc k = omega arith in rw e at w
  ]
