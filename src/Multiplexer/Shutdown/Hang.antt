-- ===== src/Multiplexer/Shutdown/Hang.antt =====
-- The parent waits in vain: the input of the last buffer has been closed while the buffer still held
-- bytes, and no other descriptor is polled that could wake it to write them.
use mipt_informatics.Base.{ℕ, ◌<◌, ◌≤◌, ◌≡◌, ◌≢◌, Bool, true, false, [], ◌∷◌}
use mipt_informatics.Multiplexer.{BufferEvent, Parent, polling, closing, died, System}
use mipt_informatics.Multiplexer.Actions.{pending}

abbrev pub is_idle : Parent → Bool
is_idle polling = true
is_idle (closing []) = true
is_idle _ = false

-- No descriptor is polled: the reading ends of all buffers but the first and the writing ends of all
-- but the last are closed.
pub record IsUnpolled (n : ℕ) (s : System) : Type 0 where
  pub no_input : (i : ℕ) → 0 < i → i ≤ n → (s.buffers i).rd_open ≡ false
  pub no_output : (i : ℕ) → i < n → (s.buffers i).wr_open ≡ false

-- The parent is about to close the input of the last buffer, of which it has seen a hang-up and no
-- input, with bytes in the buffer; of the other buffers nothing is polled.
pub record IsStranded (n : ℕ) (s : System) (be : BufferEvent) : Type 0 where
  pub closes : s.parent ≡ closing (be ∷ [])
  pub last : be.buffer ≡ n
  pub no_ready : be.rd_ready_in ≡ false
  pub hung_up : be.rd_hang_up ≡ true
  pub some_bytes : (s.buffers n).begin ≢ (s.buffers n).end
  pub no_input : (i : ℕ) → 0 < i → i < n → (s.buffers i).rd_open ≡ false
  pub no_output : (i : ℕ) → i < n → (s.buffers i).wr_open ≡ false

-- where the parent is from then on: before the closing, in the wait for an event, or at an end
data IsHung (n : ℕ) (s : System) (be : BufferEvent) (t : System) : Type 0 where
  before : t.parent ≡ closing (be ∷ []) → t.buffers ≡ s.buffers → IsHung n s be t
  waits :
      is_idle t.parent ≡ true
      → IsUnpolled n t
      → pending (t.buffers n) ≡ pending (s.buffers n)
      → IsHung n s be t
  dead : t.parent ≡ died → pending (t.buffers n) ≡ pending (s.buffers n) → IsHung n s be t

abbrev IsKept : ℕ → System → BufferEvent → System → System → Type 0
IsKept n s be t u = IsHung n s be u × (u.output ≡ t.output)
