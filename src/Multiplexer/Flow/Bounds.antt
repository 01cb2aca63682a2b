-- ===== src/Multiplexer/Flow/Bounds.antt =====
-- `begin`, `end` and the size of every buffer.
use mipt_informatics.Base.{ℕ, ◌≡◌, true, ◌≤◌, List, [], length, arith}
use mipt_informatics.Multiplexer.{Parent, buf_min, buf_max, rand_buffer_size, Buffer, System}
use mipt_informatics.Multiplexer.Actions.{write_out, read_in, close_ends, fail_write, fail_read}
use mipt_informatics.Multiplexer.Steps.{
  works, Step, poll, poll_undefined, poll_none, poll_error, skip_write, write, write_error,
  skip_read, read, read_eof, read_error, all_served, close, close_error, all_closed, wait_last,
  wait_error, sigchld, child_read, child_eof, child_write, child_written, child_read_error,
  child_write_error, Reach, here, next, start,
}
use mipt_informatics.Multiplexer.Working.{Step-works}
use mipt_informatics.Multiplexer.Flow.Slices.{update_ind}

-- `rand_buffer_size` gives a size from `BUF_MIN` to `BUF_MAX`.
pub rand_buffer_size_lem :
    (random : ℕ) → (buf_min ≤ rand_buffer_size random) × (rand_buffer_size random ≤ buf_max)
unfolding rand_buffer_size
rand_buffer_size_lem random = (omega arith, omega arith)

pub record IsWithin (b : Buffer) : Type 0 where
  pub ordered : b.begin ≤ b.end
  pub bounded : b.end ≤ b.buf_size
  pub least : buf_min ≤ b.buf_size
  pub most : b.buf_size ≤ buf_max

abbrev AllWithin : System → Type 0
AllWithin s = (i : ℕ) → IsWithin (s.buffers i)

read_in-IsWithin :
    (s : System) (j : ℕ) (bytes left : List ℕ) (p : Parent)
    → AllWithin s
    → length bytes ≤ (s.buffers j).buf_size
    → AllWithin (read_in j bytes left p s)
unfolding read_in
read_in-IsWithin s j bytes left p v le =
    update_ind (λ i b. IsWithin b) s.buffers j _ v
      (record { ordered = omega arith; bounded = le; least = (v j).least; most = (v j).most })

module _ (n : ℕ) (child_rand : ℕ → ℕ) where
  Step-IsWithin :
      {s t : System} → Step n child_rand s t → works t.parent ≡ true → AllWithin s → AllWithin t
  unfolding write_out close_ends fail_write fail_read
  Step-IsWithin (poll es so p l m q) w' v = v
  Step-IsWithin (poll_undefined es e_1 e_2 p l m i j a b) w' v = v
  Step-IsWithin (poll_none p) w' v = v
  Step-IsWithin {s} (write be todo done k p c le) w' v =
      update_ind (λ i b. IsWithin b) s.buffers be.buffer _ v
        (record {
          ordered = omega (arith, (v be.buffer).ordered);
          bounded = (v be.buffer).bounded;
          least = (v be.buffer).least;
          most = (v be.buffer).most;
        })
  Step-IsWithin {s} (read be todo done bytes left p c e ne le) w' v =
      read_in-IsWithin s be.buffer bytes left _ v le
  Step-IsWithin {s} (read_eof be todo done p c d) w' v =
      read_in-IsWithin s be.buffer [] _ _ v (omega arith)
  Step-IsWithin {s} (close be todo p) w' v =
      update_ind (λ i b. IsWithin b) s.buffers be.buffer _ v
        (record {
          ordered = (v be.buffer).ordered;
          bounded = (v be.buffer).bounded;
          least = (v be.buffer).least;
          most = (v be.buffer).most;
        })
  Step-IsWithin (poll_error p) w' v = v
  Step-IsWithin (skip_write be todo done p c) w' v = v
  Step-IsWithin (write_error be todo done p c) w' v = cc
  Step-IsWithin (skip_read be todo done p c) w' v = v
  Step-IsWithin (read_error be todo done p c) w' v = cc
  Step-IsWithin (all_served done p) w' v = v
  Step-IsWithin (close_error be todo p c) w' v = v
  Step-IsWithin (all_closed p) w' v = v
  Step-IsWithin (wait_last p h) w' v = v
  Step-IsWithin (wait_error p) w' v = v
  Step-IsWithin (sigchld i lt h a e) w' v = v
  Step-IsWithin (child_read i bytes left lt r e ne le) w' v = v
  Step-IsWithin (child_eof i lt r e w) w' v = v
  Step-IsWithin (child_write i bytes left lt w) w' v = v
  Step-IsWithin (child_written i lt w) w' v = v
  Step-IsWithin (child_read_error i lt r) w' v = v
  Step-IsWithin (child_write_error i left lt w) w' v = v

  Reach-AllWithin :
      {s t : System} → Reach n child_rand s t → works t.parent ≡ true → AllWithin s → AllWithin t
  Reach-AllWithin here w v = v
  Reach-AllWithin (next r st) w v =
      Step-IsWithin st w (Reach-AllWithin r (Step-works n child_rand st w) v)

-- In every state that the program reaches while none of the parent's own calls has gone wrong, each buffer has
-- `begin <= end <= buf_size`, and its size is from `BUF_MIN` to `BUF_MAX`; so what is written out
-- stands within the memory of the buffer.
pub Reach-IsWithin :
    (n : ℕ) (child_rand random : ℕ → ℕ) (memory : ℕ → ℕ → ℕ) (input : List ℕ) {s : System}
    → Reach n child_rand (start n random memory input) s
    → works s.parent ≡ true
    → (i : ℕ) → IsWithin (s.buffers i)
unfolding start
Reach-IsWithin n child_rand random memory input r w = Reach-AllWithin n child_rand r w (λ i.
    record {
      ordered = omega arith;
      bounded = omega arith;
      least = (rand_buffer_size_lem (random i)).0;
      most = (rand_buffer_size_lem (random i)).1;
    })
