-- ===== src/Multiplexer/Working.antt =====
-- A parent that works after a step has worked before it.
use mipt_informatics.Base.{ℕ, ◌≡◌, refl, true}
use mipt_informatics.Multiplexer.{Child, reading, writing, exited, failed, Parent, System}
use mipt_informatics.Multiplexer.Steps.{
  works, sigchld_handler, Step, poll, poll_undefined, poll_none, poll_error, skip_write, write,
  write_error, skip_read, read, read_eof, read_error, all_served, close, close_error, all_closed,
  wait_last, wait_error, sigchld,
}

sigchld-works : (c : Child) (p : Parent) → works (sigchld_handler c p) ≡ true → works p ≡ true
sigchld-works reading p w = w
sigchld-works (writing bytes) p w = w
sigchld-works exited p w = w
sigchld-works (failed bytes) p w = cc

module _ (n : ℕ) (child_rand : ℕ → ℕ) where
  pub Step-works :
      {s t : System} → Step n child_rand s t → works t.parent ≡ true → works s.parent ≡ true
  Step-works (poll es so p l m q) w = rw p refl
  Step-works (poll_undefined es e_1 e_2 p l m i j a b) w = rw p refl
  Step-works (poll_none p) w = w
  Step-works (poll_error p) w = rw p refl
  Step-works (skip_write be todo done p c) w = rw p refl
  Step-works (write be todo done k p c le) w = rw p refl
  Step-works (write_error be todo done p c) w = rw p refl
  Step-works (skip_read be todo done p c) w = rw p refl
  Step-works (read be todo done bytes left p c e ne le) w = rw p refl
  Step-works (read_eof be todo done p c d) w = rw p refl
  Step-works (read_error be todo done p c) w = rw p refl
  Step-works (all_served done p) w = rw p refl
  Step-works (close be todo p) w = rw p refl
  Step-works (close_error be todo p c) w = rw p refl
  Step-works (all_closed p) w = rw p refl
  Step-works (wait_last p h) w = rw p refl
  Step-works (wait_error p) w = rw p refl
  Step-works {s} (sigchld i lt h a e) w = sigchld-works (s.children i) s.parent w
  Step-works other w = w
