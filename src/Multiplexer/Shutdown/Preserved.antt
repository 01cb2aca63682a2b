-- ===== src/Multiplexer/Shutdown/Preserved.antt =====
-- Every step keeps what the closed descriptors and the children that have ended tell.
use mipt_informatics.Base.{
  ℕ, zero, suc, ◌≡◌, refl, inl, inr, true, false, ◌&&◌, Bool-cases, List, [], ◌∷◌, ◌==◌, arith,
}
use mathlib.Core.Path.{subst}
use mathlib.Core.List.Perm
use mipt_informatics.Multiplexer.{
  BufferEvent, Child, reading, writing, exited, failed, Parent, moving, between, waiting, System,
}
use mipt_informatics.Multiplexer.Actions.{
  can_write, source, set_source, write_out, read_in, at_eof, closes_output, close_ends, fail_write,
  fail_read,
}
use mipt_informatics.Multiplexer.Steps.{
  works, sigchld_handler, Step, poll, poll_undefined, poll_none, poll_error, skip_write, write,
  write_error, skip_read, read, read_eof, read_error, all_served, close, close_error, all_closed,
  wait_last, wait_error, sigchld, child_read, child_eof, child_write, child_written,
  child_read_error, child_write_error, Reach, here, next,
}
use mipt_informatics.Multiplexer.Working.{Step-works}
use mipt_informatics.Multiplexer.Flow.Slices.{update_ind, update_ind_2, update_self}
use mipt_informatics.Multiplexer.Shutdown.Events.{AllFinal, coalesce-AllFinal, inject-Tells}
use mipt_informatics.Multiplexer.Shutdown.Drained.{AllFinal-Keeps, Step-Keeps}
use mipt_informatics.Multiplexer.Shutdown.Invariant.{
  Stands, IsTrue, HasRead, IsClosing, Shuts, Stands-Keeps, polled-Stands, served-Stands,
  can_write-absurd, write-buffers, read-buffers, close-buffers,
}

module _ (n : ℕ) (child_rand : ℕ → ℕ) where
  at : (s : System) (p : Parent) → IsClosing n s → s.parent ≡ p → Stands n s p
  at s p v e = subst (Stands n s) e v.stands

  -- the facts about buffers, of the sources before the step
  Step-IsTrue :
      {s t : System}
      → Step n child_rand s t
      → works t.parent ≡ true
      → IsClosing n s
      → (i : ℕ) → IsTrue s i (t.buffers i)
  unfolding fail_write fail_read
  Step-IsTrue {s} (write be todo done k p c le) w' v = write-buffers n s v be k _ c
  Step-IsTrue {s} (read be todo done bytes left p c e ne le) w' v =
      read-buffers n s v be.buffer bytes left _ e
  Step-IsTrue {s} (read_eof be todo done p c d) w' v =
      read-buffers n s v be.buffer [] (source s be.buffer) _ refl
  Step-IsTrue {s} (close be todo p) w' v = close-buffers n s v be todo (at s _ v p).0
  Step-IsTrue (write_error be todo done p c) w' v = cc
  Step-IsTrue (read_error be todo done p c) w' v = cc
  Step-IsTrue other w' v = v.buffers

  Step-Shuts : {s t : System} → Step n child_rand s t → Shuts s t
  unfolding write_out read_in close_ends fail_write fail_read
  Step-Shuts {s} (write be todo done k p c le) =
      update_ind (λ i b. (s.buffers i).wr_open ≡ false → b.wr_open ≡ false) s.buffers be.buffer _
        (λ i w. w) (λ w. w)
  Step-Shuts {s} (read be todo done bytes left p c e ne le) =
      update_ind (λ i b. (s.buffers i).wr_open ≡ false → b.wr_open ≡ false) s.buffers be.buffer _
        (λ i w. w) (λ w. w)
  Step-Shuts {s} (read_eof be todo done p c d) =
      update_ind (λ i b. (s.buffers i).wr_open ≡ false → b.wr_open ≡ false) s.buffers be.buffer _
        (λ i w. w) (λ w. w)
  Step-Shuts {s} (close be todo p) =
      update_ind (λ i b. (s.buffers i).wr_open ≡ false → b.wr_open ≡ false) s.buffers be.buffer _
        (λ i w. w) (λ w. ground arith)
  Step-Shuts {s} (write_error be todo done p c) =
      update_ind (λ i b. (s.buffers i).wr_open ≡ false → b.wr_open ≡ false) s.buffers be.buffer _
        (λ i w. w) (λ w. w)
  Step-Shuts {s} (read_error be todo done p c) =
      update_ind (λ i b. (s.buffers i).wr_open ≡ false → b.wr_open ≡ false) s.buffers be.buffer _
        (λ i w. w) (λ w. w)
  Step-Shuts other = λ i w. w

  write-HasRead :
      (s : System)
      → IsClosing n s
      → (be : BufferEvent) (k : ℕ) (p : Parent) → can_write (s.buffers be.buffer) be ≡ true
      → (i : ℕ)
      → HasRead
          ((write_out n be.buffer k p s).children i)
          ((write_out n be.buffer k p s).to_child i)
          (s.buffers i).wr_open
  unfolding write_out
  write-HasRead s v be k p c i = elim (Bool-cases (be.buffer == n)) [
    | inl e ↦ rw e (v.exits i)
    | inr e ↦ rw e (
        update_ind (λ j l. HasRead (s.children j) l (s.buffers j).wr_open) s.to_child be.buffer _
          v.exits
          (λ q. absurd (can_write-absurd _ be c ((v.buffers be.buffer).1 (v.exits be.buffer q).1)))
          i)
  ]

  read-HasRead :
      (s : System)
      → IsClosing n s
      → (j : ℕ) (bytes left : List ℕ) (p : Parent) (i : ℕ)
      → HasRead
          ((read_in j bytes left p s).children i)
          ((read_in j bytes left p s).to_child i)
          (s.buffers i).wr_open
  unfolding read_in set_source
  read-HasRead s v zero bytes left p = v.exits
  read-HasRead s v (suc j) bytes left p = v.exits

  -- the facts about children, of the descriptors before the step
  Step-HasRead :
      {s t : System}
      → Step n child_rand s t
      → IsClosing n s
      → (i : ℕ) → HasRead (t.children i) (t.to_child i) (s.buffers i).wr_open
  unfolding close_ends fail_write fail_read
  Step-HasRead {s} (write be todo done k p c le) v = write-HasRead s v be k (between be todo done) c
  Step-HasRead {s} (read be todo done bytes left p c e ne le) v =
      read-HasRead s v be.buffer bytes left _
  Step-HasRead {s} (read_eof be todo done p c d) v =
      read-HasRead s v be.buffer [] (source s be.buffer) _
  Step-HasRead {s} (close be todo p) v = v.exits
  Step-HasRead {s} (child_read i bytes left lt r e ne le) v =
      update_ind_2 (λ j c l. HasRead c l (s.buffers j).wr_open) s.children s.to_child i
        (writing bytes) left v.exits (λ q. cc)
  Step-HasRead {s} (child_eof i lt r e w) v =
      update_ind (λ j c. HasRead c (s.to_child j) (s.buffers j).wr_open) s.children i exited v.exits
        (λ q. (e, w))
  Step-HasRead {s} (child_write i bytes left lt w) v =
      update_ind (λ j c. HasRead c (s.to_child j) (s.buffers j).wr_open) s.children i (writing left)
        v.exits (λ q. cc)
  Step-HasRead {s} (child_written i lt w) v =
      update_ind (λ j c. HasRead c (s.to_child j) (s.buffers j).wr_open) s.children i reading
        v.exits (λ q. cc)
  Step-HasRead {s} (child_read_error i lt r) v =
      update_ind (λ j c. HasRead c (s.to_child j) (s.buffers j).wr_open) s.children i (failed [])
        v.exits (λ q. cc)
  Step-HasRead {s} (child_write_error i left lt w) v =
      update_ind (λ j c. HasRead c (s.to_child j) (s.buffers j).wr_open) s.children i (failed left)
        v.exits (λ q. cc)
  Step-HasRead other v = v.exits

  sigchld-Stands :
      (s : System) (c : Child) (p : Parent) → Stands n s p → Stands n s (sigchld_handler c p)
  sigchld-Stands s (failed bytes) p st = tt
  sigchld-Stands s reading p st = st
  sigchld-Stands s (writing bytes) p st = st
  sigchld-Stands s exited p st = st

  close-Stands :
      (s : System) (be : BufferEvent) (todo : List BufferEvent)
      → AllFinal (close_ends n be todo s) todo
      → Stands n (close_ends n be todo s) (close_ends n be todo s).parent
  unfolding close_ends
  close-Stands s be todo f =
      elim (Bool-cases (closes_output (s.buffers be.buffer) be && (be.buffer == n))) [
        | inl e ↦
            let last : be.buffer ≡ n = ground arith in
            let closes : closes_output (s.buffers be.buffer) be ≡ true = ground arith in
            rw e (rw (← last) (rw (update_self s.buffers be.buffer) (rw closes refl)))
        | inr e ↦ rw e f
      ]

  -- where the parent stands next, of the sources and the descriptors before the step
  moved :
      (s : System) {t : System} → Step n child_rand s t → Stands n s t.parent → Stands n t t.parent
  moved s {t} st = Stands-Keeps n s t t.parent (Step-Keeps n child_rand st) (Step-Shuts st)

  Step-Stands : {s t : System} → Step n child_rand s t → IsClosing n s → Stands n t t.parent
  unfolding write_out read_in fail_write fail_read
  Step-Stands {s} (poll es so p l m q) v = moved s (poll es so p l m q) (
      polled-Stands n s _
        (coalesce-AllFinal n s _ [] (λ e h. inject-Tells s n es m e (Perm.subset q e h)) tt))
  Step-Stands {s} (close be todo p) v = close-Stands s be todo (
      AllFinal-Keeps s (close_ends n be todo s) todo (Step-Keeps n child_rand (close be todo p))
        (at s _ v p).1)
  Step-Stands {s} (skip_write be todo done p c) v =
      let ((f, g), h) = at s (moving (be ∷ todo) done) v p in
      moved s (skip_write be todo done p c) (f, (g, h))
  Step-Stands {s} (write be todo done k p c le) v =
      let ((f, g), h) = at s (moving (be ∷ todo) done) v p in
      moved s (write be todo done k p c le) (f, (g, h))
  Step-Stands {s} (skip_read be todo done p c) v =
      let (f, gh) = at s (between be todo done) v p in
      moved s (skip_read be todo done p c) (served-Stands n s be todo done f gh)
  Step-Stands {s} (read be todo done bytes left p c e ne le) v =
      let (f, gh) = at s (between be todo done) v p in
      moved s (read be todo done bytes left p c e ne le) (served-Stands n s be todo done f gh)
  Step-Stands {s} (read_eof be todo done p c d) v =
      let (f, gh) = at s (between be todo done) v p in
      moved s (read_eof be todo done p c d) (served-Stands n s (at_eof be) todo done (λ x. d) gh)
  Step-Stands {s} (all_served done p) v = moved s (all_served done p) (at s (moving [] done) v p).1
  Step-Stands (all_closed p) v = tt
  Step-Stands {s} (wait_last p h) v = at s waiting v p
  Step-Stands {s} (poll_none p) v = v.stands
  Step-Stands (poll_undefined es e_1 e_2 p l m i j a b) v = tt
  Step-Stands (poll_error p) v = tt
  Step-Stands (write_error be todo done p c) v = tt
  Step-Stands (read_error be todo done p c) v = tt
  Step-Stands (close_error be todo p c) v = tt
  Step-Stands (wait_error p) v = tt
  Step-Stands {s} (sigchld i lt h a e) v =
      moved s (sigchld i lt h a e) (sigchld-Stands s (s.children i) s.parent v.stands)
  Step-Stands {s} other v = moved s other v.stands

  Step-IsClosing :
      {s t : System} → Step n child_rand s t → works t.parent ≡ true → IsClosing n s → IsClosing n t
  Step-IsClosing st w v = record {
    buffers = λ i. (
      (λ r. Step-Keeps n child_rand st i ((Step-IsTrue st w v i).0 r)),
      (Step-IsTrue st w v i).1,
    );
    exits = λ i q. ((Step-HasRead st v i q).0, Step-Shuts st i (Step-HasRead st v i q).1);
    stands = Step-Stands st v;
  }

  pub Reach-IsClosing :
      {s t : System}
      → Reach n child_rand s t
      → works t.parent ≡ true
      → IsClosing n s
      → IsClosing n t
  Reach-IsClosing here w v = v
  Reach-IsClosing (next r st) w v =
      Step-IsClosing st w (Reach-IsClosing r (Step-works n child_rand st w) v)
