-- ===== src/Multiplexer/Flow/Conservation.antt =====
-- Every step keeps the bytes: what the output has, followed by what is under way, is the input.
use mipt_informatics.Base.{
  ℕ, zero, suc, ◌-◌, ◌≡◌, refl, ◌∙◌, Bool, true, false, List, [], ◌++◌, if◌then◌else◌, arith,
}
use mathlib.Core.List.{append_assoc}
use mipt_informatics.Multiplexer.{
  Buffer, BufferEvent, Child, reading, writing, exited, failed, Parent, between, System, update,
}
use mipt_informatics.Multiplexer.Actions.{
  pending, slice, can_read, source, set_source, read_in, close_ends, rd_open_after, closes_output,
  fail_write, fail_read,
}
use mipt_informatics.Multiplexer.Steps.{
  works, Step, poll, poll_undefined, poll_none, poll_error, skip_write, write, write_error,
  skip_read, read, read_eof, read_error, all_served, close, close_error, all_closed, wait_last,
  wait_error, sigchld, child_read, child_eof, child_write, child_written, child_read_error,
  child_write_error, Reach, here, next, start,
}
use mipt_informatics.Multiplexer.Working.{Step-works}
use mipt_informatics.Multiplexer.Flow.{held, passing, behind, whole, behind_cong}
use mipt_informatics.Multiplexer.Flow.Slices.{update_ind, update_ind_2}
use mipt_informatics.Multiplexer.Flow.Moves.{write-flow, read-flow}

append_cong : {a b c d : List ℕ} → a ≡ b → c ≡ d → a ++ c ≡ b ++ d
append_cong p q = λ i. p i ++ q i

flow_cong :
    (n : ℕ) (s t : System)
    → t.output ≡ s.output
    → t.rest ≡ s.rest
    → ((j : ℕ) → pending (t.buffers j) ≡ pending (s.buffers j))
    → ((j : ℕ) → passing t j ≡ passing s j)
    → t.output ++ whole t n ≡ s.output ++ whole s n
flow_cong n s t o r p q =
    append_cong o (append_cong (p n) (behind_cong s t n r (λ j lt. append_cong (q j) (p j))))

-- a step that changes nothing but where the parent stands
parent-flow :
    (n : ℕ) (s : System) (h : Bool) (p : Parent)
    → s.output ++ whole (record s { handler = h; parent = p }) n ≡ s.output ++ whole s n
parent-flow n s h p =
    flow_cong n s (record s { handler = h; parent = p }) refl refl (λ j. refl) (λ j. refl)

close-flow :
    (n : ℕ) (s : System) (be : BufferEvent) (todo : List BufferEvent)
    → (close_ends n be todo s).output ++ whole (close_ends n be todo s) n ≡ s.output ++ whole s n
unfolding close_ends pending
close-flow n s be todo =
    flow_cong n s (close_ends n be todo s) refl refl
      (update_ind (λ j b. pending b ≡ pending (s.buffers j)) s.buffers be.buffer _ (λ j. refl)
        (same (s.buffers be.buffer)))
      (λ j. refl)
  where
    same :
        (b : Buffer)
        → pending (record b {
          rd_open = rd_open_after b be;
          wr_open = if closes_output b be then false else b.wr_open;
        })
          ≡ pending b
    same b = refl

can_read-pending : (b : Buffer) (be : BufferEvent) → can_read b be ≡ true → pending b ≡ []
unfolding pending slice
can_read-pending b be e = let none : b.end - b.begin ≡ 0 = ground arith in rw none refl

read_in-output :
    (s : System) (j : ℕ) (bytes left : List ℕ) (p : Parent)
    → (read_in j bytes left p s).output ≡ s.output
unfolding read_in set_source
read_in-output s zero bytes left p = refl
read_in-output s (suc i) bytes left p = refl

read_in-flow :
    (n : ℕ) (s : System) (be : BufferEvent) (bytes left : List ℕ) (p : Parent)
    → can_read (s.buffers be.buffer) be ≡ true
    → source s be.buffer ≡ bytes ++ left
    → (read_in be.buffer bytes left p s).output ++ whole (read_in be.buffer bytes left p s) n
      ≡ s.output ++ whole s n
read_in-flow n s be bytes left p c e =
    append_cong (read_in-output s be.buffer bytes left p)
      (read-flow s bytes left p be.buffer n (can_read-pending (s.buffers be.buffer) be c) e)

-- The bytes that a child and its pipes have are the same for each child, after a step of child `i`.
module _ (s : System) (i : ℕ) where
  held-to_child :
      (c : Child) (to : List ℕ)
      → held c ++ to ≡ held (s.children i) ++ s.to_child i
      → (j : ℕ)
      → held (update s.children i c j) ++ update s.to_child i to j
        ≡ held (s.children j) ++ s.to_child j
  held-to_child c to eq =
      update_ind_2 (λ j d l. held d ++ l ≡ held (s.children j) ++ s.to_child j) s.children
        s.to_child i c to (λ j. refl) eq

  held-from_child :
      (c : Child) (from : List ℕ)
      → from ++ (held c ++ s.to_child i) ≡ passing s i
      → (j : ℕ)
      → update s.from_child i from j ++ (held (update s.children i c j) ++ s.to_child j)
        ≡ passing s j
  held-from_child c from eq =
      update_ind_2 (λ j d l. l ++ (held d ++ s.to_child j) ≡ passing s j) s.children s.from_child i
        c from (λ j. refl) eq

  held-child :
      (c : Child)
      → held c ≡ held (s.children i)
      → (j : ℕ) → held (update s.children i c j) ≡ held (s.children j)
  held-child c eq = update_ind (λ j d. held d ≡ held (s.children j)) s.children i c (λ j. refl) eq

module _ (n : ℕ) (child_rand : ℕ → ℕ) where
  held_flow :
      (s : System) (i : ℕ) (c : Child)
      → held c ≡ held (s.children i)
      → s.output ++ whole (record s { children = update s.children i c }) n ≡ s.output ++ whole s n
  held_flow s i c eq =
      flow_cong n s (record s { children = update s.children i c }) refl refl (λ j. refl)
        (λ j. append_cong refl (append_cong (held-child s i c eq j) refl))

  pub Step-flow :
      {s t : System}
      → Step n child_rand s t
      → works t.parent ≡ true
      → t.output ++ whole t n ≡ s.output ++ whole s n
  unfolding fail_write fail_read
  Step-flow {s} (poll es so p l m q) w' = parent-flow n s s.handler _
  Step-flow {s} (poll_undefined es e_1 e_2 p l m i j a b) w' = cc
  Step-flow {s} (poll_none p) w' = refl
  Step-flow {s} (poll_error p) w' = parent-flow n s s.handler _
  Step-flow {s} (skip_write be todo done p c) w' = parent-flow n s s.handler _
  Step-flow {s} (write be todo done k p c le) w' =
      write-flow n s be.buffer k (between be todo done) le
  Step-flow (write_error be todo done p c) w' = cc
  Step-flow {s} (skip_read be todo done p c) w' = parent-flow n s s.handler _
  Step-flow {s} (read be todo done bytes left p c e ne le) w' = read_in-flow n s be bytes left _ c e
  Step-flow {s} (read_eof be todo done p c d) w' =
      read_in-flow n s be [] (source s be.buffer) _ c refl
  Step-flow (read_error be todo done p c) w' = cc
  Step-flow {s} (all_served done p) w' = parent-flow n s s.handler _
  Step-flow {s} (close be todo p) w' = close-flow n s be todo
  Step-flow {s} (close_error be todo p c) w' = parent-flow n s s.handler _
  Step-flow {s} (all_closed p) w' = parent-flow n s s.handler _
  Step-flow {s} (wait_last p h) w' = parent-flow n s s.handler _
  Step-flow {s} (wait_error p) w' = parent-flow n s s.handler _
  Step-flow {s} (sigchld i lt h a e) w' = parent-flow n s false _
  Step-flow {s} {t} (child_read i bytes left lt r e ne le) w' =
      flow_cong n s t refl refl (λ j. refl)
        (λ j. append_cong refl (held-to_child s i (writing bytes) left (rw (r, e) refl) j))
  Step-flow {s} {t} (child_eof i lt r e w) w' = held_flow s i exited (rw r refl)
  Step-flow {s} {t} (child_write i bytes left lt w) w' =
      flow_cong n s t refl refl (λ j. refl)
        (held-from_child s i (writing left) (s.from_child i ++ bytes)
          (rw w (simp append_assoc refl)))
  Step-flow {s} (child_written i lt w) w' = held_flow s i reading (rw w refl)
  Step-flow {s} (child_read_error i lt r) w' = held_flow s i (failed []) (rw r refl)
  Step-flow {s} (child_write_error i left lt w) w' = held_flow s i (failed left) (rw w refl)

  pub Reach-flow :
      {s t : System}
      → Reach n child_rand s t
      → works t.parent ≡ true
      → t.output ++ whole t n ≡ s.output ++ whole s n
  Reach-flow here w = refl
  Reach-flow (next r st) w = Step-flow st w ∙ Reach-flow r (Step-works n child_rand st w)

start-behind :
    (n k : ℕ) (random : ℕ → ℕ) (memory : ℕ → ℕ → ℕ) (input : List ℕ)
    → behind (start n random memory input) k ≡ input
unfolding behind start pending slice
start-behind n zero random memory input = refl
start-behind n (suc k) random memory input = start-behind n k random memory input

-- In every state that the program reaches while none of the parent's own calls has gone wrong, whatever has
-- failed in the children, the output followed by what is under way (in the last buffer, then in the
-- pipes and the child before it, and so on to what is left of the input file) is the input file:
-- nothing is repeated or overtaken. What a child has read counts as under way also when the child
-- has failed.
pub reach_conserves :
    (n : ℕ) (child_rand random : ℕ → ℕ) (memory : ℕ → ℕ → ℕ) (input : List ℕ) {s : System}
    → Reach n child_rand (start n random memory input) s
    → works s.parent ≡ true
    → s.output ++ whole s n ≡ input
unfolding start pending slice
reach_conserves n child_rand random memory input r w =
    Reach-flow n child_rand r w ∙ start-behind n n random memory input
