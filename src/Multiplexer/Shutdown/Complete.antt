-- ===== src/Multiplexer/Shutdown/Complete.antt =====
-- The parent returns only when the whole file is in the output, unless a child has failed.
use mipt_informatics.Base.{
  ℕ, zero, suc, ◌-◌, ◌<◌, ◌≤◌, ◌≡◌, refl, sym, ap, ◌∙◌, true, false, List, [], ◌++◌, arith,
}
use mathlib.Core.Path.{subst}
use mathlib.Core.List.{append-nil}
use mipt_informatics.Multiplexer.{Buffer, Child, reading, writing, exited, failed, ended, System}
use mipt_informatics.Multiplexer.Actions.{slice, pending}
use mipt_informatics.Multiplexer.Steps.{HasEnded, HasFailed, works, Reach, start}
use mipt_informatics.Multiplexer.Flow.{behind, whole}
use mipt_informatics.Multiplexer.Flow.Conservation.{reach_conserves}
use mipt_informatics.Multiplexer.Shutdown.Invariant.{Stands, IsClosing}
use mipt_informatics.Multiplexer.Shutdown.Preserved.{Reach-IsClosing}

pending-nil : (b : Buffer) → b.begin ≡ b.end → pending b ≡ []
unfolding pending slice
pending-nil b e = let none : b.end - b.begin ≡ 0 = omega arith in rw none refl

ended_exited : (c : Child) → HasEnded c → ¬ HasFailed c → c ≡ exited
ended_exited reading h f = absurd h
ended_exited (writing _) h f = absurd h
ended_exited exited h f = refl
ended_exited (failed _) h f = absurd (f tt)

-- Nothing is under way before a buffer whose output is closed.
whole-nil :
    (n : ℕ) (s : System)
    → IsClosing n s
    → ((i : ℕ) → i < n → ¬ HasFailed (s.children i))
    → (k : ℕ) → k ≤ n
    → (s.buffers k).wr_open ≡ false
    → whole s k ≡ []
unfolding behind
whole-nil n s v ok zero le w =
    let shut = (v.buffers 0).1 w in
    rw (pending-nil (s.buffers 0) shut.no_bytes) ((v.buffers 0).0 shut.no_input)
whole-nil n s v ok (suc k) le w =
    let shut = (v.buffers (suc k)).1 w in
    let (empty, end_of) = (v.buffers (suc k)).0 shut.no_input in
    let exit = ended_exited (s.children k) end_of (ok k (omega arith)) in
    let (read_all, shut_before) = v.exits k exit in
    rw (pending-nil (s.buffers (suc k)) shut.no_bytes, empty, exit, read_all)
      (whole-nil n s v ok k (omega arith) shut_before)

start-IsClosing :
    (n : ℕ) (random : ℕ → ℕ) (memory : ℕ → ℕ → ℕ) (input : List ℕ)
    → IsClosing n (start n random memory input)
unfolding start
start-IsClosing n random memory input = record {
  buffers = λ i. ((λ e. cc), (λ e. cc));
  exits = λ i e. cc;
  stands = tt;
}

-- When the parent returns from `main` and no child has failed, the output is the input file. Runs in which
-- `qsort` meets an undefined case or `buffer_events` is written behind its end do not return from
-- `main`; `epoll_wait` reports a hang-up without input only when the pipe is empty and its writer
-- has ended.
pub return_complete :
    (n : ℕ) (child_rand random : ℕ → ℕ) (memory : ℕ → ℕ → ℕ) (input : List ℕ) {s : System}
    → Reach n child_rand (start n random memory input) s
    → s.parent ≡ ended
    → ((i : ℕ) → i < n → ¬ HasFailed (s.children i))
    → s.output ≡ input
return_complete n child_rand random memory input {s} r e ok =
    sym (append-nil s.output)
    ∙ (ap (λ l. s.output ++ l) (sym none)
        ∙ reach_conserves n child_rand random memory input r working)
  where
    working : works s.parent ≡ true
    working = rw e refl

    v : IsClosing n s
    v = Reach-IsClosing n child_rand r working (start-IsClosing n random memory input)

    none : whole s n ≡ []
    none = whole-nil n s v ok n (omega arith) (subst (Stands n s) e v.stands)
