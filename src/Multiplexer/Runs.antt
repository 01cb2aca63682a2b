-- ===== src/Multiplexer/Runs.antt =====
-- Runs of the program with two children and a file of two bytes, for the tests.
use mipt_informatics.Base.{
  ℕ, zero, suc, ◌<◌, ◌≤◌, ◌≡◌, ◌≢◌, refl, sym, true, false, List, [], ◌∷◌, arith,
}
use mathlib.Core.Path.{subst}
use mathlib.Core.List.{Mem, mem-singleton}
use mathlib.Core.List.Perm
use mipt_informatics.Multiplexer.{rand_buffer_size, EpollEvent, System, update}
use mipt_informatics.Multiplexer.Events.{
  has_flag, consume_flag, inject, fresh, store_wr, store_rd, store, advance, has_room, coalesce,
}
use mipt_informatics.Multiplexer.Actions.{
  slice, pending, fill, served, write_out, source, set_source, read_in, rd_open_after,
  closes_output, close_ends,
}
use mipt_informatics.Multiplexer.Steps.{
  IsDrained, IsReported, polled, Step, poll, skip_write, write, skip_read, read, read_eof,
  all_served, close, all_closed, wait_last, child_read, child_eof, child_write, child_written,
  Reach, here, next, start,
}

single :
    (n : ℕ) (s : System) (ev : EpollEvent)
    → IsReported n s ev
    → (e : EpollEvent) → Mem e (ev ∷ [])
    → IsReported n s e
single n s ev h e m = subst (IsReported n s) (sym ((mem-singleton EpollEvent-set).0 m)) h
  where
    EpollEvent-set : IsSet EpollEvent
    EpollEvent-set = hlevel

abbrev pub Run : Type 0
Run = (s : System) × Reach 2 (λ i. 0) (start 2 (λ i. 0) (λ i j. 0) (7 ∷ 8 ∷ [])) s

-- an event for writing, and one for reading with what its flags tell of the source
abbrev pub wr_event : ℕ → EpollEvent
wr_event i = record { buffer = i; is_wr = true; events = 4 }

abbrev pub rd_event : ℕ → ℕ → EpollEvent
rd_event i flags = record { buffer = i; is_wr = false; events = flags }

pub wr_poll :
    (s : System) (i : ℕ)
    → i < 2
    → (s.buffers i).wr_open ≡ true
    → (e : EpollEvent) → Mem e (wr_event i ∷ [])
    → IsReported 2 s e
wr_poll s i lt h =
    single 2 s (wr_event i)
      (record { read_end = λ e. cc; write_end = λ e. (lt, h); hang_up = λ e. cc })

pub rd_poll :
    (s : System) (i flags : ℕ)
    → 0 < i
    → i ≤ 2
    → (s.buffers i).rd_open ≡ true
    → (has_flag flags 1 ≡ false → IsDrained s i)
    → (e : EpollEvent) → Mem e (rd_event i flags ∷ [])
    → IsReported 2 s e
rd_poll s i flags gt le h d =
    single 2 s (rd_event i flags)
      (record { read_end = λ e. (gt, le, h); write_end = λ e. cc; hang_up = λ e none hup. d none })

pub cons-ne-nil : ◌≢◌ {A = List ℕ} (7 ∷ 8 ∷ []) []
cons-ne-nil e = cc

pub true-ne-false : {P : Type 0} → true ≡ false → P
true-ne-false e = cc

pub two_children : (P : ℕ → Type 0) → P 0 → P 1 → (i : ℕ) → i < 2 → P i
two_children P p q zero lt = p
two_children P p q (suc zero) lt = q
two_children P p q (suc (suc i)) lt = absurd (omega arith)

abbrev pub From : System → System → Type 0
From s t = Reach 2 (λ i. 0) s t

infixl 20 ◌▸◌
pub ◌▸◌ : {s t u : System} → From s t → Step 2 (λ i. 0) t u → From s u
r ▸ st = next r st

-- the parent reads the bytes from the file
abbrev pub byte_read : Run
unfolding start inject has_room coalesce store store_wr store_rd consume_flag advance fresh polled
    served write_out source set_source read_in slice pending fill rd_open_after closes_output
    close_ends update rand_buffer_size
byte_read = (
  _,
  here
      ▸ poll (wr_event 0 ∷ []) _ refl refl (wr_poll _ 0 (omega arith) refl) Perm.rfl
      ▸ skip_write _ _ _ refl refl
      ▸ skip_read _ _ _ refl refl
      ▸ skip_write _ _ _ refl refl
      ▸ read _ _ _ (7 ∷ 8 ∷ []) [] refl refl refl cons-ne-nil (omega arith)
      ▸ all_served _ refl
      ▸ close _ _ refl
      ▸ close _ _ refl
      ▸ all_closed refl,
)

-- the bytes go to the first child, and the parent finds the end of the file
abbrev pub end_read : Run
unfolding start inject has_room coalesce store store_wr store_rd consume_flag advance fresh polled
    served write_out source set_source read_in slice pending fill rd_open_after closes_output
    close_ends update rand_buffer_size
end_read = (
  _,
  byte_read.1
      ▸ poll (wr_event 0 ∷ []) _ refl refl (wr_poll _ 0 (omega arith) refl) Perm.rfl
      ▸ skip_write _ _ _ refl refl
      ▸ skip_read _ _ _ refl refl
      ▸ write _ _ _ 2 refl refl (omega arith)
      ▸ read_eof _ _ _ refl refl refl
      ▸ all_served _ refl
      ▸ close _ _ refl
      ▸ close _ _ refl
      ▸ all_closed refl,
)

-- the first child copies them and exits
abbrev pub child_done : Run
unfolding start inject has_room coalesce store store_wr store_rd consume_flag advance fresh polled
    served write_out source set_source read_in slice pending fill rd_open_after closes_output
    close_ends update rand_buffer_size
child_done = (
  _,
  end_read.1
      ▸ child_read 0 (7 ∷ 8 ∷ []) [] (omega arith) refl refl cons-ne-nil (omega arith)
      ▸ child_write 0 (7 ∷ 8 ∷ []) [] (omega arith) refl
      ▸ child_written 0 (omega arith) refl
      ▸ child_eof 0 (omega arith) refl refl refl,
)

-- the parent reads them back, with input and a hang-up reported
abbrev pub byte_back : Run
unfolding start inject has_room coalesce store store_wr store_rd consume_flag advance fresh polled
    served write_out source set_source read_in slice pending fill rd_open_after closes_output
    close_ends update rand_buffer_size
byte_back = (
  _,
  child_done.1
      ▸ poll (rd_event 1 17 ∷ []) _ refl refl
          (rd_poll _ 1 17 (omega arith) (omega arith) refl (λ e. true-ne-false e)) Perm.rfl
      ▸ skip_write _ _ _ refl refl
      ▸ skip_read _ _ _ refl refl
      ▸ skip_write _ _ _ refl refl
      ▸ read _ _ _ (7 ∷ 8 ∷ []) [] refl refl refl cons-ne-nil (omega arith)
      ▸ all_served _ refl
      ▸ close _ _ refl
      ▸ close _ _ refl
      ▸ all_closed refl,
)

-- the bytes go to the second child
abbrev pub passed_on : Run
unfolding start inject has_room coalesce store store_wr store_rd consume_flag advance fresh polled
    served write_out source set_source read_in slice pending fill rd_open_after closes_output
    close_ends update rand_buffer_size
passed_on = (
  _,
  byte_back.1
      ▸ poll (wr_event 1 ∷ []) _ refl refl (wr_poll _ 1 (omega arith) refl) Perm.rfl
      ▸ skip_write _ _ _ refl refl
      ▸ skip_read _ _ _ refl refl
      ▸ write _ _ _ 2 refl refl (omega arith)
      ▸ skip_read _ _ _ refl refl
      ▸ all_served _ refl
      ▸ close _ _ refl
      ▸ close _ _ refl
      ▸ all_closed refl,
)

-- the hang-up of the first child closes the buffer between them
abbrev pub middle_closed : Run
unfolding start inject has_room coalesce store store_wr store_rd consume_flag advance fresh polled
    served write_out source set_source read_in slice pending fill rd_open_after closes_output
    close_ends update rand_buffer_size
middle_closed = (
  _,
  passed_on.1
      ▸ poll (rd_event 1 16 ∷ []) _ refl refl
          (rd_poll _ 1 16 (omega arith) (omega arith) refl (λ e. (refl, tt))) Perm.rfl
      ▸ skip_write _ _ _ refl refl
      ▸ skip_read _ _ _ refl refl
      ▸ skip_write _ _ _ refl refl
      ▸ skip_read _ _ _ refl refl
      ▸ all_served _ refl
      ▸ close _ _ refl
      ▸ close _ _ refl
      ▸ all_closed refl,
)

-- the second child copies the bytes and exits, and the parent reads them back
abbrev pub last_back : Run
unfolding start inject has_room coalesce store store_wr store_rd consume_flag advance fresh polled
    served write_out source set_source read_in slice pending fill rd_open_after closes_output
    close_ends update rand_buffer_size
last_back = (
  _,
  middle_closed.1
      ▸ child_read 1 (7 ∷ 8 ∷ []) [] (omega arith) refl refl cons-ne-nil (omega arith)
      ▸ child_write 1 (7 ∷ 8 ∷ []) [] (omega arith) refl
      ▸ child_written 1 (omega arith) refl
      ▸ child_eof 1 (omega arith) refl refl refl
      ▸ poll (rd_event 2 17 ∷ []) _ refl refl
          (rd_poll _ 2 17 (omega arith) (omega arith) refl (λ e. true-ne-false e)) Perm.rfl
      ▸ skip_write _ _ _ refl refl
      ▸ read _ _ _ (7 ∷ 8 ∷ []) [] refl refl refl cons-ne-nil (omega arith)
      ▸ all_served _ refl
      ▸ close _ _ refl
      ▸ all_closed refl,
)

-- the bytes go to the output, and with the hang-up all is closed
abbrev pub returned : Run
unfolding start inject has_room coalesce store store_wr store_rd consume_flag advance fresh polled
    served write_out source set_source read_in slice pending fill rd_open_after closes_output
    close_ends update rand_buffer_size
returned = (
  _,
  last_back.1
      ▸ poll (rd_event 2 16 ∷ []) _ refl refl
          (rd_poll _ 2 16 (omega arith) (omega arith) refl (λ e. (refl, tt))) Perm.rfl
      ▸ write _ _ _ 2 refl refl (omega arith)
      ▸ skip_read _ _ _ refl refl
      ▸ all_served _ refl
      ▸ close _ _ refl
      ▸ wait_last refl (two_children _ tt tt),
)

-- Here the last write takes one byte of two, and the input of the last buffer is about to be closed.
abbrev pub half_written : Run
unfolding start inject has_room coalesce store store_wr store_rd consume_flag advance fresh polled
    served write_out source set_source read_in slice pending fill rd_open_after closes_output
    close_ends update rand_buffer_size
half_written = (
  _,
  last_back.1
      ▸ poll (rd_event 2 16 ∷ []) _ refl refl
          (rd_poll _ 2 16 (omega arith) (omega arith) refl (λ e. (refl, tt))) Perm.rfl
      ▸ write _ _ _ 1 refl refl (omega arith)
      ▸ skip_read _ _ _ refl refl
      ▸ all_served _ refl,
)
