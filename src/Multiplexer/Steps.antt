-- ===== src/Multiplexer/Steps.antt =====
-- The step relation: one system call of the parent or of a child, in any order of the processes. What
-- a call may return is left open within its documentation, so that a premise says what a result
-- tells of the pipes; a call that fails is a step of its own.
use mipt_informatics.Base.{
  ℕ, zero, suc, ◌-◌, ◌<◌, ◌≤◌, ◌≡◌, ◌≢◌, Bool, true, false, ◌||◌, List, [], ◌∷◌, ◌++◌, length,
}
use mathlib.Core.List.{Mem, Perm}
use mipt_informatics.Base.Int.{pos, negsuc}
use mipt_informatics.Multiplexer.{
  rand_buffer_size, EpollEvent, BufferEvent, Child, reading, writing, exited, failed, Parent,
  polling, moving, between, closing, waiting, ended, died, undefined, System, update,
}
use mipt_informatics.Multiplexer.Events.{
  epoll_in, epoll_hup, has_flag, epoll_event_sort_ascending, inject, Coalesced, filled, unconsumed,
  overflow, coalesce,
}
use mipt_informatics.Multiplexer.Actions.{
  can_write, can_read, served, write_out, source, read_in, fail_write, fail_read, at_eof,
  closes_input, closes_output, close_ends,
}

abbrev pub HasEnded : Child → Type 0
HasEnded reading = ⊥
HasEnded (writing _) = ⊥
HasEnded exited = Unit
HasEnded (failed _) = Unit

abbrev pub HasFailed : Child → Type 0
HasFailed (failed _) = Unit
HasFailed _ = ⊥

-- No byte will ever come to the buffer: the input file, or the pipe and its writer, are at the end.
abbrev pub IsDrained : System → ℕ → Type 0
IsDrained s zero = s.rest ≡ []
IsDrained s (suc i) = (s.from_child i ≡ []) × HasEnded (s.children i)

-- `epoll_wait` reports only descriptors that are polled, and a hang-up without input only at the
-- end of the bytes.
pub record IsReported (child_nr : ℕ) (s : System) (e : EpollEvent) : Type 0 where
  pub read_end :
      e.is_wr ≡ false
      → (0 < e.buffer) × (e.buffer ≤ child_nr) × ((s.buffers e.buffer).rd_open ≡ true)
  pub write_end : e.is_wr ≡ true → (e.buffer < child_nr) × ((s.buffers e.buffer).wr_open ≡ true)
  pub hang_up :
      e.is_wr ≡ false
      → has_flag e.events epoll_in ≡ false
      → has_flag e.events epoll_hup ≡ true
      → IsDrained s e.buffer

-- the program after `epoll_wait`, as far as the loops over `buffer_events`
unfoldable pub polled : Coalesced → Parent
polled (filled bes) = moving bes []
polled unconsumed = died
polled overflow = undefined

abbrev pub is_alive : Parent → Bool
is_alive ended = false
is_alive died = false
is_alive undefined = false
is_alive _ = true

-- No call of the parent's own has gone wrong.
abbrev pub works : Parent → Bool
works died = false
works undefined = false
works _ = true

-- what the handler of SIGCHLD does of a child that has ended: with status 0, or with another
abbrev pub sigchld_handler : Child → Parent → Parent
sigchld_handler (failed _) parent = died
sigchld_handler _ parent = parent

-- The program with `child_nr` children. `child_rand` are the results of `rand` in the children.
module _ (child_nr : ℕ) (child_rand : ℕ → ℕ) where
  pub data Step (s : System) : System → Type 0 where
    -- The call asks for one event at most; `sorted` is what `qsort` makes of the events.
    poll :
        (events sorted : List EpollEvent)
        → s.parent ≡ polling
        → length events ≡ 1
        → ((e : EpollEvent) → Mem e events → IsReported child_nr s e)
        → Perm sorted (inject child_nr s.buffers events)
        → Step s (record s { parent = polled (coalesce child_nr sorted []) })
    -- `qsort` is undefined where its comparison is no order: one event equal to another, which is less
    poll_undefined :
        (events : List EpollEvent) (e_1 e_2 : EpollEvent)
        → s.parent ≡ polling
        → length events ≡ 1
        → ((e : EpollEvent) → Mem e events → IsReported child_nr s e)
        → Mem e_1 (inject child_nr s.buffers events)
        → Mem e_2 (inject child_nr s.buffers events)
        → epoll_event_sort_ascending e_1 e_2 ≡ pos 0
        → epoll_event_sort_ascending e_2 e_1 ≡ negsuc 0
        → Step s (record s { parent = undefined })
    poll_none : s.parent ≡ polling → Step s s
    poll_error : s.parent ≡ polling → Step s (record s { parent = died })
    -- "write out buffer"
    skip_write :
        (be : BufferEvent) (todo done : List BufferEvent)
        → s.parent ≡ moving (be ∷ todo) done
        → can_write (s.buffers be.buffer) be ≡ false
        → Step s (record s { parent = between be todo done })
    write :
        (be : BufferEvent) (todo done : List BufferEvent) (wr_bytes : ℕ)
        → s.parent ≡ moving (be ∷ todo) done
        → can_write (s.buffers be.buffer) be ≡ true
        → wr_bytes ≤ (s.buffers be.buffer).end - (s.buffers be.buffer).begin
        → Step s (write_out child_nr be.buffer wr_bytes (between be todo done) s)
    write_error :
        (be : BufferEvent) (todo done : List BufferEvent)
        → s.parent ≡ moving (be ∷ todo) done
        → can_write (s.buffers be.buffer) be ≡ true
        → Step s (fail_write be.buffer s)
    -- "read in buffer"
    skip_read :
        (be : BufferEvent) (todo done : List BufferEvent)
        → s.parent ≡ between be todo done
        → can_read (s.buffers be.buffer) be ≡ false
        → Step s (record s { parent = served be todo done })
    read :
        (be : BufferEvent) (todo done : List BufferEvent) (bytes left : List ℕ)
        → s.parent ≡ between be todo done
        → can_read (s.buffers be.buffer) be ≡ true
        → source s be.buffer ≡ bytes ++ left
        → bytes ≢ []
        → length bytes ≤ (s.buffers be.buffer).buf_size
        → Step s (read_in be.buffer bytes left (served be todo done) s)
    read_eof :
        (be : BufferEvent) (todo done : List BufferEvent)
        → s.parent ≡ between be todo done
        → can_read (s.buffers be.buffer) be ≡ true
        → IsDrained s be.buffer
        → Step s (read_in be.buffer [] (source s be.buffer) (served (at_eof be) todo done) s)
    read_error :
        (be : BufferEvent) (todo done : List BufferEvent)
        → s.parent ≡ between be todo done
        → can_read (s.buffers be.buffer) be ≡ true
        → Step s (fail_read be.buffer s)
    -- from the loop over the data to the loop that closes, and from there to `epoll_wait`
    all_served :
        (done : List BufferEvent)
        → s.parent ≡ moving [] done
        → Step s (record s { parent = closing done })
    close :
        (be : BufferEvent) (todo : List BufferEvent)
        → s.parent ≡ closing (be ∷ todo)
        → Step s (close_ends child_nr be todo s)
    close_error :
        (be : BufferEvent) (todo : List BufferEvent)
        → s.parent ≡ closing (be ∷ todo)
        → (closes_input be || closes_output (s.buffers be.buffer) be) ≡ true
        → Step s (record s { parent = died })
    all_closed : s.parent ≡ closing [] → Step s (record s { parent = polling })
    -- `waitpid` finds no more children, or fails otherwise
    wait_last :
        s.parent ≡ waiting
        → ((i : ℕ) → i < child_nr → HasEnded (s.children i))
        → Step s (record s { parent = ended })
    wait_error : s.parent ≡ waiting → Step s (record s { parent = died })
    sigchld :
        (i : ℕ)
        → i < child_nr
        → s.handler ≡ true
        → is_alive s.parent ≡ true
        → HasEnded (s.children i)
        → Step s (record s { handler = false; parent = sigchld_handler (s.children i) s.parent })
    -- `child_cat_fd_iter`: its read, and the bytes of its write that the pipe takes at a time
    child_read :
        (i : ℕ) (bytes left : List ℕ)
        → i < child_nr
        → s.children i ≡ reading
        → s.to_child i ≡ bytes ++ left
        → bytes ≢ []
        → length bytes ≤ rand_buffer_size (child_rand i)
        → Step s (record s {
          to_child = update s.to_child i left;
          children = update s.children i (writing bytes);
        })
    child_eof :
        (i : ℕ)
        → i < child_nr
        → s.children i ≡ reading
        → s.to_child i ≡ []
        → (s.buffers i).wr_open ≡ false
        → Step s (record s { children = update s.children i exited })
    child_write :
        (i : ℕ) (bytes left : List ℕ)
        → i < child_nr
        → s.children i ≡ writing (bytes ++ left)
        → Step s (record s {
          from_child = update s.from_child i (s.from_child i ++ bytes);
          children = update s.children i (writing left);
        })
    child_written :
        (i : ℕ)
        → i < child_nr
        → s.children i ≡ writing []
        → Step s (record s { children = update s.children i reading })
    child_read_error :
        (i : ℕ)
        → i < child_nr
        → s.children i ≡ reading
        → Step s (record s { children = update s.children i (failed []) })
    child_write_error :
        (i : ℕ) (left : List ℕ)
        → i < child_nr
        → s.children i ≡ writing left
        → Step s (record s { children = update s.children i (failed left) })

  pub data Reach (s : System) : System → Type 0 where
    here : Reach s s
    next : {t u : System} → Reach s t → Step t u → Reach s u

-- What `main` sets up before its loop, for the results of `rand` and the memory that `malloc` gives.
unfoldable pub start : ℕ → (ℕ → ℕ) → (ℕ → ℕ → ℕ) → List ℕ → System
unfolding rand_buffer_size
start child_nr random memory input = record {
  rest = input;
  buffers = λ i. record {
    rd_open = true;
    wr_open = true;
    buf_size = rand_buffer_size (random i);
    begin = 0;
    end = 0;
    buf = memory i;
  };
  to_child = λ i. [];
  from_child = λ i. [];
  children = λ i. reading;
  output = [];
  handler = true;
  parent = polling;
}
