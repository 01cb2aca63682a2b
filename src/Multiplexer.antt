-- ===== src/Multiplexer.antt =====
-- course2-1/seminar8/task.c: a parent that carries a file through a chain of child processes, each
-- of which copies its standard input to its standard output, with a buffer before every child and
-- one before the output. Here are its data: the buffers, the events of `epoll_wait`, the places
-- where the parent and a child stand between two system calls, and the contents of the pipes.
pub mod Events
pub mod Actions
pub mod Steps
pub mod Working
pub mod Flow
pub mod Shutdown
pub mod Overflow
pub mod Comparison
pub mod Runs
pub mod Tests
use mipt_informatics.Base.{ℕ, ◌+◌, ◌-◌, ◌*◌, ◌%◌, Bool, List, ◌==◌, if◌then◌else◌}

abbrev pub buf_min : ℕ
buf_min = 4 * 1024 + 1

abbrev pub buf_max : ℕ
buf_max = 16 * 1024

-- the result for a result of `rand`
unfoldable pub rand_buffer_size : ℕ → ℕ
rand_buffer_size random = buf_min + random % (buf_max - buf_min + 1)

-- A descriptor is open, or it is -1 in the source. The memory of `buf` is a function of the offset.
pub record Buffer : Type 0 where
  pub rd_open : Bool
  pub wr_open : Bool
  pub buf_size : ℕ
  pub begin : ℕ
  pub end : ℕ
  pub buf : ℕ → ℕ

-- An element of `epoll_events`. Its user data point to `wr_event` or `rd_event` of a buffer, given
-- here as the index of the buffer; `events` are the flags.
pub record EpollEvent : Type 0 where
  pub buffer : ℕ
  pub is_wr : Bool
  pub events : ℕ

pub record BufferEvent : Type 0 where
  pub buffer : ℕ
  pub rd_seen : Bool
  pub wr_seen : Bool
  pub rd_ready_in : Bool
  pub wr_ready_out : Bool
  pub rd_hang_up : Bool
  pub rd_have_errors : Bool
  pub wr_have_errors : Bool
  pub rd_non_pollable : Bool
  pub wr_non_pollable : Bool

-- A child: before its `read`, inside its `write` with the bytes that the pipe has not taken yet, or
-- at an end, with status 0 or by an error with the bytes that it still had.
pub data Child : Type 0 where
  reading : Child
  writing : List ℕ → Child
  exited : Child
  failed : List ℕ → Child

-- The parent: in `epoll_wait`; in the loop over the data, before the write of the first element of
-- the first list or between its write and its read; in the loop that closes; in the loop
-- of `waitpid`; at an end, by `return 0` or by `kill_all_and_die`; or behind undefined behaviour of its
-- own, of which nothing is said. The first list of `moving` starts from the tail of `buffer_events`, the second holds what is done, from the head.
pub data Parent : Type 0 where
  polling : Parent
  moving : List BufferEvent → List BufferEvent → Parent
  between : BufferEvent → List BufferEvent → List BufferEvent → Parent
  closing : List BufferEvent → Parent
  waiting : Parent
  ended : Parent
  died : Parent
  undefined : Parent

-- The processes with what the kernel keeps for them: `rest` is what has not been read of the input
-- file, `to_child` and `from_child` are the bytes in the pipes of each child, `handler` says whether
-- the handler of SIGCHLD is still installed (SA_RESETHAND removes it when it runs).
pub record System : Type 0 where
  pub rest : List ℕ
  pub buffers : ℕ → Buffer
  pub to_child : ℕ → List ℕ
  pub from_child : ℕ → List ℕ
  pub children : ℕ → Child
  pub output : List ℕ
  pub handler : Bool
  pub parent : Parent

-- the family `f` with `v` in the place of its member `i`
unfoldable pub update {ℓ} : {A : Type ℓ} → (ℕ → A) → ℕ → A → ℕ → A
update f i v j = if j == i then v else f j
