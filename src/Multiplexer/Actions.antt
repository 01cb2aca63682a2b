-- ===== src/Multiplexer/Actions.antt =====
-- What the parent does with one element of `buffer_events`: the write and the read of the first loop
-- over them, and the closing of descriptors in the second.
use mipt_informatics.Base.{
  ◌%◌, ◌^◌, ℕ, zero, suc, ◌+◌, ◌-◌, Bool, true, false, not, ◌&&◌, ◌||◌, List, [], ◌∷◌, ◌++◌, get_or,
  length, ltb, ◌==◌, if◌then◌else◌,
}
use mipt_informatics.Multiplexer.{
  Buffer, BufferEvent, Parent, moving, closing, waiting, died, System, update,
}

-- the bytes at `begin`, `begin + 1` and so on, `amount` of them
unfoldable pub slice : (ℕ → ℕ) → ℕ → ℕ → List ℕ
slice buf begin zero = []
slice buf begin (suc amount) = buf begin ∷ slice buf (suc begin) amount

-- what the buffer holds
unfoldable pub pending : Buffer → List ℕ
pending b = slice b.buf b.begin (b.end - b.begin)

-- the memory when `read` has put the bytes at its beginning
unfoldable pub fill : List ℕ → (ℕ → ℕ) → ℕ → ℕ
fill bytes buf offset = if ltb offset (length bytes) then get_or bytes offset 0 else buf offset

abbrev pub can_write : Buffer → BufferEvent → Bool
can_write b be =
    not (b.begin == b.end) && (be.wr_non_pollable || (be.wr_ready_out && not be.wr_have_errors))

abbrev pub can_read : Buffer → BufferEvent → Bool
can_read b be =
    (b.begin == b.end) && (be.rd_non_pollable || (be.rd_ready_in && not be.rd_have_errors))

-- The element has been served: to the next one, or to the end of the program.
unfoldable pub served : BufferEvent → List BufferEvent → List BufferEvent → Parent
served be todo done =
    if be.rd_have_errors || be.wr_have_errors then died else moving todo (be ∷ done)

-- The bytes go to the output from the last buffer, and else to the child.
unfoldable pub write_out : ℕ → ℕ → ℕ → Parent → System → System
write_out child_nr buf_i wr_bytes parent s =
    let b = s.buffers buf_i in
    let bytes = slice b.buf b.begin wr_bytes in
    record s {
      buffers = update s.buffers buf_i (record b { begin = b.begin + wr_bytes });
      to_child =
          if buf_i == child_nr
          then s.to_child
          else update s.to_child buf_i (s.to_child buf_i ++ bytes);
      output = if buf_i == child_nr then s.output ++ bytes else s.output;
      parent = parent;
    }

-- where buffer `buf_i` reads from: the input file or the previous child
unfoldable pub source : System → ℕ → List ℕ
source s zero = s.rest
source s (suc i) = s.from_child i

-- The source with `left` in it.
unfoldable pub set_source : ℕ → List ℕ → System → System
set_source zero left s = record s { rest = left }
set_source (suc i) left s = record s { from_child = update s.from_child i left }

unfoldable pub read_in : ℕ → List ℕ → List ℕ → Parent → System → System
read_in buf_i bytes left parent s =
    let b = s.buffers buf_i in
    record (set_source buf_i left s) {
      buffers =
          update s.buffers buf_i
            (record b { begin = 0; end = length bytes; buf = fill bytes b.buf });
      parent = parent;
    }

-- A call that fails gives -1: `begin += wr_bytes`, or `begin = 0` and `end = rd_bytes` on a `size_t`. The
-- program dies at the end of the element; behind a failed write it makes no read before, since
-- `begin` and `end` differ.
unfoldable pub fail_write : ℕ → System → System
fail_write buf_i s =
    let b = s.buffers buf_i in
    record s {
      buffers = update s.buffers buf_i (record b { begin = (b.begin + (2 ^ 64 - 1)) % 2 ^ 64 });
      parent = died;
    }

unfoldable pub fail_read : ℕ → System → System
fail_read buf_i s =
    let b = s.buffers buf_i in
    record s {
      buffers = update s.buffers buf_i (record b { begin = 0; end = 2 ^ 64 - 1 });
      parent = died;
    }

-- `if (rd_bytes == 0)`
abbrev pub at_eof : BufferEvent → BufferEvent
at_eof be = record be { rd_ready_in = false; rd_hang_up = true }

-- "close input if we're done with it"
abbrev pub closes_input : BufferEvent → Bool
closes_input be = not be.rd_ready_in && be.rd_hang_up

unfoldable pub rd_open_after : Buffer → BufferEvent → Bool
rd_open_after b be = if closes_input be then false else b.rd_open

-- "close output if we're done with it"
unfoldable pub closes_output : Buffer → BufferEvent → Bool
closes_output b be = not (rd_open_after b be) && (b.begin == b.end)

-- One element in the second loop, when `epoll_ctl` succeeds.
unfoldable pub close_ends : ℕ → BufferEvent → List BufferEvent → System → System
close_ends child_nr be todo s =
    let b = s.buffers be.buffer in
    record s {
      buffers = update s.buffers be.buffer (record b {
        rd_open = rd_open_after b be;
        wr_open = if closes_output b be then false else b.wr_open;
      });
      parent = if closes_output b be && (be.buffer == child_nr) then waiting else closing todo;
    }
