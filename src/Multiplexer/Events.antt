-- ===== src/Multiplexer/Events.antt =====
-- The events: the flags, the comparison that is given to `qsort`, the fake events of the two ends,
-- and the loop that coalesces the events of a buffer into one element of `buffer_events`.
use mipt_informatics.Base.{
  ℕ, ◌+◌, ◌-◌, ◌*◌, ◌/◌, ◌%◌, ◌^◌, Bool, true, false, List, [], ◌∷◌, ◌++◌, Option, none, some, ltb,
  ◌==◌, ◌||◌, length, if◌then◌else◌,
}
use mipt_informatics.Base.Int.{ℤ, pos, negsuc}
use mipt_informatics.Multiplexer.{Buffer, EpollEvent, BufferEvent}

-- the flags of <sys/epoll.h> in Linux, and the program's own
abbrev pub epoll_in : ℕ
epoll_in = 1

abbrev pub epoll_out : ℕ
epoll_out = 4

abbrev pub epoll_err : ℕ
epoll_err = 8

abbrev pub epoll_hup : ℕ
epoll_hup = 16

abbrev pub epoll_fake : ℕ
epoll_fake = 2 ^ 31

-- `mask & flag`, for one flag
abbrev pub has_flag : ℕ → ℕ → Bool
has_flag mask flag = mask / flag % 2 == 1

-- the result, and the new `*arg`
unfoldable pub consume_flag : ℕ → ℕ → Bool × ℕ
consume_flag arg flag = if has_flag arg flag then (true, arg - flag) else (false, arg)

-- The address that `data.ptr` holds: in a buffer `wr_event` stands before `rd_event`.
abbrev pub address : EpollEvent → ℕ
address e = 2 * e.buffer + (if e.is_wr then 0 else 1)

unfoldable pub epoll_event_sort_ascending : EpollEvent → EpollEvent → ℤ
epoll_event_sort_ascending e_1 e_2 =
    if ltb (address e_2) (address e_1)
    then negsuc 0
    else (if ltb (address e_2) (address e_2) then pos 1 else pos 0)

-- The events of `epoll_wait`, with the fake events for the ends that are not closed.
unfoldable pub inject : ℕ → (ℕ → Buffer) → List EpollEvent → List EpollEvent
inject child_nr buffers epoll_events =
    epoll_events
    ++ (if (buffers 0).rd_open
        then record { buffer = 0; is_wr = false; events = epoll_fake } ∷ []
        else [])
    ++ (if (buffers child_nr).wr_open
        then record { buffer = child_nr; is_wr = true; events = epoll_fake } ∷ []
        else [])

-- `memzero`, then the buffer
unfoldable pub fresh : ℕ → BufferEvent
fresh ee_buffer = record {
  buffer = ee_buffer;
  rd_seen = false;
  wr_seen = false;
  rd_ready_in = false;
  wr_ready_out = false;
  rd_hang_up = false;
  rd_have_errors = false;
  wr_have_errors = false;
  rd_non_pollable = false;
  wr_non_pollable = false;
}

-- The three flags that are read of an event for writing, and what is left of its flags.
unfoldable pub store_wr : ℕ → BufferEvent → BufferEvent × ℕ
store_wr events be =
    let (out, events_1) = consume_flag events epoll_out in
    let (err, events_2) = consume_flag events_1 epoll_err in
    let (fake, events_3) = consume_flag events_2 epoll_fake in
    (
      record be {
        wr_seen = true;
        wr_ready_out = out;
        wr_have_errors = err;
        wr_non_pollable = fake;
      },
      events_3,
    )

unfoldable pub store_rd : ℕ → BufferEvent → BufferEvent × ℕ
store_rd events be =
    let (ready, events_1) = consume_flag events epoll_in in
    let (hup, events_2) = consume_flag events_1 epoll_hup in
    let (err, events_3) = consume_flag events_2 epoll_err in
    let (fake, events_4) = consume_flag events_3 epoll_fake in
    (
      record be {
        rd_seen = true;
        rd_ready_in = ready;
        rd_hang_up = hup;
        rd_have_errors = err;
        rd_non_pollable = fake;
      },
      events_4,
    )

-- "store the event": none if a flag is left
unfoldable pub store : EpollEvent → BufferEvent → Option BufferEvent
store ee be =
    let (stored, left) = (if ee.is_wr then store_wr ee.events be else store_rd ee.events be) in
    if left == 0 then some stored else none

-- The array before `be_last`, the last first, with the element that `be_last` has for the event.
unfoldable pub advance : ℕ → List BufferEvent → BufferEvent × List BufferEvent
advance ee_buffer [] = (fresh ee_buffer, [])
advance ee_buffer (be_last ∷ before) =
    if be_last.buffer == ee_buffer then (be_last, before) else (fresh ee_buffer, be_last ∷ before)

-- The element for the event is one of the `child_nr` elements of `buffer_events`.
unfoldable pub has_room : ℕ → ℕ → List BufferEvent → Bool
has_room child_nr ee_buffer [] = ltb 0 child_nr
has_room child_nr ee_buffer (be_last ∷ before) =
    be_last.buffer == ee_buffer || ltb (length (be_last ∷ before)) child_nr

-- The elements, the last first; or a flag is left, for which the program dies; or an element is
-- written behind the end of the array.
pub data Coalesced : Type 0 where
  filled : List BufferEvent → Coalesced
  unconsumed : Coalesced
  overflow : Coalesced

-- The loop, over the events that are left; the array has its last element first.
unfoldable pub coalesce : ℕ → List EpollEvent → List BufferEvent → Coalesced
coalesce child_nr [] bes = filled bes
coalesce child_nr (ee ∷ ees) bes = elim (has_room child_nr ee.buffer bes) [
  | false ↦ overflow
  | true ↦ elim (store ee (advance ee.buffer bes).0) [
    | none ↦ unconsumed
    | some be ↦ coalesce child_nr ees (be ∷ (advance ee.buffer bes).1)
  ]
]
