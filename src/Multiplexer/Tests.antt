-- ===== src/Multiplexer/Tests.antt =====
-- The theorems about the parent at runs with two children, and with one.
use mipt_informatics.Base.{◌⊎◌, ℕ, ◌≡◌, refl, true, [], ◌∷◌, ◌++◌}
use mathlib.Core.List.Perm
use mipt_informatics.Multiplexer.{rand_buffer_size, Buffer, BufferEvent, update}
use mipt_informatics.Multiplexer.Events.{
  consume_flag, inject, fresh, store_wr, store_rd, store, advance, has_room, overflow, unconsumed,
  coalesce,
}
use mipt_informatics.Multiplexer.Actions.{
  slice, pending, fill, served, write_out, source, set_source, read_in, rd_open_after,
  closes_output, close_ends,
}
use mipt_informatics.Multiplexer.Steps.{HasFailed, polled, start}
use mipt_informatics.Multiplexer.Flow.{whole}
use mipt_informatics.Multiplexer.Flow.Conservation.{reach_conserves}
use mipt_informatics.Multiplexer.Flow.Bounds.{IsWithin, Reach-IsWithin}
use mipt_informatics.Multiplexer.Shutdown.Complete.{return_complete}
use mipt_informatics.Multiplexer.Overflow.{buffer_events_overflow}
use mipt_informatics.Multiplexer.Runs.{
  two_children, wr_event, byte_read, end_read, returned, half_written,
}

half_written_bytes :
    (half_written.0.output ≡ 7 ∷ []) × (pending (half_written.0.buffers 2) ≡ 8 ∷ [])
unfolding start inject has_room coalesce store store_wr store_rd consume_flag advance fresh polled
    served write_out source set_source read_in slice pending fill rd_open_after closes_output
    close_ends update rand_buffer_size
half_written_bytes = (refl, refl)

abbrev hung_event : BufferEvent
unfolding fresh
hung_event = record (fresh 2) {
  rd_seen = true;
  wr_seen = true;
  rd_hang_up = true;
  wr_non_pollable = true;
}

return_complete_example : returned.0.output ≡ 7 ∷ 8 ∷ []
unfolding start inject has_room coalesce store store_wr store_rd consume_flag advance fresh polled
    served write_out source set_source read_in slice pending fill rd_open_after closes_output
    close_ends update rand_buffer_size
return_complete_example =
    return_complete 2 (λ i. 0) (λ i. 0) (λ i j. 0) (7 ∷ 8 ∷ []) returned.1 refl
      (two_children (λ i. ¬ HasFailed (returned.0.children i)) (λ h. h) (λ h. h))

reach_conserves_example : end_read.0.output ++ whole end_read.0 2 ≡ 7 ∷ 8 ∷ []
unfolding start inject has_room coalesce store store_wr store_rd consume_flag advance fresh polled
    served write_out source set_source read_in slice pending fill rd_open_after closes_output
    close_ends update rand_buffer_size
reach_conserves_example =
    reach_conserves 2 (λ i. 0) (λ i. 0) (λ i j. 0) (7 ∷ 8 ∷ []) end_read.1 refl

Reach-IsWithin_example : IsWithin (byte_read.0.buffers 0)
unfolding start inject has_room coalesce store store_wr store_rd consume_flag advance fresh polled
    served write_out source set_source read_in slice pending fill rd_open_after closes_output
    close_ends update rand_buffer_size
Reach-IsWithin_example =
    Reach-IsWithin 2 (λ i. 0) (λ i. 0) (λ i j. 0) (7 ∷ 8 ∷ []) byte_read.1 refl 0

abbrev open_buffers : ℕ → Buffer
unfolding start rand_buffer_size
open_buffers = (start 1 (λ i. 0) (λ i j. 0) []).buffers

overflow_run : coalesce 1 (inject 1 open_buffers (wr_event 0 ∷ [])) [] ≡ overflow
unfolding start inject has_room coalesce store store_wr store_rd consume_flag advance fresh
overflow_run = refl

buffer_events_overflow_example :
    (coalesce 1 (inject 1 open_buffers (wr_event 0 ∷ [])) [] ≡ overflow)
    ⊎ (coalesce 1 (inject 1 open_buffers (wr_event 0 ∷ [])) [] ≡ unconsumed)
unfolding start
buffer_events_overflow_example =
    buffer_events_overflow open_buffers (wr_event 0 ∷ []) (inject 1 open_buffers (wr_event 0 ∷ []))
      Perm.rfl refl refl
