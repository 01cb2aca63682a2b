-- ===== src/Multiplexer/Comparison.antt =====
-- The comparison that the events are sorted by.
use mipt_informatics.Base.{◌<◌, ◌≡◌, arith}
use mipt_informatics.Base.Int.{pos, negsuc}
use mipt_informatics.Multiplexer.{EpollEvent}
use mipt_informatics.Multiplexer.Events.{address, epoll_event_sort_ascending}

-- Of two events the one at the lower address counts as equal to the other when it is the first
-- argument, and the other as less when it is the first: the comparison is never positive, and it is
-- no order.
pub sort_inconsistent :
    (e_1 e_2 : EpollEvent)
    → address e_1 < address e_2
    → (epoll_event_sort_ascending e_1 e_2 ≡ pos 0) × (epoll_event_sort_ascending e_2 e_1 ≡ negsuc 0)
unfolding epoll_event_sort_ascending
sort_inconsistent e_1 e_2 lt = (ground arith, ground arith)
