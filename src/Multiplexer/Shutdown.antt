-- ===== src/Multiplexer/Shutdown.antt =====
-- The end of the bytes: how it goes from the input file through the buffers and the children to the
-- output, and what the parent has done when it returns.
pub mod Events
pub mod Drained
pub mod Invariant
pub mod Preserved
pub mod Complete
pub mod Hang
