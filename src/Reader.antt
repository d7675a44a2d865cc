-- ===== src/Reader.antt =====
-- src/transport/stream/fast.rs, `PyFastStreamReader`: the buffered reader behind `read`,
-- `readexactly`, `readuntil` and `readline`. Its operations run on the loop thread, one at a time.
pub mod State
pub mod Flow
pub mod Complete
pub mod Start
pub mod Yield
pub mod Conserve
pub mod Accumulate
pub mod Completion
pub mod Clear
pub mod Fill
pub mod Feed
pub mod Read
pub mod Front
pub mod Settled
pub mod Wake
pub mod Exact
pub mod Calls
