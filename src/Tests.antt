-- ===== src/Tests.antt =====
-- The theorems at concrete inputs.
mod Naive
mod Buffers
mod Search
mod Reading
mod Pools
mod Queue
mod Clock
mod Drains
mod Flags
mod Broadcast
mod Socket
