-- ===== src/Memory.antt =====
-- Library/Memory: the caching allocator for devices and the bookkeeping of allocations.
pub mod Config
pub mod History
pub mod Snapshot
pub mod Stats
pub mod Reporter
pub mod Allocator
pub mod Tests
